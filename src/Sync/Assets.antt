-- ===== src/Sync/Assets.antt =====
-- The assets of crates/mkb-core/src/sync.rs: files under `assets/`, which are not indexed.
pub mod Decimal
pub mod Unique
use mkb.Base.{
  ℕ, zero, suc, ◌+◌, ◌/◌, ◌%◌, Bool, true, false, not, List, [], ◌∷◌, ◌++◌, map, Option, none, some,
  Result, ok, err, ltb, if◌then◌else◌, any, filter, length,
}
use mkb.Text.Chars.{Str, codes}
use mkb.Text.Strings.{str_eq, rsplit_once, starts_with, contains}
use mkb.Block.{Block}
use mkb.Paths.{PathError, safe_relative_path, sanitize_asset_filename}
use mkb.Sync.Host.{IndexError}
use mkb.Vault.{Vault, blocks, sort_keys}

-- What is in a directory: files and directories with their names and what is in them. A name that
-- is no text is not listed, and a directory that is not there or cannot be read has no entries.
pub data Entries : Type 0 where
  end : Entries
  file : Str → Entries → Entries
  dir : Str → Entries → Entries → Entries

abbrev pub entry_names : Entries → List Str
entry_names end = []
entry_names (file name rest) = name ∷ entry_names rest
entry_names (dir name inner rest) = name ∷ entry_names rest

unfoldable pub collect_files_rel : Str → Entries → List Str
collect_files_rel rel_prefix end = []
collect_files_rel rel_prefix (file name rest) =
    (rel_prefix ++ b'/' ∷ name) ∷ collect_files_rel rel_prefix rest
collect_files_rel rel_prefix (dir name inner rest) =
    collect_files_rel (rel_prefix ++ b'/' ∷ name) inner ++ collect_files_rel rel_prefix rest

-- The file system below `assets/`. An operation changes it whether it succeeds or not.
pub record AssetDir : Type 1 where
  pub Files : Type 0
  pub create_dir_all : Files → Result IndexError Unit × Files
  pub entries : Files → Entries
  pub write : Str → Str → Files → Result IndexError Unit × Files
  -- removes the file if it exists
  pub remove_file : Str → Files → Result IndexError Unit × Files

-- `format!("{n}")`, in front of a text; the fuel is a number that is not less.
unfoldable pub decimal_from : ℕ → ℕ → Str → Str
decimal_from zero n rest = (48 + n % 10) ∷ rest
decimal_from (suc fuel) n rest =
    let more = decimal_from fuel (n / 10) ((48 + n % 10) ∷ rest) in
    if ltb n 10 then (48 + n) ∷ rest else more

unfoldable pub decimal : ℕ → Str
unfolding decimal_from
decimal n = decimal_from n n []

-- The `n`-th name that is tried.
unfoldable pub numbered : Str → Option Str → ℕ → Str
unfolding decimal
numbered stem none n = stem ++ b'-' ∷ decimal n
numbered stem (some ext) n = stem ++ b'-' ∷ (decimal n ++ b'.' ∷ ext)

abbrev pub exists : List Str → Str → Bool
exists names name = any (str_eq name) names

-- The loop, with the name that is tried next. The number is a `u32` in the source and has no bound
-- here; `Path::exists` is membership in the entries of the directory.
unfoldable pub unique_from : List Str → (ℕ → Str) → ℕ → ℕ → Str → Option Str
unique_from names make zero n name = if exists names name then none else some name
unique_from names make (suc fuel) n name =
    let next = unique_from names make fuel (n + 1) (make (n + 1)) in
    if exists names name then next else some name

abbrev pub stem_of : Str → Str × Option Str
stem_of safe = elim (rsplit_once b'.' safe) [ none ↦ (safe, none) | some (s, e) ↦ (s, some e) ]

unfoldable pub unique_name : List Str → Str → Option Str
unfolding unique_from numbered
unique_name names safe =
    let (stem, ext) = stem_of safe in
    unique_from names (numbered stem ext) (suc (length names)) 0 safe

pub data AssetError : Type 0 where
  io : IndexError → AssetError
  bad_path : PathError → AssetError
  not_an_asset : Str → AssetError
  -- The loop for a name never comes here.
  no_name : AssetError

module _ (d : AssetDir) where
  abbrev wrote : Str → Result IndexError Unit × d.Files → Result AssetError Str × d.Files
  wrote name (ok u, fs) = (ok (codes "assets/" ++ name), fs)
  wrote name (err x, fs) = (err (io x), fs)

  abbrev write_new : Option Str → Str → d.Files → Result AssetError Str × d.Files
  write_new none bytes fs = (err no_name, fs)
  write_new (some name) bytes fs = wrote name (d.write name bytes fs)

  unfoldable pub add_asset : Str → Str → d.Files → Result AssetError Str × d.Files
  unfolding unique_name
  add_asset suggested_name bytes fs =
      let (made, fs') = d.create_dir_all fs in
      elim made [
        | err x ↦ (err (io x), fs')
        | ok u ↦
            write_new
              (unique_name (entry_names (d.entries fs')) (sanitize_asset_filename suggested_name))
              bytes fs'
      ]

  unfoldable pub orphan_assets : Vault → d.Files → List Str
  unfolding collect_files_rel
  orphan_assets v fs = sort_keys (
      filter (λ rel. not (any (λ (b : Block). contains rel b.body) (blocks v)))
        (collect_files_rel (codes "assets") (d.entries fs)))

  abbrev removed : Result IndexError Unit × d.Files → Result AssetError Unit × d.Files
  removed (ok u, fs) = (ok u, fs)
  removed (err x, fs) = (err (io x), fs)

  unfoldable pub remove_asset : Str → d.Files → Result AssetError Unit × d.Files
  remove_asset rel fs = elim (safe_relative_path rel) [
    | err x ↦ (err (bad_path x), fs)
    | ok clean ↦
        if starts_with (codes "assets/") clean
        then removed (d.remove_file clean fs)
        else (err (not_an_asset rel), fs)
  ]
