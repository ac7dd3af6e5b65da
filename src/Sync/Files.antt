-- ===== src/Sync/Files.antt =====
-- What is read from the directory `blocks/`: `read_block_files` of crates/mkb-core/src/vault.rs and
-- `conflict_file_names` of crates/mkb-core/src/sync.rs. A name that is no text is not listed.
use mkb.Base.{List, [], ◌∷◌, map, Option, none, some, Result, ok, err, if◌then◌else◌, filter}
use mkb.Text.Chars.{Str, codes}
use mkb.Text.Strings.{str_eq, rsplit_once, is_empty}
use mkb.Id
use mkb.Id.{BlockId}
use mkb.Link.{filter_map}
use mkb.Platform.{Platform}
use mkb.Conflict.{is_conflict_path}
use mkb.Vault.{str_leb, sort_keys}
use mkb.Sync.Host.{Host, IndexError}

-- `Path::file_stem` of a name whose `Path::extension` is `md`; a dot in front starts no extension.
unfoldable pub md_stem : Str → Option Str
md_stem name = elim (rsplit_once b'.' name) [
  | none ↦ none
  | some (stem, ext) ↦
      if is_empty stem then none else if str_eq ext (codes "md") then some stem else none
]

abbrev pub parsed_id : Str → Option BlockId
parsed_id stem = elim (Id.parse stem) [ ok id ↦ some id | err e ↦ none ]

-- An entry is a block file if its stem is an id and it can be read.
unfoldable pub block_file : Str × Option Str → Option (BlockId × Str)
unfolding md_stem
block_file (name, none) = none
block_file (name, some source) = elim (md_stem name) [
  | none ↦ none
  | some stem ↦ elim (parsed_id stem) [ none ↦ none | some id ↦ some (id, source) ]
]

unfoldable pub insert_file : BlockId × Str → List (BlockId × Str) → List (BlockId × Str)
insert_file f [] = f ∷ []
insert_file f (g ∷ gs) = if str_leb f.0.as_str g.0.as_str then f ∷ g ∷ gs else g ∷ insert_file f gs

-- By id; files with one id keep their order.
unfoldable pub sort_files : List (BlockId × Str) → List (BlockId × Str)
unfolding insert_file
sort_files [] = []
sort_files (f ∷ fs) = insert_file f (sort_files fs)

abbrev files_of : Option (List (Str × Option Str)) → List (BlockId × Str)
files_of none = []
files_of (some entries) = sort_files (filter_map block_file entries)

abbrev names_of : Option (List (Str × Option Str)) → List Str
names_of none = []
names_of (some entries) = map (λ (e : Str × Option Str). e.0) entries

module _ (pf : Platform) (h : Host) where
  unfoldable pub read_block_files : h.Files → Result IndexError (List (BlockId × Str))
  unfolding sort_files block_file
  read_block_files files = elim (h.list_dir files) [ err x ↦ err x | ok es ↦ ok (files_of es) ]

  unfoldable pub conflict_file_names : h.Files → List Str
  conflict_file_names files = elim (h.list_dir files) [
    | err x ↦ []
    | ok es ↦ sort_keys (filter (is_conflict_path pf) (names_of es))
  ]
