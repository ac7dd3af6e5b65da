-- ===== src/Paths.antt =====
-- Paths that a caller supplies: `safe_relative_path` and `sanitize_asset_filename` of
-- crates/mkb-core/src/vault.rs.
pub mod Confined
pub mod FileName
use mkb.Base.{
  ℕ, Bool, true, false, not, ◌&&◌, ◌||◌, List, [], ◌∷◌, ◌++◌, map, Option, none, some, Result, ok,
  err, ◌>>=◌, ◌==◌, if◌then◌else◌, any,
}
use mkb.Text.Chars.{Str, codes, space, is_ascii_alphanumeric}
use mkb.Text.Strings.{str_eq, starts_with, contains_char, is_empty, join, rsplit_once}
use mkb.Text.Trim.{trim, trim_matches}
use mkb.Text.Lines.{split}

abbrev pub slash : ℕ
slash = b'/'

abbrev pub dot : Str
dot = codes "."

abbrev pub dot_dot : Str
dot_dot = codes ".."

pub data PathError : Type 0 where
  empty_path : PathError
  absolute traversal vault_root : Str → PathError
  invalid_component : Str → Str → PathError

-- `rel.replace('\\', "/")`
unfoldable pub forward_slashes : Str → Str
forward_slashes = map (λ c. if c == b'\\' then slash else c)

-- The loop over the components.
unfoldable pub components : Str → List Str → Result PathError (List Str)
components rel [] = ok []
components rel (c ∷ cs) =
    let rest = components rel cs in
    if is_empty c || str_eq c dot
    then rest
    else if str_eq c dot_dot
    then err (traversal rel)
    else if contains_char b':' c
    then err (invalid_component c rel)
    else (rest >>= λ clean. ok (c ∷ clean))

unfoldable pub joined : Str → List Str → Result PathError Str
joined rel [] = err (vault_root rel)
joined rel (c ∷ cs) = ok (join (slash ∷ []) (c ∷ cs))

-- `is_absolute` of a Unix path is the test that it begins with a slash.
unfoldable pub safe_relative_path : Str → Result PathError Str
unfolding components joined
safe_relative_path rel =
    let trimmed = trim (forward_slashes rel) in
    if is_empty trimmed
    then err empty_path
    else if starts_with (slash ∷ []) trimmed
    then err (absolute rel)
    else (components rel (split slash trimmed) >>= joined rel)

-- A character that is kept in a filename.
unfoldable pub is_name_char : ℕ → Bool
is_name_char c = is_ascii_alphanumeric c || c == b'.' || c == b'_' || c == b'-'

abbrev pub is_edge : ℕ → Bool
is_edge c = c == b'.' || c == b'-' || c == space

-- The closure `clean`.
unfoldable pub clean_name : Str → Str
clean_name s = trim_matches is_edge (map (λ c. if is_name_char c then c else b'-') s)

-- `rsplit('/').next()`
unfoldable pub last_component : Str → Str
last_component s = elim (rsplit_once slash s) [ none ↦ s | some (before, after) ↦ after ]

unfoldable pub stem_and_ext : Str → Str × Option Str
stem_and_ext base = elim (rsplit_once b'.' base) [
  | none ↦ (base, none)
  | some (s, e) ↦ if not (is_empty s) && not (is_empty e) then (s, some e) else (base, none)
]

unfoldable pub with_ext : Str → Option Str → Str
with_ext stem none = stem
with_ext stem (some e) =
    let ext = clean_name e in if is_empty ext then stem else stem ++ (b'.' ∷ ext)

unfoldable pub sanitize_asset_filename : Str → Str
unfolding with_ext stem_and_ext last_component
sanitize_asset_filename name =
    let base = trim (last_component (forward_slashes name)) in
    let (s, ext) = stem_and_ext base in
    let cleaned = clean_name s in with_ext (if is_empty cleaned then codes "file" else cleaned) ext
