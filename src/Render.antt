-- ===== src/Render.antt =====
-- crates/mkb-core/src/render.rs: the indentation of what is put in place of a directive.
pub mod Links
pub mod Cards
pub mod Unvisited
pub mod Ends
pub mod Flat
pub mod Follow
pub mod Targets
use mkb.Base.{ℕ, List, [], ◌∷◌, ◌++◌, none, some, ◌==◌, if◌then◌else◌, length, replicate}
use mkb.Text.Chars.{Str, newline}
use mkb.Text.Strings.{rsplit_once, is_empty}
use mkb.Text.Lines.{split}

unfoldable pub current_line_width : Str → ℕ
current_line_width s = elim (rsplit_once newline s) [ none ↦ length s | some (a, b) ↦ length b ]

-- The lines behind the first one.
unfoldable pub indented : Str → List Str → Str
indented pad [] = []
indented pad (line ∷ rest) =
    newline ∷ ((if is_empty line then line else pad ++ line) ++ indented pad rest)

abbrev reindented : Str → List Str → Str
reindented pad [] = []
reindented pad (line ∷ rest) = line ++ indented pad rest

unfoldable pub reindent_continuation : Str → ℕ → Str
unfolding indented
reindent_continuation text col =
    if col == 0 then text else reindented (replicate col b' ') (split newline text)
