-- ===== src/Blockfile/Frontmatter.antt =====
-- `split_frontmatter` of crates/mkb-core/src/blockfile.rs. A byte range of the text between two
-- line boundaries is the concatenation of the lines between them.
use mkb.Base.{
  ℕ, Bool, ◌||◌, List, [], ◌∷◌, ◌++◌, Option, none, some, ◌==◌, if◌then◌else◌, unwrap_or,
}
use mkb.Text.Chars.{Str, codes, newline, carriage_return}
use mkb.Text.Strings.{str_eq, strip_prefix, starts_with, split_once, concat}
use mkb.Text.Trim.{trim_end_matches}
use mkb.Text.Lines.{split_inclusive}

abbrev pub byte_order_mark : ℕ
byte_order_mark = 0xfeff

abbrev pub fence : Str
fence = codes "---"

abbrev pub is_eol : ℕ → Bool
is_eol c = c == newline || c == carriage_return

-- The lines up to the one that is exactly `---`, and the text behind it.
unfoldable pub find_close : List Str → Option (Str × Str)
find_close [] = none
find_close (line ∷ rest) =
    let later = find_close rest in
    if str_eq (trim_end_matches is_eol line) fence
    then some ([], concat rest)
    else elim later [ none ↦ none | some (fm, body) ↦ some (line ++ fm, body) ]

-- `&s[after_open..]`, behind the first newline
unfoldable pub after_newline : Str → Str
after_newline s = elim (split_once newline s) [ none ↦ [] | some (first, rest) ↦ rest ]

-- One line end in front of the body goes.
unfoldable pub strip_blank_line : Str → Str
strip_blank_line body = elim (strip_prefix (codes "\n") body) [
  | some b ↦ b
  | none ↦ unwrap_or (strip_prefix (codes "\r\n") body) body
]

unfoldable pub split_frontmatter : Str → Option Str × Str
unfolding find_close after_newline strip_blank_line
split_frontmatter source =
    let s = unwrap_or (strip_prefix (byte_order_mark ∷ []) source) source in
    if starts_with (codes "---\n") s || starts_with (codes "---\r\n") s
    then (elim (find_close (split_inclusive (after_newline s))) [
      | none ↦ (none, source)
      | some (fm, body) ↦ (some fm, strip_blank_line body)
    ])
    else (none, source)
