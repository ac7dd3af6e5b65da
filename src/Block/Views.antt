-- ===== src/Block/Views.antt =====
-- The derived views of a block (`impl Block` of crates/mkb-core/src/block.rs).
use mkb.Base.{
  ℕ, ◌-◌, not, ◌||◌, List, [], ◌∷◌, ◌++◌, map, Option, none, some, ◌==◌, ltb, if◌then◌else◌, take,
  drop, length, filter, any,
}
use mkb.Text.Chars.{Str, codes, newline, space, is_whitespace}
use mkb.Text.Strings.{str_eq, eq_ignore_ascii_case, is_empty, join}
use mkb.Text.Trim.{trim, trim_start_matches}
use mkb.Text.Lines.{lines}
use mkb.Block.{Block}
use mkb.Blockfile.Write.{Prop}
use mkb.Link.{Reference, RefMatch, label, extract_references}

abbrev pub hash : ℕ
hash = b'#'

abbrev pub ellipsis : ℕ
ellipsis = 0x2026

unfoldable pub strip_inline_markup : Str → Str
strip_inline_markup = filter (λ c. not (c == b'*' || c == b'_' || c == b'`'))

unfoldable pub truncate_chars : Str → ℕ → Str
truncate_chars s n = if ltb n (length s) then take n s ++ ellipsis ∷ [] else s

-- The first line of which something is left.
unfoldable pub first_line : List Str → Option Str
first_line [] = none
first_line (line ∷ rest) =
    let t = trim (trim_start_matches (λ c. c == hash) (trim line)) in
    if is_empty t then first_line rest else some (truncate_chars (strip_inline_markup t) 80)

unfoldable pub untitled : Block → Str
unfolding first_line
untitled b = elim (first_line (lines b.body)) [ none ↦ b.id.as_str | some t ↦ t ]

unfoldable pub titled : Option Str → Str → Str
titled none other = other
titled (some t) other = if is_empty (trim t) then other else trim t

unfoldable pub display_title : Block → Str
unfolding untitled titled
display_title b = titled b.title (untitled b)

unfoldable pub find_prop : Str → List Prop → Option Str
find_prop key [] = none
find_prop key ((k, v) ∷ rest) = if eq_ignore_ascii_case k key then some v else find_prop key rest

unfoldable pub prop : Block → Str → Option Str
unfolding find_prop
prop b key = find_prop key b.props

unfoldable pub push_new : List Str → List Str → List Str
push_new seen [] = seen
push_new seen (t ∷ ts) = push_new (if any (str_eq t) seen then seen else seen ++ t ∷ []) ts

unfoldable pub tag_names : Block → List Str
unfolding push_new
tag_names b = push_new [] b.tags

-- The text between the directives, with the labels of the directives; the number is the cursor.
unfoldable pub directives_from : Str → ℕ → List Reference → Str
directives_from body cursor [] = drop cursor body
directives_from body cursor (r ∷ rs) =
    take (r.start - cursor) (drop cursor body) ++ (label r ++ directives_from body r.end rs)

unfoldable pub push_props : Str → List Prop → Str
push_props out [] = out
push_props out ((k, v) ∷ rest) = push_props (out ++ (newline ∷ (k ++ (space ∷ v)))) rest

unfoldable pub with_title : Option Str → Str → Str
with_title none plain = plain
with_title (some t) plain = if is_empty (trim t) then plain else trim t ++ (codes "\n\n" ++ plain)

-- `content.split_whitespace()`, by the words and the gaps; the first argument is the word so far.
unfoldable pub words_from : Str → Str → List Str
words_from word [] = if is_empty word then [] else word ∷ []
words_from word (c ∷ s) =
    let inside = words_from (word ++ c ∷ []) s in
    let next = words_from [] s in
    if is_whitespace c then (if is_empty word then next else word ∷ next) else inside

unfoldable pub snippet : Str → ℕ → Str
unfolding words_from truncate_chars
snippet content max = truncate_chars (join (space ∷ []) (words_from [] content)) max

module _ (ref_captures : Str → List RefMatch) where
  unfoldable pub references : Block → List Reference
  references b = extract_references ref_captures b.body

  unfoldable pub child_targets : Block → List Str
  unfolding references
  child_targets b = map (λ (r : Reference). r.target) (filter (λ r. r.embed) (references b))

  unfoldable pub reference_targets : Block → List Str
  unfolding references
  reference_targets b = map (λ (r : Reference). r.target) (filter (λ r. not r.embed) (references b))

  unfoldable pub directives_to_text : Str → Str
  unfolding directives_from
  directives_to_text body = directives_from body 0 (extract_references ref_captures body)

  unfoldable pub contextual_text : Block → Str
  unfolding directives_to_text with_title push_props
  contextual_text b = push_props (with_title b.title (directives_to_text b.body)) b.props
