-- ===== src/Index/Group/Blank.antt =====
-- Which values of an axis are no path: those of white space and slashes.
use mkb.Base.{
  ℕ, Bool, not, ◌&&◌, ◌||◌, ◌==◌, ◌≡◌, refl, ap, ◌∙◌, List, [], ◌∷◌, map, arith, all, filter,
  Bool-cases, inl, inr, none, some,
}
use mkb.Text.Chars.{Str, is_whitespace}
use mkb.Text.Strings.{str_eq, is_empty}
use mkb.Text.Trim.{trim, trim_start, trim_end, trim_start_matches, trim_end_matches, keep_end}
use mkb.Text.Lines.{split, join_first}
use mkb.Block.{Block}
use mkb.Blockfile.Write.{Prop, is_nil}
use mkb.Map
use mkb.Platform.{Platform}
use mkb.Index.Group.{GroupAxis, tags, property, group_segments, values_of, placements}

-- A text that has nothing but white space and slashes.
abbrev pub is_blank_path : Str → Bool
is_blank_path value = all (λ c. c == b'/' || is_whitespace c) value

-- What the axis has to say on a block: its tags, or the first property with the key.
abbrev pub said : GroupAxis → Block → List Str
said tags b = b.tags
said (property key) b = elim (Map.get key b.props) [ none ↦ [] | some v ↦ v ∷ [] ]

module _ (p : ℕ → Bool) where
  is_empty-keep_end : (c : ℕ) (s : Str) → is_empty (keep_end p c s) ≡ (p c && is_empty s)
  unfolding keep_end
  is_empty-keep_end c [] = ground arith
  is_empty-keep_end c (d ∷ s) = ground arith

  is_empty-trim_end_matches : (s : Str) → is_empty (trim_end_matches p s) ≡ all p s
  unfolding trim_end_matches
  is_empty-trim_end_matches [] = refl
  is_empty-trim_end_matches (c ∷ s) =
      is_empty-keep_end c (trim_end_matches p s) ∙ ap (λ x. p c && x) (is_empty-trim_end_matches s)

  all-trim_start_matches : (s : Str) → all p (trim_start_matches p s) ≡ all p s
  unfolding trim_start_matches
  all-trim_start_matches [] = refl
  all-trim_start_matches (c ∷ s) = ground (arith, all-trim_start_matches s)

  all-join_first : (c : ℕ) (ls : List Str) → all (all p) (join_first c ls) ≡ (p c && all (all p) ls)
  all-join_first c [] = ground arith
  all-join_first c (l ∷ ls) = ground arith

  all-split : (d : ℕ) (s : Str) → all (all p) (split d s) ≡ all (λ c. c == d || p c) s
  unfolding split
  all-split d [] = refl
  all-split d (c ∷ s) = elim (Bool-cases (c == d)) [
    | inl e ↦ rw (e) (all-split d s)
    | inr n ↦ rw (n) (all-join_first c (split d s) ∙ ap (λ x. p c && x) (all-split d s))
  ]

is_empty-trim : (s : Str) → is_empty (trim s) ≡ all is_whitespace s
unfolding trim trim_start trim_end
is_empty-trim s =
    is_empty-trim_end_matches is_whitespace (trim_start_matches is_whitespace s)
    ∙ all-trim_start_matches is_whitespace s

is_nil-trimmed :
    (ls : List Str)
    → is_nil (filter (λ s. not (is_empty s)) (map trim ls)) ≡ all (all is_whitespace) ls
is_nil-trimmed [] = refl
is_nil-trimmed (l ∷ ls) = ground (arith, is_empty-trim l, is_nil-trimmed ls)

is_nil-group_segments : (value : Str) → is_nil (group_segments value) ≡ is_blank_path value
unfolding group_segments
is_nil-group_segments value = is_nil-trimmed (split b'/' value) ∙ all-split is_whitespace b'/' value

is_nil-segments :
    (values : List Str)
    → is_nil (filter (λ segs. not (is_nil segs)) (map group_segments values))
      ≡ all is_blank_path values
is_nil-segments [] = refl
is_nil-segments (v ∷ vs) = ground (arith, is_nil-group_segments v, is_nil-segments vs)

module _ (pf : Platform) where
  values_of-property :
      (key : Str) (b : Block) (ps : List Prop)
      → values_of pf (property key) (record b { props = ps })
        ≡ (elim (Map.get key ps) [ none ↦ [] | some v ↦ v ∷ [] ])
  unfolding values_of Map.get
  values_of-property key b [] = refl
  values_of-property key b ((k, v) ∷ ps) = elim (Bool-cases (str_eq k key)) [
    | inl e ↦ rw (e) refl
    | inr n ↦ rw (n) (values_of-property key b ps)
  ]

  values_of-said : (axis : GroupAxis) (b : Block) → values_of pf axis b ≡ said axis b
  unfolding values_of
  values_of-said tags b = refl
  values_of-said (property key) b = values_of-property key b b.props

  -- A block is placed nowhere just if no value says a path.
  pub is_nil-placements :
      (axis : GroupAxis) (b : Block)
      → is_nil (placements pf axis b) ≡ all is_blank_path (said axis b)
  unfolding placements
  is_nil-placements axis b =
      is_nil-segments (values_of pf axis b) ∙ ap (all is_blank_path) (values_of-said axis b)
