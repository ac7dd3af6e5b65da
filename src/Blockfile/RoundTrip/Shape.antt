-- ===== src/Blockfile/RoundTrip/Shape.antt =====
-- The frontmatter that is written, as a list of entries, and where the reader cuts it off.
use mkb.Base.{
  Bool, true, false, ◌≡◌, refl, ap, List, [], ◌∷◌, ◌++◌, map, Option, none, some, arith, ◌==◌, All,
  append_assoc, append-nil, ◌∙◌, sym,
}
use mkb.Text.Chars.{is_ascii_alphabetic, Str, codes, newline}
use mkb.Text.Strings.{split_once, starts_with, str_eq, join, strip_prefix}
use mkb.Text.Trim.{keep_end, trim_end_matches, trim_start_matches}
use mkb.Text.Lines.{split_inclusive}
use mkb.Text.Lines.Laws.{
  IsLine, end_line, unlines, split_inclusive-line, split_inclusive-unlines, concat-split_inclusive,
}
use mkb.Blockfile.Scalar.{yaml_scalar}
use mkb.Blockfile.Keys.{title_key, tags_key, locked_key, updated_key, is_prop_key}
use mkb.Blockfile.Write.{
  Prop, Metadata, frontmatter_text, scalar_text, tags_text, locked_text, props_text,
}
use mkb.Blockfile.Frontmatter.{fence, is_eol, find_close, split_frontmatter}
use mkb.Blockfile.RoundTrip.Entries.{Entry, line_of, IsEntry, entry_text-line_of, line_of-IsLine}

abbrev pub scalar_entries : Str → Option Str → List Entry
scalar_entries k none = []
scalar_entries k (some t) = (k, yaml_scalar t) ∷ []

-- `[a, b]`
abbrev pub flow_text : List Str → Str
flow_text tags = b'[' ∷ (join (codes ", ") tags ++ b']' ∷ [])

abbrev pub tags_entries : List Str → List Entry
tags_entries [] = []
tags_entries (t ∷ ts) = (tags_key, flow_text (t ∷ ts)) ∷ []

abbrev pub locked_entries : Bool → List Entry
locked_entries true = (locked_key, codes "true") ∷ []
locked_entries false = []

abbrev pub prop_entry : Prop → Entry
prop_entry (k, v) = (k, yaml_scalar v)

abbrev pub props_entries : List Prop → List Entry
props_entries = map prop_entry

abbrev pub entries : Metadata → List Entry
entries m =
    scalar_entries title_key m.title
    ++ (tags_entries m.tags
        ++ (locked_entries m.locked
            ++ (scalar_entries updated_key m.updated ++ props_entries m.props)))

abbrev pub entry_lines : List Entry → List Str
entry_lines = map line_of

pub unlines-append :
    (xs ys : List Entry)
    → unlines (entry_lines (xs ++ ys)) ≡ unlines (entry_lines xs) ++ unlines (entry_lines ys)
unfolding unlines
unlines-append [] ys = refl
unlines-append (x ∷ xs) ys =
    ap (λ (s : Str). end_line (line_of x) ++ s) (unlines-append xs ys)
    ∙ sym (append_assoc (end_line (line_of x)) _ _)

scalar_text-unlines :
    (k : Str) (t : Option Str) → scalar_text k t ≡ unlines (entry_lines (scalar_entries k t))
unfolding unlines
scalar_text-unlines k none = refl
scalar_text-unlines k (some t) = rw append-nil (entry_text-line_of k (yaml_scalar t))

tags_text-unlines : (ts : List Str) → tags_text ts ≡ unlines (entry_lines (tags_entries ts))
unfolding unlines
tags_text-unlines [] = refl
tags_text-unlines (t ∷ ts) = rw append-nil (entry_text-line_of tags_key (flow_text (t ∷ ts)))

locked_text-unlines : (b : Bool) → locked_text b ≡ unlines (entry_lines (locked_entries b))
unfolding unlines
locked_text-unlines true = rw append-nil (entry_text-line_of locked_key (codes "true"))
locked_text-unlines false = refl

props_text-unlines : (ps : List Prop) → props_text ps ≡ unlines (entry_lines (props_entries ps))
unfolding unlines
props_text-unlines [] = refl
props_text-unlines ((k, v) ∷ ps) = rw (entry_text-line_of k (yaml_scalar v), props_text-unlines ps)

pub frontmatter_text-unlines :
    (m : Metadata) → frontmatter_text m ≡ unlines (entry_lines (entries m))
frontmatter_text-unlines m = simp (
  unlines-append,
  ← scalar_text-unlines,
  ← tags_text-unlines,
  ← locked_text-unlines,
  ← props_text-unlines,
)

pub entry_lines-IsLine : (es : List Entry) → All IsEntry es → All IsLine (entry_lines es)
entry_lines-IsLine [] h = tt
entry_lines-IsLine (e ∷ es) (he, hs) = (line_of-IsLine e he, entry_lines-IsLine es hs)

-- A line that begins with a key is no fence.
line_no_fence :
    (e : Entry) → IsEntry e → str_eq (trim_end_matches is_eol (end_line (line_of e))) fence ≡ false
unfolding is_prop_key is_ascii_alphabetic trim_end_matches str_eq
line_no_fence ([], r) h = absurd (ground (arith, h.key))
line_no_fence (c ∷ k, r) h =
    other_head (trim_end_matches is_eol (end_line (line_of (k, r)))) (ground (arith, h.key))
  where
    other_head :
        (t : Str) → is_ascii_alphabetic c ≡ true → str_eq (keep_end is_eol c t) fence ≡ false
    other_head [] a = ground arith
    other_head (d ∷ t) a = ground arith

find_close-entries :
    (es : List Entry) (rest : List Str) {fm body : Str}
    → All IsEntry es
    → find_close rest ≡ some (fm, body)
    → find_close (map end_line (entry_lines es) ++ rest)
      ≡ some (unlines (entry_lines es) ++ fm, body)
unfolding find_close unlines
find_close-entries [] rest h e = e
find_close-entries (x ∷ es) rest {fm} {body} (hx, hs) e =
    rw (line_no_fence x hx, find_close-entries es rest hs e)
      (ap {B = Option (Str × Str)} (λ (t : Str). some (t, body))
        (sym (append_assoc (end_line (line_of x)) _ fm)))

find_close-fence :
    (body : Str) → find_close (split_inclusive (codes "---\n" ++ body)) ≡ some ([], body)
unfolding find_close
find_close-fence body =
    rw (split_inclusive-line fence body (omega arith), concat-split_inclusive)
      (unfold trim_end_matches str_eq in refl)

abbrev pub drop_newlines : Str → Str
drop_newlines = trim_start_matches (λ c. c == newline)

-- The reader cuts off the frontmatter that was written, and the body behind it.
pub split_frontmatter-fences :
    (es : List Entry) (body : Str)
    → All IsEntry es
    → split_frontmatter (codes "---\n" ++ (unlines (entry_lines es) ++ (codes "---\n\n" ++ body)))
      ≡ (some (unlines (entry_lines es)), body)
unfolding split_frontmatter strip_prefix starts_with split_once
split_frontmatter-fences es body h = rw (
  split_inclusive-unlines (entry_lines es) (codes "---\n\n" ++ body) (entry_lines-IsLine es h),
  find_close-entries es _ h (find_close-fence (newline ∷ body)),
  append-nil,
)
