-- ===== src/Blockfile/RoundTrip/Tags.antt =====
-- The managed tags: `tags: [a, b]`.
use mkb.Base.{
  ℕ, true, false, ◌≡◌, ◌≢◌, refl, ap, List, [], ◌∷◌, ◌++◌, map, none, arith, ◌==◌, All, All-append,
  ◌∙◌,
}
use mkb.Text.Chars.{is_ascii_alphanumeric, Str, codes, newline, space, Lacks, is_whitespace}
use mkb.Text.Strings.{join, starts_with}
use mkb.Text.Trim.{trim, trim_end, trim_matches, trim_start_matches}
use mkb.Text.Trim.Laws.{
  trim_blank, trim_fixed, trim_end_matches_none, trim_start_matches_none, trim_end_matches_drop,
  trim_end_matches-last,
}
use mkb.Text.Lines.Split.{split-append, split_whole}
use mkb.Text.Lines.{split, join_first}
use mkb.Blockfile.Scalar.{quote, apostrophe}
use mkb.Blockfile.Keys.{is_key_char, is_prop_key, tags_key}
use mkb.Blockfile.Read.{field_of, is_quote, tag_text, keep_tag, keep_tags, flow_tags, tags_in}
use mkb.Blockfile.RoundTrip.Entries.{line_of, IsEntry}
use mkb.Blockfile.RoundTrip.Shape.{flow_text}
use mkb.Blockfile.RoundTrip.Fields.{field_of_self}

-- The tags that survive: trimmed, and with none of the characters that the list itself uses.
pub record IsTag (t : Str) : Type 0 where
  pub filled : t ≢ []
  pub tight : trim t ≡ t
  pub one_line : Lacks newline t
  pub no_comma : Lacks b',' t
  pub no_open : Lacks b'[' t
  pub no_close : Lacks b']' t
  pub no_quote : Lacks quote t
  pub no_apostrophe : Lacks apostrophe t

abbrev separator : Str
separator = codes ", "

join-Lacks :
    (d : ℕ) (ts : List Str) → Lacks d separator → All (Lacks d) ts → Lacks d (join separator ts)
unfolding join
join-Lacks d [] h hs = tt
join-Lacks d (t ∷ []) h (ht, _) = ht
join-Lacks d (t ∷ u ∷ ts) h (ht, hs) =
    All-append (λ c. c ≢ d) t _ ht
      (All-append (λ c. c ≢ d) separator _ h (join-Lacks d (u ∷ ts) h hs))

split_blank : (s : Str) → split b',' (space ∷ s) ≡ join_first space (split b',' s)
unfolding split
split_blank s = refl

-- The pieces between the commas: each but the first has a space in front.
split-join :
    (t : Str) (ts : List Str)
    → Lacks b',' t
    → All (Lacks b',') ts
    → split b',' (join separator (t ∷ ts)) ≡ t ∷ map (λ u. space ∷ u) ts
unfolding join
split-join t [] h hs = split_whole b',' t h
split-join t (u ∷ ts) h (hu, hs) =
    rw (split-append b',' t (space ∷ join separator (u ∷ ts)) h) (
      ap (λ (ls : List Str). t ∷ ls)
        (split_blank _ ∙ ap (join_first space) (split-join u ts hu hs)))

no_quotes : (t : Str) → Lacks quote t → Lacks apostrophe t → All (λ c. is_quote c ≡ false) t
no_quotes [] h k = tt
no_quotes (c ∷ t) (hc, h) (kc, k) = (ground arith, no_quotes t h k)

tag_text_id : (t : Str) → IsTag t → tag_text t ≡ t
unfolding tag_text trim_matches
tag_text_id t h =
    let clear = no_quotes t h.no_quote h.no_apostrophe in
    rw (h.tight, trim_start_matches_none is_quote t clear, trim_end_matches_none is_quote t clear)
      h.tight

tag_text_blank : (t : Str) → IsTag t → tag_text (space ∷ t) ≡ t
unfolding tag_text is_whitespace
tag_text_blank t h =
    ap (λ s. trim (trim_matches is_quote s)) (trim_blank space t refl) ∙ tag_text_id t h

keep_tag_filled : (t : Str) → IsTag t → keep_tag t ≡ t ∷ []
unfolding keep_tag
keep_tag_filled [] h = absurd (h.filled refl)
keep_tag_filled (c ∷ t) h = refl

keep_tags_blank : (ts : List Str) → All IsTag ts → keep_tags (map (λ u. space ∷ u) ts) ≡ ts
unfolding keep_tags
keep_tags_blank [] h = refl
keep_tags_blank (t ∷ ts) (ht, hs) =
    rw (tag_text_blank t ht, keep_tag_filled t ht, keep_tags_blank ts hs)

keep_tags_first : (t : Str) (ls : List Str) → IsTag t → keep_tags (t ∷ ls) ≡ t ∷ keep_tags ls
unfolding keep_tags
keep_tags_first t ls h = rw (tag_text_id t h, keep_tag_filled t h)

Lacks-pass : (d : ℕ) (s : Str) → Lacks d s → All (λ c. (c == d) ≡ false) s
Lacks-pass d [] h = tt
Lacks-pass d (c ∷ s) (hc, h) = (ground arith, Lacks-pass d s h)

every {ℓ κ} :
    {A : Type 0} {P : A → Type ℓ} {Q : A → Type κ}
    → ((a : A) → P a → Q a)
    → (xs : List A) → All P xs
    → All Q xs
every f [] h = tt
every f (x ∷ xs) (h, hs) = (f x h, every f xs hs)

join_head :
    (t : Str) (ts : List Str)
    → t ≢ []
    → Lacks b'[' t
    → (r : Str)
    → trim_start_matches (λ c. c == b'[') (join separator (t ∷ ts) ++ r)
      ≡ join separator (t ∷ ts) ++ r
unfolding join trim_start_matches
join_head [] ts n h r = absurd (n refl)
join_head (c ∷ t) [] n h r = ground arith
join_head (c ∷ t) (u ∷ ts) n h r = ground arith

open_bracket :
    (s : Str)
    → trim_start_matches (λ c. c == b'[') (b'[' ∷ s) ≡ trim_start_matches (λ c. c == b'[') s
unfolding trim_start_matches
open_bracket s = refl

-- The list in brackets is read as its tags.
pub flow_tags-flow_text :
    (t : Str) (ts : List Str) → All IsTag (t ∷ ts) → flow_tags (flow_text (t ∷ ts)) ≡ t ∷ ts
unfolding flow_tags
flow_tags-flow_text t ts (ht, hs) =
    let list = join separator (t ∷ ts) in
    rw (
      open_bracket (list ++ b']' ∷ []),
      join_head t ts ht.filled ht.no_open (b']' ∷ []),
      trim_end_matches_drop (λ c. c == b']') list b']' refl,
      trim_end_matches_none (λ c. c == b']') list
          (Lacks-pass b']' list (
            join-Lacks b']' (t ∷ ts) (omega arith)
              (ht.no_close, every (λ u (h : IsTag u). h.no_close) ts hs))),
      split-join t ts ht.no_comma (every (λ u (h : IsTag u). h.no_comma) ts hs),
      keep_tags_first t (map (λ u. space ∷ u) ts) ht,
      keep_tags_blank ts hs,
    )

bracket_solid :
    (is_whitespace b'[' ≡ false) × (is_whitespace b']' ≡ false) × (is_whitespace space ≡ true)
unfolding is_whitespace
bracket_solid = (refl, refl, refl)

pub trim-flow_text : (ts : List Str) → trim (flow_text ts) ≡ flow_text ts
unfolding trim_end
trim-flow_text ts =
    trim_fixed b'[' (join separator ts ++ b']' ∷ []) bracket_solid.0
      (trim_end_matches-last is_whitespace (b'[' ∷ join separator ts) b']' bracket_solid.1)

pub tags_IsEntry : (ts : List Str) → All IsTag ts → IsEntry (tags_key, flow_text ts)
tags_IsEntry ts h = record {
  key = unfold is_prop_key is_key_char is_ascii_alphanumeric in refl;
  tight = trim-flow_text ts;
  filled = cc;
  one_line = (
    omega arith,
    All-append (λ c. c ≢ newline) (join separator ts) (b']' ∷ [])
        (join-Lacks newline ts (omega arith) (every (λ u (k : IsTag u). k.one_line) ts h))
        (omega arith),
  );
}

pub tags_in_skips :
    (line : Str) (rest : List Str)
    → field_of tags_key line ≡ none
    → tags_in false (line ∷ rest) ≡ tags_in false rest
unfolding tags_in
tags_in_skips line rest h = rw (h, tags_in)

pub tags_in_hit :
    (t : Str) (ts : List Str) (rest : List Str)
    → All IsTag (t ∷ ts)
    → tags_in false (line_of (tags_key, flow_text (t ∷ ts)) ∷ rest) ≡ (t ∷ ts) ++ tags_in false rest
unfolding tags_in starts_with
tags_in_hit t ts rest h =
    rw (field_of_self tags_key (flow_text (t ∷ ts)) (tags_IsEntry (t ∷ ts) h), tags_in)
      (rw (trim_blank space (flow_text (t ∷ ts)) bracket_solid.2, trim-flow_text (t ∷ ts), tags_in)
        (ap (λ (l : List Str). l ++ tags_in false rest) (flow_tags-flow_text t ts h)))
