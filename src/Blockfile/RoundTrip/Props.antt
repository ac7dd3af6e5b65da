-- ===== src/Blockfile/RoundTrip/Props.antt =====
-- The properties: every entry whose key mkb does not manage itself.
use mkb.Base.{
  ℕ, true, false, ◌||◌, ◌≡◌, ◌≢◌, refl, ap, List, [], ◌∷◌, ◌++◌, none, some, arith, if◌then◌else◌,
  All, all, append_assoc, append-nil, ◌∙◌, sym,
}
use mkb.Text.Chars.{Str, space, is_whitespace, is_ascii_alphabetic, is_ascii_alphanumeric}
use mkb.Text.Strings.{eq_ignore_ascii_case, starts_with, is_empty}
use mkb.Text.Strings.Laws.{split_once-append}
use mkb.Text.Trim.{trim, trim_end}
use mkb.Text.Trim.Laws.{trim_fixed, trim_end_matches_none}
use mkb.Blockfile.Scalar.{yaml_scalar, parse_scalar, tab}
use mkb.Blockfile.Keys.{is_key_char, is_prop_key, is_managed_key}
use mkb.Blockfile.Write.{Prop}
use mkb.Blockfile.Read.{add_prop, has_prop, prop_of, collect_props}
use mkb.Blockfile.RoundTrip.Entries.{Entry, line_of, IsEntry, key-Lacks_colon}
use mkb.Blockfile.RoundTrip.Shape.{entry_lines, props_entries, prop_entry}
use mkb.Blockfile.RoundTrip.Fields.{parse_scalar-space}

-- A property that is written and read back: its key is an identifier that mkb does not manage.
pub record IsProperty (p : Prop) : Type 0 where
  pub key : is_prop_key p.0 ≡ true
  pub unmanaged : is_managed_key p.0 ≡ false
  pub filled : p.1 ≢ []

-- No two of the properties have one key, whatever the case.
abbrev pub Distinct : List Prop → Type 0
Distinct [] = Unit
Distinct (p ∷ ps) = All (λ (q : Prop). eq_ignore_ascii_case p.0 q.0 ≡ false) ps × Distinct ps

key_char-is_whitespace : (c : ℕ) → is_key_char c ≡ true → is_whitespace c ≡ false
unfolding is_key_char is_ascii_alphanumeric is_whitespace
key_char-is_whitespace c h = ground arith

alphabetic_head :
    (c : ℕ) (k : Str)
    → is_prop_key (c ∷ k) ≡ true
    → (is_whitespace c ≡ false) × (c ≢ tab) × (c ≢ space)
unfolding is_prop_key is_ascii_alphabetic is_whitespace
alphabetic_head c k h = ground arith

key_chars_solid : (k : Str) → all is_key_char k ≡ true → All (λ c. is_whitespace c ≡ false) k
key_chars_solid [] h = tt
key_chars_solid (c ∷ k) h =
    (key_char-is_whitespace c (ground arith), key_chars_solid k (ground arith))

prop_key_solid :
    (c : ℕ) (k : Str) → is_prop_key (c ∷ k) ≡ true → All (λ c. is_whitespace c ≡ false) (c ∷ k)
unfolding is_prop_key
prop_key_solid c k h = ((alphabetic_head c k h).0, key_chars_solid k (ground arith))

pub trim-prop_key : (k : Str) → is_prop_key k ≡ true → trim k ≡ k
unfolding trim_end
trim-prop_key [] h = unfold is_prop_key in ground arith
trim-prop_key (c ∷ k) h =
    trim_fixed c k (alphabetic_head c k h).0
      (trim_end_matches_none is_whitespace (c ∷ k) (prop_key_solid c k h))

-- What the reader makes of a line, by its key and its value.
prop_of-line_of :
    (e : Entry)
    → IsEntry e
    → prop_of (line_of e) ≡ (
        if is_managed_key e.0 || is_empty (parse_scalar (space ∷ e.1))
        then none
        else some (e.0, parse_scalar (space ∷ e.1)))
unfolding prop_of starts_with
prop_of-line_of ([], r) h = unfold is_prop_key in ground (arith, h.key)
prop_of-line_of (c ∷ k, r) h = ground (
  arith,
  alphabetic_head c k h.key,
  split_once-append b':' (c ∷ k) (space ∷ r) (key-Lacks_colon (c ∷ k) h.key),
  trim-prop_key (c ∷ k) h.key,
  h.key,
)

abbrev pub Managed : List Entry → Type 0
Managed = All (λ (e : Entry). is_managed_key e.0 ≡ true)

pub collect_props-skip :
    (ps : List Prop) (es rest : List Entry)
    → All IsEntry es
    → Managed es
    → collect_props ps (entry_lines (es ++ rest)) ≡ collect_props ps (entry_lines rest)
unfolding collect_props
collect_props-skip ps [] rest h m = refl
collect_props-skip ps (e ∷ es) rest (he, hs) (m, ms) =
    ground (arith, prop_of-line_of e he, collect_props-skip ps es rest hs ms)

-- None of the properties has a key of the first list.
abbrev Fresh : List Prop → List Prop → Type 0
Fresh acc = All (λ (p : Prop). has_prop p.0 acc ≡ false)

has_prop-append :
    (key : Str) (acc : List Prop) (p : Prop)
    → has_prop key acc ≡ false
    → eq_ignore_ascii_case p.0 key ≡ false
    → has_prop key (acc ++ p ∷ []) ≡ false
unfolding has_prop
has_prop-append key [] p h e = rw e
has_prop-append key (q ∷ acc) p h e = ground (arith, has_prop-append key acc p)

Fresh-append :
    (acc ps : List Prop) (p : Prop)
    → Fresh acc ps
    → All (λ (q : Prop). eq_ignore_ascii_case p.0 q.0 ≡ false) ps
    → Fresh (acc ++ p ∷ []) ps
Fresh-append acc [] p f d = tt
Fresh-append acc (q ∷ ps) p (f, fs) (d, ds) =
    (has_prop-append q.0 acc p f d, Fresh-append acc ps p fs ds)

prop_of_property :
    (p : Prop) → IsEntry (prop_entry p) → IsProperty p → prop_of (line_of (prop_entry p)) ≡ some p
prop_of_property (k, []) he h = absurd (h.filled refl)
prop_of_property (k, c ∷ v) he h =
    ground
      (arith, prop_of-line_of (k, yaml_scalar (c ∷ v)) he, parse_scalar-space (c ∷ v), h.unmanaged)

add_prop_fresh :
    (acc : List Prop) (p : Prop) → has_prop p.0 acc ≡ false → add_prop acc (some p) ≡ acc ++ p ∷ []
unfolding add_prop
add_prop_fresh acc (k, v) h = ground (arith, h)

collect_props_step :
    (acc : List Prop) (line : Str) (rest : List Str) (p : Prop)
    → prop_of line ≡ some p
    → has_prop p.0 acc ≡ false
    → collect_props acc (line ∷ rest) ≡ collect_props (acc ++ p ∷ []) rest
unfolding collect_props
collect_props_step acc line rest p e f =
    ap (λ o. collect_props (add_prop acc o) rest) e
    ∙ ap (λ ps. collect_props ps rest) (add_prop_fresh acc p f)

collect_props-append :
    (acc ps : List Prop)
    → All IsEntry (props_entries ps)
    → All IsProperty ps
    → Distinct ps
    → Fresh acc ps
    → collect_props acc (entry_lines (props_entries ps)) ≡ acc ++ ps
collect_props-append acc [] he h d f = unfold collect_props in sym (append-nil acc)
collect_props-append acc (p ∷ ps) (he, hes) (h, hs) (d, ds) (f, fs) =
    collect_props_step acc (line_of (prop_entry p)) (entry_lines (props_entries ps)) p
      (prop_of_property p he h) f
    ∙ collect_props-append (acc ++ p ∷ []) ps hes hs ds (Fresh-append acc ps p fs d)
    ∙ append_assoc acc (p ∷ []) ps

Fresh-nil : (ps : List Prop) → Fresh [] ps
unfolding has_prop
Fresh-nil [] = tt
Fresh-nil (p ∷ ps) = (refl, Fresh-nil ps)

pub collect_props_lem :
    (ps : List Prop)
    → All IsEntry (props_entries ps)
    → All IsProperty ps
    → Distinct ps
    → collect_props [] (entry_lines (props_entries ps)) ≡ ps
collect_props_lem ps he h d = collect_props-append [] ps he h d (Fresh-nil ps)
