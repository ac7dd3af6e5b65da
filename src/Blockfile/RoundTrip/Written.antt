-- ===== src/Blockfile/RoundTrip/Written.antt =====
-- The entries that are written: each is well formed, and passed over by the readers of other keys.
use mkb.Base.{
  Bool, true, false, ◌≡◌, ◌≢◌, refl, List, [], ◌∷◌, Option, none, some, arith, All, All-append,
}
use mkb.Text.Chars.{Str, codes}
use mkb.Text.Strings.{str_eq}
use mkb.Text.Runs.{text_code}
use mkb.Blockfile.Scalar.{yaml_scalar}
use mkb.Blockfile.Scalar.RoundTrip.{trim-yaml_scalar, yaml_scalar-ne-nil, yaml_scalar-Lacks}
use mkb.Blockfile.Keys.{
  title_key, tags_key, locked_key, updated_key, is_prop_key, is_managed_key, is_key_char,
}
use mkb.Blockfile.Write.{Prop, Metadata}
use mkb.Blockfile.RoundTrip.Entries.{IsEntry}
use mkb.Blockfile.RoundTrip.Shape.{
  entries, scalar_entries, tags_entries, locked_entries, props_entries,
}
use mkb.Blockfile.RoundTrip.Fields.{Other, managed_other}
use mkb.Blockfile.RoundTrip.Tags.{IsTag, tags_IsEntry}
use mkb.Blockfile.RoundTrip.Props.{IsProperty, Distinct}

abbrev pub Filled : Option Str → Type 0
Filled none = Unit
Filled (some t) = t ≢ []

-- Metadata that a file can hold: what is empty is left out, and no two properties have one key.
pub record IsWritable (m : Metadata) : Type 0 where
  pub title : Filled m.title
  pub tags : All IsTag m.tags
  pub updated : Filled m.updated
  pub props : All IsProperty m.props
  pub distinct : Distinct m.props

pub scalar_IsEntry : (k : Str) → is_prop_key k ≡ true → (t : Str) → IsEntry (k, yaml_scalar t)
scalar_IsEntry k h t = record {
  key = h;
  tight = trim-yaml_scalar t;
  filled = yaml_scalar-ne-nil t;
  one_line = yaml_scalar-Lacks t;
}

pub scalar_entries-IsEntry :
    (k : Str) → is_prop_key k ≡ true → (t : Option Str) → All IsEntry (scalar_entries k t)
scalar_entries-IsEntry k h none = tt
scalar_entries-IsEntry k h (some t) = (scalar_IsEntry k h t, tt)

pub tags_entries-IsEntry : (ts : List Str) → All IsTag ts → All IsEntry (tags_entries ts)
tags_entries-IsEntry [] h = tt
tags_entries-IsEntry (t ∷ ts) h = (tags_IsEntry (t ∷ ts) h, tt)

pub managed_prop_keys :
    (is_prop_key title_key ≡ true)
    × (is_prop_key tags_key ≡ true)
    × (is_prop_key locked_key ≡ true)
    × (is_prop_key updated_key ≡ true)
unfolding is_prop_key text_code is_key_char
managed_prop_keys = (refl, refl, refl, refl)

pub managed :
    (is_managed_key title_key ≡ true)
    × (is_managed_key tags_key ≡ true)
    × (is_managed_key locked_key ≡ true)
    × (is_managed_key updated_key ≡ true)
unfolding is_managed_key text_code
managed = (refl, refl, refl, refl)

pub true_IsEntry : IsEntry (locked_key, codes "true")
true_IsEntry = record {
  key = managed_prop_keys.2;
  tight = unfold text_code in refl;
  filled = cc;
  one_line = omega arith;
}

pub locked_entries-IsEntry : (b : Bool) → All IsEntry (locked_entries b)
locked_entries-IsEntry true = (true_IsEntry, tt)
locked_entries-IsEntry false = tt

pub props_entries-IsEntry : (ps : List Prop) → All IsProperty ps → All IsEntry (props_entries ps)
props_entries-IsEntry [] h = tt
props_entries-IsEntry ((k, v) ∷ ps) (h, hs) =
    (scalar_IsEntry k h.key v, props_entries-IsEntry ps hs)

module _ (m : Metadata) (w : IsWritable m) where
  pub title_part : All IsEntry (scalar_entries title_key m.title)
  title_part = scalar_entries-IsEntry title_key managed_prop_keys.0 m.title

  pub tags_part : All IsEntry (tags_entries m.tags)
  tags_part = tags_entries-IsEntry m.tags w.tags

  pub updated_part : All IsEntry (scalar_entries updated_key m.updated)
  updated_part = scalar_entries-IsEntry updated_key managed_prop_keys.3 m.updated

  pub props_part : All IsEntry (props_entries m.props)
  props_part = props_entries-IsEntry m.props w.props

  pub entries-IsEntry : All IsEntry (entries m)
  entries-IsEntry = All-append IsEntry _ _ title_part (
      All-append IsEntry _ _ tags_part (
        All-append IsEntry _ _ (locked_entries-IsEntry m.locked)
          (All-append IsEntry _ _ updated_part props_part)))

-- Which entries a reader for a managed key passes over.
pub Other-scalar :
    (key k : Str) → str_eq key k ≡ false → (t : Option Str) → Other key (scalar_entries k t)
Other-scalar key k h none = tt
Other-scalar key k h (some t) = (h, tt)

pub Other-tags :
    (key : Str) → str_eq key tags_key ≡ false → (ts : List Str) → Other key (tags_entries ts)
Other-tags key h [] = tt
Other-tags key h (t ∷ ts) = (h, tt)

pub Other-locked :
    (key : Str) → str_eq key locked_key ≡ false → (b : Bool) → Other key (locked_entries b)
Other-locked key h true = (h, tt)
Other-locked key h false = tt

pub Other-props :
    (key : Str)
    → is_managed_key key ≡ true
    → (ps : List Prop) → All IsProperty ps
    → Other key (props_entries ps)
Other-props key hk [] h = tt
Other-props key hk ((k, v) ∷ ps) (h, hs) =
    (managed_other key k hk h.unmanaged, Other-props key hk ps hs)
