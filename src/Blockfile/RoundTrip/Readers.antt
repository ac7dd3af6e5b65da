-- ===== src/Blockfile/RoundTrip/Readers.antt =====
-- Each reader of the frontmatter over the entries that are written.
use mkb.Base.{
  Bool, true, false, ◌≡◌, refl, ap, List, [], ◌∷◌, ◌++◌, Option, none, some, All, All-append,
  append-nil, ◌∙◌, sym,
}
use mkb.Text.Chars.{Str}
use mkb.Text.Strings.{str_eq}
use mkb.Blockfile.Keys.{title_key, tags_key, locked_key, updated_key, is_prop_key, is_managed_key}
use mkb.Blockfile.Write.{Metadata}
use mkb.Blockfile.Read.{field_of, named_scalar, locked_in, tags_in, collect_props}
use mkb.Blockfile.RoundTrip.Entries.{Entry, IsEntry}
use mkb.Blockfile.RoundTrip.Shape.{
  entries, entry_lines, scalar_entries, tags_entries, locked_entries, props_entries,
}
use mkb.Blockfile.RoundTrip.Fields.{
  Other, read-skip, named_scalar_skips, locked_in_skips, named_scalar_hit, locked_in_hit,
}
use mkb.Blockfile.RoundTrip.Tags.{IsTag, tags_in_skips, tags_in_hit}
use mkb.Blockfile.RoundTrip.Props.{Managed, collect_props-skip, collect_props_lem}
use mkb.Blockfile.RoundTrip.Written.{
  Filled, IsWritable, scalar_IsEntry, managed_prop_keys, managed, true_IsEntry,
  locked_entries-IsEntry, title_part, tags_part, updated_part, props_part, Other-scalar, Other-tags,
  Other-locked, Other-props,
}

-- Where no entry has the key, the reader gives what it gives for no lines.
module _ {A : Type 0} (key : Str) (hk : is_prop_key key ≡ true) (read : List Str → A)
    (skips : (line : Str) (rest : List Str)
      → field_of key line ≡ none
      → read (line ∷ rest) ≡ read rest) where
  read_none : (es : List Entry) → All IsEntry es → Other key es → read (entry_lines es) ≡ read []
  read_none es h o =
      ap (λ (l : List Entry). read (entry_lines l)) (sym (append-nil es))
      ∙ read-skip key hk read skips es [] h o

read_scalar :
    (k : Str) (hk : is_prop_key k ≡ true) (t : Option Str) (es : List Entry)
    → Filled t
    → All IsEntry es
    → Other k es
    → named_scalar k (entry_lines (scalar_entries k t ++ es)) ≡ t
read_scalar k hk none es f h o =
    read_none k hk (named_scalar k) (named_scalar_skips k) es h o ∙ unfold named_scalar in refl
read_scalar k hk (some t) es f h o = named_scalar_hit k t (entry_lines es) (scalar_IsEntry k hk t) f

read_locked :
    (b : Bool) (es : List Entry)
    → All IsEntry es
    → Other locked_key es
    → locked_in (entry_lines (locked_entries b ++ es)) ≡ b
read_locked true es h o = locked_in_hit (entry_lines es) true_IsEntry
read_locked false es h o =
    read_none locked_key managed_prop_keys.2 locked_in locked_in_skips es h o
    ∙ unfold locked_in in refl

no_tags :
    (es : List Entry) → All IsEntry es → Other tags_key es → tags_in false (entry_lines es) ≡ []
no_tags es h o =
    read_none tags_key managed_prop_keys.1 (tags_in false) tags_in_skips es h o
    ∙ unfold tags_in in refl

read_tags :
    (ts : List Str) (es : List Entry)
    → All IsTag ts
    → All IsEntry es
    → Other tags_key es
    → tags_in false (entry_lines (tags_entries ts ++ es)) ≡ ts
read_tags [] es ht h o = no_tags es h o
read_tags (t ∷ ts) es ht h o =
    tags_in_hit t ts (entry_lines es) ht
    ∙ ap (λ (l : List Str). (t ∷ ts) ++ l) (no_tags es h o)
    ∙ append-nil (t ∷ ts)

module _ (m : Metadata) (w : IsWritable m) where
  late : List Entry
  late = scalar_entries updated_key m.updated ++ props_entries m.props

  late_part : All IsEntry late
  unfolding late
  late_part = All-append IsEntry _ _ (updated_part m w) (props_part m w)

  late-Other :
      (key : Str) → is_managed_key key ≡ true → str_eq key updated_key ≡ false → Other key late
  unfolding late
  late-Other key hk hu =
      All-append _ _ _ (Other-scalar key updated_key hu m.updated)
        (Other-props key hk m.props w.props)

  locked_part : All IsEntry (locked_entries m.locked ++ late)
  locked_part = All-append IsEntry _ _ (locked_entries-IsEntry m.locked) late_part

  pub read_title_lem : named_scalar title_key (entry_lines (entries m)) ≡ m.title
  unfolding late str_eq
  read_title_lem =
      read_scalar title_key managed_prop_keys.0 m.title _ w.title
        (All-append IsEntry _ _ (tags_part m w) locked_part)
        (All-append _ _ _ (Other-tags title_key refl m.tags) (
          All-append _ _ _ (Other-locked title_key refl m.locked)
            (late-Other title_key managed.0 refl)))

  pub read_tags_lem : tags_in false (entry_lines (entries m)) ≡ m.tags
  unfolding late str_eq
  read_tags_lem =
      read-skip tags_key managed_prop_keys.1 (tags_in false) tags_in_skips
        (scalar_entries title_key m.title) _ (title_part m w)
        (Other-scalar tags_key title_key refl m.title)
      ∙ read_tags m.tags _ w.tags locked_part (
          All-append _ _ _ (Other-locked tags_key refl m.locked)
            (late-Other tags_key managed.1 refl))

  pub read_locked_lem : locked_in (entry_lines (entries m)) ≡ m.locked
  unfolding late str_eq
  read_locked_lem =
      let skip = read-skip locked_key managed_prop_keys.2 locked_in locked_in_skips in
      skip (scalar_entries title_key m.title) _ (title_part m w)
        (Other-scalar locked_key title_key refl m.title)
      ∙ skip (tags_entries m.tags) _ (tags_part m w) (Other-tags locked_key refl m.tags)
      ∙ read_locked m.locked _ late_part (late-Other locked_key managed.2 refl)

  pub read_updated_lem : named_scalar updated_key (entry_lines (entries m)) ≡ m.updated
  unfolding str_eq
  read_updated_lem =
      let skip =
        read-skip updated_key managed_prop_keys.3 (named_scalar updated_key)
          (named_scalar_skips updated_key) in
      skip (scalar_entries title_key m.title) _ (title_part m w)
        (Other-scalar updated_key title_key refl m.title)
      ∙ skip (tags_entries m.tags) _ (tags_part m w) (Other-tags updated_key refl m.tags)
      ∙ skip (locked_entries m.locked) _ (locked_entries-IsEntry m.locked)
          (Other-locked updated_key refl m.locked)
      ∙ read_scalar updated_key managed_prop_keys.3 m.updated _ w.updated (props_part m w)
          (Other-props updated_key managed.3 m.props w.props)

  Managed-scalar :
      (k : Str) → is_managed_key k ≡ true → (t : Option Str) → Managed (scalar_entries k t)
  Managed-scalar k h none = tt
  Managed-scalar k h (some t) = (h, tt)

  Managed-tags : (ts : List Str) → Managed (tags_entries ts)
  Managed-tags [] = tt
  Managed-tags (t ∷ ts) = (managed.1, tt)

  Managed-locked : (b : Bool) → Managed (locked_entries b)
  Managed-locked true = (managed.2, tt)
  Managed-locked false = tt

  pub read_props_lem : collect_props [] (entry_lines (entries m)) ≡ m.props
  read_props_lem =
      collect_props-skip [] (scalar_entries title_key m.title) _ (title_part m w)
        (Managed-scalar title_key managed.0 m.title)
      ∙ collect_props-skip [] (tags_entries m.tags) _ (tags_part m w) (Managed-tags m.tags)
      ∙ collect_props-skip [] (locked_entries m.locked) _ (locked_entries-IsEntry m.locked)
          (Managed-locked m.locked)
      ∙ collect_props-skip [] (scalar_entries updated_key m.updated) _ (updated_part m w)
          (Managed-scalar updated_key managed.3 m.updated)
      ∙ collect_props_lem m.props (props_part m w) w.props w.distinct
