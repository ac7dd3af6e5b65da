-- ===== src/Blockfile/RoundTrip/Blocks.antt =====
-- `parse_block` of what `write_block` wrote.
use mkb.Base.{
  if◌then◌else◌, Bool, false, ◌≡◌, ◌≢◌, refl, ap, List, [], ◌∷◌, Option, none, some, arith, All,
  ◌∙◌, Bool-cases, inl, inr,
}
use mkb.Text.Chars.{Str}
use mkb.Text.Strings.{is_empty}
use mkb.Text.Trim.{trim}
use mkb.Text.Trim.Laws.{trim_idem}
use mkb.Text.Lines.Laws.{lines-unlines, unlines}
use mkb.Text.Lines.{lines}
use mkb.Id.{BlockId}
use mkb.Block.{Block}
use mkb.Blockfile.Write.{
  Prop, Metadata, is_bare, is_written, clean_text, clean_tags, clean_props, clean, write_block,
}
use mkb.Blockfile.Frontmatter.{split_frontmatter}
use mkb.Blockfile.Read.{parse_named_scalar, parse_locked, parse_fm_tags, parse_fm_props}
use mkb.Blockfile.Code.{code_langs}
use mkb.Blockfile.Parse.{TagRegexes, add_all, keep_title, inline_tags, block_of, parse_block}
use mkb.Blockfile.RoundTrip.Shape.{
  entries, entry_lines, entry_lines-IsLine, frontmatter_text-unlines, split_frontmatter-fences,
  drop_newlines,
}
use mkb.Blockfile.RoundTrip.Tags.{IsTag}
use mkb.Blockfile.RoundTrip.Props.{IsProperty, Distinct}
use mkb.Blockfile.RoundTrip.Written.{Filled, IsWritable, entries-IsEntry}
use mkb.Blockfile.RoundTrip.Readers.{
  read_title_lem, read_tags_lem, read_locked_lem, read_updated_lem, read_props_lem,
}

clean_text-Filled : (t : Option Str) → Filled (clean_text t)
unfolding clean_text
clean_text-Filled none = tt
clean_text-Filled (some t) = by_trim (trim t)
  where
    by_trim : (s : Str) → Filled (if is_empty s then none else some s)
    by_trim [] = tt
    by_trim (c ∷ s) = cc

clean_props-IsProperty :
    (ps : List Prop) → All (λ (p : Prop). p.1 ≢ []) ps → All IsProperty (clean_props ps)
unfolding clean_props
clean_props-IsProperty [] h = tt
clean_props-IsProperty ((k, v) ∷ ps) (h, hs) = elim (Bool-cases (is_written (trim k, v))) [
  | inl e ↦ rw e (
    record { key = ground (arith, e); unmanaged = ground (arith, e); filled = h },
    clean_props-IsProperty ps hs,
  )
  | inr e ↦ rw e (clean_props-IsProperty ps hs)
]

-- What is asked of the caller: tags that can stand in a flow list, no empty property, and no two
-- properties with one key.
pub record IsStorable (tags : List Str) (props : List Prop) : Type 0 where
  pub tags_ok : All IsTag (clean_tags tags)
  pub filled : All (λ (p : Prop). p.1 ≢ []) props
  pub distinct : Distinct (clean_props props)

module _ (title : Option Str) (tags : List Str) (locked : Bool) (updated : Option Str)
    (props : List Prop) where
  pub clean-IsWritable : IsStorable tags props → IsWritable (clean title tags locked updated props)
  unfolding clean
  clean-IsWritable h = record {
    title = clean_text-Filled title;
    tags = h.tags_ok;
    updated = clean_text-Filled updated;
    props = clean_props-IsProperty props h.filled;
    distinct = h.distinct;
  }

  -- The text that is written splits into the frontmatter and the body, if there is metadata.
  pub split_frontmatter-write_block :
      (body : Str)
      → IsStorable tags props
      → is_bare (clean title tags locked updated props) ≡ false
      → split_frontmatter (write_block title tags locked updated props body) ≡ (
        some (unlines (entry_lines (entries (clean title tags locked updated props)))),
        drop_newlines body,
      )
  unfolding write_block
  split_frontmatter-write_block body h b =
      rw (b, frontmatter_text-unlines)
        (split_frontmatter-fences (entries (clean title tags locked updated props))
          (drop_newlines body)
          (entries-IsEntry (clean title tags locked updated props) (clean-IsWritable h)))

-- The block that metadata and a body stand for.
abbrev pub stored : TagRegexes → BlockId → Metadata → Str → Block
stored rx id m body = record {
  id = id;
  title = m.title;
  tags = add_all m.tags (inline_tags rx body);
  fm_tags = m.tags;
  langs = code_langs body;
  locked = m.locked;
  props = m.props;
  updated = m.updated;
  body = body;
}

module _ (m : Metadata) (w : IsWritable m) where
  lines_lem : lines (unlines (entry_lines (entries m))) ≡ entry_lines (entries m)
  lines_lem = lines-unlines _ (entry_lines-IsLine (entries m) (entries-IsEntry m w))

  block_of-entries :
      (rx : TagRegexes) (id : BlockId) (body : Str)
      → keep_title m.title ≡ m.title
      → block_of rx id (some (unlines (entry_lines (entries m)))) body ≡ stored rx id m body
  unfolding block_of parse_named_scalar parse_locked parse_fm_tags parse_fm_props
  block_of-entries rx id body k = rw (
    lines_lem,
    read_title_lem m w,
    read_tags_lem m w,
    read_locked_lem m w,
    read_updated_lem m w,
    read_props_lem m w,
    k,
  )

keep_title_nonblank :
    (s : Str)
    → keep_title (if is_empty (trim s) then none else some (trim s))
      ≡ (if is_empty (trim s) then none else some (trim s))
unfolding keep_title
keep_title_nonblank s = ground (arith, trim_idem s)

keep_title-clean_text : (t : Option Str) → keep_title (clean_text t) ≡ clean_text t
unfolding clean_text
keep_title-clean_text none = unfold keep_title in refl
keep_title-clean_text (some t) = keep_title_nonblank t

module _ (rx : TagRegexes) (id : BlockId) where
  -- Parsing what was written for a title, tags, the lock, a time, properties and a body gives the
  -- block of the cleaned metadata and of the body without its leading newlines, if there is
  -- metadata to write, the tags can stand in a flow list, and the properties are filled and have
  -- different keys.
  pub parse_block-write_block :
      (title : Option Str) (tags : List Str) (locked : Bool) (updated : Option Str)
      (props : List Prop) (body : Str)
      → IsStorable tags props
      → is_bare (clean title tags locked updated props) ≡ false
      → parse_block rx id (write_block title tags locked updated props body)
        ≡ stored rx id (clean title tags locked updated props) (drop_newlines body)
  unfolding parse_block
  parse_block-write_block title tags locked updated props body h b =
      ap (λ (p : Option Str × Str). block_of rx id p.0 p.1)
        (split_frontmatter-write_block title tags locked updated props body h b)
      ∙ block_of-entries (clean title tags locked updated props)
          (clean-IsWritable title tags locked updated props h) rx id (drop_newlines body)
          (unfold clean in keep_title-clean_text title)
