-- ===== src/Blockfile/Parse.antt =====
-- `inline_tags` and `parse_block` of crates/mkb-core/src/blockfile.rs. The two regular
-- expressions are run by the `regex` crate, so what they find is a parameter.
use mkb.Base.{false, List, [], ◌∷◌, Option, none, some, if◌then◌else◌}
use mkb.Text.Chars.{Str}
use mkb.Text.Strings.{is_empty}
use mkb.Text.Trim.{trim}
use mkb.Id.{BlockId}
use mkb.Block.{Block}
use mkb.Blockfile.Keys.{title_key, updated_key}
use mkb.Blockfile.Frontmatter.{split_frontmatter}
use mkb.Blockfile.Read.{parse_named_scalar, parse_locked, parse_fm_tags, parse_fm_props}
use mkb.Blockfile.Code.{mask_code_spans, non_code_lines, add_text, code_langs}

-- `link_dest_re().replace_all(line, "]")`, and the first groups of
-- `inline_tag_re().captures_iter(line)`.
pub record TagRegexes : Type 0 where
  pub drop_link_dests : Str → Str
  pub tag_captures : Str → List Str

unfoldable pub add_all : List Str → List Str → List Str
add_all out [] = out
add_all out (t ∷ ts) = add_all (add_text out t) ts

-- A title of blanks is no title.
unfoldable pub keep_title : Option Str → Option Str
keep_title none = none
keep_title (some t) = if is_empty (trim t) then none else some t

module _ (rx : TagRegexes) where
  unfoldable pub mask_inline_noise : Str → Str
  mask_inline_noise line = rx.drop_link_dests (mask_code_spans line)

  unfoldable pub tags_of_lines : List Str → List Str → List Str
  unfolding add_all mask_inline_noise
  tags_of_lines out [] = out
  tags_of_lines out (line ∷ rest) =
      tags_of_lines (add_all out (rx.tag_captures (mask_inline_noise line))) rest

  unfoldable pub inline_tags : Str → List Str
  unfolding tags_of_lines
  inline_tags body = tags_of_lines [] (non_code_lines body)

  unfoldable pub block_of : BlockId → Option Str → Str → Block
  unfolding keep_title add_all
  block_of id frontmatter body = elim frontmatter [
    | none ↦ record {
      id = id;
      title = none;
      tags = add_all [] (inline_tags body);
      fm_tags = [];
      langs = code_langs body;
      locked = false;
      props = [];
      updated = none;
      body = body;
    }
    | some fm ↦ record {
      id = id;
      title = keep_title (parse_named_scalar fm title_key);
      tags = add_all (parse_fm_tags fm) (inline_tags body);
      fm_tags = parse_fm_tags fm;
      langs = code_langs body;
      locked = parse_locked fm;
      props = parse_fm_props fm;
      updated = parse_named_scalar fm updated_key;
      body = body;
    }
  ]

  unfoldable pub parse_block : BlockId → Str → Block
  unfolding block_of
  parse_block id source =
      let (frontmatter, body) = split_frontmatter source in block_of id frontmatter body
