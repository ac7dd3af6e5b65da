-- ===== src/Blockfile/Runs.antt =====
-- One name that opens the code of blockfile.rs, for runs on concrete inputs.
use mkb.Text.Runs.{text_code}
use mkb.Blockfile.Scalar.{
  is_plain_yaml_safe, escape_char, escape, yaml_scalar, unescape_char, unescape, unquote,
  parse_trimmed, parse_scalar,
}
use mkb.Blockfile.Keys.{is_managed_key, is_key_char, is_prop_key}
use mkb.Blockfile.Write.{clean_text, clean_tags, clean_props, entry_text, clean, write_block}
use mkb.Blockfile.Frontmatter.{find_close, after_newline, strip_blank_line, split_frontmatter}
use mkb.Blockfile.Read.{
  field_of, named_scalar, parse_named_scalar, is_truthy, locked_in, parse_locked, tag_text,
  keep_tag, keep_tags, flow_tags, tags_in, parse_fm_tags, has_prop, prop_of, add_prop,
  collect_props, parse_fm_props,
}

unfoldable pub blockfile_code : Unit {0}
unfolding text_code is_plain_yaml_safe escape_char escape yaml_scalar unescape_char unescape unquote
    parse_trimmed parse_scalar is_managed_key is_key_char is_prop_key clean_text clean_tags
    clean_props entry_text clean write_block find_close after_newline strip_blank_line
    split_frontmatter field_of named_scalar parse_named_scalar is_truthy locked_in parse_locked
    tag_text keep_tag keep_tags flow_tags tags_in parse_fm_tags has_prop prop_of add_prop
    collect_props parse_fm_props
blockfile_code = tt
