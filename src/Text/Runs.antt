-- ===== src/Text/Runs.antt =====
-- One name that opens the code of the text library, for runs on concrete inputs.
use mkb.Text.Chars.{
  is_whitespace, is_control, is_ascii_alphabetic, is_ascii_alphanumeric, to_ascii_lowercase,
  len_utf8,
}
use mkb.Text.Strings.{
  str_eq, byte_len, eq_ignore_ascii_case, strip_prefix, starts_with, strip_suffix, ends_with,
  contains_char, contains, split_once, concat, join,
}
use mkb.Text.Trim.{
  trim_start_matches, trim_end_matches, trim_matches, keep_end, trim_start, trim_end, trim,
}
use mkb.Text.Lines.{split_inclusive, strip_eol, lines, split}
use mkb.Text.Replace.{replace_from, replace, count_from, count_matches}

unfoldable pub text_code : Unit {0}
unfolding is_whitespace is_control is_ascii_alphabetic is_ascii_alphanumeric to_ascii_lowercase
    len_utf8 str_eq byte_len eq_ignore_ascii_case strip_prefix starts_with strip_suffix ends_with
    contains_char contains split_once concat join trim_start_matches trim_end_matches trim_matches
    keep_end trim_start trim_end trim split_inclusive strip_eol lines split replace_from replace
    count_from count_matches
text_code = tt
