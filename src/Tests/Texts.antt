-- ===== src/Tests/Texts.antt =====
-- The theorems on scalars, edits, paths and masks, at concrete texts.
use mkb.Base.{ℕ, ◌≡◌, ◌≢◌, ◌↔◌, refl, [], ok, All}
use mkb.Text.Chars.{codes, newline, Lacks}
use mkb.Text.Lines.{split}
use mkb.Text.Replace.{replace, count_matches}
use mkb.Text.Runs.{text_code}
use mkb.Edit.{exact_replace}
use mkb.Edit.Replace.{exact_replace_iff}
use mkb.Paths.{forward_slashes, safe_relative_path, sanitize_asset_filename, slash}
use mkb.Paths.Confined.{IsPlain, safe_relative_path-IsPlain}
use mkb.Paths.FileName.{IsFileName, sanitize_asset_filename-IsFileName}
use mkb.Blockfile.Scalar.{parse_scalar, yaml_scalar}
use mkb.Blockfile.Scalar.RoundTrip.{parse_scalar-yaml_scalar, yaml_scalar-Lacks}

parse_scalar-yaml_scalar_example :
    parse_scalar (yaml_scalar (codes "a: \"b\"\n")) ≡ codes "a: \"b\"\n"
parse_scalar-yaml_scalar_example = parse_scalar-yaml_scalar (codes "a: \"b\"\n")

yaml_scalar-Lacks_example : Lacks newline (yaml_scalar (codes "x\nlocked: true"))
yaml_scalar-Lacks_example = yaml_scalar-Lacks (codes "x\nlocked: true")

abbrev twice : ℕ
twice = 2

exact_replace_iff_example :
    (exact_replace (codes "a b a") (codes "a") (codes "c") twice ≡ ok (codes "c b c")) ↔ (
      (codes "a" ≢ [])
      × (twice ≢ 0)
      × (count_matches (codes "a b a") (codes "a") ≡ twice)
      × (codes "c b c" ≡ replace (codes "a b a") (codes "a") (codes "c")))
exact_replace_iff_example =
    exact_replace_iff (codes "a b a") (codes "a") (codes "c") twice (codes "c b c")

replaced : exact_replace (codes "a b a") (codes "a") (codes "cd") 2 ≡ ok (codes "cd b cd")
unfolding exact_replace text_code
replaced = refl

accepted : safe_relative_path (codes "blocks/./a.md") ≡ ok (codes "blocks/a.md")
unfolding safe_relative_path text_code forward_slashes
accepted = refl

safe_relative_path-IsPlain_example : All IsPlain (split slash (codes "blocks/a.md"))
safe_relative_path-IsPlain_example = safe_relative_path-IsPlain (codes "blocks/./a.md") accepted

sanitize_asset_filename-IsFileName_example :
    IsFileName (sanitize_asset_filename (codes "../../etc/pass wd.tar.gz"))
sanitize_asset_filename-IsFileName_example =
    sanitize_asset_filename-IsFileName (codes "../../etc/pass wd.tar.gz")
