-- ===== src/Tests/Frontmatter.antt =====
-- Runs of the frontmatter reader and writer, on the texts of the tests in blockfile.rs.
use mkb.Base.{true, [], ◌∷◌, some, ◌≡◌, refl}
use mkb.Text.Chars.{Str, codes}
use mkb.Blockfile.Runs.{blockfile_code}
use mkb.Blockfile.Write.{write_block}
use mkb.Blockfile.Frontmatter.{split_frontmatter}
use mkb.Blockfile.Read.{parse_fm_tags, parse_fm_props}

abbrev written : Str
written =
    write_block (some (codes " A: \"b\" ")) (codes "k8s" ∷ codes "ops" ∷ []) true
      (some (codes "2026-06-24T02:30:00Z"))
      ((codes "source", codes "x: y") ∷ (codes "evil\nlocked", codes "true") ∷ [])
      (codes "\nbody\n")

written_text :
    written
    ≡ codes
        "---\ntitle: \"A: \\\"b\\\"\"\ntags: [k8s, ops]\nlocked: true\nupdated: 2026-06-24T02:30:00Z\nsource: \"x: y\"\n---\n\nbody\n"
unfolding blockfile_code
written_text = refl

split_text :
    split_frontmatter (codes "---\ntags:\n  - alpha\n  - beta\nsource: git\n---\nbody\n")
    ≡ (some (codes "tags:\n  - alpha\n  - beta\nsource: git\n"), codes "body\n")
unfolding blockfile_code
split_text = refl

read_text :
    (parse_fm_tags (codes "tags:\n  - alpha\n  - beta\nsource: git\n")
      ≡ codes "alpha" ∷ codes "beta" ∷ [])
    × (parse_fm_props (codes "tags:\n  - alpha\n  - beta\nsource: git\n")
        ≡ (codes "source", codes "git") ∷ [])
unfolding blockfile_code
read_text = (refl, refl)
