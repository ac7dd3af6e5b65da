-- ===== src/Tests/Props.antt =====
-- The theorems on properties, and runs of the cutting of directives.
use mkb.Base.{◌≡◌, refl, List, [], ◌∷◌, none, some}
use mkb.Text.Chars.{Str, codes}
use mkb.Text.Runs.{text_code}
use mkb.Blockfile.Write.{Prop}
use mkb.Map
use mkb.Vault
use mkb.Sync.Engine.Unlink.{cut_spans, sort_spans}

abbrev new : List Prop
new = (codes " Owner ", codes "bob") ∷ (codes "area", codes "ops") ∷ []

abbrev now : Str
now = codes "2026-06-24T02:30:00Z"

-- Two directives on one line have one span, which is cut twice: what follows goes with it,
text_behind :
    cut_spans (codes "ab\nand text\n") (sort_spans ((0, 2) ∷ (0, 2) ∷ [])) ≡ some (codes "d text\n")
unfolding text_code cut_spans sort_spans
text_behind = refl

-- or there is nothing left to cut, which is a panic.
nothing_behind : cut_spans (codes "ab\n") (sort_spans ((0, 2) ∷ (0, 2) ∷ [])) ≡ none
unfolding text_code cut_spans sort_spans
nothing_behind = refl

abbrev tags : List Str
tags = codes " Ops" ∷ codes "ops" ∷ codes " " ∷ codes "k8s" ∷ []
