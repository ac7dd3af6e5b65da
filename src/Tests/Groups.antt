-- ===== src/Tests/Groups.antt =====
-- The tree views on the sample vault.
use mkb.Base.{◌≡◌, ◌&&◌, refl, [], ◌∷◌, any}
use mkb.Text.Chars.{Str, codes}
use mkb.Text.Runs.{text_code}
use mkb.Id.{id_eq}
use mkb.Base.{all}
use mkb.Index.Group.Blank.{is_blank_path, said}
use mkb.Vault.{blocks}
use mkb.Index.Group.{
  GroupBlockRef, property, placements, block_ref, group_blocks_by, values_of, group_segments,
}
use mkb.Index.Group.At.{segs_eq, at}
use mkb.Index.Group.Filed.{group_blocks_by-at, group_blocks_by-unfiled}
use mkb.Tests.Sample.{platform, engine, id_a, id_b, block_a}

abbrev source : Str
source = codes "source"

abbrev git : Str
git = codes "git"

filed : placements platform (property source) block_a ≡ (git ∷ []) ∷ []
unfolding text_code placements values_of group_segments
filed = refl

group_blocks_by-at_example :
    at
      (λ b. id_eq id_a b.id)
      (git ∷ [])
      (group_blocks_by platform engine.vault (property source)).roots
    ≡ any
        (λ b.
          any (λ segs. segs_eq segs (git ∷ [])) (placements platform (property source) b)
          && id_eq id_a (block_ref platform engine.vault b).id)
        (blocks engine.vault)
group_blocks_by-at_example =
    group_blocks_by-at (λ b. id_eq id_a b.id) git [] platform engine.vault (property source)

group_blocks_by-unfiled_example :
    any
      (λ (b : GroupBlockRef). id_eq id_b b.id)
      (group_blocks_by platform engine.vault (property source)).unfiled
    ≡ any
        (λ b.
          all is_blank_path (said (property source) b)
          && id_eq id_b (block_ref platform engine.vault b).id)
        (blocks engine.vault)
group_blocks_by-unfiled_example =
    group_blocks_by-unfiled (λ b. id_eq id_b b.id) platform engine.vault (property source)
