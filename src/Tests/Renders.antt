-- ===== src/Tests/Renders.antt =====
-- Rendering, the links of exported files and lineages, on the sample vault.
use mkb.Base.{[], false}
use mkb.Index.Hierarchy.{hierarchy_tree}
use mkb.Index.Hierarchy.Ends.{hierarchy_tree-total}
use mkb.Render.Targets.{flat_reference_targets}
use mkb.Render.Targets.Collected.{Referred}
use mkb.Render.Targets.Exact.{flat_reference_targets_iff}
use mkb.Vault.Search.{has}
use mkb.Base.{true, ◌≡◌, ◌↔◌, refl, none, is_none, any}
use mkb.Text.Chars.{Str, codes}
use mkb.Text.Lines.{split}
use mkb.Text.Runs.{text_code}
use mkb.Id.{id_eq}
use mkb.Vault
use mkb.Vault.{transcluded_by}
use mkb.Vault.Reach.{Steps}
use mkb.Vault.Lineage.{Crumb, lineage}
use mkb.Vault.Lineage.Roots.{lineage-roots_iff}
use mkb.Blockfile.Write.{is_nil}
use mkb.Render.Links.{slash, relative_link, common_dirs}
use mkb.Render.Cards.{render_block}
use mkb.Render.Ends.{render_block-total}
use mkb.Render.Flat.{render_flat_with, render_flat-total}
use mkb.Render.Follow.{IsNamed, dirs_of, follow, follow-relative_link}
use mkb.Tests.Sample.{platform, engine, id_a, id_b}

abbrev guide : Str
guide = codes "docs/guide.md"

abbrev setup : Str
setup = codes "docs/ops/setup.md"

up_and_down : relative_link (codes "docs/a/b.md") setup ≡ codes "../ops/setup.md"
unfolding text_code relative_link common_dirs
up_and_down = refl

setup-IsNamed : IsNamed (split slash setup)
unfolding text_code
setup-IsNamed = (refl, (refl, (refl, tt)))

guide-IsNamed : IsNamed (split slash guide)
unfolding text_code
guide-IsNamed = (refl, (refl, tt))

follow-relative_link_example :
    follow (follow [] (dirs_of guide)) (split slash (relative_link guide setup))
    ≡ follow [] (split slash setup)
follow-relative_link_example = follow-relative_link guide setup guide-IsNamed setup-IsNamed

render_block-total_example :
    is_none (render_block platform engine.vault id_b) ≡ is_none (Vault.block engine.vault id_b)
render_block-total_example = render_block-total platform engine.vault id_b

render_flat-total_example :
    is_none (render_flat_with platform engine.vault none id_b)
    ≡ is_none (Vault.block engine.vault id_b)
render_flat-total_example = render_flat-total platform engine.vault none id_b

lineage-roots_iff_example :
    (any (λ (c : Crumb). id_eq id_b c.id) (lineage platform engine.vault id_a).roots ≡ true) ↔ (
      Steps (transcluded_by platform engine.vault) id_a id_b
      × (is_nil (transcluded_by platform engine.vault id_b) ≡ true))
lineage-roots_iff_example = lineage-roots_iff platform engine.vault id_a id_b

flat_reference_targets_iff_example :
    (has id_a (flat_reference_targets platform engine.vault id_b) ≡ true)
    ↔ Referred platform engine.vault id_b id_a
flat_reference_targets_iff_example = flat_reference_targets_iff platform engine.vault id_b id_a

hierarchy_tree-total_example : is_none (hierarchy_tree platform engine.vault) ≡ false
hierarchy_tree-total_example = hierarchy_tree-total platform engine.vault
