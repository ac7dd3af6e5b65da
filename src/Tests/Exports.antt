-- ===== src/Tests/Exports.antt =====
-- Exports on the sample vault.
use mkb.Base.{true, false, not, ◌≡◌, ◌↔◌, refl, [], ◌∷◌, some, is_none, is_ok, all}
use mkb.Text.Chars.{codes}
use mkb.Text.Runs.{text_code}
use mkb.Text.Strings.{str_eq}
use mkb.Block.{Block}
use mkb.Block.Views.{prop, find_prop}
use mkb.Vault
use mkb.Vault.{insert, empty}
use mkb.Vault.Search.{has}
use mkb.Vault.Resolve.{insert-IsIndexed}
use mkb.Render.Targets.{flat_reference_targets}
use mkb.Export.{
  ExportEntry, Manifest, slug, slug_from, path_prop_entry, file_name, directories, with_md_ext,
  merge_path_prop_entries,
}
use mkb.Export.Follow.{expand_follow_links}
use mkb.Export.Closure.{Linked}
use mkb.Export.Closed.{expand_follow_links_iff}
use mkb.Export.Merge.{paths, AllDiffer, Extends, merge_path_prop_entries-keeps}
use mkb.Export.Plan.{plan_exports}
use mkb.Export.Plan.Answers.{plan_exports-is_ok}
use mkb.Tests.Sample.{platform, engine, id_a, id_b, block_a}

readable : slug (codes " API: The Rules! ") ≡ codes "api-the-rules"
unfolding text_code slug slug_from
readable = refl

-- The name of a file is taken from its property as it is.
abbrev stray : Block
stray = record block_a {
  props = (codes "path", codes "docs/..") ∷ (codes "filename", codes "../../a.md") ∷ [];
}

outside :
    path_prop_entry stray false
    ≡ some (record { path = codes "docs/../../a.md"; block = id_a.as_str; raw = false })
unfolding text_code path_prop_entry file_name directories with_md_ext prop find_prop
outside = refl

abbrev listed : Manifest
listed = record {
  entries =
      record { path = codes "rules.md"; block = codes "Rules"; raw = false }
      ∷ record { path = codes "b.md"; block = id_b.as_str; raw = true }
      ∷ [];
}

listed-AllDiffer : AllDiffer (paths listed.entries)
unfolding str_eq
listed-AllDiffer = (refl, (refl, tt))

merge_path_prop_entries-keeps_example :
    Extends listed.entries (merge_path_prop_entries platform engine.vault listed).entries
    × AllDiffer (paths (merge_path_prop_entries platform engine.vault listed).entries)
merge_path_prop_entries-keeps_example =
    merge_path_prop_entries-keeps platform engine.vault listed listed-AllDiffer

expand_follow_links_iff_example :
    (has id_a (expand_follow_links platform engine.vault (id_b ∷ [])) ≡ true)
    ↔ Linked (flat_reference_targets platform engine.vault) (id_b ∷ []) id_a
expand_follow_links_iff_example = expand_follow_links_iff platform engine.vault (id_b ∷ []) id_a

plan_exports-is_ok_example :
    is_ok (plan_exports platform (insert platform empty block_a) listed)
    ≡ all
        (λ (e : ExportEntry).
          not (is_none (Vault.resolve platform (insert platform empty block_a) e.block)))
        listed.entries
plan_exports-is_ok_example =
    plan_exports-is_ok platform (insert platform empty block_a)
      (insert-IsIndexed platform empty block_a) listed
