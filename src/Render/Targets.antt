-- ===== src/Render/Targets.antt =====
-- `flat_reference_targets` of crates/mkb-core/src/render.rs: what a flat text refers to.
pub mod Collected
pub mod Loop
pub mod Exact
use mkb.Base.{
  ℕ, zero, suc, Bool, true, false, List, [], ◌∷◌, ◌++◌, Option, none, some, if◌then◌else◌,
  unwrap_or, length,
}
use mkb.Id.{BlockId}
use mkb.Block.{Block}
use mkb.Link.{Reference, extract_references}
use mkb.Platform.{Platform}
use mkb.Vault
use mkb.Vault.{Vault}
use mkb.Vault.Search.{has}

-- `seen` and `out` of `collect_flat_ref_targets`
pub record Collector : Type 0 where
  pub seen : List BlockId
  pub out : List BlockId

abbrev pub nothing : Collector
nothing = record { seen = []; out = [] }

unfoldable pub add_target : BlockId → Collector → Collector
add_target t s = if has t s.out then s else record s { out = s.out ++ t ∷ [] }

module _ (pf : Platform) (v : Vault) where
  -- The references of one block, with the walk into a block that is embedded.
  unfoldable pub collect_from :
      (BlockId → Collector → Option Collector) → List Reference → Collector → Option Collector
  unfolding add_target
  collect_from walk [] s = some s
  collect_from walk (r ∷ rs) s = elim (Vault.resolve pf v r.target) [
    | none ↦ collect_from walk rs s
    | some t ↦ elim r.embed [
      | true ↦ elim (walk t s) [ none ↦ none | some s' ↦ collect_from walk rs s' ]
      | false ↦ collect_from walk rs (add_target t s)
    ]
  ]

  unfoldable pub see : BlockId → Collector → Collector
  see id s = record s { seen = id ∷ s.seen }

  -- The fuel bounds how deep embeds nest.
  unfoldable pub collect_flat_ref_targets : ℕ → BlockId → Collector → Option Collector
  unfolding collect_from see
  collect_flat_ref_targets zero id s = none
  collect_flat_ref_targets (suc fuel) id s = elim (has id s.seen) [
    | true ↦ some s
    | false ↦ elim (Vault.block v id) [
      | none ↦ some (see id s)
      | some b ↦
          collect_from (collect_flat_ref_targets fuel) (extract_references pf.ref_captures b.body)
            (see id s)
    ]
  ]

  unfoldable pub flat_reference_targets : BlockId → List BlockId
  flat_reference_targets id =
      (unwrap_or (collect_flat_ref_targets (suc (length (Vault.ids v))) id nothing) nothing).out
