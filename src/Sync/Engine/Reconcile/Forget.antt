-- ===== src/Sync/Engine/Reconcile/Forget.antt =====
-- The second loop of `reconcile`.
use mkb.Base.{
  true, false, ◌≡◌, refl, sym, ap, subst, ◌∙◌, List, [], ◌∷◌, none, arith, if◌then◌else◌,
  Bool-cases, inl, inr,
}
use mkb.Text.Strings.{str_eq, str_eq_sound, str_eq_refl}
use mkb.Id.{BlockId}
use mkb.Platform.{Platform}
use mkb.Vault
use mkb.Vault.Resolve.{block-remove}
use mkb.Vault.Search.{id_eq_str, has, same}
use mkb.Sync.Host.{Host}
use mkb.Sync.Exec.{Exec, modify}
use mkb.Sync.Exec.Frame.{Frame, Frame-pure, Frame-bind}
use mkb.Sync.Exec.Ensures.{Ensures, Ensures-first, Ensures-last}
use mkb.Sync.Engine.{Engine, drop_block, drop_hash}
use mkb.Sync.Engine.Quiet.{part, on_index-Frame}
use mkb.Sync.Engine.Framed.{seen, view, drop_block-Frame, drop_hash-Frame}
use mkb.Sync.Engine.Stored.{in_vault}
use mkb.Sync.Engine.Reconcile.{forget, forget_all}

module _ (pf : Platform) (h : Host) (id : BlockId) where
  forget-Frame :
      (i : BlockId) → str_eq i.as_str id.as_str ≡ false → Frame (view pf h id) (forget pf h i)
  unfolding forget
  forget-Frame i other = Frame-bind _ _ (drop_block-Frame pf h id i other) λ _.
      Frame-bind _ _ (on_index-Frame pf h (seen pf h id) _) λ _. drop_hash-Frame pf h id i other

  pub drop_block-Ensures : Ensures (part h (in_vault pf h id)) none (drop_block pf h id)
  unfolding drop_block modify
  drop_block-Ensures = record {
    at = λ e o.
        block-remove pf e.vault id id
        ∙ ap (λ t. if t then none else Vault.block e.vault id) (str_eq_refl id.as_str);
  }

  pub drop_hash_quiet : (i : BlockId) → Frame (part h (in_vault pf h id)) (drop_hash pf h i)
  unfolding drop_hash modify
  drop_hash_quiet i = record { at = λ e. refl }

  forget-Ensures : Ensures (part h (in_vault pf h id)) none (forget pf h id)
  unfolding forget
  forget-Ensures =
      Ensures-first _ _ drop_block-Ensures
        λ _. Frame-bind _ _ (on_index-Frame pf h (in_vault pf h id) _) λ _. drop_hash_quiet id

  pub forget_all-Frame :
      (ids : List BlockId) → has id ids ≡ false → Frame (view pf h id) (forget_all pf h ids)
  unfolding forget_all
  forget_all-Frame [] n = Frame-pure []
  forget_all-Frame (i ∷ ids) n =
      Frame-bind _ _ (forget-Frame i (ground (arith, id_eq_str id i)))
        λ _. Frame-bind _ _ (forget_all-Frame ids (ground arith)) λ rest. Frame-pure _

  quiet :
      {A : Type 0} (m : Exec (Engine h) A)
      → Frame (view pf h id) m
      → Frame (part h (in_vault pf h id)) m
  quiet m f = record { at = λ e. ap (λ w. w.0) (f.at e) }

  forget_at : (i : BlockId) → i ≡ id → Ensures (part h (in_vault pf h id)) none (forget pf h i)
  forget_at i same =
      subst (λ j. Ensures (part h (in_vault pf h id)) none (forget pf h j)) (sym same)
        forget-Ensures

  pub forget_all-Ensures :
      (ids : List BlockId)
      → has id ids ≡ true
      → Ensures (part h (in_vault pf h id)) none (forget_all pf h ids)
  unfolding forget_all
  forget_all-Ensures [] m = ground arith
  forget_all-Ensures (i ∷ ids) m = elim (Bool-cases (has id ids)) [
    | inl later ↦
        Ensures-last _ _ λ _. Ensures-first _ _ (forget_all-Ensures ids later) λ rest. Frame-pure _
    | inr last ↦
        Ensures-first _ _
          (forget_at i (
            ap (λ k. record { as_str = k })
              (str_eq_sound i.as_str id.as_str (ground (arith, id_eq_str id i)))))
          λ _. Frame-bind _ _ (quiet _ (forget_all-Frame ids last)) λ rest. Frame-pure _
  ]
