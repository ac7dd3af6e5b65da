-- ===== src/Export/Plan/Answers.antt =====
-- When an export is planned, and when it is refused.
use mkb.Base.{
  not, ◌&&◌, ◌≡◌, refl, ap, ◌∙◌, List, [], ◌∷◌, Option, some, Result, ok, err, is_ok, is_none, all,
  arith, ◌>>=◌, Option-cases, inl, inr,
}
use mkb.Text.Chars.{Str}
use mkb.Map.{Map}
use mkb.Platform.{Platform}
use mkb.Vault
use mkb.Vault.{Vault}
use mkb.Vault.Resolve.{IsIndexed, resolve-known}
use mkb.Render.Flat.{render_flat_with, render_flat-total}
use mkb.Export.{ExportEntry, Manifest}
use mkb.Export.Plan.{set_paths, plan_doc_inner, set_for, plan_all, plan_exports}

is_ok-bind :
    {E A B : Type 0} (r : Result E A) (s : Result E B) {C : Type 0} (f : A → B → C)
    → is_ok (r >>= λ a. s >>= λ b. ok (f a b)) ≡ (is_ok r && is_ok s)
is_ok-bind (ok a) (ok b) f = refl
is_ok-bind (ok a) (err e) f = refl
is_ok-bind (err e) s f = refl

module _ (pf : Platform) (v : Vault) (indexed : IsIndexed v) where
  plan_doc_inner-is_ok :
      (paths : Option (Map Str)) (e : ExportEntry)
      → is_ok (plan_doc_inner pf v paths e) ≡ not (is_none (Vault.resolve pf v e.block))
  unfolding plan_doc_inner
  plan_doc_inner-is_ok paths e = elim (Option-cases (Vault.resolve pf v e.block)) [
    | inl n ↦ rw (plan_doc_inner, n) refl
    | inr (id, r) ↦ elim (Option-cases (render_flat_with pf v (set_for pf v paths e.path) id)) [
      | inl n ↦ absurd (
          ground (
            arith,
            render_flat-total pf v (set_for pf v paths e.path) id,
            resolve-known pf v e.block indexed r,
            ap is_none n,
          ))
      | inr (text, k) ↦ rw (plan_doc_inner, r, k) refl
    ]
  ]

  plan_all-is_ok :
      (paths : Option (Map Str)) (es : List ExportEntry)
      → is_ok (plan_all pf v paths es)
        ≡ all (λ (e : ExportEntry). not (is_none (Vault.resolve pf v e.block))) es
  unfolding plan_all
  plan_all-is_ok paths [] = refl
  plan_all-is_ok paths (e ∷ es) =
      is_ok-bind (plan_doc_inner pf v paths e) (plan_all pf v paths es) (λ doc docs. doc ∷ docs)
      ∙ ap (λ b. b && is_ok (plan_all pf v paths es)) (plan_doc_inner-is_ok paths e)
      ∙ ap (λ b. not (is_none (Vault.resolve pf v e.block)) && b) (plan_all-is_ok paths es)

  -- An export is planned exactly if the target of every entry resolves, whatever the blocks embed;
  -- if the titles lead to blocks of the vault.
  pub plan_exports-is_ok :
      (m : Manifest)
      → is_ok (plan_exports pf v m)
        ≡ all (λ (e : ExportEntry). not (is_none (Vault.resolve pf v e.block))) m.entries
  unfolding plan_exports
  plan_exports-is_ok m = plan_all-is_ok (some (set_paths pf v [] m.entries)) m.entries
