-- ===== src/Render/Ends.antt =====
-- `render_block` ends: the visited blocks on the way down are all different.
use mkb.Base.{
  subst, drop, ◌-◌, take, ◌++◌, ℕ, zero, suc, ◌<◌, Bool, true, false, ◌≡◌, List, [], ◌∷◌, none,
  some, is_none, arith, Bool-cases, Option-cases, inl, inr, refl, ap, sym, ◌∙◌, if◌then◌else◌,
  Option,
}
use mkb.Text.Chars.{Str}
use mkb.Id.{BlockId}
use mkb.Block.{Block}
use mkb.Blockfile.Write.{is_nil}
use mkb.Link.{Reference, label, extract_references}
use mkb.Platform.{Platform}
use mkb.Vault
use mkb.Vault.{Vault}
use mkb.Vault.Search.{has}
use mkb.Render.Links.{render_reference}
use mkb.Render.Unvisited.{map-is_some, unvisited, unvisited-length, unvisited-visit}
use mkb.Render.Cards.{
  directive, substitute, Embedded, dangling, cyclic, found, embedded, resolve_embed, render_body,
  render_block,
}

pub substitute-is_some :
    (f : Str → Reference → Option Str) (body : Str)
    → ((out : Str) (r : Reference) → is_none (f out r) ≡ false)
    → (cursor : ℕ) (out : Str) (rs : List Reference)
    → is_none (substitute f body cursor out rs) ≡ false
unfolding substitute
substitute-is_some f body h cursor out [] = refl
substitute-is_some f body h cursor out (r ∷ rs) =
    let before = out ++ take (r.start - cursor) (drop cursor body) in
    elim (Option-cases (f before r)) [
      | inl e ↦ ground (arith, h before r, ap is_none e)
      | inr (t, e) ↦ rw (substitute, e) (substitute-is_some f body h r.end (before ++ t) rs)
    ]

pub if-is_some :
    (m : Bool) (o p : Option Str)
    → is_none o ≡ false
    → is_none p ≡ false
    → is_none (if m then o else p) ≡ false
if-is_some true o p h k = h
if-is_some false o p h k = k

-- The answers `found` tells apart from the others.
abbrev FoundAs : Embedded → BlockId → Block → Type 0
FoundAs dangling id b = ⊥
FoundAs (cyclic i) id b = ⊥
FoundAs (found i c) id b = (i ≡ id) × (c ≡ b)

module _ (pf : Platform) (v : Vault) where
  found_in_vault :
      (i : BlockId) (visited : List BlockId) (o : Option Block)
      → Vault.block v i ≡ o
      → has i visited ≡ false
      → (id : BlockId) (b : Block) → FoundAs (elim o [ none ↦ dangling | some b ↦ found i b ]) id b
      → (Vault.block v id ≡ some b) × (has id visited ≡ false)
  found_in_vault i visited none k n id b e = elim e [ ]
  found_in_vault i visited (some c) k n id b (e, d) = (
    subst (λ j. Vault.block v j ≡ some b) e (k ∙ ap some d),
    subst (λ j. has j visited ≡ false) e n,
  )

  found_at :
      (o : Option BlockId) (visited : List BlockId)
      → (id : BlockId) (b : Block)
      → FoundAs
          (elim o [
            | none ↦ dangling
            | some i ↦
                if has i visited
                then cyclic i
                else elim (Vault.block v i) [ none ↦ dangling | some b ↦ found i b ]
          ])
          id
          b
      → (Vault.block v id ≡ some b) × (has id visited ≡ false)
  found_at none visited id b e = elim e [ ]
  found_at (some i) visited id b e = elim (Bool-cases (has i visited)) [
    | inl m ↦ elim (rw m at e) [ ]
    | inr n ↦ found_in_vault i visited (Vault.block v i) refl n id b (rw n at e)
  ]

  -- What is embedded is in the vault and was not visited.
  pub embedded-found :
      (visited : List BlockId) (target : Str) (id : BlockId) (b : Block)
      → embedded pf v visited target ≡ found id b
      → (Vault.block v id ≡ some b) × (has id visited ≡ false)
  unfolding embedded
  embedded-found visited target id b e =
      found_at (Vault.resolve pf v target) visited id b
        (subst (λ x. FoundAs x id b) (sym e) (refl, refl))

  Ends : ℕ → Block → List BlockId → Type 0
  Ends fuel b visited = is_none (render_body pf v fuel b visited) ≡ false

  resolve_embed-is_some :
      (render : Block → List BlockId → Option Str) (visited : List BlockId) (target label : Str)
      → ((id : BlockId) (b : Block)
          → unvisited (Vault.ids v) (id ∷ visited) < unvisited (Vault.ids v) visited
          → is_none (render b (id ∷ visited)) ≡ false)
      → (x : Embedded) → embedded pf v visited target ≡ x
      → is_none (resolve_embed pf v render visited target label) ≡ false
  unfolding resolve_embed
  resolve_embed-is_some render visited target label h dangling e = rw (resolve_embed, e) refl
  resolve_embed-is_some render visited target label h (cyclic i) e = rw (resolve_embed, e) refl
  resolve_embed-is_some render visited target label h (found id b) e =
      let (known, new) = embedded-found visited target id b e in
      rw (resolve_embed, e) (map-is_some _ _ (h id b (unvisited-visit pf v id b visited known new)))

  directive-is_some :
      (render : Block → List BlockId → Option Str) (visited : List BlockId)
      → ((id : BlockId) (b : Block)
          → unvisited (Vault.ids v) (id ∷ visited) < unvisited (Vault.ids v) visited
          → is_none (render b (id ∷ visited)) ≡ false)
      → (out : Str) (r : Reference) → is_none (directive pf v render visited out r) ≡ false
  unfolding directive
  directive-is_some render visited h out r =
      if-is_some r.embed _ (some (render_reference pf v r.target (label r)))
        (resolve_embed-is_some render visited r.target (label r) h _ refl) refl

  -- With more fuel than there are unvisited blocks, a rendering gives a result.
  render_body-is_some :
      (fuel : ℕ) (b : Block) (visited : List BlockId)
      → unvisited (Vault.ids v) visited < fuel
      → is_none (render_body pf v fuel b visited) ≡ false
  unfolding render_body
  render_body-is_some zero b visited h = ground arith
  render_body-is_some (suc fuel) b visited h =
      let refs = extract_references pf.ref_captures b.body in
      if-is_some (is_nil refs) (some b.body)
        (substitute (directive pf v (render_body pf v fuel) visited) b.body 0 [] refs) refl
        (substitute-is_some (directive pf v (render_body pf v fuel) visited) b.body
          (directive-is_some (render_body pf v fuel) visited
            λ i c less. render_body-is_some fuel c (i ∷ visited) (omega (arith, less, h)))
          0 [] refs)

  -- Rendering ends: it gives a text for each block of the vault, whatever cycles its embeds make,
  -- and none for an id that is not in the vault.
  pub render_block-total :
      (id : BlockId) → is_none (render_block pf v id) ≡ is_none (Vault.block v id)
  unfolding render_block
  render_block-total id = elim (Option-cases (Vault.block v id)) [
    | inl e ↦ rw (render_block, e) refl
    | inr (b, e) ↦
        rw (render_block, e)
          (render_body-is_some _ b _ (omega (arith, unvisited-length (Vault.ids v) (id ∷ []))))
  ]
