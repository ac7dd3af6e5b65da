-- ===== src/Render/Flat.antt =====
-- `render_flat` of crates/mkb-core/src/render.rs: embeds are dissolved into the text.
use mathlib.Core.Option
use mkb.Base.{
  ℕ, zero, suc, ◌++◌, ◌<◌, false, ◌≡◌, refl, List, [], ◌∷◌, Option, none, some, is_none, arith,
  if◌then◌else◌, ◌==◌, Option-cases, inl, inr,
}
use mkb.Text.Chars.{Str, codes, newline}
use mkb.Text.Trim.{trim_matches}
use mkb.Id.{BlockId}
use mkb.Block.{Block}
use mkb.Blockfile.Write.{is_nil}
use mkb.Link.{Reference, label, extract_references}
use mkb.Platform.{Platform}
use mkb.Vault
use mkb.Vault.{Vault}
use mkb.Render.{current_line_width, reindent_continuation}
use mkb.Render.Links.{FlatSet, flat_reference}
use mkb.Render.Cards.{substitute, Embedded, dangling, cyclic, found, embedded, depth}
use mkb.Render.Unvisited.{map-is_some, unvisited, unvisited-length, unvisited-visit}
use mkb.Render.Ends.{substitute-is_some, if-is_some, embedded-found}

-- `<!-- mkb: … -->`
abbrev comment : Str → Str
comment text = codes "<!-- mkb: " ++ (text ++ codes " -->")

module _ (pf : Platform) (v : Vault) where
  unfoldable pub dissolve_embed :
      (Block → List BlockId → Option Str) → List BlockId → Str → Str → Option Str
  dissolve_embed render visited target label = elim (embedded pf v visited target) [
    | dangling ↦ some (comment (codes "unresolved embed: " ++ target))
    | cyclic id ↦ some (comment (codes "transclusion cycle at " ++ label))
    | found id b ↦ Option.map (trim_matches (λ c. c == newline)) (render b (id ∷ visited))
  ]

  -- What is put in place of a directive: an embed is indented like the text in front of it.
  unfoldable pub flat_directive :
      Option FlatSet
      → (Block → List BlockId → Option Str)
      → List BlockId
      → Str
      → Reference
      → Option Str
  unfolding dissolve_embed
  flat_directive set render visited out r =
      if r.embed
      then Option.map (λ (t : Str). reindent_continuation t (current_line_width out))
          (dissolve_embed render visited r.target (label r))
      else some (flat_reference pf v set r.target (label r))

  unfoldable pub render_flat_body : Option FlatSet → ℕ → Block → List BlockId → Option Str
  unfolding flat_directive
  render_flat_body set zero b visited = none
  render_flat_body set (suc fuel) b visited =
      let refs = extract_references pf.ref_captures b.body in
      if is_nil refs
      then some b.body
      else substitute (flat_directive set (render_flat_body set fuel) visited) b.body 0 [] refs

  unfoldable pub render_flat_with : Option FlatSet → BlockId → Option Str
  render_flat_with set id = elim (Vault.block v id) [
    | none ↦ none
    | some b ↦ render_flat_body set (depth pf v) b (id ∷ [])
  ]

  abbrev pub render_flat : BlockId → Option Str
  render_flat = render_flat_with none

  abbrev pub render_flat_in_set : BlockId → FlatSet → Option Str
  render_flat_in_set id set = render_flat_with (some set) id

  dissolve_embed-is_some :
      (render : Block → List BlockId → Option Str) (visited : List BlockId) (target label : Str)
      → ((id : BlockId) (b : Block)
          → unvisited (Vault.ids v) (id ∷ visited) < unvisited (Vault.ids v) visited
          → is_none (render b (id ∷ visited)) ≡ false)
      → (x : Embedded) → embedded pf v visited target ≡ x
      → is_none (dissolve_embed render visited target label) ≡ false
  unfolding dissolve_embed
  dissolve_embed-is_some render visited target label h dangling e = rw (dissolve_embed, e) refl
  dissolve_embed-is_some render visited target label h (cyclic i) e = rw (dissolve_embed, e) refl
  dissolve_embed-is_some render visited target label h (found id b) e =
      let (known, new) = embedded-found pf v visited target id b e in
      rw (dissolve_embed, e)
        (map-is_some _ _ (h id b (unvisited-visit pf v id b visited known new)))

  flat_directive-is_some :
      (set : Option FlatSet) (render : Block → List BlockId → Option Str) (visited : List BlockId)
      → ((id : BlockId) (b : Block)
          → unvisited (Vault.ids v) (id ∷ visited) < unvisited (Vault.ids v) visited
          → is_none (render b (id ∷ visited)) ≡ false)
      → (out : Str) (r : Reference) → is_none (flat_directive set render visited out r) ≡ false
  unfolding flat_directive
  flat_directive-is_some set render visited h out r =
      if-is_some r.embed _ (some (flat_reference pf v set r.target (label r)))
        (map-is_some _ _ (dissolve_embed-is_some render visited r.target (label r) h _ refl)) refl

  render_flat_body-is_some :
      (set : Option FlatSet) (fuel : ℕ) (b : Block) (visited : List BlockId)
      → unvisited (Vault.ids v) visited < fuel
      → is_none (render_flat_body set fuel b visited) ≡ false
  unfolding render_flat_body
  render_flat_body-is_some set zero b visited h = ground arith
  render_flat_body-is_some set (suc fuel) b visited h =
      let refs = extract_references pf.ref_captures b.body in
      let replaced = flat_directive set (render_flat_body set fuel) visited in
      if-is_some (is_nil refs) (some b.body) (substitute replaced b.body 0 [] refs) refl (
        substitute-is_some replaced b.body
          (flat_directive-is_some set (render_flat_body set fuel) visited
            λ i c less. render_flat_body-is_some set fuel c (i ∷ visited) (omega (arith, less, h)))
          0 [] refs)

  -- Flat rendering ends, for one block or for one of an exported set: it gives a text for each
  -- block of the vault, whatever cycles its embeds make, and none for an id that is not in it.
  pub render_flat-total :
      (set : Option FlatSet) (id : BlockId)
      → is_none (render_flat_with set id) ≡ is_none (Vault.block v id)
  unfolding render_flat_with
  render_flat-total set id = elim (Option-cases (Vault.block v id)) [
    | inl e ↦ rw (render_flat_with, e) refl
    | inr (b, e) ↦
        rw (render_flat_with, e)
          (render_flat_body-is_some set _ b _
            (omega (arith, unvisited-length (Vault.ids v) (id ∷ []))))
  ]
