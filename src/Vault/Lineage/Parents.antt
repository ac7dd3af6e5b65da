-- ===== src/Vault/Lineage/Parents.antt =====
-- The parent map has the blocks that embed a block.
use mkb.Base.{
  ◌||◌, ◌&&◌, ◌≡◌, ap, sym, ◌∙◌, List, [], ◌∷◌, ◌++◌, arith, any, if◌then◌else◌, Bool-cases, inl,
  inr,
}
use mkb.Text.Strings.{str_eq}
use mkb.Id.{BlockId, id_eq}
use mkb.Map
use mkb.Map.{Map, get-insert, str_eq_iff}
use mkb.Platform.{Platform}
use mkb.Vault.{Vault, ids, children, transcluded_by}
use mkb.Vault.Search.{id_eq_str, has-filter, has, same, any-append}
use mkb.Vault.Lineage.{parents_of, add_parents, add_all_parents, embed_parent_map}

parents_of-insert :
    (m : Map (List BlockId)) (child id : BlockId) (ps : List BlockId)
    → parents_of (Map.insert child.as_str ps m) id
      ≡ (if str_eq child.as_str id.as_str then ps else parents_of m id)
parents_of-insert m child id ps = ground (arith, get-insert child.as_str id.as_str ps m)

has-inserted :
    (x id p c : BlockId) (m : Map (List BlockId))
    → has x (parents_of (Map.insert c.as_str (parents_of m c ++ p ∷ []) m) id)
      ≡ (has x (parents_of m id) || (id_eq id c && id_eq x p))
has-inserted x id p c m =
    ap (has x) (parents_of-insert m c id (parents_of m c ++ p ∷ []))
    ∙ elim (Bool-cases (id_eq id c)) [
      | inl e ↦ ground (
        arith,
        id_eq_str id c,
        any-append (id_eq x) (parents_of m c) (p ∷ []),
        same (λ k. has x (parents_of m k)) id c e,
      )
      | inr n ↦ ground (arith, id_eq_str id c)
    ]

has-add_parents :
    (x id p : BlockId) (cs : List BlockId) (m : Map (List BlockId))
    → has x (parents_of (add_parents m p cs) id)
      ≡ (has x (parents_of m id) || (has id cs && id_eq x p))
unfolding add_parents
has-add_parents x id p [] m = ground arith
has-add_parents x id p (c ∷ cs) m =
    has-add_parents x id p cs (Map.insert c.as_str (parents_of m c ++ p ∷ []) m)
    ∙ ground (arith, has-inserted x id p c m)

has-add_all_parents :
    (next : BlockId → List BlockId) (x id : BlockId) (ps : List BlockId) (m : Map (List BlockId))
    → has x (parents_of (add_all_parents next m ps) id)
      ≡ (has x (parents_of m id) || (has x ps && has id (next x)))
unfolding add_all_parents
has-add_all_parents next x id [] m = ground arith
has-add_all_parents next x id (p ∷ ps) m =
    has-add_all_parents next x id ps (add_parents m p (next p))
    ∙ ground (arith, has-add_parents x id p (next p) m, same (λ k. has id (next k)) x p)

module _ (pf : Platform) (v : Vault) where
  -- The parent map gives for each block exactly the blocks that `transcluded_by` gives.
  pub embed_parent_map-transcluded_by :
      (id x : BlockId)
      → has x (parents_of (embed_parent_map pf v) id) ≡ has x (transcluded_by pf v id)
  unfolding embed_parent_map transcluded_by Map.get
  embed_parent_map-transcluded_by id x =
      has-add_all_parents (children pf v) x id (ids v) []
      ∙ sym (has-filter (λ p. any (id_eq id) (children pf v p)) x (ids v))
