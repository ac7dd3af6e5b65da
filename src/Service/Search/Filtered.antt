-- ===== src/Service/Search/Filtered.antt =====
-- What the answer of a search with filters holds.
use mkb.Base.{
  true, ◌>>=◌, ◌++◌, ◌∷◌, [], ℕ, zero, suc, drop, is_ok, All-map, All-take, All-filter, filter-All,
  All-image, length-map_same, length-take, max, min, subst, ◌>>◌, ◌≡◌, refl, ap, ◌∙◌, List, map,
  Option, none, some, Result, ok, err, arith, filter, take, length, All,
}
use mkb.Text.Chars.{Str}
use mkb.Block.{Block}
use mkb.Access.{RequestContext}
use mkb.Index.{BlockRecord}
use mkb.Index.Query.{effective_limit}
use mkb.Platform.{Platform}
use mkb.Sync.Host.{Host, IndexError}
use mkb.Sync.Engine.{Engine}
use mkb.Vault
use mkb.Vault.Lineage.{lineage}
use mkb.Service.Search.{
  Reader, Hit, Query, overlay_metadata, with_metadata, overlaid, with_lineage, post_filter,
  narrowed, matches, engine_query, engine_search, search,
}

-- The value of a result, if it has one.
abbrev got : {A : Type 0} → A → Result IndexError A → A
got a (ok b) = b
got a (err x) = a

ok-injective : {A : Type 0} {a b : A} → ◌≡◌ {A = Result IndexError A} (ok a) (ok b) → a ≡ b
ok-injective {A} {a} q = ap (got a) q

with_metadata-id :
    (c : Option Str) (o : Option Block) (rec : BlockRecord) → (with_metadata c o rec).id ≡ rec.id
with_metadata-id c none rec = refl
with_metadata-id c (some b) rec = refl

with_metadata-with_metadata :
    (c : Option Str) (o : Option Block) (rec : BlockRecord)
    → with_metadata c o (with_metadata c o rec) ≡ with_metadata c o rec
with_metadata-with_metadata c none rec = refl
with_metadata-with_metadata c (some b) rec = refl

module _ (pf : Platform) (v : Vault.Vault) where
  overlay_metadata-overlay_metadata :
      (rec : BlockRecord)
      → overlay_metadata pf v (overlay_metadata pf v rec) ≡ overlay_metadata pf v rec
  unfolding overlay_metadata
  overlay_metadata-overlay_metadata rec =
      let created = pf.created_rfc3339 rec.id in
      let b = Vault.block v rec.id in
      ap (λ i. with_metadata (pf.created_rfc3339 i) (Vault.block v i) (with_metadata created b rec))
        (with_metadata-id created b rec)
      ∙ with_metadata-with_metadata created b rec

-- What `r` followed by `g` gives is what `g` makes of a value of `r`.
module _ {A B : Type 0} (g : A → B) where
  of_ok :
      (r : Result IndexError A) (b : B)
      → (r >>= λ a. ok (g a)) ≡ ok b
      → (a : A) × ((r ≡ ok a) × (g a ≡ b))
  of_ok (ok a) b q = (a, (refl, ok-injective q))
  of_ok (err x) b q = absurd (ground (arith, ap is_ok q))

after_ok :
    {B : Type 0} (r : Result IndexError Unit) (k : Result IndexError B) (b : B)
    → (r >> k) ≡ ok b
    → k ≡ ok b
after_ok (ok u) k b q = q
after_ok (err x) k b q = absurd (ground (arith, ap is_ok q))

module _ (pf : Platform) (h : Host) (rd : Reader h) where
  -- A hit without its lineage, which the index does not have.
  abbrev pub bare : Hit pf h rd → Hit pf h rd
  bare hit = record hit { lineage = none }

  -- The lineages leave the rest of the hits alone.
  bare-with_lineage :
      (v : Vault.Vault) (n : ℕ) (hits : List (Hit pf h rd))
      → map bare (map (with_lineage pf h rd v) (take n hits)) ++ map bare (drop n hits)
        ≡ map bare hits
  bare-with_lineage v zero hits = refl
  bare-with_lineage v (suc n) [] = refl
  bare-with_lineage v (suc n) (hit ∷ hits) = ap (λ l. bare hit ∷ l) (bare-with_lineage v n hits)

  -- The answer to a query with filters, which is made of hits of the index.
  pub record Filtered (e : Engine h) (q : Query pf h rd) (hits : List (Hit pf h rd)) : Type 0 where
    pub raw : List (Hit pf h rd)
    -- The index was asked for as many hits as there are blocks.
    pub asked :
        engine_search pf h rd e (record q { limit = max (length e.vault.blocks) 1 }) ≡ ok raw
    -- Each hit matches the filters,
    pub match : All (λ hit. matches pf h rd q hit ≡ true) hits
    -- by what the vault now says of its block.
    pub current :
        All (λ (hit : Hit pf h rd). overlay_metadata pf e.vault hit.block ≡ hit.block) hits
    -- by where embeds lead to it.
    pub lineages :
        All (λ (hit : Hit pf h rd). hit.lineage ≡ some (lineage pf e.vault hit.block.id)) hits
    -- The hits, with those that are left out, are all that match, in the order of the index,
    pub left_out : List (Hit pf h rd)
    pub in_order :
        map (bare) hits ++ left_out
        ≡ map (bare) (filter (matches pf h rd q) (map (overlaid pf h rd e.vault) raw))
    -- and there are as many as the limit allows.
    pub full :
        length hits
        ≡ min
            (effective_limit q)
            (length (filter (matches pf h rd q) (map (overlaid pf h rd e.vault) raw)))

  module _ (e : Engine h) (q : Query pf h rd) (f : post_filter pf h rd q ≡ true) where
    -- The answer for the hits of the index.
    abbrev answer : List (Hit pf h rd) → List (Hit pf h rd)
    answer raw =
        map (with_lineage pf h rd e.vault) (narrowed pf h rd q (map (overlaid pf h rd e.vault) raw))

    abbrev kept : List (Hit pf h rd) → List (Hit pf h rd)
    kept raw = filter (matches pf h rd q) (map (overlaid pf h rd e.vault) raw)

    answer-Filtered :
        (raw : List (Hit pf h rd))
        → engine_search pf h rd e (engine_query pf h rd e.vault q) ≡ ok raw
        → Filtered e q (answer raw)
    unfolding narrowed engine_query lineage
    answer-Filtered raw asked = rw (f) (record {
      raw = raw;
      asked = rw (f) at asked;
      match =
          All-map (λ hit. matches pf h rd q hit ≡ true) (with_lineage pf h rd e.vault) _
            (All-take _ (effective_limit q) (kept raw)
              (filter-All (matches pf h rd q) (map (overlaid pf h rd e.vault) raw)));
      current =
          All-map (λ (hit : Hit pf h rd). overlay_metadata pf e.vault hit.block ≡ hit.block)
            (with_lineage pf h rd e.vault) _
            (All-take _ (effective_limit q) (kept raw) (
              All-filter _ (matches pf h rd q) _ (
                All-image _ (overlaid pf h rd e.vault)
                  (λ hit. overlay_metadata-overlay_metadata pf e.vault hit.block) raw)));
      lineages =
          All-image (λ (hit : Hit pf h rd). hit.lineage ≡ some (lineage pf e.vault hit.block.id))
            (with_lineage pf h rd e.vault) (λ hit. refl) (take (effective_limit q) (kept raw));
      left_out = map bare (drop (effective_limit q) (kept raw));
      in_order = bare-with_lineage e.vault (effective_limit q) (kept raw);
      full =
          length-map_same (with_lineage pf h rd e.vault) (take (effective_limit q) (kept raw))
          ∙ length-take (effective_limit q) (kept raw);
    })

    -- A search with a filter on dates or properties asks the index for as many hits as there are
    -- blocks. Where it answers, the hits are the first of those of the index that match the filters,
    -- by what the vault now says of their blocks, in the order of the index and as many as the limit
    -- of the query allows, each with the lineage of its block.
    pub search-Filtered :
        (ctx : RequestContext) (hits : List (Hit pf h rd))
        → search pf h rd ctx q e ≡ ok hits
        → Filtered e q hits
    unfolding search
    search-Filtered ctx hits answered =
        let (raw, (asked, given)) = of_ok answer _ hits (after_ok _ _ hits answered) in
        subst (λ l. Filtered e q l) given (answer-Filtered raw asked)
