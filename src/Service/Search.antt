-- ===== src/Service/Search.antt =====
-- The reads of crates/mkb-core/src/service.rs that join the index with the vault: `get_block`,
-- `page_view` and `search`, with `search` of crates/mkb-core/src/sync.rs.
pub mod Filtered
use mathlib.Core.Option
use mkb.Base.{
  ℕ, Bool, true, false, not, ◌&&◌, ◌||◌, ◌==◌, ◌-◌, List, [], ◌∷◌, ◌++◌, map, Option, none, some,
  Result, ok, err, ◌>>=◌, ◌>>◌, is_none, unwrap_or, map_err, filter, take, length, max,
  if◌then◌else◌,
}
use mkb.Text.Chars.{Str}
use mkb.Id.{BlockId}
use mkb.Access.{RequestContext, Capability, read, authorize}
use mkb.Block.{Block}
use mkb.Block.Views.{display_title}
use mkb.Edit.{slice_lines}
use mkb.Index.{BlockRecord, LinkRow, LinkKind, block_links}
use mkb.Index.Query.{
  SearchQuery, SearchHit, effective_limit, has_date_filter, has_prop_filter, matches_dates,
  matches_props,
}
use mkb.Platform.{Platform}
use mkb.Render.Cards.{render_block}
use mkb.Sync.Host.{Host, IndexError, denied}
use mkb.Sync.Engine.{Engine}
use mkb.Vault
use mkb.Vault.Lineage.{Lineage, lineage, lineage_with, embed_parent_map}

-- `Embedder`: `embed_one` and `model_id`.
pub record Embedder (Vector : Type 0) : Type 0 where
  pub embed_one : Str → Result IndexError Vector
  pub model_id : Str

-- The reads of the `Index` trait, and the embedder if one is attached.
pub record Reader (h : Host) : Type 1 where
  pub Vector : Type 0
  pub Score : Type 0
  pub embedder : Option (Embedder Vector)
  pub search_in : SearchQuery Vector → h.Store → Result IndexError (List (SearchHit Score))
  pub links_from : BlockId → h.Store → Result IndexError (List LinkRow)
  pub backlinks : BlockId → h.Store → Result IndexError (List LinkRow)

pub record LinkCrumb : Type 0 where
  pub id : BlockId
  pub title : Str
  pub kind : LinkKind

pub record PageView : Type 0 where
  pub block : BlockRecord
  pub lineage : Lineage
  pub backlinks : List LinkCrumb
  pub links_out : List LinkCrumb

abbrev authorized : RequestContext → Capability → Result IndexError Unit
authorized ctx cap = map_err denied (authorize ctx cap)

-- `text.replace('"', " ")`
abbrev unquoted : Str → Str
unquoted text = map (λ c. if c == 34 then 32 else c) text

-- `usize::MAX`
abbrev usize_max : ℕ
usize_max = 18446744073709551615

-- What the id tells, and what the block of the vault tells, if there is one.
abbrev pub with_metadata : Option Str → Option Block → BlockRecord → BlockRecord
with_metadata created none rec = record rec { created = created }
with_metadata created (some b) rec = record rec {
  created = created;
  locked = b.locked;
  props = b.props;
  updated = b.updated;
}

module _ (pf : Platform) (v : Vault.Vault) where
  unfoldable pub overlay_metadata : BlockRecord → BlockRecord
  overlay_metadata rec = with_metadata (pf.created_rfc3339 rec.id) (Vault.block v rec.id) rec

  unfoldable pub crumb_title : BlockId → Str
  crumb_title id = elim (Vault.block v id) [ none ↦ id.as_str | some b ↦ display_title b ]

  unfoldable pub crumbs_in : List LinkRow → List LinkCrumb
  unfolding crumb_title
  crumbs_in rows =
      map
        (λ (r : LinkRow). record {
          id = r.source_id;
          title = crumb_title r.source_id;
          kind = r.kind;
        })
        rows

  unfoldable pub crumbs_out : List LinkRow → List LinkCrumb
  unfolding crumb_title
  crumbs_out [] = []
  crumbs_out (r ∷ rows) = elim r.target_id [
    | none ↦ crumbs_out rows
    | some t ↦ record { id = t; title = crumb_title t; kind = r.kind } ∷ crumbs_out rows
  ]

  -- The body in the view that was asked for.
  unfoldable pub content_view : BlockId → Bool → Option ℕ → Option ℕ → Str → Str
  content_view id rendered first last body =
      if rendered
      then unwrap_or (render_block pf v id) body
      else if is_none first && is_none last
      then body
      else slice_lines body (unwrap_or first 1) (unwrap_or last usize_max)

  -- The rows without a target, of all the blocks.
  unfoldable pub dangling_rows : List Block → List LinkRow
  unfolding block_links
  dangling_rows [] = []
  dangling_rows (b ∷ bs) =
      filter (λ (r : LinkRow). is_none r.target_id) (block_links pf v b) ++ dangling_rows bs

module _ (pf : Platform) (h : Host) (rd : Reader h) where
  abbrev pub Query : Type 0
  Query = SearchQuery rd.Vector

  abbrev pub Hit : Type 0
  Hit = SearchHit rd.Score

  abbrev query_with : Str → Query → Embedder rd.Vector → Result IndexError Query
  query_with text q m = do
    vector ← m.embed_one (unquoted text)
    ok (record q { vector = some vector; vector_model = some m.model_id })

  -- The query with its vector, where there is an embedder and a text.
  unfoldable pub with_vector : Query → Result IndexError Query
  with_vector q =
      if is_none q.vector
      then elim rd.embedder [
        | none ↦ ok q
        | some m ↦ elim q.text [ none ↦ ok q | some text ↦ query_with text q m ]
      ]
      else ok q

  unfoldable pub engine_search : Engine h → Query → Result IndexError (List Hit)
  unfolding with_vector
  engine_search e q = do q' ← with_vector q; rd.search_in q' e.index

  unfoldable pub post_filter : Query → Bool
  post_filter q = has_date_filter q || has_prop_filter q

  -- The query that the engine is asked.
  unfoldable pub engine_query : Vault.Vault → Query → Query
  unfolding post_filter
  engine_query v q = if post_filter q then record q { limit = max (length v.blocks) 1 } else q

  abbrev pub matches : Query → Hit → Bool
  matches q hit = matches_dates q hit.block && matches_props q hit.block

  unfoldable pub narrowed : Query → List Hit → List Hit
  unfolding post_filter
  narrowed q hits =
      if post_filter q then take (effective_limit q) (filter (matches q) hits) else hits

  abbrev pub overlaid : Vault.Vault → Hit → Hit
  overlaid v hit = record hit { block = overlay_metadata pf v hit.block }

  abbrev pub with_lineage : Vault.Vault → Hit → Hit
  with_lineage v hit = record hit {
    lineage = some (lineage_with v (embed_parent_map pf v) hit.block.id);
  }

  unfoldable pub search : RequestContext → Query → Engine h → Result IndexError (List Hit)
  unfolding engine_search engine_query narrowed
  search ctx q e = do
    authorized ctx read
    hits ← engine_search e (engine_query e.vault q)
    ok (map (with_lineage e.vault) (narrowed q (map (overlaid e.vault) hits)))

  unfoldable pub get_block :
      RequestContext → BlockId → Engine h → Result IndexError (Option BlockRecord)
  unfolding overlay_metadata
  get_block ctx id e = do
    authorized ctx read
    rec ← h.record_of id e.index
    ok (Option.map (overlay_metadata pf e.vault) rec)

  abbrev viewed :
      BlockId
      → Bool
      → Option ℕ
      → Option ℕ
      → Engine h
      → BlockRecord
      → Result IndexError (Option PageView)
  viewed id rendered first last e rec = do
    back ← rd.backlinks id e.index
    out ← rd.links_from id e.index
    let block = overlay_metadata pf e.vault rec
    ok (
        some (record {
          block = record block {
            content = content_view pf e.vault id rendered first last block.content;
          };
          lineage = lineage pf e.vault id;
          backlinks = crumbs_in pf e.vault back;
          links_out = crumbs_out pf e.vault out;
        }))

  unfoldable pub page_view :
      RequestContext
      → BlockId
      → Bool
      → Option ℕ
      → Option ℕ
      → Engine h
      → Result IndexError (Option PageView)
  unfolding overlay_metadata content_view crumbs_in crumbs_out
  page_view ctx id rendered first last e = do
    authorized ctx read
    rec ← h.record_of id e.index
    elim rec [ none ↦ ok none | some rec ↦ viewed id rendered first last e rec ]

  unfoldable pub get_block_source :
      RequestContext → BlockId → Engine h → Result IndexError (Option Str)
  get_block_source ctx id e = do
    authorized ctx read
    ok (Option.map (λ (b : Block). b.body) (Vault.block e.vault id))

  unfoldable pub dangling_links : RequestContext → Engine h → Result IndexError (List LinkRow)
  unfolding dangling_rows
  dangling_links ctx e = do
    authorized ctx read
    ok (dangling_rows pf e.vault (Vault.blocks e.vault))
