-- ===== src/Lib.antt =====
-- A verification library for mkb, a knowledge base of Markdown blocks that are kept one per file.
--
-- The program. A block is a file `blocks/<id>.md` with a frontmatter and a body. The body embeds
-- other blocks by `![[target]]` and refers to them by `[[target]]`. A vault holds all blocks in
-- memory; an engine writes a block to its file, to the vault and to a search index at once, and
-- remembers the hash of what it wrote; a service is what clients call: it checks who calls, whether
-- the block is locked, whether the caller has seen the current version, and whether the edit would
-- destroy content, before it lets the engine write.
--
-- The files, and the code they model (all under crates/mkb-core/src/):
-- - Base: tests, lists and results that all modules share. Text: `str` and `char` of the standard
--   library, as far as the program uses them. Map: `HashMap`. Platform: what comes from crates.
-- - Blockfile (blockfile.rs): Scalar (yaml_scalar, parse_scalar), Keys (is_prop_key,
--   is_managed_key), Write (write_block), Frontmatter (split_frontmatter), Read (parse_fm_tags,
--   parse_fm_props, parse_locked), Code (code spans, fences and languages), Parse (parse_block).
--   The folder Blockfile/RoundTrip joins writer and reader.
-- - Id (id.rs), Block (block.rs), Link (link.rs): ids, blocks with their views, directives.
-- - Paths (vault.rs): safe_relative_path and sanitize_asset_filename.
-- - Vault (vault.rs): the blocks and the index of titles. Vault/Reach: transclusion_reaches of
--   index.rs; Search, Fuel and Reached say what it computes. Vault/Resolve and Vault/Built say that
--   titles lead to blocks. Index (index.rs): the rows for the search index.
-- - Edit (sync.rs, service.rs): exact_replace, append_text, slice_lines, destructive_update_reason.
-- - Sync (sync.rs): Host is what the engine calls, Exec the actions that may fail halfway, Engine
--   the state and the steps that all writes share, Engine/Writes, Props and Unlink the writes.
--   Engine/Quiet, Framed and Isolated say what a write leaves alone, Stored, Preserved and
--   Props/Stored what it leaves behind. Files (vault.rs, sync.rs) is the reading of the directory blocks/, Conflict
--   (conflict.rs) the names that a cloud-sync service makes, Engine/Reconcile the functions
--   reconcile and rebuild: Spec says what a mirror of the files is, Take and Forget carry the two
--   loops, Mirror and Whole the rest, Reached the states that operations lead to. Assets (sync.rs)
--   is add_asset, orphan_assets and remove_asset; Decimal and Unique are proofs.
-- - Access (service.rs): callers, scopes, authorize. Service (service.rs): the writes of the
--   service, with Place (place_link), Unlink (unlink_blocks) and Flatten (flatten_block); Checks,
--   Framed and Kept carry Locked (what a session does to a locked block), Refusals the edits that
--   are refused, Links the embeds, Version the texts of versions.
--   Search (service.rs, sync.rs) is search, get_block, page_view and dangling_links, Search/Filtered
--   what a search with filters answers; Index/Query (index.rs) the query and its filters,
--   with Parse (SearchQuery::parse); Parsed, Typed and Plain say what a query that is
--   typed asks for.
-- - Render (render.rs): indentation; Render/Links the links, Cards render_block, Flat render_flat,
--   Targets flat_reference_targets. Unvisited, Ends, Follow, Targets/Loop and Exact are proofs.
-- - Vault/Lineage (vault.rs): embed_parent_map and lineage_with, with Walk, Ends, Climbed and Roots
--   for what the walk up finds. Index/Group and Index/Hierarchy (index.rs): the tree views;
--   Group/At, Blank and Filed say where the blocks stand.
-- - Export (export.rs): manifests and slugs, with Follow (expand_follow_links), Plan (plan_exports,
--   banners) and Merge (merge_path_prop_entries); Closure, Closed and Plan/Answers are proofs.
-- - Tests: runs on concrete inputs, and the theorems at inputs that meet their hypotheses.
--
-- The model. A text is a list of code points, and positions in it count code points, where the
-- source counts bytes: each offset is then a character boundary, and the check for one in
-- carve_selection has no counterpart. `HashMap` is an association list; the program sorts before it
-- iterates. An engine action takes the state and gives a result and a state, so that what was
-- written before a failure stays written, as in the source. The time that a write stamps and the id
-- that it mints are arguments. The messages of errors are constructors, and a panic is one of
-- them. The number in the name of an asset, a `u32`, is a natural number: the loop ends within the
-- entries of a directory, of which there are fewer than 2^32; `Path::exists` is to be one of the
-- entries. `lost / old > 0.75` on `f64` is the comparison of whole numbers that it stands for.
--
-- Fuel. The scans for a closing run of backticks get the length of the line, and the search along
-- embeds gets one more than the number of edges of the vault; the theorems on them hold without a
-- condition on the fuel, so it is enough. Rendering and the hierarchy get one more than the number
-- of blocks, for the visited blocks on a way down differ; the walk up gets one more than the number
-- of parents in the map, and the following of links one for each selected block and each target of
-- a block of the vault. The loop for the name of an asset gets one more than the number of entries
-- of the directory, for the names that it tries differ.
--
-- Parameters (not under crates/): the regular expressions, `str::to_lowercase`, the time of an id,
-- the hasher, the index, the embedder, the file system, `char::is_alphanumeric` and the dates of
-- the crate `time` (parse_query_date of clock.rs). Nothing is assumed of them, except that
-- they are functions of what they are given and, for an operation with a state, of that state.
--
-- Not modelled: the parsing of export manifests, the graph for display and
-- its drawing, the SQL index, the embedding back ends, the protocol, the daemon and the clients,
-- which are input and output around the service.
pub mod Base
pub mod Text
pub mod Blockfile
pub mod Id
pub mod Block
pub mod Tests
pub mod Edit
pub mod Export
pub mod Paths
pub mod Access
pub mod Map
pub mod Link
pub mod Platform
pub mod Vault
pub mod Conflict
pub mod Index
pub mod Sync
pub mod Render
pub mod Service
