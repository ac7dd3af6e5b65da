-- ===== src/Sync/Engine/Writes.antt =====
-- The writes of `SyncEngine`. The time that a write stamps and the id of a new block are
-- arguments: the clock and `BlockId::generate` supply them.
use mkb.Base.{
  ℕ, ◌+◌, Bool, true, false, List, [], ◌∷◌, ◌++◌, Option, none, some, if◌then◌else◌, length, take,
  drop, min,
}
use mkb.Text.Chars.{Str, codes, newline}
use mkb.Text.Strings.{str_eq, is_empty, split_once, rsplit_once}
use mkb.Text.Trim.{trim, trim_start, trim_end}
use mkb.Id.{BlockId, id_eq}
use mkb.Blockfile.Write.{Prop, write_block}
use mkb.Link.{Reference, extract_references}
use mkb.Platform.{Platform}
use mkb.Vault
use mkb.Vault.{Vault}
use mkb.Sync.Host.{Host, unknown_block}
use mkb.Sync.Exec.{pure, lift, gets, ◌>>=◌, ◌>>◌}
use mkb.Sync.Engine.{
  Action, on_index, on_files, drop_block, drop_hash, require, persist, refresh_links,
}
use mkb.Sync.Engine.Props.{merge_props, drop_props, dedup_tags}

-- No title keeps the one there is, a blank one clears it.
unfoldable pub resolved_title : Option Str → Option Str → Option Str
resolved_title none existing = existing
resolved_title (some t) existing = if is_empty (trim t) then none else some t

abbrev pub two_newlines : Str
two_newlines = codes "\n\n"

-- `format!("{}\n\n{}\n", body.trim_end(), suffix)`
unfoldable pub appended : Str → Str → Str
appended body suffix = trim_end body ++ (two_newlines ++ (suffix ++ newline ∷ []))

unfoldable pub line_start : Str → ℕ → ℕ
line_start s p = elim (rsplit_once newline (take p s)) [ none ↦ 0 | some (a, b) ↦ length a + 1 ]

unfoldable pub line_end : Str → ℕ → ℕ
line_end s p = elim (split_once newline (drop p s)) [ none ↦ length s | some (a, b) ↦ p + length a ]

-- The directive as a paragraph of its own behind or in front of the lines of a span.
unfoldable pub beside : Str → Str → Reference → Bool → Str
unfolding line_start line_end
beside old directive r true =
    trim_end (take (line_end old r.end) old)
    ++ (two_newlines ++ (directive ++ drop (line_end old r.end) old))
beside old directive r false =
    take (line_start old r.start) old
    ++ (directive ++ (two_newlines ++ trim_start (drop (line_start old r.start) old)))

-- The paragraphs at an offset; positions count code points, so each is a character boundary.
unfoldable pub spliced : Str → Str → ℕ → Str
spliced old directive offset =
    let off = min offset (length old) in
    let head = trim_end (take off old) in
    let tail = trim_start (drop off old) in
    (if is_empty head then [] else head ++ two_newlines)
    ++ (directive ++ ((if is_empty tail then [] else two_newlines ++ tail) ++ newline ∷ []))

module _ (pf : Platform) (h : Host) where
  unfoldable pub create_block : BlockId → Str → Option Str → Str → Action pf h BlockId
  create_block id now title body =
      persist pf h id (write_block title [] false (some now) [] body) >> pure id

  unfoldable pub update_block : Str → BlockId → Option Str → Str → Action pf h Unit
  update_block now id title body = do
    existing ← require pf h (unknown_block id) id
    persist pf h id (
        write_block (resolved_title title existing.title) existing.fm_tags existing.locked
          (some now) existing.props body)

  unfoldable pub set_tags : Str → BlockId → List Str → Action pf h Unit
  set_tags now id tags = do
    existing ← require pf h (unknown_block id) id
    persist pf h id (
        write_block existing.title (dedup_tags [] tags) existing.locked (some now) existing.props
          existing.body)

  unfoldable pub set_lock : Str → BlockId → Bool → Action pf h Unit
  set_lock now id locked = do
    existing ← require pf h (unknown_block id) id
    persist pf h id
        (write_block existing.title existing.fm_tags locked (some now) existing.props existing.body)

  unfoldable pub set_props : Str → BlockId → List Prop → Action pf h Unit
  set_props now id props = do
    existing ← require pf h (unknown_block id) id
    merged ← lift (merge_props existing.props [] props)
    persist pf h id (
        write_block existing.title existing.fm_tags existing.locked (some now) merged existing.body)

  unfoldable pub unset_props : Str → BlockId → List Str → Action pf h Unit
  unset_props now id keys = do
    existing ← require pf h (unknown_block id) id
    persist pf h id (
        write_block existing.title existing.fm_tags existing.locked (some now)
          (drop_props existing.props keys) existing.body)

  unfoldable pub delete_block : BlockId → Action pf h Unit
  delete_block id = do
    on_files pf h (h.remove_file id)
    drop_block pf h id
    on_index pf h (h.remove_block id)
    drop_hash pf h id
    refresh_links pf h

  unfoldable pub append_to_body : Str → BlockId → Str → Action pf h Unit
  append_to_body now id suffix = do
    block ← require pf h (unknown_block id) id
    update_block now id block.title (appended block.body suffix)

  -- Does the directive lead to the block, by its id or by what it resolves to?
  unfoldable pub targets : Vault → BlockId → Reference → Bool
  targets v id r =
      if str_eq r.target id.as_str
      then true
      else elim (Vault.resolve pf v r.target) [ none ↦ false | some t ↦ id_eq t id ]

  unfoldable pub first_to : Vault → BlockId → List Reference → Option Reference
  unfolding targets
  first_to v id [] = none
  first_to v id (r ∷ rs) = if targets v id r then some r else first_to v id rs

  unfoldable pub insert_directive_by_anchor :
      Str → BlockId → Str → BlockId → Bool → Action pf h Unit
  insert_directive_by_anchor now id directive anchor after = do
    block ← require pf h (unknown_block id) id
    v ← gets (λ e. e.vault)
    update_block now id block.title
        (elim (first_to v anchor (extract_references pf.ref_captures block.body)) [
          | some r ↦ beside block.body directive r after
          | none ↦ appended block.body directive
        ])

  unfoldable pub insert_directive_at_offset : Str → BlockId → Str → ℕ → Action pf h Unit
  insert_directive_at_offset now id directive offset = do
    block ← require pf h (unknown_block id) id
    update_block now id block.title (spliced block.body directive offset)
