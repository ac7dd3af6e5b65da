-- ===== src/Service.antt =====
-- crates/mkb-core/src/service.rs: the writes that clients call, behind the checks on the caller
-- and on the block.
pub mod Version
pub mod Checks
pub mod Framed
pub mod Kept
pub mod Place
pub mod Unlink
pub mod Flatten
pub mod Locked
pub mod Refusals
pub mod Links
pub mod Search
use mathlib.Core.Option
use mkb.Base.{
  zero, suc, if◌then◌else◌, not, ◌&&◌, ◌||◌, ℕ, List, length, take, drop, ◌++◌, ◌∷◌, map_err,
  unwrap_or, leb, ◌/◌, ◌%◌, ◌-◌,
}
use mkb.Block.{Block}
use mkb.Platform.{Platform}
use mkb.Sync.Host.{
  Host, denied, locked_block, destructive, bad_edit, unknown_block, unknown_source, unknown_target,
  carve_range, carve_empty,
}
use mkb.Sync.Engine.{Engine, Action, block_version, require}
use mkb.Edit.{destructive_update_reason, exact_replace, append_text}
use mkb.Text.Chars.{codes}
use mkb.Text.Strings.{str_eq, is_empty}
use mkb.Blockfile.Write.{Prop}
use mkb.Id.{id_eq}
use mkb.Map
use mkb.Vault
use mkb.Vault.Reach.{transclusion_reaches}
use mkb.Sync.Engine.Writes
use mkb.Sync.Exec.{pure, fail, lift, gets, ◌>>=◌, ◌>>◌}
use mkb.Base.{
  ◌+◌, ltb, [], ◌++◌, if◌then◌else◌, ℕ, Bool, true, false, Option, none, some, Result, ok, err,
}
use mkb.Text.Chars.{codes, Str}
use mkb.Text.Trim.{trim}
use mkb.Id.{BlockId}
use mkb.Index.{LinkOutcome, transclusion, downgraded_to_reference}
use mkb.Access.{RequestContext, Capability, write, manage_locks, authorize}

pub data UpdateOutcome : Type 0 where
  applied : Str → UpdateOutcome
  conflict : Option Str → Str → Str → UpdateOutcome

abbrev pub hex_digit : ℕ → ℕ
hex_digit d = if ltb d 10 then 48 + d else 87 + d

unfoldable pub hex : ℕ → ℕ → Str
hex zero n = []
hex (suc w) n = hex w (n / 16) ++ hex_digit (n % 16) ∷ []

-- `format!("{hash:016x}")` of a `u64`, which has sixteen digits at most
unfoldable pub format_version : ℕ → Str
unfolding hex
format_version hash = hex 16 hash

abbrev pub embed_of : BlockId → Str
embed_of id = codes "![[" ++ (id.as_str ++ codes "]]")

abbrev pub title_of : Option Block → Option Str
title_of none = none
title_of (some b) = b.title

-- Did the caller pin a version that is not the current one?
unfoldable pub is_stale : Option Str → Option Str → Bool
is_stale none current = false
is_stale (some base) none = true
is_stale (some base) (some version) = not (str_eq version base)

module _ (pf : Platform) (h : Host) where
  abbrev pub authorized : RequestContext → Capability → Action pf h Unit
  authorized ctx cap = elim (authorize ctx cap) [ ok u ↦ pure tt | err d ↦ fail (denied d) ]

  unfoldable pub ensure_writable : BlockId → Action pf h Unit
  ensure_writable id = do
    b ← gets (λ e. Vault.block e.vault id)
    elim b [ none ↦ pure tt | some b ↦ if b.locked then fail (locked_block id) else pure tt ]

  abbrev pub version_of : BlockId → Engine h → Option Str
  version_of id e = Option.map format_version (block_version pf h e id)

  unfoldable pub set_lock : Str → RequestContext → BlockId → Bool → Action pf h Unit
  set_lock now ctx id locked = do authorized ctx manage_locks; Writes.set_lock pf h now id locked

  unfoldable pub create_block :
      BlockId → Str → RequestContext → Option Str → Str → Action pf h BlockId
  create_block new now ctx title body = do
    authorized ctx write
    Writes.create_block pf h new now title body

  -- The answer where the version of the caller is not the current one.
  unfoldable pub conflict_at : BlockId → Action pf h UpdateOutcome
  conflict_at id = do
    r ← gets (λ e. h.record_of id e.index)
    record_now ← lift r
    title ← gets (λ e. title_of (Vault.block e.vault id))
    current ← gets (version_of id)
    elim record_now [
      | some rec ↦ pure (conflict title rec.content (unwrap_or current []))
      | none ↦ pure (conflict none [] [])
    ]

  -- The refusal of an edit that destroys content, unless it is forced.
  unfoldable pub guard_edit : BlockId → Bool → Str → Str → Action pf h Unit
  guard_edit id force old new =
      if force then pure tt else (elim (destructive_update_reason old new) [
        | none ↦ pure tt
        | some reason ↦ fail (destructive id reason)
      ])

  unfoldable pub apply_update : Str → BlockId → Option Str → Str → Bool → Action pf h UpdateOutcome
  apply_update now id title body force = do
    b ← gets (λ e. Vault.block e.vault id)
    elim b [ none ↦ pure tt | some b ↦ guard_edit id force b.body body ]
    Writes.update_block pf h now id title body
    version ← gets (version_of id)
    pure (applied (unwrap_or version []))

  unfoldable pub update_block :
      Str
      → RequestContext
      → BlockId
      → Option Str
      → Str
      → Bool
      → Option Str
      → Action pf h UpdateOutcome
  update_block now ctx id title body force base_version = do
    authorized ctx write
    ensure_writable id
    current ← gets (version_of id)
    (if is_stale base_version current then conflict_at id else apply_update now id title body force)

  unfoldable pub replace_in_block :
      Str → RequestContext → BlockId → Str → Str → ℕ → Bool → Action pf h Unit
  replace_in_block now ctx id old new expect_count force = do
    authorized ctx write
    ensure_writable id
    b ← require pf h (unknown_block id) id
    new_body ← lift (map_err bad_edit (exact_replace b.body old new expect_count))
    (if str_eq new_body b.body
        then pure tt
        else guard_edit id force b.body new_body >> Writes.update_block pf h now id none new_body)

  unfoldable pub append_to_block : Str → RequestContext → BlockId → Str → Action pf h Unit
  append_to_block now ctx id text = do
    authorized ctx write
    ensure_writable id
    b ← require pf h (unknown_block id) id
    Writes.update_block pf h now id none (append_text b.body text)

  unfoldable pub set_tags : Str → RequestContext → BlockId → List Str → Action pf h Unit
  set_tags now ctx id tags = do
    authorized ctx write
    ensure_writable id
    Writes.set_tags pf h now id tags

  unfoldable pub set_props : Str → RequestContext → BlockId → List Prop → Action pf h Unit
  set_props now ctx id props = do
    authorized ctx write
    ensure_writable id
    Writes.set_props pf h now id props

  unfoldable pub unset_props : Str → RequestContext → BlockId → List Str → Action pf h Unit
  unset_props now ctx id keys = do
    authorized ctx write
    ensure_writable id
    Writes.unset_props pf h now id keys

  unfoldable pub delete_block : RequestContext → BlockId → Action pf h Unit
  delete_block ctx id = do authorized ctx write; ensure_writable id; Writes.delete_block pf h id

  unfoldable pub carve_block :
      BlockId → Str → RequestContext → BlockId → Option Str → Str → Action pf h BlockId
  carve_block new now ctx parent title body = do
    authorized ctx write
    ensure_writable parent
    b ← require pf h (unknown_block parent) parent
    child ← Writes.create_block pf h new now title body
    Writes.append_to_body pf h now parent (embed_of child)
    pure child

  unfoldable pub carve_selection :
      BlockId → Str → RequestContext → BlockId → ℕ → ℕ → Action pf h BlockId
  carve_selection new now ctx parent start end = do
    authorized ctx write
    ensure_writable parent
    b ← require pf h (unknown_block parent) parent
    let selected = trim (take (end - start) (drop start b.body))
    (if leb end start || ltb (length b.body) end
        then fail carve_range
        else if is_empty selected
        then fail carve_empty
        else (do
          child ← Writes.create_block pf h new now none selected
          Writes.update_block pf h now parent b.title
              (take start b.body ++ (embed_of child ++ drop end b.body))
          pure child))
