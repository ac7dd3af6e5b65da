-- ===== src/Service/Place.antt =====
-- `place_link` of crates/mkb-core/src/service.rs, which every call that links two blocks goes through.
use mkb.Base.{ℕ, Bool, not, ◌&&◌, ◌||◌, ◌++◌, if◌then◌else◌}
use mkb.Text.Chars.{Str, codes}
use mkb.Id.{BlockId, id_eq}
use mkb.Index.{LinkOutcome, transclusion, downgraded_to_reference}
use mkb.Access.{RequestContext, write}
use mkb.Platform.{Platform}
use mkb.Vault.Reach.{transclusion_reaches}
use mkb.Sync.Host.{Host, unknown_source, unknown_target}
use mkb.Sync.Exec.{pure, gets, ◌>>=◌, ◌>>◌}
use mkb.Sync.Engine.{Action, require}
use mkb.Sync.Engine.Writes
use mkb.Service.{authorized, ensure_writable, embed_of}

pub data LinkPlacement : Type 0 where
  append : LinkPlacement
  anchor : BlockId → Bool → LinkPlacement
  offset : ℕ → LinkPlacement

abbrev pub reference_of : BlockId → Str
reference_of id = codes "[[" ++ (id.as_str ++ codes "]]")

module _ (pf : Platform) (h : Host) where
  unfoldable pub place : Str → BlockId → Str → LinkPlacement → Action pf h Unit
  place now source directive append = Writes.append_to_body pf h now source directive
  place now source directive (anchor id after) =
      Writes.insert_directive_by_anchor pf h now source directive id after
  place now source directive (offset n) =
      Writes.insert_directive_at_offset pf h now source directive n

  unfoldable pub place_link :
      Str → RequestContext → BlockId → BlockId → Bool → LinkPlacement → Action pf h LinkOutcome
  place_link now ctx source target embed placement = do
    authorized pf h ctx write
    ensure_writable pf h source
    s ← require pf h (unknown_source source) source
    t ← require pf h (unknown_target target) target
    v ← gets (λ e. e.vault)
    let effective = embed && not (id_eq source target || transclusion_reaches pf v target source)
    place now source (if effective then embed_of target else reference_of target) placement
    pure (
        if embed
        then (if effective then transclusion else downgraded_to_reference)
        else LinkOutcome.reference)
