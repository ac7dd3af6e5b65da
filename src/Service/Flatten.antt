-- ===== src/Service/Flatten.antt =====
-- `flatten_block` of crates/mkb-core/src/service.rs.
use mkb.Base.{
  ℕ, ◌+◌, Bool, false, List, [], ◌∷◌, ◌++◌, Option, none, some, ◌==◌, if◌then◌else◌, take, drop,
}
use mkb.Text.Chars.{Str, newline}
use mkb.Text.Trim.{trim_matches}
use mkb.Id.{BlockId, id_eq}
use mkb.Block.{Block}
use mkb.Link.{Reference, extract_references}
use mkb.Access.{RequestContext, write}
use mkb.Platform.{Platform}
use mkb.Vault
use mkb.Vault.{Vault, blocks}
use mkb.Render.{current_line_width, reindent_continuation}
use mkb.Sync.Host.{Host, unknown_block, not_single, not_in_parent, not_embedded}
use mkb.Sync.Exec.{fail, gets, ◌>>=◌, ◌>>◌}
use mkb.Sync.Engine.{Action, require}
use mkb.Sync.Engine.Writes.{update_block, delete_block}
use mkb.Service.{authorized, ensure_writable}

-- What the loops gather: how many directives lead to the child, and the last one in the parent.
pub record Found : Type 0 where
  pub total : ℕ
  pub here : Option Reference

module _ (pf : Platform) where
  -- `vault.resolve(&r.target).as_ref() == Some(child_id)`
  unfoldable pub leads_to : Vault → BlockId → Reference → Bool
  leads_to v child r = elim (Vault.resolve pf v r.target) [ none ↦ false | some t ↦ id_eq t child ]

  unfoldable pub in_block : Vault → BlockId → Bool → List Reference → Found → Found
  unfolding leads_to
  in_block v child is_parent [] f = f
  in_block v child is_parent (r ∷ rs) f = in_block v child is_parent rs (
      if leads_to v child r
      then record { total = f.total + 1; here = if is_parent then some r else f.here }
      else f)

  unfoldable pub in_blocks : Vault → BlockId → BlockId → List Block → Found → Found
  unfolding in_block
  in_blocks v child parent [] f = f
  in_blocks v child parent (b ∷ bs) f =
      in_blocks v child parent bs
        (in_block v child (id_eq b.id parent) (extract_references pf.ref_captures b.body) f)

-- The child's body in place of the directive, indented as the directive is.
unfoldable pub inlined : Str → Str → Reference → Str
inlined parent_body child_body r =
    let before = take r.start parent_body in
    let text = trim_matches (λ c. c == newline) child_body in
    before ++ (reindent_continuation text (current_line_width before) ++ drop r.end parent_body)

module _ (pf : Platform) (h : Host) where
  -- The rewrite of the parent and the end of the child.
  unfoldable pub splice_at :
      Str → BlockId → BlockId → Block → Block → Option Reference → Action pf h Unit
  splice_at now parent_id child_id parent child none = fail (not_in_parent child_id)
  splice_at now parent_id child_id parent child (some r) =
      if r.embed
      then update_block pf h now parent_id parent.title (inlined parent.body child.body r)
        >> delete_block pf h child_id
      else fail (not_embedded child_id)

  unfoldable pub flatten_at : Str → BlockId → BlockId → Block → Block → Found → Action pf h Unit
  flatten_at now parent_id child_id parent child f =
      if f.total == 1
      then splice_at now parent_id child_id parent child f.here
      else fail (not_single child_id f.total)

  unfoldable pub flatten_block : Str → RequestContext → BlockId → BlockId → Action pf h Unit
  flatten_block now ctx parent_id child_id = do
    authorized pf h ctx write
    ensure_writable pf h parent_id
    ensure_writable pf h child_id
    parent ← require pf h (unknown_block parent_id) parent_id
    child ← require pf h (unknown_block child_id) child_id
    v ← gets (λ e. e.vault)
    flatten_at now parent_id child_id parent child
        (in_blocks pf v child_id parent_id (blocks v) (record { total = 0; here = none }))
