-- ===== src/Service/Kept.antt =====
-- What the service does on one block keeps every locked block: the cases of `checked`.
use mkb.Service.Place.{LinkPlacement}
use mkb.Service.Place
use mkb.Base.{none, some}
use mkb.Service.Flatten.{splice_at, flatten_at, flatten_block}
use mkb.Service.Framed.{ensured, bind-kept}
use mkb.Service.Checks.{ensure_writable-Frame}
use mkb.Link.{Reference}
use mkb.Block.{Block}
use mkb.Sync.Engine.Isolated.{delete_block-Frame}
use mkb.Service.Unlink.{unlink_blocks}
use mkb.Sync.Engine.Isolated.{remove_directives_to-Frame}
use mkb.Base.{refl}
use mkb.Sync.Exec.{fail, ◌>>=◌}
use mkb.Base.{
  ◌≡◌, Bool, true, false, ℕ, Option, none, ◌||◌, ◌++◌, ◌-◌, length, take, drop, leb, ltb,
}
use mkb.Text.Chars.{Str}
use mkb.Text.Trim.{trim}
use mkb.Text.Strings.{str_eq, is_empty}
use mkb.Id.{BlockId}
use mkb.Platform.{Platform}
use mkb.Vault
use mkb.Sync.Host.{Host, carve_range, carve_empty}
use mkb.Sync.Engine.{Engine}
use mkb.Sync.Engine.Quiet.{require-Frame}
use mkb.Sync.Engine.Framed.{seen, view}
use mkb.Sync.Engine.Isolated.{create_block-Frame, update_block-Frame, append_to_body-Frame}
use mkb.Sync.Exec.Frame.{
  Frame, Frame-pure, Frame-fail, Frame-lift, Frame-gets, Frame-if, Frame-bind,
}
use mkb.Access.{RequestContext, authorize, can, Capability}
use mkb.Service.{embed_of, authorized}
use mkb.Service
use mkb.Service.Framed.{is_locked, checked, apply_update-Frame, place-Frame}
use mkb.Service.Checks.{conflict_at-Frame, guard_edit-Frame, authorized-Frame}

module _ (pf : Platform) (h : Host) (id : BlockId) where
  pub update_block-keeps :
      (now : Str) (ctx : RequestContext) (i : BlockId) (title : Option Str) (body : Str)
      (force : Bool) (base : Option Str) (e : Engine h)
      → is_locked (Vault.block e.vault id) ≡ true
      → view pf h id (Service.update_block pf h now ctx i title body force base e).1
        ≡ view pf h id e
  unfolding Service.update_block
  update_block-keeps now ctx i title body force base e l =
      checked pf h id ctx i _
        (λ other _. Frame-bind _ _ (Frame-gets _) λ current.
          Frame-if _ _ _ (conflict_at-Frame pf h (view pf h id) i)
            (apply_update-Frame pf h id i other now title body force))
        e l

  pub replace_in_block-keeps :
      (now : Str) (ctx : RequestContext) (i : BlockId) (old new : Str) (count : ℕ) (force : Bool)
      (e : Engine h)
      → is_locked (Vault.block e.vault id) ≡ true
      → view pf h id (Service.replace_in_block pf h now ctx i old new count force e).1
        ≡ view pf h id e
  unfolding Service.replace_in_block
  replace_in_block-keeps now ctx i old new count force e l =
      checked pf h id ctx i _
        (λ other _. Frame-bind _ _ (require-Frame pf h (seen pf h id) _ i) λ b.
          Frame-bind _ _ (Frame-lift _) λ new_body. Frame-if _ _ _ (Frame-pure tt) (
            Frame-bind _ _ (guard_edit-Frame pf h (view pf h id) i force _ _)
              λ _. update_block-Frame pf h id i other now _ _))
        e l

  pub append_to_block-keeps :
      (now : Str) (ctx : RequestContext) (i : BlockId) (text : Str) (e : Engine h)
      → is_locked (Vault.block e.vault id) ≡ true
      → view pf h id (Service.append_to_block pf h now ctx i text e).1 ≡ view pf h id e
  unfolding Service.append_to_block
  append_to_block-keeps now ctx i text e l =
      checked pf h id ctx i _
        (λ other _.
          Frame-bind _ _ (require-Frame pf h (seen pf h id) _ i)
            λ b. update_block-Frame pf h id i other now _ _)
        e l

  pub carve_block-keeps :
      (new : BlockId) (now : Str) (ctx : RequestContext) (i : BlockId) (title : Option Str)
      (body : Str) (e : Engine h)
      → str_eq new.as_str id.as_str ≡ false
      → is_locked (Vault.block e.vault id) ≡ true
      → view pf h id (Service.carve_block pf h new now ctx i title body e).1 ≡ view pf h id e
  unfolding Service.carve_block
  carve_block-keeps new now ctx i title body e fresh l =
      checked pf h id ctx i _
        (λ other _. Frame-bind _ _ (require-Frame pf h (seen pf h id) _ i) λ b.
          Frame-bind _ _ (create_block-Frame pf h id new fresh now title body) λ child.
            Frame-bind _ _ (append_to_body-Frame pf h id i other now _) λ _. Frame-pure child)
        e l

  pub carve_selection-keeps :
      (new : BlockId) (now : Str) (ctx : RequestContext) (i : BlockId) (start end : ℕ)
      (e : Engine h)
      → str_eq new.as_str id.as_str ≡ false
      → is_locked (Vault.block e.vault id) ≡ true
      → view pf h id (Service.carve_selection pf h new now ctx i start end e).1 ≡ view pf h id e
  unfolding Service.carve_selection
  carve_selection-keeps new now ctx i start end e fresh l =
      checked pf h id ctx i _
        (λ other _. Frame-bind _ _ (require-Frame pf h (seen pf h id) _ i) λ b.
          let selected = trim (take (end - start) (drop start b.body)) in
          Frame-if (leb end start || ltb (length b.body) end) _ _ (Frame-fail carve_range) (
            Frame-if (is_empty selected) _ _ (Frame-fail carve_empty) (
              Frame-bind _ _ (create_block-Frame pf h id new fresh now none selected) λ child.
                Frame-bind _ _
                  (update_block-Frame pf h id i other now b.title
                    (take start b.body ++ (embed_of child ++ drop end b.body)))
                  (λ _. Frame-pure child))))
        e l

  pub place_link-keeps :
      (now : Str) (ctx : RequestContext) (i target : BlockId) (embed : Bool) (p : LinkPlacement)
      (e : Engine h)
      → is_locked (Vault.block e.vault id) ≡ true
      → view pf h id (Place.place_link pf h now ctx i target embed p e).1 ≡ view pf h id e
  unfolding Place.place_link
  place_link-keeps now ctx i target embed p e l =
      checked pf h id ctx i _
        (λ other _. Frame-bind _ _ (require-Frame pf h (seen pf h id) _ i) λ s.
          Frame-bind _ _ (require-Frame pf h (seen pf h id) _ target) λ t.
            Frame-bind _ _ (Frame-gets _)
              λ v. Frame-bind _ _ (place-Frame pf h id i other now _ p) λ _. Frame-pure _)
        e l

  pub create_block-keeps :
      (new : BlockId) (now : Str) (ctx : RequestContext) (title : Option Str) (body : Str)
      (e : Engine h)
      → str_eq new.as_str id.as_str ≡ false
      → view pf h id (Service.create_block pf h new now ctx title body e).1 ≡ view pf h id e
  unfolding Service.create_block
  create_block-keeps new now ctx title body e fresh =
      (Frame-bind _ _ (authorized-Frame pf h (view pf h id) ctx _)
          λ _. create_block-Frame pf h id new fresh now title body).at
        e

  pub set_lock-keeps :
      (now : Str) (ctx : RequestContext) (i : BlockId) (locked : Bool) (e : Engine h)
      → can ctx.scope Capability.manage_locks ≡ false
      → (Service.set_lock pf h now ctx i locked e).1 ≡ e
  unfolding Service.set_lock authorize ◌>>=◌ fail
  set_lock-keeps now ctx i locked e c = rw (c) refl

  pub unlink_blocks-keeps :
      (now : Str) (ctx : RequestContext) (i target : BlockId) (e : Engine h)
      → is_locked (Vault.block e.vault id) ≡ true
      → view pf h id (unlink_blocks pf h now ctx i target e).1 ≡ view pf h id e
  unfolding unlink_blocks
  unlink_blocks-keeps now ctx i target e l =
      checked pf h id ctx i _
        (λ other _.
          Frame-bind _ _ (require-Frame pf h (seen pf h id) _ i)
            λ b. remove_directives_to-Frame pf h id i other now target)
        e l

  spliced-Frame :
      (now : Str) (parent_id child_id : BlockId) (parent child : Block) (o : Option Reference)
      → str_eq parent_id.as_str id.as_str ≡ false
      → str_eq child_id.as_str id.as_str ≡ false
      → Frame (view pf h id) (splice_at pf h now parent_id child_id parent child o)
  unfolding splice_at
  spliced-Frame now parent_id child_id parent child none p c = Frame-fail _
  spliced-Frame now parent_id child_id parent child (some r) p c =
      Frame-if r.embed _ _
        (Frame-bind _ _ (update_block-Frame pf h id parent_id p now _ _)
          λ _. delete_block-Frame pf h id child_id c)
        (Frame-fail _)

  pub flatten_block-keeps :
      (now : Str) (ctx : RequestContext) (parent_id child_id : BlockId) (e : Engine h)
      → is_locked (Vault.block e.vault id) ≡ true
      → view pf h id (flatten_block pf h now ctx parent_id child_id e).1 ≡ view pf h id e
  unfolding flatten_block flatten_at
  flatten_block-keeps now ctx parent_id child_id =
      bind-kept pf h id _ _ (authorized-Frame pf h (view pf h id) ctx _) λ _.
        ensured pf h id parent_id _ λ p.
          bind-kept pf h id _ _ (ensure_writable-Frame pf h (view pf h id) parent_id) λ _.
            ensured pf h id child_id _ λ c.
              bind-kept pf h id _ _ (ensure_writable-Frame pf h (view pf h id) child_id) λ _ t l.
                (Frame-bind _ _ (require-Frame pf h (seen pf h id) _ parent_id) λ parent.
                    Frame-bind _ _ (require-Frame pf h (seen pf h id) _ child_id) λ child.
                      Frame-bind _ _ (Frame-gets _) λ v.
                        Frame-if _ _ _ (spliced-Frame now parent_id child_id parent child _ p c)
                          (Frame-fail _)).at
                  t
