-- ===== src/Sync/Engine/Isolated.antt =====
-- A write to one block leaves what a client sees of another as it was.
use mkb.Sync.Engine.Unlink.{write_cut, remove_directives_to}
use mkb.Sync.Exec.Frame.{Frame-fail, Frame-if}
use mkb.Base.{true, false, none, some}
use mkb.Base.{◌≡◌, Bool, false, ℕ, List, Option}
use mkb.Text.Chars.{Str}
use mkb.Text.Strings.{str_eq}
use mkb.Id.{BlockId}
use mkb.Blockfile.Write.{Prop}
use mkb.Platform.{Platform}
use mkb.Sync.Host.{Host}
use mkb.Sync.Exec.Frame.{Frame, Frame-pure, Frame-gets, Frame-lift, Frame-bind}
use mkb.Sync.Engine.Quiet.{require-Frame, on_index-Frame, on_files-Frame, refresh_links-Frame}
use mkb.Sync.Engine.Framed.{seen, view, persist-Frame, drop_block-Frame, drop_hash-Frame}
use mkb.Sync.Engine.Writes.{
  create_block, update_block, set_tags, set_lock, set_props, unset_props, delete_block,
  append_to_body, insert_directive_by_anchor, insert_directive_at_offset,
}

module _ (pf : Platform) (h : Host) (id i : BlockId)
    (other : str_eq i.as_str id.as_str ≡ false) where
  pub create_block-Frame :
      (now : Str) (title : Option Str) (body : Str)
      → Frame (view pf h id) (create_block pf h i now title body)
  unfolding create_block
  create_block-Frame now title body =
      Frame-bind _ _ (persist-Frame pf h id i other _) (λ _. Frame-pure i)

  pub update_block-Frame :
      (now : Str) (title : Option Str) (body : Str)
      → Frame (view pf h id) (update_block pf h now i title body)
  unfolding update_block
  update_block-Frame now title body =
      Frame-bind _ _ (require-Frame pf h (seen pf h id) _ i) λ b. persist-Frame pf h id i other _

  pub set_tags-Frame :
      (now : Str) (tags : List Str) → Frame (view pf h id) (set_tags pf h now i tags)
  unfolding set_tags
  set_tags-Frame now tags =
      Frame-bind _ _ (require-Frame pf h (seen pf h id) _ i) λ b. persist-Frame pf h id i other _

  pub set_lock-Frame :
      (now : Str) (locked : Bool) → Frame (view pf h id) (set_lock pf h now i locked)
  unfolding set_lock
  set_lock-Frame now locked =
      Frame-bind _ _ (require-Frame pf h (seen pf h id) _ i) λ b. persist-Frame pf h id i other _

  pub set_props-Frame :
      (now : Str) (props : List Prop) → Frame (view pf h id) (set_props pf h now i props)
  unfolding set_props
  set_props-Frame now props =
      Frame-bind _ _ (require-Frame pf h (seen pf h id) _ i)
        λ b. Frame-bind _ _ (Frame-lift _) λ merged. persist-Frame pf h id i other _

  pub unset_props-Frame :
      (now : Str) (keys : List Str) → Frame (view pf h id) (unset_props pf h now i keys)
  unfolding unset_props
  unset_props-Frame now keys =
      Frame-bind _ _ (require-Frame pf h (seen pf h id) _ i) λ b. persist-Frame pf h id i other _

  pub delete_block-Frame : Frame (view pf h id) (delete_block pf h i)
  unfolding delete_block
  delete_block-Frame = Frame-bind _ _ (on_files-Frame pf h (seen pf h id) _) λ _.
      Frame-bind _ _ (drop_block-Frame pf h id i other) λ _.
        Frame-bind _ _ (on_index-Frame pf h (seen pf h id) _) λ _.
          Frame-bind _ _ (drop_hash-Frame pf h id i other)
            λ _. refresh_links-Frame pf h (seen pf h id)

  pub append_to_body-Frame :
      (now suffix : Str) → Frame (view pf h id) (append_to_body pf h now i suffix)
  unfolding append_to_body
  append_to_body-Frame now suffix =
      Frame-bind _ _ (require-Frame pf h (seen pf h id) _ i) λ b. update_block-Frame now _ _

  pub insert_directive_by_anchor-Frame :
      (now directive : Str) (anchor : BlockId) (after : Bool)
      → Frame (view pf h id) (insert_directive_by_anchor pf h now i directive anchor after)
  unfolding insert_directive_by_anchor
  insert_directive_by_anchor-Frame now directive anchor after =
      Frame-bind _ _ (require-Frame pf h (seen pf h id) _ i)
        λ b. Frame-bind _ _ (Frame-gets _) λ v. update_block-Frame now _ _

  pub insert_directive_at_offset-Frame :
      (now directive : Str) (offset : ℕ)
      → Frame (view pf h id) (insert_directive_at_offset pf h now i directive offset)
  unfolding insert_directive_at_offset
  insert_directive_at_offset-Frame now directive offset =
      Frame-bind _ _ (require-Frame pf h (seen pf h id) _ i) λ b. update_block-Frame now _ _

  write_cut-Frame :
      (now : Str) (title body : Option Str) → Frame (view pf h id) (write_cut pf h now i title body)
  unfolding write_cut
  write_cut-Frame now title none = Frame-fail _
  write_cut-Frame now title (some body) =
      Frame-bind _ _ (update_block-Frame now title _) λ _. Frame-pure true

  pub remove_directives_to-Frame :
      (now : Str) (target : BlockId) → Frame (view pf h id) (remove_directives_to pf h now i target)
  unfolding remove_directives_to
  remove_directives_to-Frame now target =
      Frame-bind _ _ (require-Frame pf h (seen pf h id) _ i) λ b.
        Frame-bind _ _ (Frame-gets _)
          λ v. Frame-if _ _ _ (Frame-pure false) (write_cut-Frame now b.title _)
