-- ===== src/Sync/Engine/Preserved.antt =====
-- What a write that changes one field of a block does to the others.
use mkb.Sync.Engine.{block_version}
use mkb.Sync.Engine.Stored.{persist-in_hashes}
use mkb.Base.{Bool, true, false, ◌≡◌, refl, none, ap, List, Option, some, is_ok, ◌∙◌, arith}
use mkb.Text.Chars.{Str}
use mkb.Text.Strings.{is_empty}
use mkb.Text.Trim.{trim}
use mkb.Id.{BlockId}
use mkb.Block.{Block}
use mkb.Blockfile.Write.{Prop, write_block, clean, clean_text, is_bare}
use mkb.Blockfile.RoundTrip.Shape.{drop_newlines}
use mkb.Blockfile.RoundTrip.Blocks.{IsStorable, stored, parse_block-write_block}
use mkb.Platform.{Platform}
use mkb.Vault
use mkb.Sync.Host.{Host}
use mkb.Sync.Exec.{pure, gets, ◌>>=◌}
use mkb.Sync.Engine.{Engine, require, persist}
use mkb.Sync.Engine.Writes.{update_block, set_lock, resolved_title}
use mkb.Sync.Engine.Stored.{persist-in_vault}

clean-bare :
    (title : Option Str) (tags : List Str) (locked : Bool) (now : Str) (props : List Prop)
    → is_empty (trim now) ≡ false
    → is_bare (clean title tags locked (some now) props) ≡ false
unfolding clean clean_text
clean-bare title tags locked now props h = ground arith

-- A title that is given and blank is cleaned away, like no title.
clean_text-resolved_title :
    (title old : Option Str)
    → clean_text (resolved_title title old)
      ≡ clean_text (elim title [ none ↦ old | some t ↦ some t ])
unfolding clean_text resolved_title
clean_text-resolved_title none old = refl
clean_text-resolved_title (some t) old = ground arith

clean-resolved_title :
    (title old : Option Str) (tags : List Str) (locked : Bool) (now : Option Str)
    (props : List Prop)
    → clean (resolved_title title old) tags locked now props
      ≡ clean (elim title [ none ↦ old | some t ↦ some t ]) tags locked now props
unfolding clean
clean-resolved_title title old tags locked now props =
    ap (λ (t : Option Str). record (clean none tags locked now props) { title = t })
      (clean_text-resolved_title title old)

module _ (pf : Platform) (h : Host) (now : Str) (stamped : is_empty (trim now) ≡ false) where
  written :
      (id : BlockId) (title : Option Str) (tags : List Str) (locked : Bool) (props : List Prop)
      (body : Str) (e : Engine h)
      → IsStorable tags props
      → is_ok (persist pf h id (write_block title tags locked (some now) props body) e).0 ≡ true
      → Vault.block
          (persist pf h id (write_block title tags locked (some now) props body) e).1.vault
          id
        ≡ some (
            stored pf.tag_regexes id
              (clean title tags locked (some now) props)
              (drop_newlines body))
  written id title tags locked props body e s o =
      (persist-in_vault pf h id _).at e o
      ∙ ap some (
          parse_block-write_block pf.tag_regexes id title tags locked (some now) props body s
            (clean-bare title tags locked now props stamped))

  -- An update that succeeds leaves in the vault the block of the new body without the newlines that
  -- it begins with, with the new title, or the old one if none was given, and with the tags, the
  -- lock and the properties that the block had, as they are read back: if the tags and properties
  -- can be stored and the time of the write is not blank.
  pub update_block-preserves :
      (id : BlockId) (title : Option Str) (body : Str) (e : Engine h) (b : Block)
      → Vault.block e.vault id ≡ some b
      → IsStorable b.fm_tags b.props
      → is_ok (update_block pf h now id title body e).0 ≡ true
      → Vault.block (update_block pf h now id title body e).1.vault id
        ≡ some (
            stored pf.tag_regexes id
              (clean
                (elim title [ none ↦ b.title | some t ↦ some t ])
                b.fm_tags
                b.locked
                (some now)
                b.props)
              (drop_newlines body))
  unfolding update_block require gets pure ◌>>=◌
  update_block-preserves id title body e b known s = rw (known) λ o.
      written id (resolved_title title b.title) b.fm_tags b.locked b.props body e s o
      ∙ ap (λ m. some (stored pf.tag_regexes id m (drop_newlines body)))
          (clean-resolved_title title b.title b.fm_tags b.locked (some now) b.props)

  -- Locking or unlocking a block, if it succeeds, leaves in the vault the block with the new lock,
  -- its title, its tags and its properties, as they are read back, and its body without the newlines
  -- that it begins with: if the tags and properties can be stored and the time of the write is not
  -- blank.
  pub set_lock-preserves :
      (id : BlockId) (locked : Bool) (e : Engine h) (b : Block)
      → Vault.block e.vault id ≡ some b
      → IsStorable b.fm_tags b.props
      → is_ok (set_lock pf h now id locked e).0 ≡ true
      → Vault.block (set_lock pf h now id locked e).1.vault id
        ≡ some (
            stored pf.tag_regexes id
              (clean b.title b.fm_tags locked (some now) b.props)
              (drop_newlines b.body))
  unfolding set_lock require gets pure ◌>>=◌
  set_lock-preserves id locked e b known s =
      rw (known) (written id b.title b.fm_tags locked b.props b.body e s)

module _ (pf : Platform) (h : Host) (now : Str) where
  -- After an update that succeeds, the version of the block is the hash of the text that was
  -- written: the new title, or the old one if none was given, with the tags, the lock and the
  -- properties of the block, the time and the new body.
  pub update_block-version :
      (id : BlockId) (title : Option Str) (body : Str) (e : Engine h) (b : Block)
      → Vault.block e.vault id ≡ some b
      → is_ok (update_block pf h now id title body e).0 ≡ true
      → block_version pf h (update_block pf h now id title body e).1 id
        ≡ some (
            h.hash_bytes (
              write_block
                (resolved_title title b.title)
                b.fm_tags
                b.locked
                (some now)
                b.props
                body))
  unfolding update_block require gets pure block_version ◌>>=◌
  update_block-version id title body e b known = rw (known) ((persist-in_hashes pf h id _).at e)
