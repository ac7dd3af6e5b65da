-- ===== src/Sync/Engine/Props/Stored.antt =====
-- What `set_props`, `unset_props` and `set_tags` leave in the vault.
use mkb.Base.{◌≡◌, List, some, ok, []}
use mkb.Text.Chars.{Str}
use mkb.Id.{BlockId}
use mkb.Block.{Block}
use mkb.Blockfile.Write.{Prop, write_block}
use mkb.Blockfile.Parse.{parse_block}
use mkb.Platform.{Platform}
use mkb.Vault
use mkb.Sync.Host.{Host}
use mkb.Sync.Engine.{Engine, block_version}
use mkb.Sync.Engine.Props.{merge_props}

module _ (pf : Platform) (h : Host) (now : Str) (id : BlockId) (e : Engine h) (b : Block) where
  -- The text with these tags and properties, and with the title, the lock and the body of `b`.
  abbrev pub text_with : List Str → List Prop → Str
  text_with tags props = write_block b.title tags b.locked (some now) props b.body

  -- The block in the vault is the one that is read from the text, and its version is the hash of
  -- the text.
  abbrev pub Holds : Str → Engine h → Type 0
  Holds text s =
      (Vault.block s.vault id ≡ some (parse_block pf.tag_regexes id text))
      × (block_version pf h s id ≡ some (h.hash_bytes text))

  -- The properties that a successful `set_props` writes.
  record Merged (props : List Prop) (s : Engine h) : Type 0 where
    out : List Prop
    merged : merge_props b.props [] props ≡ ok out
    left : Holds (text_with b.fm_tags out) s
