-- ===== src/Sync/Engine/Reconcile/Spec.antt =====
-- What `reconcile` promises: the vault mirrors the files.
use mkb.Base.{ℕ, ◌≡◌, List, [], ◌∷◌, Option, none, some, if◌then◌else◌}
use mkb.Text.Chars.{Str}
use mkb.Text.Strings.{str_eq}
use mkb.Id.{BlockId}
use mkb.Block.{Block}
use mkb.Blockfile.Parse.{parse_block}
use mkb.Platform.{Platform}
use mkb.Sync.Host.{Host}

-- The text of the last file that is for the id.
unfoldable pub source_of : BlockId → List (BlockId × Str) → Option Str
source_of id [] = none
source_of id ((i, s) ∷ fs) = elim (source_of id fs) [
  | some t ↦ some t
  | none ↦ if str_eq i.as_str id.as_str then some s else none
]

module _ (pf : Platform) (h : Host) (id : BlockId) where
  -- The block is what some text holds, and the hash is that of this text.
  abbrev pub Holds : Str → Option Block × Option ℕ → Type 0
  Holds t w = (w.0 ≡ some (parse_block pf.tag_regexes id t)) × (w.1 ≡ some (h.hash_bytes t))

  -- A block that is there has its hash beside it.
  abbrev pub Agrees : Option Block × Option ℕ → Type 0
  Agrees (none, x) = Unit
  Agrees (some b, x) = (t : Str) × Holds t (some b, x)

  -- After the files were taken: the block of the last file for the id, or of a text that no hash
  -- tells from it; or what was there, where no file is for the id.
  abbrev pub Taken : Option Str → Option Block × Option ℕ → Option Block × Option ℕ → Type 0
  Taken none w w' = w' ≡ w
  Taken (some s) w w' = (t : Str) × Holds t w' × (h.hash_bytes t ≡ h.hash_bytes s)

  -- The vault has the block of the file, or of a text that no hash tells from it, with its hash;
  -- or no block, where there is no file.
  abbrev pub Mirrors : Option Str → Option Block × Option ℕ → Type 0
  Mirrors none w = w.0 ≡ none
  Mirrors (some s) w = (t : Str) × Holds t w × (h.hash_bytes t ≡ h.hash_bytes s)
