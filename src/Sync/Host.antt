-- ===== src/Sync/Host.antt =====
-- What the engine calls: the `Index` trait, the embedder, the hasher and the files under `blocks/`.
use mkb.Base.{ℕ, List, Option, Result}
use mkb.Text.Chars.{Str}
use mkb.Id.{BlockId}
use mkb.Access.{Denial}
use mkb.Edit.{EditError, Destructive}
use mkb.Index.{BlockRecord, LinkRow}

-- The messages of `IndexError`, by what they report.
pub data IndexError : Type 0 where
  external : Str → IndexError
  vanished : IndexError
  unknown_block unknown_source unknown_target locked_block : BlockId → IndexError
  invalid_key reserved_key empty_value : Str → IndexError
  denied : Denial → IndexError
  bad_edit : EditError → IndexError
  destructive : BlockId → Destructive → IndexError
  carve_range carve_empty : IndexError
  not_single : BlockId → ℕ → IndexError
  not_in_parent not_embedded : BlockId → IndexError
  -- A panic: the call is given up, and no answer is sent.
  panicked : IndexError

-- An operation changes its part of the world whether it succeeds or not.
pub record Host : Type 1 where
  pub Store : Type 0
  pub Files : Type 0
  pub reindex_block : BlockRecord → List LinkRow → Store → Result IndexError Unit × Store
  pub remove_block : BlockId → Store → Result IndexError Unit × Store
  pub set_content_hash : BlockId → Str → ℕ → Store → Result IndexError Unit × Store
  pub record_of : BlockId → Store → Result IndexError (Option BlockRecord)
  pub clear : Store → Result IndexError Unit × Store
  pub content_hashes : Str → Store → Result IndexError (List (BlockId × ℕ))
  -- `embed_one` and `set_embedding` where an embedder is attached, and else nothing
  pub embed : BlockRecord → Store → Result IndexError Unit × Store
  -- the model of the embedder, or `noembed`
  pub version : Str
  pub hash_bytes : Str → ℕ
  pub write_file : BlockId → Str → Files → Result IndexError Unit × Files
  -- removes the file if it exists
  pub remove_file : BlockId → Files → Result IndexError Unit × Files
  -- the names in `blocks/`, each with the text if it can be read, or nothing if there is no such
  -- directory
  pub list_dir : Files → Result IndexError (Option (List (Str × Option Str)))
