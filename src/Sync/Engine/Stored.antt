-- ===== src/Sync/Engine/Stored.antt =====
-- What a write that succeeds leaves in the vault and among the hashes.
use mkb.Base.{ℕ, refl, ap, Option, some, ◌∙◌, if◌then◌else◌}
use mkb.Text.Chars.{Str}
use mkb.Text.Strings.{str_eq, str_eq_refl}
use mkb.Id.{BlockId}
use mkb.Block.{Block}
use mkb.Blockfile.Parse.{parse_block}
use mkb.Platform.{Platform}
use mkb.Map
use mkb.Map.{Map, get-insert}
use mkb.Vault
use mkb.Vault.{Vault}
use mkb.Vault.Resolve.{block-insert}
use mkb.Sync.Host.{Host}
use mkb.Sync.Exec.{modify}
use mkb.Sync.Exec.Frame.{Frame, Frame-gets, Frame-bind}
use mkb.Sync.Exec.Ensures.{Ensures, Ensures-first, Ensures-last}
use mkb.Sync.Engine.Framed.{parse_block-id}
use mkb.Sync.Engine.{put_block, put_hash, ingest, record_hash, persist}
use mkb.Sync.Engine.Quiet.{part, on_index-Frame, require-Frame, reindex-Frame, refresh_links-Frame}

module _ (pf : Platform) (h : Host) where
  abbrev pub in_vault : BlockId → Vault → Map ℕ → Option Block
  in_vault id v m = Vault.block v id

  abbrev pub in_hashes : BlockId → Vault → Map ℕ → Option ℕ
  in_hashes id v m = Map.get id.as_str m

  put_hash-Frame : (id : BlockId) (x : ℕ) → Frame (part h (in_vault id)) (put_hash pf h id x)
  unfolding put_hash modify
  put_hash-Frame id x = record { at = λ e. refl }

  put_hash-Ensures :
      (id : BlockId) (x : ℕ) → Ensures (part h (in_hashes id)) (some x) (put_hash pf h id x)
  unfolding put_hash modify
  put_hash-Ensures id x = record {
    at = λ e o.
        get-insert id.as_str id.as_str x e.hashes
        ∙ ap (λ t. if t then some x else Map.get id.as_str e.hashes) (str_eq_refl id.as_str);
  }

  pub put_block-Ensures :
      (id : BlockId) (source : Str)
      → Ensures
          (part h (in_vault id))
          (some (parse_block pf.tag_regexes id source))
          (put_block pf h id source)
  unfolding put_block modify Vault.insert_source
  put_block-Ensures id source = record {
    at = λ e o.
        let b = parse_block pf.tag_regexes id source in
        block-insert pf e.vault b id
        ∙ ap (λ (j : BlockId). if str_eq j.as_str id.as_str then some b else Vault.block e.vault id)
            (parse_block-id pf.tag_regexes id source)
        ∙ ap (λ t. if t then some b else Vault.block e.vault id) (str_eq_refl id.as_str);
  }

  pub ingest-Ensures :
      (id : BlockId) (source : Str)
      → Ensures
          (part h (in_vault id))
          (some (parse_block pf.tag_regexes id source))
          (ingest pf h id source)
  unfolding ingest
  ingest-Ensures id source = Ensures-first _ _ (put_block-Ensures id source) λ _.
      Frame-bind _ _ (require-Frame pf h (in_vault id) _ id) λ b. Frame-bind _ _ (Frame-gets _) λ v.
        Frame-bind _ _ (reindex-Frame pf h (in_vault id) v b)
          λ _. on_index-Frame pf h (in_vault id) _

  pub record_hash_quiet :
      (id : BlockId) (x : ℕ) → Frame (part h (in_vault id)) (record_hash pf h id x)
  unfolding record_hash
  record_hash_quiet id x =
      Frame-bind _ _ (on_index-Frame pf h (in_vault id) _) λ _. put_hash-Frame id x

  pub record_hash-Ensures :
      (id : BlockId) (x : ℕ) → Ensures (part h (in_hashes id)) (some x) (record_hash pf h id x)
  unfolding record_hash
  record_hash-Ensures id x = Ensures-last _ _ λ _. put_hash-Ensures id x

  pub persist-in_vault :
      (id : BlockId) (source : Str)
      → Ensures
          (part h (in_vault id))
          (some (parse_block pf.tag_regexes id source))
          (persist pf h id source)
  unfolding persist
  persist-in_vault id source = Ensures-last _ _ λ _.
      Ensures-first _ _ (ingest-Ensures id source)
        λ _. Frame-bind _ _ (record_hash_quiet id _) λ _. refresh_links-Frame pf h (in_vault id)

  pub persist-in_hashes :
      (id : BlockId) (source : Str)
      → Ensures (part h (in_hashes id)) (some (h.hash_bytes source)) (persist pf h id source)
  unfolding persist
  persist-in_hashes id source = Ensures-last _ _ λ _.
      Ensures-last _ _ λ _.
        Ensures-first _ _ (record_hash-Ensures id _) λ _. refresh_links-Frame pf h (in_hashes id)
