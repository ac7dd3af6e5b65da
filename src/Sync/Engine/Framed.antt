-- ===== src/Sync/Engine/Framed.antt =====
-- A write to one block leaves what the engine has for another as it was.
use mkb.Base.{ℕ, false, ◌≡◌, refl, ap, ◌∙◌, Option, none, some, if◌then◌else◌}
use mkb.Text.Chars.{Str}
use mkb.Text.Strings.{str_eq}
use mkb.Id.{BlockId}
use mkb.Block.{Block}
use mkb.Blockfile.Frontmatter.{split_frontmatter}
use mkb.Blockfile.Parse.{TagRegexes, block_of, parse_block}
use mkb.Platform.{Platform}
use mkb.Map
use mkb.Map.{Map, get-insert, get-remove}
use mkb.Vault
use mkb.Vault.{Vault}
use mkb.Vault.Resolve.{block-insert, block-remove}
use mkb.Sync.Host.{Host}
use mkb.Sync.Exec.{modify}
use mkb.Sync.Exec.Frame.{Frame, Frame-gets, Frame-bind}
use mkb.Sync.Engine.Quiet.{
  part, on_index-Frame, on_files-Frame, require-Frame, reindex-Frame, refresh_links-Frame,
}
use mkb.Sync.Engine.{
  Engine, put_block, put_hash, drop_block, drop_hash, ingest, record_hash, persist,
}

block_of-id :
    (rx : TagRegexes) (id : BlockId) (fm : Option Str) (body : Str)
    → (block_of rx id fm body).id ≡ id
unfolding block_of
block_of-id rx id none body = refl
block_of-id rx id (some fm) body = refl

pub parse_block-id :
    (rx : TagRegexes) (id : BlockId) (source : Str) → (parse_block rx id source).id ≡ id
unfolding parse_block
parse_block-id rx id source =
    block_of-id rx id (split_frontmatter source).0 (split_frontmatter source).1

module _ (pf : Platform) (h : Host) where
  -- What a client can see of one block: its content, and its version.
  abbrev pub seen : BlockId → Vault → Map ℕ → Option Block × Option ℕ
  seen id v m = (Vault.block v id, Map.get id.as_str m)

  abbrev pub view : BlockId → Engine h → Option Block × Option ℕ
  view id = part h (seen id)

  -- The steps on the index and on the files touch neither.
  module _ (id i : BlockId) (other : str_eq i.as_str id.as_str ≡ false) where
    pub put_block-Frame : (source : Str) → Frame (view id) (put_block pf h i source)
    unfolding put_block modify Vault.insert_source
    put_block-Frame source = record {
      at = λ e.
          let b = parse_block pf.tag_regexes i source in
          ap (λ (o : Option Block). (o, Map.get id.as_str e.hashes))
            (block-insert pf e.vault b id
              ∙ ap
                  (λ (j : BlockId).
                    if str_eq j.as_str id.as_str then some b else Vault.block e.vault id)
                  (parse_block-id pf.tag_regexes i source)
              ∙ ap (λ t. if t then some b else Vault.block e.vault id) other);
    }

    pub put_hash-Frame : (x : ℕ) → Frame (view id) (put_hash pf h i x)
    unfolding put_hash modify
    put_hash-Frame x = record {
      at = λ e.
          ap (λ (o : Option ℕ). (Vault.block e.vault id, o))
            (get-insert i.as_str id.as_str x e.hashes
              ∙ ap (λ t. if t then some x else Map.get id.as_str e.hashes) other);
    }

    pub drop_block-Frame : Frame (view id) (drop_block pf h i)
    unfolding drop_block modify
    drop_block-Frame = record {
      at = λ e.
          ap (λ (o : Option Block). (o, Map.get id.as_str e.hashes))
            (block-remove pf e.vault i id
              ∙ ap (λ t. if t then none else Vault.block e.vault id) other);
    }

    pub drop_hash-Frame : Frame (view id) (drop_hash pf h i)
    unfolding drop_hash modify
    drop_hash-Frame = record {
      at = λ e.
          ap (λ (o : Option ℕ). (Vault.block e.vault id, o))
            (get-remove i.as_str id.as_str e.hashes
              ∙ ap (λ t. if t then none else Map.get id.as_str e.hashes) other);
    }

    pub ingest-Frame : (source : Str) → Frame (view id) (ingest pf h i source)
    unfolding ingest
    ingest-Frame source = Frame-bind _ _ (put_block-Frame source) λ _.
        Frame-bind _ _ (require-Frame pf h (seen id) _ i) λ b. Frame-bind _ _ (Frame-gets _) λ v.
          Frame-bind _ _ (reindex-Frame pf h (seen id) v b) λ _. on_index-Frame pf h (seen id) _

    pub record_hash-Frame : (x : ℕ) → Frame (view id) (record_hash pf h i x)
    unfolding record_hash
    record_hash-Frame x = Frame-bind _ _ (on_index-Frame pf h (seen id) _) λ _. put_hash-Frame x

    pub persist-Frame : (source : Str) → Frame (view id) (persist pf h i source)
    unfolding persist
    persist-Frame source = Frame-bind _ _ (on_files-Frame pf h (seen id) _) λ _.
        Frame-bind _ _ (ingest-Frame source)
          λ _. Frame-bind _ _ (record_hash-Frame _) λ _. refresh_links-Frame pf h (seen id)
