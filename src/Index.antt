-- ===== src/Index.antt =====
-- crates/mkb-core/src/index.rs: the records that the index holds, and reachability by embeds.
pub mod Group
pub mod Hierarchy
pub mod Query
use mkb.Base.{ℕ, Bool, List, map, Option, if◌then◌else◌}
use mkb.Text.Chars.{Str}
use mkb.Id.{BlockId}
use mkb.Block.{Block}
use mkb.Block.Views
use mkb.Block.Views.{tag_names, contextual_text}
use mkb.Blockfile.Write.{Prop}
use mkb.Link.{Reference}
use mkb.Platform.{Platform}
use mkb.Vault
use mkb.Vault.{Vault}

pub record BlockRecord : Type 0 where
  pub id : BlockId
  pub title : Option Str
  pub tags : List Str
  pub langs : List Str
  pub content : Str
  pub contextual_text : Str
  pub child_count : ℕ
  pub locked : Bool
  pub props : List Prop
  pub created : Option Str
  pub updated : Option Str

pub data LinkKind : Type 0 where
  references transcludes : LinkKind

pub record LinkRow : Type 0 where
  pub source_id : BlockId
  pub target_id : Option BlockId
  pub target : Str
  pub kind : LinkKind

pub data LinkOutcome : Type 0 where
  reference transclusion downgraded_to_reference : LinkOutcome

module _ (pf : Platform) where
  unfoldable pub from_block : Block → ℕ → BlockRecord
  from_block b child_count = record {
    id = b.id;
    title = b.title;
    tags = tag_names b;
    langs = b.langs;
    content = b.body;
    contextual_text = contextual_text pf.ref_captures b;
    child_count = child_count;
    locked = b.locked;
    props = b.props;
    created = pf.created_rfc3339 b.id;
    updated = b.updated;
  }

  unfoldable pub block_links : Vault → Block → List LinkRow
  block_links v b =
      map
        (λ (r : Reference). record {
          source_id = b.id;
          target_id = Vault.resolve pf v r.target;
          target = r.target;
          kind = if r.embed then transcludes else references;
        })
        (Views.references pf.ref_captures b)
