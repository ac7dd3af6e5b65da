-- ===== src/Block.antt =====
-- crates/mkb-core/src/block.rs: the in-memory block.
pub mod Views
use mkb.Base.{Bool, List, Option}
use mkb.Text.Chars.{Str}
use mkb.Id.{BlockId}

pub record Block : Type 0 where
  pub id : BlockId
  pub title : Option Str
  pub tags : List Str
  pub fm_tags : List Str
  pub langs : List Str
  pub locked : Bool
  pub props : List (Str × Str)
  pub updated : Option Str
  pub body : Str
