-- ===== src/Platform.antt =====
-- What the program takes from crates and from the Unicode tables.
use mkb.Base.{Bool, List, Option}
use mkb.Text.Chars.{Str}
use mkb.Id.{BlockId}
use mkb.Blockfile.Parse.{TagRegexes}
use mkb.Link.{RefMatch}

pub record Platform : Type 0 where
  -- `str::to_lowercase`, which maps the whole of Unicode
  pub to_lowercase : Str → Str
  -- the regular expressions of blockfile.rs and link.rs, run by the `regex` crate
  pub tag_regexes : TagRegexes
  pub ref_captures : Str → List RefMatch
  -- `BlockId::created_rfc3339`, by the `ulid` and `time` crates
  pub created_rfc3339 : BlockId → Option Str
  -- the regular expression of conflict.rs
  pub has_device_suffix : Str → Bool
