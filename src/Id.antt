-- ===== src/Id.antt =====
-- crates/mkb-core/src/id.rs: block identities.
use mkb.Base.{Bool, ◌&&◌, Result, ok, err, ◌==◌, if◌then◌else◌, all}
use mkb.Text.Chars.{Str, is_ascii_alphanumeric}
use mkb.Text.Strings.{byte_len, str_eq}
use mkb.Text.Trim.{trim}

pub record BlockId : Type 0 where
  pub as_str : Str

pub record IdError : Type 0 where
  pub text : Str

unfoldable pub id_eq : BlockId → BlockId → Bool
unfolding str_eq
id_eq a b = str_eq a.as_str b.as_str

-- `BlockId::parse`
unfoldable pub parse : Str → Result IdError BlockId
parse text =
    let s = trim text in
    let is_valid = byte_len s == 26 && all is_ascii_alphanumeric s in
    if is_valid then ok (record { as_str = s }) else err (record { text = s })
