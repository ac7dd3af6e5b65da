-- ===== src/Blockfile/Keys.antt =====
-- The keys of the frontmatter (`MANAGED_KEYS`, `is_managed_key`, `is_prop_key` of
-- crates/mkb-core/src/blockfile.rs).
use mkb.Base.{ℕ, Bool, false, ◌&&◌, ◌||◌, List, [], ◌∷◌, ◌==◌, any, all}
use mkb.Text.Chars.{Str, codes, is_ascii_alphabetic, is_ascii_alphanumeric}
use mkb.Text.Strings.{eq_ignore_ascii_case}

abbrev pub title_key : Str
title_key = codes "title"

abbrev pub tags_key : Str
tags_key = codes "tags"

abbrev pub locked_key : Str
locked_key = codes "locked"

abbrev pub updated_key : Str
updated_key = codes "updated"

abbrev pub managed_keys : List Str
managed_keys = title_key ∷ tags_key ∷ locked_key ∷ codes "created" ∷ updated_key ∷ []

unfoldable pub is_managed_key : Str → Bool
is_managed_key key = any (λ m. eq_ignore_ascii_case key m) managed_keys

-- A character of a property key behind the first.
unfoldable pub is_key_char : ℕ → Bool
is_key_char c = is_ascii_alphanumeric c || c == b'_' || c == b'-'

unfoldable pub is_prop_key : Str → Bool
is_prop_key [] = false
is_prop_key (c ∷ chars) = is_ascii_alphabetic c && all is_key_char chars
