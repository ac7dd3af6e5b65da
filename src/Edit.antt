-- ===== src/Edit.antt =====
-- Edits of a body as text: `exact_replace`, `append_text`, `slice_lines` of
-- crates/mkb-core/src/sync.rs and `destructive_update_reason` of crates/mkb-core/src/service.rs.
pub mod Replace
pub mod Append
use mkb.Base.{
  ℕ, ◌+◌, ◌-◌, ◌*◌, Bool, true, false, not, ◌&&◌, ◌||◌, [], ◌∷◌, ◌++◌, Option, none, some, Result,
  ok, err, ◌==◌, ltb, leb, if◌then◌else◌, length, take, drop, min, max,
}
use mkb.Text.Chars.{Str, codes, newline}
use mkb.Text.Strings.{ends_with, is_empty, join}
use mkb.Text.Trim.{trim}
use mkb.Text.Lines.{lines}
use mkb.Text.Replace.{replace, count_matches}

pub data EditError : Type 0 where
  empty_search zero_count : EditError
  wrong_count : ℕ → ℕ → EditError

unfoldable pub exact_replace : Str → Str → Str → ℕ → Result EditError Str
exact_replace body old new expect_count =
    if is_empty old
    then err empty_search
    else if expect_count == 0
    then err zero_count
    else let found = count_matches body old in
      if found == expect_count
      then ok (replace body old new)
      else err (wrong_count expect_count found)

-- A newline is added to a text that is not empty and does not end in one.
unfoldable pub end_with_newline : Str → Str
end_with_newline s = if ends_with newline s then s else s ++ newline ∷ []

unfoldable pub append_text : Str → Str → Str
unfolding end_with_newline
append_text body text =
    let out = if is_empty body then body else end_with_newline body in
    end_with_newline (out ++ text)

unfoldable pub slice_lines : Str → ℕ → ℕ → Str
slice_lines text start end =
    let first = max start 1 in
    if ltb end first
    then []
    else let ls = lines text in
      if ltb (length ls) first
      then []
      else let last = min end (length ls) in
        join (codes "\n") (drop (first - 1) (take last ls)) ++ newline ∷ []

abbrev pub guard_min_chars : ℕ
guard_min_chars = 200

pub data Destructive : Type 0 where
  emptied : Destructive
  shrunk : ℕ → ℕ → Destructive

-- `lost as f64 / old_len as f64 > 0.75`, as the comparison of whole numbers that it is for
-- lengths below 2^51.
unfoldable pub destructive_update_reason : Str → Str → Option Destructive
destructive_update_reason old new =
    let old_t = trim old in
    let new_t = trim new in
    if is_empty old_t
    then none
    else if is_empty new_t
    then some emptied
    else let old_len = length old_t in
      let new_len = length new_t in
      if leb guard_min_chars old_len
        && ltb new_len old_len
        && ltb (3 * old_len) (4 * (old_len - new_len))
      then some (shrunk old_len new_len)
      else none
