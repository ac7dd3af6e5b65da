-- ===== src/Blockfile/Code.antt =====
-- Code in a body: fenced blocks and inline spans (`mask_code_spans`, `code_langs`,
-- `non_code_lines` of crates/mkb-core/src/blockfile.rs).
use mathlib.Core.Option
use mkb.Base.{
  ℕ, zero, suc, ◌+◌, Bool, true, false, not, ◌||◌, List, [], ◌∷◌, ◌++◌, Option, none, some, ◌==◌,
  if◌then◌else◌, any, drop, replicate, length,
}
use mkb.Text.Chars.{Str, codes, space}
use mkb.Text.Strings.{strip_prefix, starts_with, eq_ignore_ascii_case, is_empty, take_word}
use mkb.Text.Trim.{trim_start}
use mkb.Text.Lines.{lines}

abbrev pub backtick : ℕ
backtick = b'`'

-- `while i < chars.len() && chars[i] == '`'`: the run of backticks in front.
unfoldable pub run_length : Str → ℕ
run_length [] = 0
run_length (c ∷ s) = if c == backtick then suc (run_length s) else 0

-- The end of the first run of exactly `n` backticks, counted from the start. A round passes over
-- one character or one run, so the length of the text is fuel enough.
unfoldable pub close_end : ℕ → ℕ → Str → Option ℕ
unfolding run_length
close_end zero n s = none
close_end (suc fuel) n [] = none
close_end (suc fuel) n (c ∷ s) =
    let m = run_length (c ∷ s) in
    let past_run = Option.map (λ k. m + k) (close_end fuel n (drop m (c ∷ s))) in
    let past_char = Option.map suc (close_end fuel n s) in
    if c == backtick then (if m == n then some m else past_run) else past_char

unfoldable pub mask_from : ℕ → Str → Str
mask_from zero s = []
mask_from (suc fuel) [] = []
mask_from (suc fuel) (c ∷ s) =
    let n = run_length (c ∷ s) in
    let behind = drop n (c ∷ s) in
    let plain = c ∷ mask_from fuel s in
    let open_run = replicate n backtick ++ mask_from fuel behind in
    let span = λ (k : ℕ). replicate (n + k) space ++ mask_from fuel (drop k behind) in
    if c == backtick
    then (elim (close_end (length behind) n behind) [ some k ↦ span k | none ↦ open_run ])
    else plain

unfoldable pub mask_code_spans : Str → Str
unfolding mask_from
mask_code_spans line = mask_from (length line) line

-- A line that opens or closes a fenced block.
unfoldable pub is_fence : Str → Bool
is_fence line =
    let t = trim_start line in starts_with (codes "```") t || starts_with (codes "~~~") t

-- The flag is `in_fence`.
unfoldable pub outside_fences : Bool → List Str → List Str
unfolding is_fence
outside_fences in_fence [] = []
outside_fences in_fence (line ∷ rest) =
    let toggled = outside_fences (not in_fence) rest in
    let others = outside_fences in_fence rest in
    if is_fence line then toggled else if in_fence then others else line ∷ others

unfoldable pub non_code_lines : Str → List Str
unfolding outside_fences
non_code_lines body = outside_fences false (lines body)

-- Is there a text that is the same but for the case?
unfoldable pub has_text : Str → List Str → Bool
has_text t = any (λ x. eq_ignore_ascii_case x t)

unfoldable pub add_text : List Str → Str → List Str
unfolding has_text
add_text out t = if has_text t out then out else out ++ t ∷ []

unfoldable pub add_lang : List Str → Str → List Str
unfolding add_text
add_lang out lang = if is_empty lang then out else add_text out lang

-- `t.strip_prefix("```").or_else(|| t.strip_prefix("~~~"))`
unfoldable pub fence_info : Str → Option Str
fence_info line =
    let t = trim_start line in
    elim (strip_prefix (codes "```") t) [
      | some rest ↦ some rest
      | none ↦ strip_prefix (codes "~~~") t
    ]

unfoldable pub collect_langs : List Str → Bool → List Str → List Str
unfolding add_lang fence_info
collect_langs out in_fence [] = out
collect_langs out in_fence (line ∷ rest) =
    let opened =
      λ (info : Str). collect_langs (add_lang out (take_word (trim_start info))) true rest in
    let closed = collect_langs out false rest in
    let others = collect_langs out in_fence rest in
    elim (fence_info line) [ none ↦ others | some info ↦ if in_fence then closed else opened info ]

unfoldable pub code_langs : Str → List Str
unfolding collect_langs
code_langs body = collect_langs [] false (lines body)
