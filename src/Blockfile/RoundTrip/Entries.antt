-- ===== src/Blockfile/RoundTrip/Entries.antt =====
-- A line `key: value` of the frontmatter, as the readers see it.
use mkb.Base.{
  All-append, ℕ, true, false, ◌≡◌, ◌≢◌, refl, ap, [], ◌∷◌, ◌++◌, none, some, arith, if◌then◌else◌,
  all, append_assoc, sym,
}
use mkb.Text.Chars.{
  Str, newline, space, carriage_return, Lacks, is_whitespace, is_ascii_alphabetic,
  is_ascii_alphanumeric,
}
use mkb.Text.Strings.{str_eq}
use mkb.Text.Strings.Laws.{strip_prefix-key, strip_suffix-append-none, strip_suffix_trimmed}
use mkb.Text.Trim.{trim, trim_end}
use mkb.Text.Trim.Laws.{trim_fixed, trim_end_fixed, trim_end_matches-append}
use mkb.Text.Lines.Laws.{IsLine, end_line}
use mkb.Blockfile.Keys.{is_key_char, is_prop_key}
use mkb.Blockfile.Write.{entry_text}
use mkb.Blockfile.Read.{field_of}

-- A key and the text of its value.
abbrev pub Entry : Type 0
Entry = Str × Str

abbrev pub line_of : Entry → Str
line_of (k, r) = k ++ b':' ∷ space ∷ r

pub record IsEntry (e : Entry) : Type 0 where
  pub key : is_prop_key e.0 ≡ true
  pub tight : trim e.1 ≡ e.1
  pub filled : e.1 ≢ []
  pub one_line : Lacks newline e.1

pub entry_text-line_of : (k r : Str) → entry_text k r ≡ end_line (line_of (k, r))
unfolding entry_text
entry_text-line_of k r = sym (append_assoc k (b':' ∷ space ∷ r) (newline ∷ []))

-- A key has letters, digits, `_` and `-` alone.
key_char_is : (c d : ℕ) → is_key_char c ≡ true → is_key_char d ≡ false → c ≢ d
key_char_is c d h k e = ground (arith, ap is_key_char e)

key_chars-Lacks : (d : ℕ) (k : Str) → is_key_char d ≡ false → all is_key_char k ≡ true → Lacks d k
key_chars-Lacks d [] h e = tt
key_chars-Lacks d (c ∷ k) h e =
    (λ p. ground (arith, ap is_key_char p), key_chars-Lacks d k h (ground arith))

alphabetic-key_char : (c : ℕ) → is_ascii_alphabetic c ≡ true → is_key_char c ≡ true
unfolding is_key_char is_ascii_alphanumeric
alphabetic-key_char c h = rw h

alphabetic-is_whitespace : (c : ℕ) → is_ascii_alphabetic c ≡ true → is_whitespace c ≡ false
unfolding is_ascii_alphabetic is_whitespace
alphabetic-is_whitespace c h = ground arith

pub prop_key-Lacks : (d : ℕ) (k : Str) → is_key_char d ≡ false → is_prop_key k ≡ true → Lacks d k
unfolding is_prop_key
prop_key-Lacks d [] h e = tt
prop_key-Lacks d (c ∷ k) h e = key_chars-Lacks d (c ∷ k) h (ground (arith, alphabetic-key_char c))

colon_no_key : is_key_char b':' ≡ false
unfolding is_key_char is_ascii_alphanumeric
colon_no_key = refl

newline_no_key : is_key_char newline ≡ false
unfolding is_key_char is_ascii_alphanumeric
newline_no_key = refl

pub key-Lacks_colon : (k : Str) → is_prop_key k ≡ true → Lacks b':' k
key-Lacks_colon k = prop_key-Lacks b':' k colon_no_key

tight_end : (r : Str) → trim r ≡ r → trim_end r ≡ r
unfolding trim_end
tight_end [] h = refl
tight_end (c ∷ r) h = trim_end_fixed c r h

line_end : (k r : Str) → trim r ≡ r → r ≢ [] → trim_end (line_of (k, r)) ≡ line_of (k, r)
unfolding trim_end
line_end k r h n =
    rw (← append_assoc k (b':' ∷ space ∷ []) r)
      (trim_end_matches-append is_whitespace (k ++ b':' ∷ space ∷ []) r n (tight_end r h))

pub trim-line_of : (e : Entry) → IsEntry e → trim (line_of e) ≡ line_of e
unfolding is_prop_key
trim-line_of ([], r) h = absurd (ground (arith, h.key))
trim-line_of (c ∷ k, r) h =
    trim_fixed c (k ++ b':' ∷ space ∷ r) (alphabetic-is_whitespace c (ground (arith, h.key)))
      (line_end (c ∷ k) r h.tight h.filled)

pub line_of-IsLine : (e : Entry) → IsEntry e → IsLine (line_of e)
line_of-IsLine (k, r) h = (
  All-append (λ c. c ≢ newline) k (b':' ∷ space ∷ r) (prop_key-Lacks newline k newline_no_key h.key)
      (omega arith, (omega arith, h.one_line)),
  rw (← append_assoc k (b':' ∷ space ∷ []) r) (
      strip_suffix-append-none carriage_return (k ++ b':' ∷ space ∷ []) r h.filled (
        unfold is_whitespace trim_end in
        strip_suffix_trimmed is_whitespace carriage_return r refl (tight_end r h.tight))),
)

-- A line is the field of its own key and of no other.
pub field_of-line_of :
    (key : Str) (e : Entry)
    → is_prop_key key ≡ true
    → IsEntry e
    → field_of key (line_of e) ≡ (if str_eq key e.0 then some (space ∷ e.1) else none)
unfolding field_of
field_of-line_of key (k, r) hk h =
    rw trim-line_of
      (strip_prefix-key b':' key k (space ∷ r) (key-Lacks_colon key hk) (key-Lacks_colon k h.key))
