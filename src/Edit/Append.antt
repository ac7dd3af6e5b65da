-- ===== src/Edit/Append.antt =====
-- `append_text` only adds.
use mkb.Base.{ℕ, true, ◌≡◌, refl, [], ◌∷◌, ◌++◌, arith, ==_refl, if◌then◌else◌, append-nil}
use mkb.Text.Chars.{Str, newline}
use mkb.Text.Strings.{ends_with, is_empty}
use mkb.Edit.{end_with_newline, append_text}

ends_with-append : (d : ℕ) (s : Str) → ends_with d (s ++ d ∷ []) ≡ true
unfolding ends_with
ends_with-append d [] = ==_refl d
ends_with-append d (c ∷ []) = ==_refl d
ends_with-append d (c ∷ c' ∷ s) = ends_with-append d (c' ∷ s)

pub ends_with-end_with_newline : (s : Str) → ends_with newline (end_with_newline s) ≡ true
unfolding end_with_newline
ends_with-end_with_newline s = ground (arith, ends_with-append newline s)

-- The newline that is added, if any.
abbrev added : Str → Str
added s = if ends_with newline s then [] else newline ∷ []

end_with_newline-added : (s : Str) → end_with_newline s ≡ s ++ added s
unfolding end_with_newline
end_with_newline-added s = ground (arith, append-nil s)

-- What is between the body and the appended text, and behind it.
abbrev pub seam : Str → Str
seam body = if is_empty body then [] else added body

abbrev pub closing : Str → Str → Str
closing body text = added ((body ++ seam body) ++ text)

started : (body : Str) → (if is_empty body then body else end_with_newline body) ≡ body ++ seam body
started [] = refl
started (c ∷ body) = end_with_newline-added (c ∷ body)

-- The result is the body, a newline unless the body is empty or ends in one, the text, and a
-- newline unless all that ends in one.
pub append_text-seam :
    (body text : Str) → append_text body text ≡ ((body ++ seam body) ++ text) ++ closing body text
unfolding append_text
append_text-seam body text =
    rw (← started body)
      (end_with_newline-added ((if is_empty body then body else end_with_newline body) ++ text))

-- It always ends in a newline.
pub ends_with-append_text : (body text : Str) → ends_with newline (append_text body text) ≡ true
unfolding append_text
ends_with-append_text body text = ends_with-end_with_newline _
