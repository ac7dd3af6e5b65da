-- ===== src/Sync/Engine/Props/Dedup.antt =====
-- The tags that `set_tags` writes.
use mkb.Base.{
  Bool, true, not, ◌&&◌, ◌||◌, ◌≡◌, refl, List, [], ◌∷◌, ◌++◌, arith, if◌then◌else◌, any, all, map,
}
use mkb.Text.Chars.{Str}
use mkb.Text.Strings.{is_empty, str_eq, str_eq_refl, eq_ignore_ascii_case}
use mkb.Text.Trim.{trim}
use mkb.Sync.Engine.Props.{dedup_tags}

-- Is one of the tags this one, whatever the case?
abbrev pub has_tag : List Str → Str → Bool
has_tag tags t = any (λ x. eq_ignore_ascii_case x t) tags

-- No tag is blank, and no two are the same, whatever the case.
unfoldable pub is_clean : List Str → Bool
is_clean [] = true
is_clean (t ∷ ts) = not (is_empty t) && (not (any (eq_ignore_ascii_case t) ts) && is_clean ts)

any-snoc : (p : Str → Bool) (l : List Str) (x : Str) → any p (l ++ x ∷ []) ≡ (any p l || p x)
any-snoc p [] x = ground arith
any-snoc p (y ∷ l) x = ground (arith, any-snoc p l x)

is_clean-snoc :
    (l : List Str) (x : Str)
    → is_clean (l ++ x ∷ []) ≡ (is_clean l && (not (is_empty x) && not (has_tag l x)))
unfolding is_clean
is_clean-snoc [] x = ground arith
is_clean-snoc (y ∷ l) x = ground (arith, is_clean-snoc l x, any-snoc (eq_ignore_ascii_case y) l x)

dedup_tags-is_clean :
    (clean tags : List Str) → is_clean clean ≡ true → is_clean (dedup_tags clean tags) ≡ true
unfolding dedup_tags
dedup_tags-is_clean clean [] h = h
dedup_tags-is_clean clean (t ∷ ts) h =
    dedup_tags-is_clean
      (if is_empty (trim t) || has_tag clean (trim t) then clean else clean ++ trim t ∷ []) ts
      (ground (arith, is_clean-snoc clean (trim t)))

eq_ignore_ascii_case_refl : (s : Str) → eq_ignore_ascii_case s s ≡ true
unfolding eq_ignore_ascii_case
eq_ignore_ascii_case_refl s = str_eq_refl _

-- A tag that is there stays there.
dedup_tags-keeps :
    (clean tags : List Str) (t : Str)
    → has_tag clean t ≡ true
    → has_tag (dedup_tags clean tags) t ≡ true
unfolding dedup_tags
dedup_tags-keeps clean [] t h = h
dedup_tags-keeps clean (u ∷ us) t h =
    dedup_tags-keeps
      (if is_empty (trim u) || has_tag clean (trim u) then clean else clean ++ trim u ∷ []) us t
      (ground (arith, any-snoc (λ x. eq_ignore_ascii_case x t) clean (trim u)))

-- Each of the tags is blank or among those that are there.
abbrev pub covered : List Str → List Str → Bool
covered tags out = all (λ t. is_empty (trim t) || has_tag out (trim t)) tags

dedup_tags-covered : (clean tags : List Str) → covered tags (dedup_tags clean tags) ≡ true
unfolding dedup_tags
dedup_tags-covered clean [] = refl
dedup_tags-covered clean (t ∷ ts) =
    let next =
      if is_empty (trim t) || has_tag clean (trim t) then clean else clean ++ trim t ∷ [] in
    ground (
      arith,
      dedup_tags-covered next ts,
      dedup_tags-keeps next ts (trim t),
      any-snoc (λ x. eq_ignore_ascii_case x (trim t)) clean (trim t),
      eq_ignore_ascii_case_refl (trim t),
    )

all-snoc : (p : Str → Bool) (l : List Str) (x : Str) → all p (l ++ x ∷ []) ≡ (all p l && p x)
all-snoc p [] x = ground arith
all-snoc p (y ∷ l) x = ground (arith, all-snoc p l x)

dedup_tags-all :
    (p : Str → Bool) (clean tags : List Str)
    → all p clean ≡ true
    → all p (map trim tags) ≡ true
    → all p (dedup_tags clean tags) ≡ true
unfolding dedup_tags
dedup_tags-all p clean [] h g = h
dedup_tags-all p clean (t ∷ ts) h g =
    dedup_tags-all p
      (if is_empty (trim t) || has_tag clean (trim t) then clean else clean ++ trim t ∷ []) ts
      (ground (arith, all-snoc p clean (trim t))) (ground (arith, g))

-- Is each of the tags, as it is written, one of the others, trimmed?
abbrev pub asked : List Str → List Str → Bool
asked tags out = all (λ t. any (str_eq t) (map trim tags)) out

among-cons :
    (l : Str) (ls ts : List Str)
    → all (λ t. any (str_eq t) ls) ts ≡ true
    → all (λ t. any (str_eq t) (l ∷ ls)) ts ≡ true
among-cons l ls [] h = refl
among-cons l ls (t ∷ ts) h = ground (arith, among-cons l ls ts)

among_self : (ls : List Str) → all (λ t. any (str_eq t) ls) ls ≡ true
among_self [] = refl
among_self (l ∷ ls) = ground (arith, str_eq_refl l, among-cons l ls ls (among_self ls))

-- The tags that are left are not blank, no two of them are the same, whatever the case, every
-- tag that was asked for is blank or among them, and every one of them was asked for.
pub dedup_tags_lem :
    (tags : List Str)
    → (is_clean (dedup_tags [] tags) ≡ true)
      × ((covered tags (dedup_tags [] tags) ≡ true) × (asked tags (dedup_tags [] tags) ≡ true))
unfolding is_clean
dedup_tags_lem tags = (
  dedup_tags-is_clean [] tags refl,
  (
    dedup_tags-covered [] tags,
    dedup_tags-all (λ t. any (str_eq t) (map trim tags)) [] tags refl (among_self (map trim tags)),
  ),
)
