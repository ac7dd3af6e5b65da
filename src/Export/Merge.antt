-- ===== src/Export/Merge.antt =====
-- The entries that properties declare leave those of the manifest as they are.
use mkb.Base.{
  subst, ◌||◌, Bool, false, ◌≡◌, refl, ap, sym, ◌∙◌, List, [], ◌∷◌, ◌++◌, map, arith, any,
  Bool-cases, inl, inr, append_assoc, append-nil,
}
use mkb.Text.Chars.{Str}
use mkb.Text.Strings.{str_eq}
use mkb.Map.{str_eq_iff}
use mkb.Platform.{Platform}
use mkb.Vault.{Vault}
use mkb.Export.{ExportEntry, Manifest, add_new, merge_path_prop_entries}

abbrev pub paths : List ExportEntry → List Str
paths es = map (λ (e : ExportEntry). e.path) es

-- No two are equal.
abbrev pub AllDiffer : List Str → Type 0
AllDiffer [] = Unit
AllDiffer (s ∷ ss) = (any (str_eq s) ss ≡ false) × AllDiffer ss

-- The entries, and others behind them.
pub record Extends (before after : List ExportEntry) : Type 0 where
  pub added : List ExportEntry
  pub whole : after ≡ before ++ added

any-snoc : (p : Str → Bool) (ss : List Str) (s : Str) → any p (ss ++ s ∷ []) ≡ (any p ss || p s)
any-snoc p [] s = ground arith
any-snoc p (t ∷ ss) s = ground (arith, any-snoc p ss s)

paths-snoc :
    (es : List ExportEntry) (e : ExportEntry) → paths (es ++ e ∷ []) ≡ paths es ++ e.path ∷ []
paths-snoc [] e = refl
paths-snoc (f ∷ es) e = ap (λ l. f.path ∷ l) (paths-snoc es e)

AllDiffer-snoc :
    (ss : List Str) (s : Str) → AllDiffer ss → any (str_eq s) ss ≡ false → AllDiffer (ss ++ s ∷ [])
AllDiffer-snoc [] s d n = (refl, tt)
AllDiffer-snoc (t ∷ ss) s (h, d) n = (
  ground (arith, any-snoc (str_eq t) ss s, h, str_eq_iff t s, str_eq_iff s t),
  AllDiffer-snoc ss s d (ground (arith, n)),
)

-- What `add_new` is told to be used are the paths of the entries so far.
abbrev Uses : List Str → List ExportEntry → Type 0
Uses used entries = (s : Str) → any (str_eq s) used ≡ any (str_eq s) (paths entries)

Uses-snoc :
    (used : List Str) (entries : List ExportEntry) (e : ExportEntry)
    → Uses used entries
    → Uses (e.path ∷ used) (entries ++ e ∷ [])
Uses-snoc used entries e u s = ground (
  arith,
  u s,
  ap (any (str_eq s)) (paths-snoc entries e),
  any-snoc (str_eq s) (paths entries) e.path,
)

add_new-AllDiffer :
    (used : List Str) (entries es : List ExportEntry)
    → Uses used entries
    → AllDiffer (paths entries)
    → Extends entries (add_new used entries es) × AllDiffer (paths (add_new used entries es))
unfolding add_new
add_new-AllDiffer used entries [] u d = (record { added = []; whole = sym (append-nil entries) }, d)
add_new-AllDiffer used entries (e ∷ es) u d = elim (Bool-cases (any (str_eq e.path) used)) [
  | inl m ↦ rw (m) (add_new-AllDiffer used entries es u d)
  | inr n ↦ rw (n) (
      more (
        add_new-AllDiffer (e.path ∷ used) (entries ++ e ∷ []) es (Uses-snoc used entries e u) (
          subst AllDiffer (sym (paths-snoc entries e))
            (AllDiffer-snoc (paths entries) e.path d (sym (u e.path) ∙ n)))))
]
  where
    more :
        (Extends (entries ++ e ∷ []) (add_new (e.path ∷ used) (entries ++ e ∷ []) es)
          × AllDiffer (paths (add_new (e.path ∷ used) (entries ++ e ∷ []) es)))
        → (Extends entries (add_new (e.path ∷ used) (entries ++ e ∷ []) es)
            × AllDiffer (paths (add_new (e.path ∷ used) (entries ++ e ∷ []) es)))
    more (x, k) =
        (record { added = e ∷ x.added; whole = x.whole ∙ append_assoc entries (e ∷ []) x.added }, k)

module _ (pf : Platform) (v : Vault) where
  -- Adding the entries that properties declare keeps the entries of the manifest in front, as they
  -- are, and no two entries write one path if no two of the manifest do.
  pub merge_path_prop_entries-keeps :
      (m : Manifest)
      → AllDiffer (paths m.entries)
      → Extends m.entries (merge_path_prop_entries pf v m).entries
        × AllDiffer (paths (merge_path_prop_entries pf v m).entries)
  unfolding merge_path_prop_entries
  merge_path_prop_entries-keeps m d = add_new-AllDiffer (paths m.entries) m.entries _ (λ s. refl) d
