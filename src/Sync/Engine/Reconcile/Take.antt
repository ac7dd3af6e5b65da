-- ===== src/Sync/Engine/Reconcile/Take.antt =====
-- The first loop of `reconcile`.
use mkb.Sync.Exec.{continue}
use mkb.Sync.Host.{IndexError}
use mkb.Sync.Exec.{modify}
use mkb.Base.{
  ℕ, Bool, true, false, ◌≡◌, refl, sym, ap, subst, ◌∙◌, List, [], ◌∷◌, Option, none, some, Result,
  ok, err, is_ok, arith, if◌then◌else◌, Bool-cases, inl, inr, is_none,
}
use mkb.Text.Chars.{Str}
use mkb.Text.Strings.{str_eq, str_eq_sound}
use mkb.Id.{BlockId}
use mkb.Block.{Block}
use mkb.Platform.{Platform}
use mkb.Map
use mkb.Vault
use mkb.Sync.Host.{Host}
use mkb.Sync.Exec.{pure, gets, ◌>>=◌, ◌>>◌}
use mkb.Sync.Exec.Frame.{Frame, Frame-pure, Frame-gets, Frame-if, Frame-bind}
use mkb.Sync.Exec.Ensures.{Ensures-first, Ensures-last}
use mkb.Sync.Exec.Success.{chain}
use mkb.Sync.Engine.{Engine, put_block, ingest, record_hash}
use mkb.Sync.Engine.Framed.{view, put_block-Frame, ingest-Frame, record_hash-Frame}
use mkb.Sync.Engine.Stored.{
  put_block-Ensures, ingest-Ensures, record_hash_quiet, record_hash-Ensures,
}
use mkb.Sync.Engine.Reconcile.{is_recorded, skip_file, take_file, take_files}
use mkb.Sync.Engine.Reconcile.Spec.{source_of, Holds, Agrees, Taken}

module _ (pf : Platform) (h : Host) (id : BlockId) where
  module _ (i : BlockId) (other : str_eq i.as_str id.as_str ≡ false) where
    take_file-Frame : (source : Str) → Frame (view pf h id) (take_file pf h i source)
    unfolding take_file skip_file
    take_file-Frame source = Frame-bind _ _ (Frame-gets _) λ recorded.
        Frame-if _ _ _
          (Frame-bind _ _
            (Frame-bind _ _ (Frame-gets _)
              λ b. Frame-if _ _ _ (put_block-Frame pf h id i other source) (Frame-pure tt))
            (λ _. Frame-pure []))
          (Frame-bind _ _ (ingest-Frame pf h id i other source)
            λ _. Frame-bind _ _ (record_hash-Frame pf h id i other _) λ _. Frame-pure _)

  recorded_hash : (o : Option ℕ) (x : ℕ) → is_recorded o x ≡ true → o ≡ some x
  unfolding is_recorded
  recorded_hash none x e = ground arith
  recorded_hash (some y) x e = ground arith

  abbrev New : Str → Engine h → Type 0
  New source e =
      (t : Str) × Holds pf h id t (view pf h id e) × (h.hash_bytes t ≡ h.hash_bytes source)

  skipped :
      (o : Option Block) (source : Str) (e : Engine h)
      → Vault.block e.vault id ≡ o
      → Agrees pf h id (o, Map.get id.as_str e.hashes)
      → Map.get id.as_str e.hashes ≡ some (h.hash_bytes source)
      → New source ((if is_none o then put_block pf h id source else pure tt) e).1
  unfolding put_block modify pure
  skipped none source e known a x =
      (source, (unfold put_block modify in (put_block-Ensures pf h id source).at e refl, x), refl)
  skipped (some b) source e known (t, (held, hashed)) x = (t, (known ∙ held, hashed), cc)

  ingested :
      (source : Str) (e : Engine h)
      → is_ok
          ((ingest pf h id source >>= λ _.
              record_hash pf h id (h.hash_bytes source) >>= λ _. pure (id.as_str ∷ []))
            e).0
        ≡ true
      → New source
          ((ingest pf h id source >>= λ _.
              record_hash pf h id (h.hash_bytes source) >>= λ _. pure (id.as_str ∷ []))
            e).1
  ingested source e o = (
    source,
    (
      (Ensures-first _ _ (ingest-Ensures pf h id source)
            λ _. Frame-bind _ _ (record_hash_quiet pf h id _) λ _. Frame-pure _).at
          e o,
      (Ensures-last _ _ λ _. Ensures-first _ _ (record_hash-Ensures pf h id _) λ _. Frame-pure _).at
          e o,
    ),
    refl,
  )

  ended :
      {A : Type 0} (r : Result IndexError Unit) (x : A) (s : Engine h)
      → (continue r (λ _. pure x) s).1 ≡ s
  unfolding pure
  ended (ok u) x s = refl
  ended (err d) x s = refl

  skip_file_self :
      (source : Str) (e : Engine h)
      → Agrees pf h id (view pf h id e)
      → Map.get id.as_str e.hashes ≡ some (h.hash_bytes source)
      → New source ((skip_file pf h id source >> pure {A = List Str} []) e).1
  unfolding skip_file gets ◌>>=◌
  skip_file_self source e a x =
      subst (New source) (sym (ended _ _ _)) (skipped (Vault.block e.vault id) source e refl a x)

  take_file_self :
      (source : Str) (e : Engine h)
      → Agrees pf h id (view pf h id e)
      → is_ok (take_file pf h id source e).0 ≡ true
      → New source (take_file pf h id source e).1
  unfolding take_file gets ◌>>=◌
  take_file_self source e a o =
      elim (Bool-cases (is_recorded (Map.get id.as_str e.hashes) (h.hash_bytes source))) [
        | inl same ↦ rw (same) (skip_file_self source e a (recorded_hash _ _ same))
        | inr new ↦ rw (new) (ingested source e (rw new at o))
      ]

  abbrev Pair : Type 0
  Pair = Option Block × Option ℕ

  abbrev chosen : Option Str → Bool → Str → Option Str
  chosen o b s = elim o [ some t ↦ some t | none ↦ if b then some s else none ]

  Taken-other :
      (o : Option Str) (b : Bool) (s : Str) (w w' : Pair)
      → b ≡ false
      → Taken pf h id o w w'
      → Taken pf h id (chosen o b s) w w'
  Taken-other none b s w w' e t = rw (e) t
  Taken-other (some u) b s w w' e t = t

  Taken-self :
      (o : Option Str) (b : Bool) (s : Str) (w₀ w w' : Pair)
      → b ≡ true
      → Taken pf h id (some s) w₀ w
      → Taken pf h id o w w'
      → Taken pf h id (chosen o b s) w₀ w'
  Taken-self none b s w₀ w w' e n t = rw (e) (subst (Taken pf h id (some s) w₀) (sym t) n)
  Taken-self (some u) b s w₀ w w' e n t = t

  Agrees-New : (s t : Str) (w : Pair) → Holds pf h id t w → Agrees pf h id w
  Agrees-New s t (none, x) (e, k) = tt
  Agrees-New s t (some b, x) held = (t, held)

  abbrev TakenFrom : List (BlockId × Str) → Engine h → Type 0
  TakenFrom fs e =
      Taken pf h id (source_of id fs) (view pf h id e) (view pf h id (take_files pf h fs e).1)

  module _ (i : BlockId) (s : Str) (fs : List (BlockId × Str)) (e : Engine h) where
    abbrev between : Engine h
    between = (take_file pf h i s e).1

    next_other :
        str_eq i.as_str id.as_str ≡ false
        → TakenFrom fs between
        → Taken pf h id
            (source_of id ((i, s) ∷ fs))
            (view pf h id e)
            (view pf h id (take_files pf h fs between).1)
    unfolding source_of
    next_other other t = Taken-other (source_of id fs) (str_eq i.as_str id.as_str) s _ _ other (
        subst (λ w. Taken pf h id (source_of id fs) w (view pf h id (take_files pf h fs between).1))
          ((take_file-Frame i other s).at e) t)

    next_self :
        str_eq i.as_str id.as_str ≡ true
        → New s between
        → TakenFrom fs between
        → Taken pf h id
            (source_of id ((i, s) ∷ fs))
            (view pf h id e)
            (view pf h id (take_files pf h fs between).1)
    unfolding source_of
    next_self same n t =
        Taken-self (source_of id fs) (str_eq i.as_str id.as_str) s _ (view pf h id between) _ same n
          t

  taken_at :
      (i : BlockId) (s : Str) (e : Engine h)
      → i ≡ id
      → Agrees pf h id (view pf h id e)
      → is_ok (take_file pf h i s e).0 ≡ true
      → New s (take_file pf h i s e).1
  taken_at i s e same a =
      subst (λ j. is_ok (take_file pf h j s e).0 ≡ true → New s (take_file pf h j s e).1) (sym same)
        (take_file_self s e a)

  ok_is_ok : {A : Type 0} {r : Result IndexError A} (a : A) → r ≡ ok a → is_ok r ≡ true
  ok_is_ok a e = ap is_ok e

  pub take_files-Taken :
      (fs : List (BlockId × Str)) (e : Engine h)
      → Agrees pf h id (view pf h id e)
      → is_ok (take_files pf h fs e).0 ≡ true
      → TakenFrom fs e
  unfolding take_files pure
  take_files-Taken [] e a o = unfold source_of in refl
  take_files-Taken ((i, s) ∷ fs) e a o =
      let first = chain _ _ e o in
      let second = chain (take_files pf h fs) _ (between i s fs e) first.rest in
      let done = ok_is_ok first.value first.first in
      let more = ok_is_ok second.value second.first in
      subst
        (λ (e' : Engine h).
          Taken pf h id (source_of id ((i, s) ∷ fs)) (view pf h id e) (view pf h id e'))
        (sym
          (ap (λ (r : Result IndexError (List Str) × Engine h). r.1) (first.whole ∙ second.whole)))
        (elim (Bool-cases (str_eq i.as_str id.as_str)) [
          | inl same ↦
              let taken =
                taken_at i s e
                  (ap (λ k. record { as_str = k }) (str_eq_sound i.as_str id.as_str same)) a done in
              next_self i s fs e same taken
                (take_files-Taken fs (between i s fs e) (Agrees-New s taken.0 _ taken.1) more)
          | inr other ↦ next_other i s fs e other (
              take_files-Taken fs (between i s fs e)
                (subst (Agrees pf h id) (sym ((take_file-Frame i other s).at e)) a) more)
        ])
