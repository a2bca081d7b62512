-- ===== src/Frontend/AuditLog/Unseen.antt =====
-- Rows that come again are dropped, wherever they come.
use monok8s.Prelude.{
  ◌≡◌, ℕ, refl, ap, ◌∙◌, All, Bool, true, false, List, [], ◌∷◌, ◌++◌, Text, ◌==◌, ==_refl, any, map,
  arith,
}
use monok8s.Services.{AuditLog}
use monok8s.Auth.Audit.{AuditEnvelope}
use mathlib.Core.List.{append_assoc, map-append}
use monok8s.Frontend.AuditLog.{
  AuditRow, dedupe_key, unseen, history_row_to_unified, envelope_to_unified, unify_rows,
}

abbrev has : Text → List Text → Bool
has key seen = any (λ k. k == key) seen

has-cons : (key k : Text) (seen : List Text) → has key seen ≡ true → has key (k ∷ seen) ≡ true
has-cons key k seen e = ground arith

has-head : (key : Text) (seen : List Text) → has key (key ∷ seen) ≡ true
has-head key seen = rw (==_refl key) refl

module _ {ℓ} {A : Type ℓ} where
  -- The lists one after the other, and with all but the last of them twice.
  abbrev pub once : List (List A) → List A
  once [] = []
  once (p ∷ ps) = p ++ once ps

  abbrev pub twice : List A → List (List A) → List A
  twice p [] = []
  twice p (q ∷ qs) = p ++ (q ++ twice q qs)

module _ {ℓ κ} {A : Type ℓ} {B : Type κ} (f : A → B) where
  map-once : (ps : List (List A)) → map f (once ps) ≡ once (map (map f) ps)
  map-once [] = refl
  map-once (p ∷ ps) = map-append f p (once ps) ∙ ap (λ r. map f p ++ r) (map-once ps)

  map-twice :
      (p : List A) (qs : List (List A)) → map f (twice p qs) ≡ twice (map f p) (map (map f) qs)
  map-twice p [] = refl
  map-twice p (q ∷ qs) =
      rw (map-append f p (q ++ twice q qs), map-append f q (twice q qs), map-twice q qs) refl

module _ {κ} {M : Type κ} where
  -- The row's key was seen.
  abbrev IsSeen : List Text → AuditRow M → Type 0
  IsSeen seen row = has (dedupe_key row) seen ≡ true

  unseen-seen :
      (seen : List Text) (xs ys : List (AuditRow M))
      → All (IsSeen seen) xs
      → unseen seen (xs ++ ys) ≡ unseen seen ys
  unfolding unseen
  unseen-seen seen [] ys s = refl
  unseen-seen seen (x ∷ xs) ys s = rw (s.0) (unseen-seen seen xs ys s.1)

  -- Two continuations show the same, once the keys of `xs` and of `seen` are seen.
  abbrev SameAfter : List Text → List (AuditRow M) → List (AuditRow M) → List (AuditRow M) → Type κ
  SameAfter seen xs ys zs =
      (later : List Text)
      → ((key : Text) → has key seen ≡ true → has key later ≡ true)
      → All (IsSeen later) xs
      → unseen later ys ≡ unseen later zs

  unseen-row :
      (b : Bool) (seen : List Text) (x : AuditRow M) (xs ys zs : List (AuditRow M))
      → has (dedupe_key x) seen ≡ b
      → ((before : List Text)
          → SameAfter before xs ys zs
          → unseen before (xs ++ ys) ≡ unseen before (xs ++ zs))
      → SameAfter seen (x ∷ xs) ys zs
      → unseen seen (x ∷ xs ++ ys) ≡ unseen seen (x ∷ xs ++ zs)
  unfolding unseen
  unseen-row true seen x xs ys zs e rest h =
      rw e (rest seen (λ later more s. h later more (more (dedupe_key x) e, s)))
  unseen-row false seen x xs ys zs e rest h =
      let key = dedupe_key x in
      rw e (
        ap (λ rows. x ∷ rows)
          (rest (key ∷ seen) (λ later more s.
            h later (λ k m. more k (has-cons k key seen m)) (more key (has-head key seen), s))))

  unseen-append :
      (seen : List Text) (xs ys zs : List (AuditRow M))
      → SameAfter seen xs ys zs
      → unseen seen (xs ++ ys) ≡ unseen seen (xs ++ zs)
  unseen-append seen [] ys zs h = h seen (λ key e. e) tt
  unseen-append seen (x ∷ xs) ys zs h =
      unseen-row (has (dedupe_key x) seen) seen x xs ys zs refl
        (λ before. unseen-append before xs ys zs) h

  unseen-twice_after :
      (seen : List Text) (p rest : List (AuditRow M)) (qs : List (List (AuditRow M)))
      → All (IsSeen seen) p
      → unseen seen (twice p qs ++ rest) ≡ unseen seen (once qs ++ rest)
  unseen-twice_after seen p rest [] s = refl
  unseen-twice_after seen p rest (q ∷ qs) s =
      rw
        (
          append_assoc p (q ++ twice q qs) rest,
          append_assoc q (twice q qs) rest,
          append_assoc q (once qs) rest,
          unseen-seen seen p (q ++ (twice q qs ++ rest)) s,
        )
        (unseen-append seen q (twice q qs ++ rest) (once qs ++ rest)
          (λ later more s'. unseen-twice_after later q rest qs s'))

  unseen-twice :
      (p rest : List (AuditRow M)) (qs : List (List (AuditRow M)))
      → unseen [] ((p ++ twice p qs) ++ rest) ≡ unseen [] ((p ++ once qs) ++ rest)
  unseen-twice p rest qs =
      rw (append_assoc p (twice p qs) rest, append_assoc p (once qs) rest)
        (unseen-append [] p (twice p qs ++ rest) (once qs ++ rest)
          (λ later more s. unseen-twice_after later p rest qs s))

  module _ (sort : (AuditRow M → AuditRow M → Bool) → List (AuditRow M) → List (AuditRow M))
      (to_iso : ℕ → Text) where
    pub unify_rows-twice :
        (p : List (AuditLog M)) (qs : List (List (AuditLog M))) (live : List (AuditEnvelope M))
        → unify_rows sort to_iso (p ++ twice p qs) live ≡ unify_rows sort to_iso (p ++ once qs) live
    unfolding unify_rows
    unify_rows-twice p qs live =
        let f = history_row_to_unified to_iso in
        rw
          (
            map-append f p (twice p qs),
            map-append f p (once qs),
            map-twice f p qs,
            map-once f qs,
            unseen-twice (map f p) (map envelope_to_unified live) (map (map f) qs),
          )
          refl
