-- ===== src/Frontend/Blades/Stack.antt =====
-- The stack holds each ID once, whatever is clicked.
use monok8s.Prelude.{
  ◌≡◌, refl, sym, inl, inr, ℕ, zero, suc, ◌+◌, Bool, true, false, Bool-cases, ◌||◌, Option, none,
  some, List, [], ◌∷◌, ◌++◌, Text, ◌==◌, ==_swap, or-false, ap, ◌∙◌, any, arith, length, ltb,
}
use monok8s.Frontend.Blades.{
  Blade, take, drop_last, find_index, Action, push, pop, home, crumb, close, back, pushed_at,
  push_blade, act, run,
}

module _ {κ} {C : Type κ} where
  -- Some blade of the list has the ID.
  abbrev pub holds : Text → List (Blade C) → Bool
  holds id bs = any (λ b. b.id == id) bs

  abbrev pub IsDistinct : List (Blade C) → Type 0
  IsDistinct [] = Unit
  IsDistinct (b ∷ bs) = (holds b.id bs ≡ false) × IsDistinct bs

  holds-take :
      (id : Text) (i : ℕ) (bs : List (Blade C)) → holds id bs ≡ false → holds id (take i bs) ≡ false
  holds-take id zero bs h = refl
  holds-take id (suc i) [] h = refl
  holds-take id (suc i) (b ∷ bs) h = ground (arith, holds-take id i bs)

  IsDistinct-take : (i : ℕ) (bs : List (Blade C)) → IsDistinct bs → IsDistinct (take i bs)
  IsDistinct-take zero bs d = tt
  IsDistinct-take (suc i) [] d = tt
  IsDistinct-take (suc i) (b ∷ bs) d = (holds-take b.id i bs d.0, IsDistinct-take i bs d.1)

  holds-drop_last :
      (id : Text) (bs : List (Blade C)) → holds id bs ≡ false → holds id (drop_last bs) ≡ false
  holds-drop_last id [] h = refl
  holds-drop_last id (b ∷ []) h = refl
  holds-drop_last id (b ∷ c ∷ bs) h = ground (arith, holds-drop_last id (c ∷ bs))

  IsDistinct-drop_last : (bs : List (Blade C)) → IsDistinct bs → IsDistinct (drop_last bs)
  IsDistinct-drop_last [] d = tt
  IsDistinct-drop_last (b ∷ []) d = tt
  IsDistinct-drop_last (b ∷ c ∷ bs) d =
      (holds-drop_last b.id (c ∷ bs) d.0, IsDistinct-drop_last (c ∷ bs) d.1)

  holds-append :
      (id : Text) (bs cs : List (Blade C)) → holds id (bs ++ cs) ≡ (holds id bs || holds id cs)
  holds-append id [] cs = refl
  holds-append id (b ∷ bs) cs = rw (holds-append id bs cs) (ground arith)

  IsDistinct-append :
      (b : Blade C) (bs : List (Blade C))
      → holds b.id bs ≡ false
      → IsDistinct bs
      → IsDistinct (bs ++ (b ∷ []))
  IsDistinct-append b [] n d = (refl, tt)
  IsDistinct-append b (c ∷ bs) n d =
      let (e, f) = or-false (c.id == b.id) (holds b.id bs) n in
      (
        rw (holds-append c.id bs (b ∷ []), d.0, ==_swap c.id b.id e) refl,
        IsDistinct-append b bs f d.1,
      )

  -- The list is empty, or starts with a blade of the ID.
  abbrev pub Starts : Text → List (Blade C) → Type 0
  Starts id [] = Unit
  Starts id (b ∷ bs) = (b.id == id) ≡ true

  -- A push splits the stack: what is below the blade of the same ID stays, the rest goes.
  abbrev pub Replaces : Blade C → List (Blade C) → Type κ
  Replaces b bs =
      (below above : List (Blade C)) × ((bs ≡ below ++ above)
        × ((push_blade b bs ≡ below ++ (b ∷ []))
            × ((holds b.id below ≡ false) × Starts b.id above)))

  pushed_at-cons :
      (b c : Blade C) (bs : List (Blade C)) (o : Option ℕ)
      → pushed_at b (c ∷ bs) (elim o [ none ↦ none | some i ↦ some (suc i) ]) ≡ c ∷ pushed_at b bs o
  pushed_at-cons b c bs none = refl
  pushed_at-cons b c bs (some i) = refl

  push_blade-Replaces : (b : Blade C) (bs : List (Blade C)) → Replaces b bs
  unfolding push_blade
  push_blade-Replaces b [] = ([], [], (refl, (refl, (refl, tt))))
  push_blade-Replaces b (c ∷ bs) = elim (Bool-cases (c.id == b.id)) [
    | inl e ↦ ([], c ∷ bs, (refl, (rw e refl, (refl, e))))
    | inr n ↦
        (let (below, above, (split, (pushed, (clear, starts)))) = push_blade-Replaces b bs in
          (
            c ∷ below,
            above,
            (
              ap (λ l. c ∷ l) split,
              (
                rw n (
                    pushed_at-cons b c bs (find_index (λ p. p.id == b.id) bs)
                    ∙ ap (λ l. c ∷ l) pushed),
                (rw (n, clear) refl, starts),
              ),
            ),
          ))
  ]

  IsDistinct-below : (below above : List (Blade C)) → IsDistinct (below ++ above) → IsDistinct below
  IsDistinct-below [] above d = tt
  IsDistinct-below (b ∷ below) above d = (
    (or-false (holds b.id below) (holds b.id above) (sym (holds-append b.id below above) ∙ d.0)).0,
    IsDistinct-below below above d.1,
  )

  push_blade-IsDistinct :
      (b : Blade C) (bs : List (Blade C)) → IsDistinct bs → IsDistinct (push_blade b bs)
  push_blade-IsDistinct b bs d =
      let (below, above, (split, (pushed, (clear, starts)))) = push_blade-Replaces b bs in
      let kept : IsDistinct (below ++ above) = rw split at d in
      rw pushed (IsDistinct-append b below clear (IsDistinct-below below above kept))

  act-IsDistinct : (a : Action C) (bs : List (Blade C)) → IsDistinct bs → IsDistinct (act a bs)
  unfolding act
  act-IsDistinct (push b) bs d = push_blade-IsDistinct b bs d
  act-IsDistinct pop bs d = IsDistinct-drop_last bs d
  act-IsDistinct home bs d = tt
  act-IsDistinct (crumb i) bs d = elim (Bool-cases (ltb (i + 1) (length bs))) [
    | inl e ↦ rw e (IsDistinct-take (i + 1) bs d)
    | inr e ↦ rw e d
  ]
  act-IsDistinct (close i) bs d = IsDistinct-take i bs d
  act-IsDistinct (back i) bs d = IsDistinct-take i bs d

  run-keeps :
      (as' : List (Action C)) (bs : List (Blade C)) → IsDistinct bs → IsDistinct (run as' bs)
  unfolding run
  run-keeps [] bs d = d
  run-keeps (a ∷ as') bs d = run-keeps as' (act a bs) (act-IsDistinct a bs d)

  -- After any actions on an empty stack, no two blades have one ID; and a push then splits the stack in
  -- two: the part below stays, and the new blade comes on top of it, in place of the blade with its ID
  -- and all above that, or of nothing where no blade has its ID.
  pub run-push :
      (as' : List (Action C)) (b : Blade C) → IsDistinct (run as' []) × Replaces b (run as' [])
  run-push as' b = (run-keeps as' [] tt, push_blade-Replaces b (run as' []))
