-- ===== src/Frontend/Timeline/Progress.antt =====
-- The progress bar. Of the rounded quotient in doubles it is used that it grows with the dividend, and
-- that a number divided by itself is a whole.
use monok8s.Prelude.{
  ℕ, suc, ◌≤◌, ◌≡◌, refl, Bool, true, All, List, [], ◌∷◌, filter, length, length-filter-le,
}
use monok8s.Frontend.Timeline.{StepRow, Timeline, is_succeeded, progress_percent}

filter-all {ℓ} :
    {A : Type ℓ} (p : A → Bool) (xs : List A) → All (λ x. p x ≡ true) xs → filter p xs ≡ xs
filter-all p [] h = refl
filter-all p (x ∷ xs) h = rw (h.0, filter-all p xs h.1) refl

module _ (percent : ℕ → ℕ → ℕ) (mono : (a b n : ℕ) → a ≤ b → percent a n ≤ percent b n)
    (whole : (n : ℕ) → percent (suc n) (suc n) ≡ 100) where
  -- The bar never passes 100, and stands at 100 when there are steps and all have succeeded.
  pub progress_percent-bounds :
      (t : Timeline) (row : StepRow) (rows : List StepRow)
      → t.steps ≡ row ∷ rows
      → (progress_percent percent t ≤ 100)
        × (All (λ r. is_succeeded r.phase ≡ true) (row ∷ rows) → progress_percent percent t ≡ 100)
  unfolding progress_percent
  progress_percent-bounds t row rows e =
      let done = filter (λ r. is_succeeded r.phase) (row ∷ rows) in
      let full = whole (length rows) in
      let few : length done ≤ suc (length rows) =
        length-filter-le (λ r. is_succeeded r.phase) (row ∷ rows) in
      let below = mono (length done) (suc (length rows)) (suc (length rows)) few in
      (
        rw e (rw (← full) below),
        λ all. rw (e, filter-all (λ r. is_succeeded r.phase) (row ∷ rows) all) full,
      )
