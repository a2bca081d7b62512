-- ===== src/Db/Bench/Verdict.antt =====
-- When a comparison with the baselines finds nothing.
use monok8s.Prelude.{
  ◌≡◌, refl, ◌⊎◌, inl, inr, ◌↔◌, All, Bool, true, false, Option, none, some, List, [], ◌∷◌, ◌++◌,
  Text, or_else, arith, Bool-cases,
}
use monok8s.Db.Bench.{
  Numbers, StatementResult, BenchResult, BaselineStatement, Baseline, find, matches, is_skipped,
  against, check_statement, check_statements, check_tps, check_against_baseline,
}

pub append-nil {ℓ} : {A : Type ℓ} (xs ys : List A) → ((xs ++ ys) ≡ []) ↔ ((xs ≡ []) × (ys ≡ []))
append-nil [] ys = (λ e. (refl, e), λ p. p.1)
append-nil (x ∷ xs) ys = (λ e. absurd (grind arith), λ p. absurd (grind arith))

-- `s` is the first of `xs` that `p` holds of.
abbrev pub IsFirst {ℓ} : {A : Type ℓ} → (A → Bool) → A → List A → Type ℓ
IsFirst {A = A} p s xs =
    (before : List A) × ((after : List A) × ((xs ≡ before ++ (s ∷ after))
        × (All (λ x. p x ≡ false) before × (p s ≡ true))))

module _ {ℓ} {A : Type ℓ} (p : A → Bool) where
  find-IsFirst : (s : A) (xs : List A) → find p xs ≡ some s → IsFirst p s xs
  find-IsFirst s [] e = absurd (grind arith)
  find-IsFirst s (x ∷ xs) e = elim (Bool-cases (p x)) [
    | inl b ↦ let same : x ≡ s = grind arith in ([], (xs, (rw same refl, (tt, rw (← same) b))))
    | inr b ↦
        let found : find p xs ≡ some s = grind arith in
        let (before, (after, (eq, (none_before, holds)))) = find-IsFirst s xs found in
        (x ∷ before, (after, (rw eq refl, ((b, none_before), holds))))
  ]

  find_past :
      (s : A) (before after : List A)
      → All (λ x. p x ≡ false) before
      → p s ≡ true
      → find p (before ++ (s ∷ after)) ≡ some s
  find_past s [] after n h = rw h refl
  find_past s (x ∷ before) after n h = rw n.0 (find_past s before after n.1 h)

module _ (num : Numbers) (stringify : Text → Text) (bench_name : Text) where
  open num use {N}

  -- A baseline statement that is not compared, or whose first match in the output is fast enough.
  abbrev pub StatementWithin : N → BenchResult N → BaselineStatement N → Type 0
  StatementWithin threshold result stmt =
      (is_skipped num stringify bench_name stmt ≡ true)
      ⊎ ((s : StatementResult N) × (IsFirst (matches num stringify bench_name stmt) s
              result.statements
            × (num.less (num.multiply stmt.latency_ms threshold) s.latency_ms ≡ false)))

  -- The throughput is high enough, where the baseline has one, and so is every statement.
  abbrev pub Within : N → BenchResult N → Baseline N → Type 0
  Within threshold result baseline =
      (((num.less num.zero (or_else baseline.tps num.zero)) ≡ false)
        ⊎ (num.less result.tps (num.divide (or_else baseline.tps num.zero) threshold) ≡ false))
      × All (StatementWithin threshold result) (or_else baseline.statements [])

  against-nil :
      (threshold : N) (stmt : BaselineStatement N) (o : Option (StatementResult N))
      → (against num stringify bench_name threshold stmt o ≡ []) ↔ (
          (s : StatementResult N) × ((o ≡ some s)
            × (num.less (num.multiply stmt.latency_ms threshold) s.latency_ms ≡ false)))
  against-nil threshold stmt none = (λ e. absurd (grind arith), λ p. absurd (grind arith))
  against-nil threshold stmt (some m) = (λ e. (m, (refl, grind arith)), λ p. grind arith)

  check_statement-Within :
      (threshold : N) (result : BenchResult N) (stmt : BaselineStatement N)
      → check_statement num stringify bench_name threshold result stmt ≡ []
      → StatementWithin threshold result stmt
  check_statement-Within threshold result stmt e =
      elim (Bool-cases (is_skipped num stringify bench_name stmt)) [
        | inl b ↦ inl b
        | inr b ↦
            let m = matches num stringify bench_name stmt in
            let nil : against num stringify bench_name threshold stmt (find m result.statements)
                ≡ [] =
              grind arith in
            let (s, (found, fast)) = (against-nil threshold stmt _).0 nil in
            inr (s, (find-IsFirst m s result.statements found, fast))
      ]

  Within-check_statement :
      (threshold : N) (result : BenchResult N) (stmt : BaselineStatement N)
      → StatementWithin threshold result stmt
      → check_statement num stringify bench_name threshold result stmt ≡ []
  Within-check_statement threshold result stmt (inl b) = rw b refl
  Within-check_statement threshold result stmt (inr (s, ((before, (after, (eq, (n, h)))), fast))) =
      let m = matches num stringify bench_name stmt in
      let found : find m result.statements ≡ some s = rw eq (find_past m s before after n h) in
      elim (Bool-cases (is_skipped num stringify bench_name stmt)) [
        | inl b ↦ rw b refl
        | inr b ↦ rw (b, found, fast) refl
      ]

  check_statements-Within :
      (threshold : N) (result : BenchResult N) (stmts : List (BaselineStatement N))
      → (check_statements num stringify bench_name threshold result stmts ≡ [])
        ↔ All (StatementWithin threshold result) stmts
  check_statements-Within threshold result [] = (λ e. tt, λ p. refl)
  check_statements-Within threshold result (stmt ∷ stmts) = (
    λ e.
        let (one, rest) = (append-nil _ _).0 e in
        (
          check_statement-Within threshold result stmt one,
          (check_statements-Within threshold result stmts).0 rest,
        ),
    λ p. (append-nil _ _).1 (
      Within-check_statement threshold result stmt p.0,
      (check_statements-Within threshold result stmts).1 p.1,
    ),
  )

  check_tps-Within :
      (threshold measured baseline : N)
      → (check_tps num stringify bench_name threshold measured baseline ≡ []) ↔ (
          (num.less num.zero baseline ≡ false)
          ⊎ (num.less measured (num.divide baseline threshold) ≡ false))
  check_tps-Within threshold measured baseline = (λ e. grind arith, λ p. grind arith)

  -- A result is compared with a baseline without a finding just when it is within the threshold of it: the
  -- measured throughput is not below the baseline's, divided by the threshold, or the baseline has none;
  -- and each baseline statement that has a text and a positive latency is a prefix of a query in the
  -- output, the first of which is not slower than the baseline's latency, multiplied by the threshold.
  -- The arithmetic is any.
  pub check_against_baseline-Within :
      (result : BenchResult N) (baseline : Baseline N) (threshold : N)
      → (check_against_baseline num stringify bench_name result baseline threshold ≡ [])
        ↔ Within threshold result baseline
  unfolding check_against_baseline
  check_against_baseline-Within result baseline threshold = (
    λ e.
        let (one, rest) = (append-nil _ _).0 e in
        (
          (check_tps-Within threshold result.tps _).0 one,
          (check_statements-Within threshold result _).0 rest,
        ),
    λ p. (append-nil _ _).1 (
      (check_tps-Within threshold result.tps _).1 p.0,
      (check_statements-Within threshold result _).1 p.1,
    ),
  )
