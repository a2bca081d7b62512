-- ===== src/Db/Bench/Exit.antt =====
-- What the exit code of a run says.
use monok8s.Prelude.{
  ℕ, suc, ◌≡◌, refl, sym, ◌⊎◌, inl, inr, ◌↔◌, All, Option, none, some, List, [], ◌∷◌, ◌++◌, Text,
  lit, arith, length,
}
use monok8s.Services.{Result, ok, throw}
use monok8s.Services.Exec.{then_result}
use monok8s.Db.Bench.{Numbers, BenchResult, Baseline}
use monok8s.Db.Bench.Output.{parse_bench_output}
use monok8s.Db.Bench.Verdict.{append-nil, Within, check_against_baseline-Within}
use monok8s.Db.Bench.Run.{
  DiscoveredRun, RunOutcome, Report, compared, with_baseline, run_all, verdict, no_logs, run,
}

module _ (join_path : Text → Text → Text) (num : Numbers) (stringify : Text → Text)
    (read_log : Text → Result Text) (read_baseline : Text → Result (Option (Baseline num.N))) where
  open num use {N}

  abbrev Compared : Text → Baseline N → Result (BenchResult N) → Type 0
  Compared bench_name b r =
      (result : BenchResult N) × ((r ≡ ok result)
        × Within num stringify bench_name num.two result b)

  abbrev pub PassesWith : DiscoveredRun → Result (Option (Baseline N)) → Type 0
  PassesWith r found =
      (found ≡ ok none)
      ⊎ ((b : Baseline N) × ((found ≡ ok (some b))
            × Compared r.bench_name b
                (then_result (read_log r.log_path) (λ s. parse_bench_output num s))))

  -- A run without a baseline, or whose log is read and parsed to a result within twice its baseline.
  abbrev pub Passes : Text → DiscoveredRun → Type 0
  Passes baseline_dir r =
      PassesWith r (read_baseline (join_path baseline_dir (r.bench_name ++ lit ".json")))

  compared-Compared :
      (bench_name : Text) (b : Baseline N) (r : Result (BenchResult N))
      → ((compared join_path num stringify read_log read_baseline bench_name b r).1 ≡ [])
        ↔ Compared bench_name b r
  compared-Compared bench_name b (throw x) = (λ n. absurd (grind arith), λ p. absurd (grind arith))
  compared-Compared bench_name b (ok result) = (
    λ n. (
      result,
      (refl, (check_against_baseline-Within num stringify bench_name result b num.two).0 n),
    ),
    λ (result', (e, w)).
        let same : result ≡ result' = grind arith in
        (check_against_baseline-Within num stringify bench_name result b num.two).1 (rw same w),
  )

  abbrev reported :
      DiscoveredRun
      → Text
      → Option (Baseline N)
      → Report join_path num stringify read_log read_baseline
  reported r path o =
      with_baseline join_path num stringify read_log read_baseline r.bench_name r.log_path path o

  PassesWith-some :
      (r : DiscoveredRun) (b : Baseline N)
      → PassesWith r (ok (some b))
      → Compared r.bench_name b (then_result (read_log r.log_path) (λ s. parse_bench_output num s))
  PassesWith-some r b (inl e) = absurd (grind arith)
  PassesWith-some r b (inr (b', (e, c))) = let same : b ≡ b' = grind arith in rw same c

  reported-PassesWith :
      (r : DiscoveredRun) (path : Text) (o : Option (Baseline N))
      → ((reported r path o).1 ≡ []) ↔ PassesWith r (ok o)
  reported-PassesWith r path none = (λ n. inl refl, λ p. refl)
  reported-PassesWith r path (some b) = (
    λ n. inr (b, (refl, (compared-Compared r.bench_name b _).0 n)),
    λ p. (compared-Compared r.bench_name b _).1 (PassesWith-some r b p),
  )

  then_reported :
      (r : DiscoveredRun) (path : Text) (found : Result (Option (Baseline N)))
      (report : Report join_path num stringify read_log read_baseline)
      → then_result found (λ o. ok (reported r path o)) ≡ ok report
      → (report.1 ≡ []) ↔ PassesWith r found
  then_reported r path (throw x) report e = absurd (grind arith)
  then_reported r path (ok o) report e =
      let made : reported r path o ≡ report = grind arith in
      rw (sym made) (reported-PassesWith r path o)

  abbrev Reports : Type 0
  Reports = Report join_path num stringify read_log read_baseline

  joined :
      (one rest : Result Reports) (report : Reports)
      → then_result one (λ a. then_result rest (λ b. ok (a.0 ++ b.0, a.1 ++ b.1))) ≡ ok report
      → (a : Reports) × ((b : Reports) × ((one ≡ ok a) × ((rest ≡ ok b) × (report.1 ≡ a.1 ++ b.1))))
  joined (throw x) rest report e = absurd (grind arith)
  joined (ok a) (throw x) report e = absurd (grind arith)
  joined (ok a) (ok b) report e = (a, (b, (refl, (refl, grind arith))))

  run_all-Passes :
      (baseline_dir : Text) (rs : List DiscoveredRun)
      (report : Report join_path num stringify read_log read_baseline)
      → run_all join_path num stringify read_log read_baseline baseline_dir rs ≡ ok report
      → (report.1 ≡ []) ↔ All (Passes baseline_dir) rs
  run_all-Passes baseline_dir [] report e =
      let none_found : report.1 ≡ [] = grind arith in (λ n. tt, λ p. none_found)
  run_all-Passes baseline_dir (r ∷ rs) report e =
      let (a, (b, (one, (rest, sum)))) = joined _ _ report e in
      let first = then_reported r _ _ a one in
      let others = run_all-Passes baseline_dir rs b rest in
      rw sum (
        λ n. let (na, nb) = (append-nil a.1 b.1).0 n in (first.0 na, others.0 nb),
        λ p. (append-nil a.1 b.1).1 (first.1 p.0, others.1 p.1),
      )

  verdict-exit_code :
      (runs : ℕ) (report : Reports)
      → ((verdict join_path num stringify read_log read_baseline runs report).exit_code ≡ 0)
        ↔ (report.1 ≡ [])
  verdict-exit_code runs (lines, []) = (λ e. refl, λ e. refl)
  verdict-exit_code runs (lines, f ∷ fs) =
      (λ e. absurd (omega (arith, e)), λ e. absurd (grind arith))

  -- Where no baseline file is broken, every run is reported.
  run_all-returns :
      (baseline_dir : Text)
      → ((path : Text) → (o : Option (Baseline N)) × (read_baseline path ≡ ok o))
      → (rs : List DiscoveredRun)
      → (report : Reports) × (run_all join_path num stringify read_log read_baseline baseline_dir rs
          ≡ ok report)
  run_all-returns baseline_dir readable [] = (([], []), refl)
  run_all-returns baseline_dir readable (r ∷ rs) =
      let (o, e) = readable (join_path baseline_dir (r.bench_name ++ lit ".json")) in
      let (b, more) = run_all-returns baseline_dir readable rs in
      (
        (
          (reported r (join_path baseline_dir (r.bench_name ++ lit ".json")) o).0 ++ b.0,
          (reported r (join_path baseline_dir (r.bench_name ++ lit ".json")) o).1 ++ b.1,
        ),
        rw (e, more) refl,
      )

  -- A run exits with 0 just when every log that was discovered either has no baseline, or is read and
  -- parsed, to a result within twice its baseline; so a log that has a baseline, and cannot be read or
  -- parsed, makes the exit code differ from 0. The folder is listed, and no baseline file is broken:
  -- then the run returns.
  pub run-exit_code :
      (discover : Text → Result (List DiscoveredRun)) (results_dir baseline_dir : Text)
      (rs : List DiscoveredRun)
      → discover results_dir ≡ ok rs
      → ((path : Text) → (o : Option (Baseline N)) × (read_baseline path ≡ ok o))
      → (outcome : RunOutcome N) × ((run join_path num stringify read_log read_baseline discover
              results_dir baseline_dir
            ≡ ok outcome)
          × ((outcome.exit_code ≡ 0) ↔ All (Passes baseline_dir) rs))
  unfolding run
  run-exit_code discover results_dir baseline_dir [] d readable = (
    no_logs join_path num stringify read_log read_baseline results_dir,
    (rw d refl, (λ e. tt, λ p. refl)),
  )
  run-exit_code discover results_dir baseline_dir (r ∷ rs) d readable =
      let (report, e) = run_all-returns baseline_dir readable (r ∷ rs) in
      let runs = suc (length rs) in
      let code = verdict-exit_code runs report in
      let passes = run_all-Passes baseline_dir (r ∷ rs) report e in
      (
        verdict join_path num stringify read_log read_baseline runs report,
        (rw (d, e) refl, (λ z. passes.0 (code.0 z), λ p. code.1 (passes.1 p))),
      )
