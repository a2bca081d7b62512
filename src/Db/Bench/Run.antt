-- ===== src/Db/Bench/Run.antt =====
-- packages/db/bench/check_regression.ts: the runs found in a folder, and the verdict over all of them.
-- The file system and `path.join` are arguments.
use monok8s.Prelude.{
  ℕ, suc, Bool, true, false, Option, none, some, List, [], ◌∷◌, ◌++◌, Text, lit, length, ltb, map,
  nat_eq, if◌then◌else◌,
}
use monok8s.Services.{Result, ok, throw}
use monok8s.Services.Exec.{then_result, detail_of}
use monok8s.Db.Ask.{decimal}
use monok8s.Db.Bench.{
  Numbers, BenchResult, Baseline, RegressionFinding, parse, check_against_baseline,
}
use monok8s.Db.Bench.Output.{extract_bench_name, parse_bench_output}

pub record DiscoveredRun : Type 0 where
  pub bench_name : Text
  pub log_path : Text

pub record RunOutcome (N : Type 0) : Type 0 where
  pub exit_code : ℕ
  pub findings : List (RegressionFinding N)
  pub runs : ℕ
  pub lines : List Text

-- `sort()`: by code units.
abbrev pub precedes : Text → Text → Bool
precedes [] t = true
precedes (c ∷ s) [] = false
precedes (c ∷ s) (d ∷ t) = if nat_eq c d then precedes s t else ltb c d

abbrev pub insert : Text → List Text → List Text
insert s [] = s ∷ []
insert s (t ∷ ts) = let rest = insert s ts in if precedes s t then s ∷ t ∷ ts else t ∷ rest

abbrev pub sort : List Text → List Text
sort [] = []
sort (t ∷ ts) = insert t (sort ts)

module _ (join_path : Text → Text → Text) where
  -- readdirSync and statSync(…).isFile().
  module _ (read_dir : Text → Result (List Text)) (is_file : Text → Result Bool) where
    abbrev pub named : Text → Option Text → List DiscoveredRun
    named full none = []
    named full (some name) = record { bench_name = name; log_path = full } ∷ []

    abbrev pub entry_runs : Text → Text → Result (List DiscoveredRun)
    entry_runs dir entry =
        let full = join_path dir entry in
        then_result (is_file full)
          (λ b. ok (if b then named full (extract_bench_name entry) else []))

    abbrev pub all_entries : Text → List Text → Result (List DiscoveredRun)
    all_entries dir [] = ok []
    all_entries dir (entry ∷ entries) =
        let rest = all_entries dir entries in
        then_result (entry_runs dir entry) (λ runs. then_result rest (λ more. ok (runs ++ more)))

    unfoldable pub discover_runs : Text → Result (List DiscoveredRun)
    discover_runs dir = then_result (read_dir dir) (λ entries. all_entries dir (sort entries))

  module _ (num : Numbers) (stringify : Text → Text) (read_log : Text → Result Text)
      (read_baseline : Text → Result (Option (Baseline num.N))) where
    open num use {N}

    -- What one run adds: lines, and findings.
    abbrev pub Report : Type 0
    Report = List Text × List (RegressionFinding N)

    abbrev pub parse_failed : Text → Text → Report
    parse_failed bench_name detail = (
      (lit "✗  " ++ (bench_name ++ (lit ": parse failed — " ++ detail))) ∷ [],
      record {
        bench_name = bench_name;
        metric = parse;
        measured = num.zero;
        baseline = num.zero;
        detail = detail;
      }
          ∷ [],
    )

    abbrev pub skipped : Text → Text → Report
    skipped bench_name path = (
      (lit "⚠  " ++ (bench_name ++ (lit ": no baseline at " ++ (path ++ lit " — skipped")))) ∷ [],
      [],
    )

    abbrev pub detail_line : RegressionFinding N → Text
    detail_line f = lit "     - " ++ f.detail

    abbrev pub report_lines : Text → BenchResult N → List (RegressionFinding N) → List Text
    report_lines bench_name result [] =
        (lit "✓  "
          ++ (bench_name
              ++ (lit ": tps="
                  ++ (num.to_fixed 1 result.tps
                      ++ (lit ", statements=" ++ decimal (length result.statements))))))
        ∷ []
    report_lines bench_name result (f ∷ fs) =
        (lit "✗  "
          ++ (bench_name ++ (lit ": " ++ (decimal (suc (length fs)) ++ lit " regression(s)"))))
        ∷ map detail_line (f ∷ fs)

    abbrev pub compared : Text → Baseline N → Result (BenchResult N) → Report
    compared bench_name baseline (throw e) = parse_failed bench_name (detail_of e)
    compared bench_name baseline (ok result) =
        let fs = check_against_baseline num stringify bench_name result baseline num.two in
        (report_lines bench_name result fs, fs)

    abbrev pub with_baseline : Text → Text → Text → Option (Baseline N) → Report
    with_baseline bench_name log_path path none = skipped bench_name path
    with_baseline bench_name log_path path (some baseline) =
        compared bench_name baseline
          (then_result (read_log log_path) (λ s. parse_bench_output num s))

    -- One turn of the loop. A baseline that cannot be read is an exception of `run`.
    abbrev pub run_one : Text → DiscoveredRun → Result Report
    run_one baseline_dir r =
        let path = join_path baseline_dir (r.bench_name ++ lit ".json") in
        then_result (read_baseline path)
          (λ baseline. ok (with_baseline r.bench_name r.log_path path baseline))

    abbrev pub run_all : Text → List DiscoveredRun → Result Report
    run_all baseline_dir [] = ok ([], [])
    run_all baseline_dir (r ∷ rs) =
        let rest = run_all baseline_dir rs in
        then_result (run_one baseline_dir r)
          (λ one. then_result rest (λ more. ok (one.0 ++ more.0, one.1 ++ more.1)))

    abbrev pub verdict : ℕ → Report → RunOutcome N
    verdict runs (lines, []) = record {
      exit_code = 0;
      findings = [];
      runs = runs;
      lines =
          lines
          ++ ((10 ∷ (lit "PASS: " ++ (decimal runs ++ lit " bench run(s) within threshold"))) ∷ []);
    }
    verdict runs (lines, f ∷ fs) = record {
      exit_code = 1;
      findings = f ∷ fs;
      runs = runs;
      lines =
          lines
          ++ ((10
                ∷ (lit "FAIL: "
                    ++ (decimal (suc (length fs))
                        ++ (lit " regression(s) across "
                            ++ (decimal runs ++ lit " bench run(s)")))))
              ∷ []);
    }

    abbrev pub no_logs : Text → RunOutcome N
    no_logs results_dir = record {
      exit_code = 0;
      findings = [];
      runs = 0;
      lines = (lit "no recognized bench logs found under " ++ results_dir) ∷ [];
    }

    abbrev pub run_discovered : Text → Text → List DiscoveredRun → Result (RunOutcome N)
    run_discovered results_dir baseline_dir [] = ok (no_logs results_dir)
    run_discovered results_dir baseline_dir (r ∷ rs) =
        then_result (run_all baseline_dir (r ∷ rs))
          (λ report. ok (verdict (length (r ∷ rs)) report))

    unfoldable pub run : (Text → Result (List DiscoveredRun)) → Text → Text → Result (RunOutcome N)
    run discover results_dir baseline_dir =
        then_result (discover results_dir) (run_discovered results_dir baseline_dir)
