-- ===== src/Tests/Bench.antt =====
-- packages/db/bench: an output of pgbench, its baseline, and the verdict. Numbers are natural ones here.
use monok8s.Prelude.{
  ℕ, ◌*◌, ◌/◌, ◌≡◌, refl, ◌↔◌, All, none, some, List, [], ◌∷◌, ◌++◌, Text, lit, ltb, leb, length,
}
use monok8s.Services.{ok}
use monok8s.Db.Bench.{Numbers, Baseline}
use monok8s.Db.Bench.Output.{parse_bench_output, statement_match, extract_bench_name}
use monok8s.Db.Bench.Run.{DiscoveredRun, RunOutcome, run}
use monok8s.Db.Bench.Exit.{Passes, run-exit_code}

abbrev num : Numbers
num = record {
  N = ℕ;
  number = λ s. length s;
  zero = 0;
  two = 2;
  less = λ a b. ltb a b;
  at_most = λ a b. leb a b;
  divide = λ a b. a / b;
  multiply = λ a b. a * b;
  to_fixed = λ n x. lit "1.0";
  show = λ x. lit "2";
}

statement_match_runs :
    statement_match (lit "         0.123           0  SELECT * FROM t WHERE id = 1; ")
    ≡ some (lit "0.123", lit "SELECT * FROM t WHERE id = 1;")
unfolding statement_match lit
statement_match_runs = refl

abbrev output : Text
output =
    lit "tps = 1.0 (including connections)"
    ++ (10
        ∷ (lit "tps = 1234.5 (without initial connection time)"
            ++ (10
                ∷ (lit "statement latencies in milliseconds and failures:"
                    ++ (10 ∷ lit "  0.1  0  SELECT 1;")))))

parse_bench_output_runs :
    parse_bench_output num output
    ≡ ok (record { tps = 6; statements = record { latency_ms = 3; query = lit "SELECT 1;" } ∷ [] })
unfolding parse_bench_output statement_match lit
parse_bench_output_runs = refl

extract_bench_name_runs :
    extract_bench_name (lit "testlogs-bench_tenant_lookup-test.log") ≡ some (lit "tenant_lookup")
unfolding lit extract_bench_name
extract_bench_name_runs = refl

abbrev one_run : List DiscoveredRun
one_run = record { bench_name = lit "lookup"; log_path = lit "/r/lookup" } ∷ []

abbrev baseline : Baseline ℕ
baseline = record { tps = some 20; statements = none }

abbrev Exits : RunOutcome ℕ → Type 0
Exits outcome =
    (outcome.exit_code ≡ 0)
    ↔ All
        (Passes (λ a b. a ++ b) num (λ t. t) (λ path. ok output) (λ path. ok (some baseline))
          (lit "/b/"))
        one_run

run-exit_code_example :
    (outcome : RunOutcome ℕ) × ((run
          (λ a b. a ++ b)
          num
          (λ t. t)
          (λ path. ok output)
          (λ path. ok (some baseline))
          (λ dir. ok one_run)
          (lit "/r")
          (lit "/b/")
        ≡ ok outcome)
      × Exits outcome)
run-exit_code_example =
    run-exit_code (λ a b. a ++ b) num (λ t. t) (λ path. ok output) (λ path. ok (some baseline))
      (λ dir. ok one_run) (lit "/r") (lit "/b/") one_run refl (λ path. (some baseline, refl))
