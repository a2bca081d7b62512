-- ===== src/Db/Bench.antt =====
-- packages/db/bench/check_regression.ts: comparing a benchmark's output with its baseline. JavaScript's
-- numbers, as far as they are used, are the interface `Numbers`, so that what is proved holds of any
-- arithmetic, the rounding one of doubles included.
pub mod Output
pub mod Run
pub mod Verdict
pub mod Exit
use monok8s.Prelude.{
  ℕ, Bool, true, false, not, ◌&&◌, ◌||◌, Option, none, some, List, [], ◌∷◌, ◌++◌, Text, lit,
  is_blank, or_else, starts_with, if◌then◌else◌,
}

-- `Number(text)`, the comparisons and operations, `toFixed`, and a number in a template.
pub record Numbers : Type 1 where
  pub N : Type 0
  pub number : Text → N
  pub zero : N
  pub two : N
  pub less : N → N → Bool
  pub at_most : N → N → Bool
  pub divide : N → N → N
  pub multiply : N → N → N
  pub to_fixed : ℕ → N → Text
  pub show : N → Text

pub data Metric : Type 0 where
  tps statement_latency statement_missing parse : Metric

module _ (N : Type 0) where
  pub record StatementResult : Type 0 where
    pub latency_ms : N
    pub query : Text

  pub record BenchResult : Type 0 where
    pub tps : N
    pub statements : List StatementResult

  pub record BaselineStatement : Type 0 where
    pub latency_ms : N
    pub query_fragment : Text

  pub record Baseline : Type 0 where
    pub tps : Option N
    pub statements : Option (List BaselineStatement)

  pub record RegressionFinding : Type 0 where
    pub bench_name : Text
    pub metric : Metric
    pub measured : N
    pub baseline : N
    pub detail : Text

-- `xs.find(p)`
abbrev pub find {ℓ} : {A : Type ℓ} → (A → Bool) → List A → Option A
find p [] = none
find p (x ∷ xs) = if p x then some x else find p xs

-- `JSON.stringify` of a text is an argument.
module _ (num : Numbers) (stringify : Text → Text) (bench_name : Text) where
  open num use {N}

  abbrev pub matches : BaselineStatement N → StatementResult N → Bool
  matches stmt s = starts_with stmt.query_fragment s.query

  abbrev pub is_skipped : BaselineStatement N → Bool
  is_skipped stmt = is_blank stmt.query_fragment || num.at_most stmt.latency_ms num.zero

  abbrev pub missing : BaselineStatement N → RegressionFinding N
  missing stmt = record {
    bench_name = bench_name;
    metric = statement_missing;
    measured = num.zero;
    baseline = stmt.latency_ms;
    detail =
        lit "baseline statement "
        ++ (stringify stmt.query_fragment ++ lit " not present in output");
  }

  abbrev pub slower : N → BaselineStatement N → StatementResult N → RegressionFinding N
  slower threshold stmt matched = record {
    bench_name = bench_name;
    metric = statement_latency;
    measured = matched.latency_ms;
    baseline = stmt.latency_ms;
    detail =
        lit "latency rose > "
        ++ (num.show threshold
            ++ (lit "× — measured "
                ++ (num.to_fixed 3 matched.latency_ms
                    ++ (lit " ms, baseline "
                        ++ (num.to_fixed 3 stmt.latency_ms
                            ++ (lit " ms (" ++ (stringify stmt.query_fragment ++ lit ")")))))));
  }

  abbrev pub against :
      N → BaselineStatement N → Option (StatementResult N) → List (RegressionFinding N)
  against threshold stmt none = missing stmt ∷ []
  against threshold stmt (some matched) =
      if num.less (num.multiply stmt.latency_ms threshold) matched.latency_ms
      then slower threshold stmt matched ∷ []
      else []

  -- One turn of the loop.
  abbrev pub check_statement : N → BenchResult N → BaselineStatement N → List (RegressionFinding N)
  check_statement threshold result stmt =
      if is_skipped stmt then [] else against threshold stmt (find (matches stmt) result.statements)

  abbrev pub check_statements :
      N → BenchResult N → List (BaselineStatement N) → List (RegressionFinding N)
  check_statements threshold result [] = []
  check_statements threshold result (stmt ∷ stmts) =
      check_statement threshold result stmt ++ check_statements threshold result stmts

  abbrev pub dropped : N → N → N → RegressionFinding N
  dropped threshold measured baseline = record {
    bench_name = bench_name;
    metric = tps;
    measured = measured;
    baseline = baseline;
    detail =
        lit "TPS dropped > "
        ++ (num.show threshold
            ++ (lit "× — measured "
                ++ (num.to_fixed 1 measured ++ (lit ", baseline " ++ num.to_fixed 1 baseline))));
  }

  abbrev pub check_tps : N → N → N → List (RegressionFinding N)
  check_tps threshold measured baseline =
      if num.less num.zero baseline && num.less measured (num.divide baseline threshold)
      then dropped threshold measured baseline ∷ []
      else []

  unfoldable pub check_against_baseline :
      BenchResult N → Baseline N → N → List (RegressionFinding N)
  check_against_baseline result baseline threshold =
      check_tps threshold result.tps (or_else baseline.tps num.zero)
      ++ check_statements threshold result (or_else baseline.statements [])
