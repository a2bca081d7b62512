-- ===== src/Db/Bench/Output.antt =====
-- packages/db/bench/check_regression.ts: the regular expressions, as recognisers. Each repetition in them
-- is followed by a character that it does not take, so the longest run is the only one to try.
pub mod Slugs
use monok8s.Prelude.{
  ℕ, Bool, true, false, not, ◌&&◌, ◌||◌, Option, none, some, List, [], ◌∷◌, Text, lit, leb, nat_eq,
  any, is_blank, is_space, trim_end, split, if◌then◌else◌,
}
use monok8s.Services.{Result, ok, throw, error}
use monok8s.Db.Bench.{Numbers, StatementResult, BenchResult}

abbrev pub is_digit : ℕ → Bool
is_digit c = leb b'0' c && leb c b'9'

-- `[\d.]`
abbrev pub is_numeric : ℕ → Bool
is_numeric c = is_digit c || nat_eq c b'.'

-- The characters that end a line, which `.` does not match and `^` may follow.
abbrev pub ends_line : ℕ → Bool
ends_line c = nat_eq c 10 || (nat_eq c 13 || (nat_eq c 8232 || nat_eq c 8233))

-- The longest run of characters of a class, and the rest.
abbrev pub span : (ℕ → Bool) → Text → Text × Text
span p [] = ([], [])
span p (c ∷ s) = let (run, rest) = span p s in if p c then (c ∷ run, rest) else ([], c ∷ s)

abbrev pub after_prefix : Text → Text → Option Text
after_prefix [] s = some s
after_prefix (c ∷ p) [] = none
after_prefix (c ∷ p) (d ∷ s) = if nat_eq c d then after_prefix p s else none

-- `text.slice(text.indexOf(word) + word.length)`
abbrev pub or_later : Option Text → Option Text → Option Text
or_later (some rest) later = some rest
or_later none later = later

abbrev pub after_word : Text → Text → Option Text
after_word word [] = after_prefix word []
after_word word (c ∷ s) = or_later (after_prefix word (c ∷ s)) (after_word word s)

-- TPS_RE, from its second character class on: `([\d.]+) \(without initial connection time\)`.
abbrev pub tps_number : Text × Text → Option Text
tps_number (run, rest) =
    let suffix = after_prefix (lit " (without initial connection time)") rest in
    if is_blank run then none else elim suffix [ some _ ↦ some run | none ↦ none ]

abbrev pub tps_at : Option Text → Option Text
tps_at none = none
tps_at (some s) = tps_number (span is_numeric s)

-- The first match of TPS_RE; the flag is whether a line starts here.
abbrev pub tps_match : Bool → Text → Option Text
tps_match start [] = none
tps_match start (c ∷ s) =
    let later = tps_match (ends_line c) s in
    if start then or_later (tps_at (after_prefix (lit "tps = ") (c ∷ s))) later else later

abbrev pub block_head : Text
block_head = lit "statement latencies in milliseconds and failures:"

-- STATEMENT_RE: the two groups.
abbrev pub query_of : Text → Text → Option (Text × Text)
query_of latency s =
    let query = trim_end s in
    if is_blank query || any ends_line query then none else some (latency, query)

-- `\s+` between two parts.
abbrev pub spaced {ℓ} : {A : Type ℓ} → (Text → Option A) → Text × Text → Option A
spaced k ([], s) = none
spaced k (c ∷ run, s) = k s

abbrev pub after_latency : Text → Text → Option (Text × Text)
after_latency latency s =
    spaced
      (λ t.
        let (failures, u) = span is_digit t in
        if is_blank failures then none else spaced (query_of latency) (span is_space u))
      (span is_space s)

unfoldable pub statement_match : Text → Option (Text × Text)
statement_match line =
    spaced
      (λ t.
        let (latency, u) = span is_numeric t in
        if is_blank latency then none else after_latency latency u)
      (span is_space line)

module _ (num : Numbers) where
  open num use {N}

  abbrev pub cons_statement :
      Option (Text × Text) → List (StatementResult N) → List (StatementResult N)
  cons_statement none rest = rest
  cons_statement (some (latency, query)) rest =
      record { latency_ms = num.number latency; query = query } ∷ rest

  abbrev pub statements_of : List Text → List (StatementResult N)
  statements_of [] = []
  statements_of (line ∷ lines) = cons_statement (statement_match line) (statements_of lines)

  abbrev pub parse_block : Text → Option Text → Result (BenchResult N)
  parse_block tps none = throw (error (lit "statement-latencies block not found in output"))
  parse_block tps (some block) =
      ok (record { tps = num.number tps; statements = statements_of (split 10 block) })

  abbrev pub parse_rest : Text → Option Text → Result (BenchResult N)
  parse_rest s none = throw (error (lit "pgbench TPS line not found in output"))
  parse_rest s (some tps) = parse_block tps (after_word block_head s)

  unfoldable pub parse_bench_output : Text → Result (BenchResult N)
  parse_bench_output s = parse_rest s (tps_match true s)

-- SLUG_RE: the last `bench_` after which the rest is a word and `-test.log`.
abbrev pub is_word : ℕ → Bool
is_word c =
    is_digit c || ((leb b'A' c && leb c b'Z') || ((leb b'a' c && leb c b'z') || nat_eq c b'_'))

abbrev pub at_end : Option Text → Bool
at_end none = false
at_end (some rest) = is_blank rest

abbrev pub word_then_suffix : Text × Text → Option Text
word_then_suffix (run, rest) =
    if is_blank run || not (at_end (after_prefix (lit "-test.log") rest)) then none else some run

abbrev pub slug_at : Option Text → Option Text
slug_at none = none
slug_at (some s) = word_then_suffix (span is_word s)

unfoldable pub extract_bench_name : Text → Option Text
extract_bench_name [] = none
extract_bench_name (c ∷ s) =
    or_later (extract_bench_name s) (slug_at (after_prefix (lit "bench_") (c ∷ s)))
