-- ===== src/Db/Bench/Output/Slugs.antt =====
-- The name of a benchmark is read off the file that its log was copied to.
use monok8s.Prelude.{
  ◌≡◌, refl, true, false, All, none, some, [], ◌∷◌, ◌++◌, Text, lit, nat_eq, is_blank, arith,
}
use monok8s.Db.Bench.Output.{after_prefix, is_word, span, extract_bench_name}

abbrev pub IsWord : Text → Type 0
IsWord = All (λ c. is_word c ≡ true)

-- `word` begins nowhere in the text.
abbrev pub NoneIn : Text → Text → Type 0
NoneIn word [] = Unit
NoneIn word (c ∷ s) = (after_prefix word (c ∷ s) ≡ none) × NoneIn word s

abbrev NoDash : Text → Type 0
NoDash = All (λ c. nat_eq c b'-' ≡ false)

-- A text that is not a prefix becomes none by what follows a dash.
after_prefix-dash :
    (p s t : Text) → NoDash p → after_prefix p s ≡ none → after_prefix p (s ++ (b'-' ∷ t)) ≡ none
after_prefix-dash [] s t n e = absurd (grind arith)
after_prefix-dash (c ∷ p) [] t n e = rw n.0 refl
after_prefix-dash (c ∷ p) (d ∷ s) t n e = grind (arith, after_prefix-dash p s t n.1)

extract-none :
    (name : Text) → NoneIn (lit "bench_") name → extract_bench_name (name ++ lit "-test.log") ≡ none
unfolding extract_bench_name lit
extract-none [] n = refl
extract-none (c ∷ s) n =
    rw
      (
        extract-none s n.1,
        after_prefix-dash (lit "bench_") (c ∷ s) (lit "test.log")
            (refl, (refl, (refl, (refl, (refl, (refl, tt)))))) n.0,
      )
      refl

span-word :
    (name : Text) → IsWord name → span is_word (name ++ lit "-test.log") ≡ (name, lit "-test.log")
unfolding lit
span-word [] w = refl
span-word (c ∷ s) w = rw (span-word s w.1, w.0) refl

extract-here :
    (name : Text)
    → IsWord name
    → is_blank name ≡ false
    → NoneIn (lit "bench_") name
    → extract_bench_name (lit "bench_" ++ (name ++ lit "-test.log")) ≡ some name
unfolding extract_bench_name lit
extract-here name w b n = rw (extract-none name n, span-word name w, b) refl

-- The name of a benchmark, a word that does not contain "bench_", is read back from the file name that
-- the workflow makes of it, whatever stands before `bench_<name>-test.log`.
pub extract_bench_name-slug :
    (prefix name : Text)
    → IsWord name
    → is_blank name ≡ false
    → NoneIn (lit "bench_") name
    → extract_bench_name (prefix ++ (lit "bench_" ++ (name ++ lit "-test.log"))) ≡ some name
unfolding extract_bench_name
extract_bench_name-slug [] name w b n = extract-here name w b n
extract_bench_name-slug (c ∷ prefix) name w b n =
    rw (extract_bench_name-slug prefix name w b n) refl
