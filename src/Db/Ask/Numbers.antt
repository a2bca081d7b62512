-- ===== src/Db/Ask/Numbers.antt =====
-- The printing of a number has fuel enough: what it prints is read back.
use monok8s.Prelude.{
  ◌≡◌, ◌∙◌, refl, ℕ, zero, suc, ◌+◌, ◌-◌, ◌*◌, ◌/◌, ◌%◌, ◌<◌, inl, inr, Bool-cases, [], ◌∷◌, ◌++◌,
  Text, ltb, arith,
}
use monok8s.Db.Ask.{digits, decimal}

-- The value of decimal digits that follow a number.
abbrev pub value : ℕ → Text → ℕ
value n [] = n
value n (c ∷ s) = value (n * 10 + (c - b'0')) s

value-append : (n : ℕ) (s : Text) (c : ℕ) → value n (s ++ (c ∷ [])) ≡ value n s * 10 + (c - b'0')
value-append n [] c = refl
value-append n (d ∷ s) c = value-append (n * 10 + (d - b'0')) s c

value-digits : (n k : ℕ) → k < n → value 0 (digits n k) ≡ k
unfolding digits
value-digits zero k l = absurd (omega arith)
value-digits (suc n) k l = elim (Bool-cases (ltb k 10)) [
  | inl e ↦ rw e (ground arith)
  | inr e ↦ rw e (
      value-append 0 (digits n (k / 10)) (b'0' + k % 10)
      ∙ (let rest : value 0 (digits n (k / 10)) ≡ k / 10 = value-digits n (k / 10) (ground arith) in
          rw rest (omega arith)))
]

-- A printed number is read back, so the fuel never runs out on the way.
pub value-decimal : (k : ℕ) → value 0 (decimal k) ≡ k
unfolding decimal
value-decimal k = value-digits (suc k) k (omega arith)
