-- ===== src/Auth/Workflow/Uuid.antt =====
-- The textual form of a UUID: hexadecimal digits, in either case, in runs of 8, 4, 4, 4 and 12.
use monok8s.Prelude.{ℕ, zero, suc, ◌≡◌, Bool, true, ◌&&◌, ◌||◌, [], ◌∷◌, ◌++◌, Text, leb}

abbrev pub is_hex : ℕ → Bool
is_hex c = (leb b'0' c && leb c b'9') || (leb b'a' c && leb c b'f') || (leb b'A' c && leb c b'F')

-- `n` hexadecimal digits.
abbrev pub HexRun : ℕ → Text → Type 0
HexRun zero [] = Unit
HexRun zero (c ∷ s) = ⊥
HexRun (suc n) [] = ⊥
HexRun (suc n) (c ∷ s) = (is_hex c ≡ true) × HexRun n s

abbrev pub dash : ℕ
dash = b'-'

pub record IsUuid (t : Text) : Type 0 where
  pub a : Text
  pub b : Text
  pub c : Text
  pub d : Text
  pub e : Text
  pub in_a : HexRun 8 a
  pub in_b : HexRun 4 b
  pub in_c : HexRun 4 c
  pub in_d : HexRun 4 d
  pub in_e : HexRun 12 e
  pub joined : t ≡ a ++ (dash ∷ b ++ (dash ∷ c ++ (dash ∷ d ++ (dash ∷ e))))
