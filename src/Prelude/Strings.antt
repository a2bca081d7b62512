-- ===== src/Prelude/Strings.antt =====
-- JavaScript strings, as lists of code units. `lit` is shut, so that a literal stays one word in
-- a proof; a test that runs on text unfolds it.
use Prim.Native.Nat.{ℕ}
use Prim.Native.Char.{code}
use Prim.Native.String.{String}
use mathlib.Core.Path.{◌≡◌, refl}
use mathlib.Core.Logic.{◌↔◌, ◌≢◌}
use mathlib.Core.Bool.{Bool, true, false, ◌&&◌}
use mathlib.Core.List.{List, [], ◌∷◌}
use native.Mathlib.Omega.{arith}
use monok8s.Prelude.Tests.{nat_eq}

abbrev pub Text : Type 0
Text = List ℕ

unfoldable pub lit : String → Text
lit String.[] = []
lit (String.◌∷◌ c s) = code c ∷ lit s

infix 50 ◌==◌
unfoldable pub ◌==◌ : Text → Text → Bool
[] == [] = true
[] == (d ∷ t) = false
(c ∷ s) == [] = false
(c ∷ s) == (d ∷ t) = nat_eq c d && s == t

==-eq : (s t : Text) → (s == t) ≡ true → s ≡ t
unfolding ◌==◌
==-eq [] [] h = refl
==-eq [] (d ∷ t) h = ground arith
==-eq (c ∷ s) [] h = ground arith
==-eq (c ∷ s) (d ∷ t) h = ground (arith, ==-eq s t)

pub ==_refl : (s : Text) → (s == s) ≡ true
unfolding ◌==◌
==_refl [] = refl
==_refl (c ∷ s) = ground (arith, ==_refl s)

pub ==_iff : (s t : Text) → ((s == t) ≡ true) ↔ (s ≡ t)
==_iff s t = (==-eq s t, λ e. rw e (==_refl t))

-- An empty string is falsy.
abbrev pub is_blank : Text → Bool
is_blank [] = true
is_blank (c ∷ s) = false

pub ==_ne : (s t : Text) → s ≢ t → (s == t) ≡ false
unfolding ◌==◌
==_ne s t h = ground (arith, ==_iff s t)

pub ==_swap : (s t : Text) → (s == t) ≡ false → (t == s) ≡ false
==_swap s t n = ==_ne t s (λ e. (let b : (s == t) ≡ true = rw e (==_refl s) in cc))

-- `s.startsWith(prefix)`
abbrev pub starts_with : Text → Text → Bool
starts_with [] s = true
starts_with (c ∷ p) [] = false
starts_with (c ∷ p) (d ∷ s) = nat_eq c d && starts_with p s
