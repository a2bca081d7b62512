-- ===== src/Frontend/Blades.antt =====
-- apps/frontend/src/layouts/BladeStack.tsx: the stack of blades, and what its buttons and breadcrumbs
-- do. A blade's content is of any type; the sizes and colours are not modelled.
pub mod Stack
use monok8s.Prelude.{
  ℕ, zero, suc, ◌+◌, Bool, Option, none, some, List, [], ◌∷◌, ◌++◌, Text, ◌==◌, is_some, length,
  ltb, if◌then◌else◌,
}

pub record Blade {κ} (C : Type κ) : Type κ where
  pub id : Text
  pub title : Text
  pub content : C
  pub width : Option Text

module _ {ℓ} {A : Type ℓ} where
  -- `xs.slice(0, n)`
  abbrev pub take : ℕ → List A → List A
  take zero xs = []
  take (suc n) [] = []
  take (suc n) (x ∷ xs) = x ∷ take n xs

  -- `xs.slice(0, -1)`
  abbrev pub drop_last : List A → List A
  drop_last [] = []
  drop_last (x ∷ []) = []
  drop_last (x ∷ y ∷ xs) = x ∷ drop_last (y ∷ xs)

  -- `xs.findIndex(p)`, where -1 is `none`.
  abbrev pub find_index : (A → Bool) → List A → Option ℕ
  find_index p [] = none
  find_index p (x ∷ xs) =
      let rest = find_index p xs in
      if p x then some 0 else elim rest [ none ↦ none | some i ↦ some (suc i) ]

-- What a user does: a component pushes a blade or pops one, a breadcrumb, "Home", or a blade's close or
-- back button is clicked, the last three by their place in the stack.
pub data Action {κ} (C : Type κ) : Type κ where
  push : Blade C → Action C
  pop home : Action C
  crumb close back : ℕ → Action C

module _ {κ} {C : Type κ} where
  abbrev pub pushed_at : Blade C → List (Blade C) → Option ℕ → List (Blade C)
  pushed_at b prev none = prev ++ (b ∷ [])
  pushed_at b prev (some i) = take i prev ++ (b ∷ [])

  -- A blade with the same ID is replaced, and those above it go.
  unfoldable pub push_blade : Blade C → List (Blade C) → List (Blade C)
  push_blade b prev = pushed_at b prev (find_index (λ p. p.id == b.id) prev)

  abbrev pub trim_to : ℕ → List (Blade C) → List (Blade C)
  trim_to i prev = take i prev

  -- The breadcrumb of the last blade does nothing.
  unfoldable pub act : Action C → List (Blade C) → List (Blade C)
  act (push b) prev = push_blade b prev
  act pop prev = drop_last prev
  act home prev = trim_to 0 prev
  act (crumb i) prev = if ltb (i + 1) (length prev) then trim_to (i + 1) prev else prev
  act (close i) prev = trim_to i prev
  act (back i) prev = trim_to i prev

  unfoldable pub run : List (Action C) → List (Blade C) → List (Blade C)
  run [] blades = blades
  run (a ∷ as') blades = run as' (act a blades)
