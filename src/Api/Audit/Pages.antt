-- ===== src/Api/Audit/Pages.antt =====
-- How many rows a page of the audit log can ask for.
use monok8s.Prelude.{
  ℕ, ◌≤◌, ◌≡◌, refl, ◌⊎◌, inl, inr, Bool, true, Option, none, some, List, [], ◌∷◌, Text, leb,
  leb→le, arith, Bool-cases,
}
use monok8s.Services.{AuditLog, PoolId, number, Query, query, Trace, Result, throw}
use monok8s.Db.Audit
use monok8s.Api.Audit.{
  AuditListInput, max_limit, accepts, clamp_limit, is_valid, parse_audit_list, invalid_input, list,
}

abbrev pub last? {ℓ} : {A : Type ℓ} → List A → Option A
last? [] = none
last? (x ∷ []) = some x
last? (x ∷ y ∷ ys) = last? (y ∷ ys)

clamp_limit-bounds :
    (o : Option ℕ)
    → accepts o (λ v. leb 1 v) ≡ true
    → (1 ≤ clamp_limit o) × (clamp_limit o ≤ max_limit)
clamp_limit-bounds none e = (omega arith, omega arith)
clamp_limit-bounds (some v) e = (ground (arith, leb→le 1 v), ground (arith, leb→le v 200))

-- One statement, to this pool, whose last parameter is a page size within the limit.
abbrev pub AsksPage : PoolId → Trace → Trace → Type 0
AsksPage db h h' =
    (q : Query) × ((n : ℕ) × ((h' ≡ query q ∷ h)
        × ((q.pool ≡ db) × ((last? q.params ≡ some (number n)) × ((1 ≤ n) × (n ≤ max_limit))))))

module _ {κ} {M : Type κ} (is_uuid is_datetime : Text → Bool)
    (answer : Trace → Query → Result (List (AuditLog M))) where
  -- Whatever input comes over the wire, `audit.list` either is refused, and makes no call, or sends one
  -- statement to the caller's pool, for at least one row and at most 200.
  pub list-pages :
      (db : PoolId) (input : AuditListInput) (h : Trace)
      → (list is_uuid is_datetime answer db input h
          ≡ (throw (invalid_input is_uuid is_datetime), h))
        ⊎ AsksPage db h (list is_uuid is_datetime answer db input h).1
  unfolding list parse_audit_list Audit.list
  list-pages db input h = elim (Bool-cases (is_valid is_uuid is_datetime input)) [
    | inr b ↦ rw b (inl refl)
    | inl b ↦
        let limit_ok : accepts input.limit (λ v. leb 1 v) ≡ true = grind arith in
        let (least, most) = clamp_limit-bounds input.limit limit_ok in
        rw b (inr (_, (clamp_limit input.limit, (refl, (refl, (refl, (least, most)))))))
  ]
