-- ===== src/Api/Workflows/Launches.antt =====
-- Code that starts at most one workflow, as its last step, under an ID of its tenant.
use monok8s.Prelude.{◌≡◌, refl, ◌∙◌, sym, ap, some, List, ◌∷◌, Text, ◌⊎◌, inl, inr}
use monok8s.Services.{Result, ok, throw, Trace, StartRequest, start}
use monok8s.Services.Traces.{starts, IsQuiet}
use monok8s.Services.Exec.{Exec, pure, continue, ◌>>=◌}
use monok8s.Auth.Workflow.{parse_tenant_from_workflow_id}

-- What a run left behind: on success the newest workflow started is the one whose ID is returned, it
-- belongs to tenant `t`, and no other was started; on failure none was, or one of `t` that Temporal
-- refused.
abbrev pub Launched : Text → List StartRequest → Result Text × Trace → Type 0
Launched t old (ok w, h) =
    (parse_tenant_from_workflow_id w ≡ some t)
    × ((r : StartRequest) × ((r.workflow_id ≡ w) × (starts h ≡ r ∷ old)))
Launched t old (throw e, h) =
    (starts h ≡ old)
    ⊎ ((r : StartRequest) × ((parse_tenant_from_workflow_id r.workflow_id ≡ some t)
          × (starts h ≡ r ∷ old)))

pub record Launches (t : Text) (m : Exec Text) : Type 0 where
  pub at : (h : Trace) → Launched t (starts h) (m h)

module _ {ℓ} {A : Type ℓ} (t : Text) where
  continue-Launches :
      (r : Result A) (h : Trace) (f : A → Exec Text)
      → ((a : A) → Launches t (f a))
      → Launched t (starts h) (continue (r, h) f)
  continue-Launches (ok a) h f q = (q a).at h
  continue-Launches (throw e) h f q = inl refl

  pub Launches-bind :
      (m : Exec A) (f : A → Exec Text)
      → IsQuiet m
      → ((a : A) → Launches t (f a))
      → Launches t (m >>= f)
  Launches-bind m f qm qf = record {
    at = λ h. let (r, h') = m h in rw (sym (qm.at h)) (continue-Launches r h' f qf);
  }

-- The end of every mutation: one workflow under a new ID, and the ID returned.
pub Launched-start :
    (t w : Text) (req : StartRequest) (h : Trace) (r : Result (Unit {0}))
    → parse_tenant_from_workflow_id w ≡ some t
    → req.workflow_id ≡ w
    → Launched t (starts h) (continue (r, start req ∷ h) (λ _. pure w))
Launched-start t w req h (ok _) p e = (p, (req, (e, refl)))
Launched-start t w req h (throw x) p e = inr (req, (ap parse_tenant_from_workflow_id e ∙ p, refl))
