-- ===== src/Services/Traces.antt =====
-- Reading a trace, and code that starts no workflow.
use monok8s.Prelude.{◌≡◌, refl, ◌∙◌, List, [], ◌∷◌, map}
use monok8s.Services.Wire.{Thrown, StartRequest, Call, start, Trace, Result, ok, throw}
use monok8s.Services.Exec.{Exec, pure, raise, perform, continue, both, all_of, ◌>>=◌}

-- The workflows started, the newest first.
abbrev pub starts : Trace → List StartRequest
starts [] = []
starts (start r ∷ h) = r ∷ starts h
starts (_ ∷ h) = starts h

pub record IsQuiet {ℓ} {A : Type ℓ} (m : Exec A) : Type 0 where
  pub at : (h : Trace) → starts (m h).1 ≡ starts h

module _ {ℓ} {A : Type ℓ} where
  pub IsQuiet-all_of {κ} :
      {I : Type κ} (m : I → Exec A)
      → ((i : I) → IsQuiet (m i))
      → (is : List I) → IsQuiet (all_of (map m is))
  unfolding all_of
  IsQuiet-all_of m q [] = record { at = λ h. refl }
  IsQuiet-all_of m q (i ∷ is) = record {
    at = λ h. (IsQuiet-all_of m q is).at (m i h).1 ∙ (q i).at h;
  }

module _ {ℓ κ} {A : Type ℓ} {B : Type κ} where
  continue-quiet :
      (r : Result A) (h : Trace) (f : A → Exec B)
      → ((a : A) → IsQuiet (f a))
      → starts (continue (r, h) f).1 ≡ starts h
  continue-quiet (ok a) h f q = (q a).at h
  continue-quiet (throw e) h f q = refl

  pub IsQuiet-bind :
      (m : Exec A) (f : A → Exec B) → IsQuiet m → ((a : A) → IsQuiet (f a)) → IsQuiet (m >>= f)
  IsQuiet-bind m f qm qf = record {
    at = λ h. let (r, h') = m h in continue-quiet r h' f qf ∙ qm.at h;
  }

  pub IsQuiet-both : (m : Exec A) (n : Exec B) → IsQuiet m → IsQuiet n → IsQuiet (both m n)
  IsQuiet-both m n qm qn = record { at = λ h. qn.at (m h).1 ∙ qm.at h }

module _ {ℓ} {A : Type ℓ} where
  pub IsQuiet-pure : (a : A) → IsQuiet (pure a)
  IsQuiet-pure a = record { at = λ h. refl }

  pub IsQuiet-raise : (e : Thrown) → IsQuiet {A = A} (raise e)
  IsQuiet-raise e = record { at = λ h. refl }

  pub IsQuiet-perform :
      (answer : Trace → Result A) (c : Call)
      → ((h : Trace) → starts (c ∷ h) ≡ starts h)
      → IsQuiet (perform answer c)
  IsQuiet-perform answer c q = record { at = q }
