-- ===== src/Api/Marketplace/Onboarding.antt =====
-- What workflows the marketplaces' webhooks start.
use monok8s.Prelude.{
  ◌≡◌, refl, sym, ◌⊎◌, inl, inr, Bool, true, false, none, some, List, [], ◌∷◌, ◌++◌, Text, lit,
  String, head?, is_blank, or_else, if◌then◌else◌, Option,
}
use monok8s.Services.{Env, StartRequest, start, random_uuid, Trace, Result, ok, throw, Param}
use monok8s.Services.Exec.{Exec, pure, continue, ◌>>=◌}
use monok8s.Services.Traces.{
  starts, IsQuiet, IsQuiet-bind, IsQuiet-pure, IsQuiet-raise, IsQuiet-perform,
}
use monok8s.Auth.Workflow.{tenant_prefix, parse_tenant_from_workflow_id}
use monok8s.Auth.Workflow.Uuid.{IsUuid}
use monok8s.Auth.Workflow.Parsing.{parse-workflow_id}
use monok8s.Api.Marketplace.{
  SnsMessage, AwsMessage, GcpPayload, AzureInput, AzureAction, subscribe, unsubscribe, change_plan,
  change_quantity, suspend, reinstate, transfer, Reply, Marketplaces, acknowledged, lift,
  send_signal, onboard, offboard, resolved, resolve_aws_marketplace_customer, on_aws_action,
  confirm, aws_verified, on_gcp_event, on_azure_action,
}

-- A tenant is made: the workflow's ID is one that the tenant's members may follow, and it is told
-- the same tenant.
abbrev pub Onboards : StartRequest → Type 0
Onboards r =
    (t : Text) × ((parse_tenant_from_workflow_id r.workflow_id ≡ some t)
      × ((r.workflow_type ≡ "OnboardTenantWorkflow") × (head? r.args ≡ some ("tenantId", t))))

-- A tenant is removed, by a workflow whose ID names no tenant.
abbrev pub Offboards : StartRequest → Type 0
Offboards r =
    (parse_tenant_from_workflow_id r.workflow_id ≡ none)
    × (r.workflow_type ≡ "OffboardTenantWorkflow")

abbrev pub Provisioned : List StartRequest → List StartRequest → Type 0
Provisioned old new =
    (new ≡ old) ⊎ ((r : StartRequest) × ((Onboards r ⊎ Offboards r) × (new ≡ r ∷ old)))

pub record Provisions (m : Exec Reply) : Type 0 where
  pub at : (h : Trace) → Provisioned (starts h) (starts (m h).1)

Provisions-quiet : (m : Exec Reply) → IsQuiet m → Provisions m
Provisions-quiet m q = record { at = λ h. inl (q.at h) }

Provisions-if :
    (b : Bool) (m n : Exec Reply) → Provisions m → Provisions n → Provisions (if b then m else n)
Provisions-if true m n p q = p
Provisions-if false m n p q = q

module _ {ℓ} {A : Type ℓ} where
  continue-Provisions :
      (r : Result A) (h : Trace) (f : A → Exec Reply)
      → ((a : A) → Provisions (f a))
      → Provisioned (starts h) (starts (continue (r, h) f).1)
  continue-Provisions (ok a) h f q = (q a).at h
  continue-Provisions (throw e) h f q = inl refl

  pub Provisions-bind :
      (m : Exec A) (f : A → Exec Reply)
      → IsQuiet m
      → ((a : A) → Provisions (f a))
      → Provisions (m >>= f)
  Provisions-bind m f qm qf = record {
    at = λ h. let (r, h') = m h in rw (sym (qm.at h)) (continue-Provisions r h' f qf);
  }

  pub IsQuiet-lift : (r : Result A) → IsQuiet (lift r)
  IsQuiet-lift (ok a) = IsQuiet-pure a
  IsQuiet-lift (throw e) = IsQuiet-raise e

IsQuiet-if {ℓ} :
    {A : Type ℓ} (b : Bool) (m n : Exec A) → IsQuiet m → IsQuiet n → IsQuiet (if b then m else n)
IsQuiet-if true m n p q = p
IsQuiet-if false m n p q = q

Provisions-acknowledged : Provisions acknowledged
Provisions-acknowledged = Provisions-quiet acknowledged (IsQuiet-pure _)

started :
    (req : StartRequest) (reply : Reply) (r : Result (Unit {0})) (h : Trace)
    → Onboards req ⊎ Offboards req
    → Provisioned (starts h) (starts (continue (r, start req ∷ h) (λ _. pure reply)).1)
started req reply (ok _) h p = inr (req, (p, refl))
started req reply (throw e) h p = inr (req, (p, refl))

offboard_id : (rest : Text) → parse_tenant_from_workflow_id (lit "marketplace-" ++ rest) ≡ none
unfolding parse_tenant_from_workflow_id tenant_prefix lit
offboard_id rest = refl

onboard_id :
    (t rest : Text)
    → IsUuid t
    → parse_tenant_from_workflow_id (lit "tnt-" ++ (t ++ (lit "-marketplace-" ++ rest))) ≡ some t
unfolding lit
onboard_id t rest u = parse-workflow_id t (lit "marketplace-" ++ rest) u

module _ (env : Env) where
  Provisions-send_signal :
      (w : Text) (name : String) (payload : List (String × Param))
      → Provisions (send_signal env w name payload)
  Provisions-send_signal w name payload =
      Provisions-bind _ (λ _. acknowledged) (IsQuiet-perform _ _ (λ h. refl))
        (λ _. Provisions-acknowledged)

  Provisions-offboard :
      (prefix key : Text) (args : List (String × Text)) → Provisions (offboard env prefix key args)
  Provisions-offboard prefix key args = record {
    at = λ h. started _ _ (env.on_start h _) h (inr (offboard_id _, refl));
  }

  Provisions-onboard :
      ((h : Trace) → IsUuid (env.on_uuid h))
      → (prefix key : Text) (args : List (String × Text)) (reply : Text → Reply)
      → Provisions (onboard env prefix key args reply)
  Provisions-onboard fresh prefix key args reply = record {
    at = λ h.
        let t = env.on_uuid h in
        started _ (reply t) (env.on_start (random_uuid ∷ h) _) (random_uuid ∷ h)
          (inl (t, (onboard_id t _ (fresh h), (refl, refl))));
  }

  module _ (fresh : (h : Trace) → IsUuid (env.on_uuid h)) (out : Marketplaces)
      (q : (token : Text) → IsQuiet (out.resolve_customer token)) where
    IsQuiet-resolved : (o : Option Text) → IsQuiet (resolved env out o)
    IsQuiet-resolved none = IsQuiet-raise _
    IsQuiet-resolved (some []) = IsQuiet-raise _
    IsQuiet-resolved (some (c ∷ s)) = IsQuiet-pure _

    Provisions-on_aws_action : (msg : AwsMessage) → Provisions (on_aws_action env out msg)
    unfolding resolve_aws_marketplace_customer
    Provisions-on_aws_action msg = search (
      Provisions-if,
      Provisions-bind,
      IsQuiet-bind,
      q,
      IsQuiet-resolved,
      Provisions-onboard fresh,
      Provisions-offboard,
      Provisions-send_signal,
      Provisions-acknowledged,
    )

    pub Provisions-on_gcp_event : (p : GcpPayload) → Provisions (on_gcp_event env out p)
    Provisions-on_gcp_event p = search (
      Provisions-if,
      Provisions-onboard fresh,
      Provisions-offboard,
      Provisions-send_signal,
      Provisions-acknowledged,
    )

    pub Provisions-on_azure_action :
        (input : AzureInput) (a : AzureAction) → Provisions (on_azure_action env out input a)
    Provisions-on_azure_action input subscribe = search (Provisions-onboard fresh)
    Provisions-on_azure_action input unsubscribe = search Provisions-offboard
    Provisions-on_azure_action input suspend = search Provisions-offboard
    Provisions-on_azure_action input reinstate = search Provisions-send_signal
    Provisions-on_azure_action input change_plan = search Provisions-send_signal
    Provisions-on_azure_action input change_quantity = search Provisions-send_signal
    Provisions-on_azure_action input transfer = Provisions-acknowledged

    Provisions-confirm : (url : Option Text) → Provisions (confirm env out url)
    Provisions-confirm url = Provisions-quiet _ (
        IsQuiet-if (is_blank (or_else url [])) _ _ (IsQuiet-raise _)
          (IsQuiet-bind _ _ (IsQuiet-perform _ _ (λ h. refl)) (λ _. IsQuiet-pure _)))

    -- What an AWS message leads to, once its signature is verified.
    pub Provisions-aws : (input : SnsMessage) → Provisions (aws_verified env out input)
    Provisions-aws input = search (
      Provisions-if, Provisions-confirm, Provisions-acknowledged, Provisions-bind, IsQuiet-lift,
      Provisions-on_aws_action,
    )
