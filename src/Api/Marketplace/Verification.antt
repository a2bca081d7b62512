-- ===== src/Api/Marketplace/Verification.antt =====
-- That a marketplace's webhook acts on what was verified only.
use monok8s.Prelude.{◌≡◌, refl, sym, ◌⊎◌, inl, inr, true, false, List, ◌∷◌, Text, lit, Bool-cases}
use monok8s.Services.{Env, StartRequest, Trace, Result, ok, throw}
use monok8s.Services.Exec.{continue}
use monok8s.Services.Traces.{starts, IsQuiet}
use monok8s.Auth.Workflow.Uuid.{IsUuid}
use monok8s.Api.Marketplace.{
  SnsMessage, Marketplaces, ends_with, aws_verified, aws_webhook, gcp_webhook, azure_webhook,
  verify_aws_sns_signature, Webhook, aws, gcp, azure, marketplace_router,
}
use monok8s.Api.Marketplace.Onboarding.{
  Onboards, Offboards, Provisioned, Provisions-aws, Provisions-bind, IsQuiet-lift,
  Provisions-on_gcp_event, Provisions-on_azure_action,
}

-- The certificate is AWS's and the validator accepts the message; or the middleware verified the call.
abbrev pub IsVerified : Marketplaces → Webhook → Trace → Type 0
IsVerified out (aws msg) h =
    (host : Text) × ((out.hostname msg.signing_cert_url ≡ ok host)
      × ((ends_with (lit ".amazonaws.com") host ≡ true)
          × ((out.validate_sns_signature msg h).0 ≡ ok tt)))
IsVerified out (gcp verified message) h = verified ≡ true
IsVerified out (azure verified input) h = verified ≡ true

-- What a webhook's run does to the workflows started: nothing, or one more, for a verified call.
abbrev pub ProvisionedIf : Type 0 → List StartRequest → List StartRequest → Type 0
ProvisionedIf Verified old new =
    (new ≡ old) ⊎ (Verified × ((r : StartRequest) × ((Onboards r ⊎ Offboards r) × (new ≡ r ∷ old))))

verified_if :
    (Verified : Type 0) (old new : List StartRequest)
    → Verified
    → Provisioned old new
    → ProvisionedIf Verified old new
verified_if Verified old new v (inl e) = inl e
verified_if Verified old new v (inr r) = inr (v, r)

module _ (env : Env) (fresh : (h : Trace) → IsUuid (env.on_uuid h)) (out : Marketplaces)
    (quiet : (msg : SnsMessage) → IsQuiet (out.validate_sns_signature msg))
    (q : (token : Text) → IsQuiet (out.resolve_customer token)) where
  validated :
      (V : Type 0) (msg : SnsMessage) (h : Trace) (r : Result (Unit {0}))
      → (r ≡ ok tt → V)
      → ProvisionedIf V (starts h) (
          starts
            (continue (r, (out.validate_sns_signature msg h).1) (λ _. aws_verified env out msg)).1)
  validated V msg h (throw x) v = inl ((quiet msg).at h)
  validated V msg h (ok _) v =
      let (_, h') = out.validate_sns_signature msg h in
      let old : starts h' ≡ starts h = (quiet msg).at h in
      verified_if V (starts h) _ (v refl)
        (rw (sym old) ((Provisions-aws env fresh out q msg).at h'))

  hosted :
      (V : Type 0) (msg : SnsMessage) (h : Trace) (r : Result Text)
      → out.hostname msg.signing_cert_url ≡ r
      → ((host : Text)
          → r ≡ ok host
          → ends_with (lit ".amazonaws.com") host ≡ true
          → (out.validate_sns_signature msg h).0 ≡ ok tt
          → V)
      → ProvisionedIf V (starts h) (starts (aws_webhook env out msg h).1)
  unfolding aws_webhook verify_aws_sns_signature
  hosted V msg h (throw x) e v = rw e (inl refl)
  hosted V msg h (ok host) e v = elim (Bool-cases (ends_with (lit ".amazonaws.com") host)) [
    | inl b ↦ rw (e, b) (validated V msg h _ (v host refl b))
    | inr b ↦ rw (e, b) (inl refl)
  ]

  -- A marketplace's webhook starts at most one workflow, and none unless the call was verified: for AWS,
  -- by a certificate from amazonaws.com and the signature's validator; for GCP and Azure, by the HTTP
  -- middleware. The workflow either onboards a tenant, under an ID that its own members may follow, or
  -- offboards one, under an ID that names no tenant. New identifiers are UUIDs, and AWS's validator and
  -- ResolveCustomer start no workflow.
  pub marketplace_router-provisions :
      (w : Webhook) (h : Trace)
      → ProvisionedIf (IsVerified out w h) (starts h) (starts (marketplace_router env out w h).1)
  unfolding marketplace_router gcp_webhook azure_webhook
  marketplace_router-provisions (aws msg) h =
      hosted _ msg h _ refl (λ host e b v. (host, (e, (b, v))))
  marketplace_router-provisions (gcp true message) h = verified_if _ _ _ refl (
      (Provisions-bind _ _ (IsQuiet-lift (out.parse_data message))
          (Provisions-on_gcp_event env fresh out q)).at
        h)
  marketplace_router-provisions (gcp false message) h = inl refl
  marketplace_router-provisions (azure true input) h =
      verified_if _ _ _ refl ((Provisions-on_azure_action env fresh out q input input.action).at h)
  marketplace_router-provisions (azure false input) h = inl refl
