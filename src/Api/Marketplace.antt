-- ===== src/Api/Marketplace.antt =====
-- apps/api/src/routers/marketplace.ts: the webhooks of the cloud marketplaces. JSON.parse (of the base64
-- text, for GCP), `new URL(…).hostname`, the signature validator (lib/aws-sns-validator, which is not
-- in the repository) and AWS's ResolveCustomer are arguments. `meteringStatus` is not modelled: it
-- calls a function that packages/auth does not have.
pub mod Messages
pub mod Onboarding
pub mod Verification
use monok8s.Prelude.{
  Bool, true, false, not, ◌||◌, Option, none, some, List, [], ◌∷◌, ◌++◌, String, Text, lit, ◌==◌,
  is_blank, or_else, starts_with, if◌then◌else◌, ℕ,
}
use monok8s.Services.{
  Env, Param, text, number, Result, ok, throw, trpc_error, unauthorized, bad_request, signal, fetch,
  HttpRequest,
}
use monok8s.Services.Exec.{Exec, pure, raise, perform, ◌>>=◌, ◌>>◌}
use monok8s.Api.Workflows.{new_id, start_workflow, onboarding}
pub use monok8s.Api.Marketplace.Messages.{
  PlanTier, starter, growth, enterprise, plan_name, includes, ends_with, plan_from_marketplace_sku,
  SnsMessage, AwsMessage, GcpPayload, AzureAction, subscribe, unsubscribe, change_plan,
  change_quantity, suspend, reinstate, transfer, AzureInput, Reply, acknowledged, lift,
  Marketplaces, Webhook, aws, gcp, azure,
}

-- A field that is undefined is left out of the JSON.
abbrev pub optional_field : String → Option Param → List (String × Param)
optional_field key none = []
optional_field key (some v) = (key, v) ∷ []

abbrev pub as_text : Option Text → Option Param
as_text none = none
as_text (some t) = some (text t)

abbrev pub as_number : Option ℕ → Option Param
as_number none = none
as_number (some n) = some (number n)

module _ (env : Env) where
  abbrev pub send_signal : Text → String → List (String × Param) → Exec Reply
  send_signal workflow_id name payload =
      perform (λ h. env.on_signal h workflow_id name payload) (signal workflow_id name payload)
      >> acknowledged

  -- OnboardTenantWorkflow for a tenant minted here, under `tnt-<tenantId>-marketplace-<cloud>-<key>`.
  abbrev pub onboard : Text → Text → List (String × Text) → (Text → Reply) → Exec Reply
  onboard prefix key args reply = do
    tenant_id ← new_id env
    start_workflow env (
        onboarding "OnboardTenantWorkflow"
          (lit "tnt-" ++ (tenant_id ++ (lit "-marketplace-" ++ (prefix ++ key))))
          (("tenantId", tenant_id) ∷ args))
    pure (reply tenant_id)

  abbrev pub offboard : Text → Text → List (String × Text) → Exec Reply
  offboard prefix key args =
      start_workflow env (
        onboarding "OffboardTenantWorkflow"
          (lit "marketplace-" ++ (prefix ++ (lit "-offboard-" ++ key))) args)
      >> acknowledged

  module _ (out : Marketplaces) where
    -- ── AWS
    unfoldable pub verify_aws_sns_signature : SnsMessage → Exec (Unit {0})
    verify_aws_sns_signature msg = do
      host ← lift (out.hostname msg.signing_cert_url)
      (if ends_with (lit ".amazonaws.com") host
          then out.validate_sns_signature msg
          else raise (trpc_error unauthorized (lit "SNS cert URL not from amazonaws.com")))

    abbrev pub resolved : Option Text → Exec Text
    resolved none = raise (trpc_error bad_request (lit "AWS marketplace token resolution failed"))
    resolved (some id) =
        if is_blank id
        then raise (trpc_error bad_request (lit "AWS marketplace token resolution failed"))
        else pure id

    unfoldable pub resolve_aws_marketplace_customer : Text → Exec Text
    resolve_aws_marketplace_customer token = out.resolve_customer token >>= resolved

    abbrev pub subscribed : AwsMessage → Text → Exec Reply
    subscribed msg customer_id =
        onboard (lit "aws-") customer_id
          (("source", lit "aws_marketplace")
            ∷ ("marketplaceCustomerId", customer_id)
            ∷ ("marketplaceProductCode", msg.product_code)
            ∷ ("plan", plan_name (plan_from_marketplace_sku (or_else msg.offer_identifier [])))
            ∷ [])
          (λ tenant_id. record { tenant_id = some tenant_id })

    abbrev pub on_aws_action : AwsMessage → Exec Reply
    on_aws_action msg =
        if msg.action == lit "subscribe-success"
        then resolve_aws_marketplace_customer msg.customer_identifier >>= subscribed msg
        else if msg.action == lit "unsubscribe-pending"
        then offboard (lit "aws") msg.customer_identifier (
            ("marketplaceSource", lit "aws")
            ∷ ("marketplaceCustomerId", msg.customer_identifier)
            ∷ ("reason", lit "marketplace_cancellation")
            ∷ [])
        else if msg.action == lit "entitlement-updated"
        then send_signal (lit "billing-" ++ msg.customer_identifier) "entitlementChanged"
            (optional_field "sku" (as_text msg.offer_identifier))
        else acknowledged

    -- `confirmSnsSubscription` is a GET of the URL.
    abbrev pub confirm_sns_subscription : Text → Exec (Unit {0})
    confirm_sns_subscription url =
        let req : HttpRequest = record { url = url; method = "GET"; body = [] } in
        perform (λ h. env.on_fetch h req) (fetch req)

    abbrev pub confirm : Option Text → Exec Reply
    confirm url =
        if is_blank (or_else url [])
        then raise (trpc_error bad_request (lit "missing SubscribeURL"))
        else confirm_sns_subscription (or_else url []) >> acknowledged

    -- The rest of the handler, once the signature is verified.
    abbrev pub aws_verified : SnsMessage → Exec Reply
    aws_verified input =
        if input.type == lit "SubscriptionConfirmation"
        then confirm input.subscribe_url
        else if not (input.type == lit "Notification")
        then acknowledged
        else lift (out.parse_message input.message) >>= on_aws_action

    unfoldable pub aws_webhook : SnsMessage → Exec Reply
    aws_webhook input = verify_aws_sns_signature input >> aws_verified input

    -- ── GCP
    abbrev pub on_gcp_event : GcpPayload → Exec Reply
    on_gcp_event p =
        if p.event_type == lit "ENTITLEMENT_CREATION_REQUESTED"
        then onboard (lit "gcp-") p.entitlement_id
            (("source", lit "gcp_marketplace")
              ∷ ("marketplaceEntitlementId", p.entitlement_id)
              ∷ ("marketplaceAccountId", p.account)
              ∷ ("plan", plan_name (plan_from_marketplace_sku p.plan))
              ∷ [])
            (λ tenant_id. record { tenant_id = none })
        else if p.event_type == lit "ENTITLEMENT_CANCELLED"
            || p.event_type == lit "ENTITLEMENT_DELETED"
        then offboard (lit "gcp") p.entitlement_id (
            ("marketplaceSource", lit "gcp")
            ∷ ("marketplaceEntitlementId", p.entitlement_id)
            ∷ ("reason", lit "marketplace_cancellation")
            ∷ [])
        else if p.event_type == lit "ENTITLEMENT_PLAN_CHANGED"
        then send_signal (lit "billing-gcp-" ++ p.account) "entitlementChanged"
            (("plan", text p.plan) ∷ [])
        else acknowledged

    -- The first argument is `ctx.gcpMarketplaceTokenVerified`.
    unfoldable pub gcp_webhook : Bool → Text → Exec Reply
    gcp_webhook verified message =
        if not verified
        then raise (trpc_error unauthorized (lit "invalid GCP marketplace token"))
        else lift (out.parse_data message) >>= on_gcp_event

    -- ── Azure
    abbrev pub offboard_azure : AzureInput → Text → Exec Reply
    offboard_azure input reason = offboard (lit "azure") input.subscription_id (
        ("marketplaceSource", lit "azure")
        ∷ ("marketplaceSubscriptionId", input.subscription_id)
        ∷ ("marketplaceOperationId", input.id)
        ∷ ("reason", reason)
        ∷ [])

    abbrev pub change_entitlement : AzureInput → Exec Reply
    change_entitlement input =
        send_signal (lit "billing-azure-" ++ input.subscription_id) "entitlementChanged" (
          ("planId", text input.plan_id)
          ∷ (optional_field "quantity" (as_number input.quantity)
              ++ (("operationId", text input.id) ∷ [])))

    abbrev pub on_azure_action : AzureInput → AzureAction → Exec Reply
    on_azure_action input subscribe =
        onboard (lit "azure-") input.subscription_id
          (("source", lit "azure_marketplace")
            ∷ ("marketplaceSubscriptionId", input.subscription_id)
            ∷ ("marketplaceOperationId", input.id)
            ∷ ("plan", plan_name (plan_from_marketplace_sku input.plan_id))
            ∷ [])
          (λ tenant_id. record { tenant_id = none })
    on_azure_action input unsubscribe = offboard_azure input (lit "marketplace_cancellation")
    on_azure_action input suspend = offboard_azure input (lit "marketplace_suspend")
    on_azure_action input reinstate =
        send_signal (lit "marketplace-azure-" ++ input.subscription_id) "reinstated"
          (("operationId", text input.id) ∷ [])
    on_azure_action input change_plan = change_entitlement input
    on_azure_action input change_quantity = change_entitlement input
    on_azure_action input transfer = acknowledged

    -- The first argument is `ctx.azureMarketplaceSignatureVerified`.
    unfoldable pub azure_webhook : Bool → AzureInput → Exec Reply
    azure_webhook verified input =
        if not verified
        then raise (trpc_error unauthorized (lit "invalid Azure marketplace signature"))
        else on_azure_action input input.action

    -- A call of one of the router's webhooks: its input, with what the HTTP middleware verified.
    unfoldable pub marketplace_router : Webhook → Exec Reply
    marketplace_router (aws msg) = aws_webhook msg
    marketplace_router (gcp verified message) = gcp_webhook verified message
    marketplace_router (azure verified input) = azure_webhook verified input
