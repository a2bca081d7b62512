-- ===== src/Api/Marketplace/Messages.antt =====
-- apps/api/src/routers/marketplace.ts: the messages of the cloud marketplaces, their plans, and what
-- the webhooks call that is not in the repository.
use monok8s.Prelude.{
  ℕ, Bool, ◌||◌, Option, none, [], ◌∷◌, Text, lit, ◌==◌, is_blank, starts_with, if◌then◌else◌,
}
use monok8s.Services.{Result, ok, throw}
use monok8s.Services.Exec.{Exec, pure, raise}

pub data PlanTier : Type 0 where
  starter growth enterprise : PlanTier

abbrev pub plan_name : PlanTier → Text
plan_name starter = lit "starter"
plan_name growth = lit "growth"
plan_name enterprise = lit "enterprise"

-- `s.includes(word)` and `s.endsWith(word)`
abbrev pub includes : Text → Text → Bool
includes word [] = is_blank word
includes word (c ∷ s) = starts_with word (c ∷ s) || includes word s

abbrev pub ends_with : Text → Text → Bool
ends_with word [] = is_blank word
ends_with word (c ∷ s) = (c ∷ s) == word || ends_with word s

unfoldable pub plan_from_marketplace_sku : Text → PlanTier
plan_from_marketplace_sku sku =
    if includes (lit "enterprise") sku
    then enterprise
    else if includes (lit "growth") sku
    then growth
    else starter

-- awsSubscribeInput
pub record SnsMessage : Type 0 where
  pub type : Text
  pub message_id : Text
  pub message : Text
  pub timestamp : Text
  pub signature : Text
  pub signing_cert_url : Text
  pub subscribe_url : Option Text

-- The JSON of `Message`.
pub record AwsMessage : Type 0 where
  pub action : Text
  pub customer_identifier : Text
  pub product_code : Text
  pub offer_identifier : Option Text

-- The JSON of GCP's `data`, and its entitlement's fields that are read.
pub record GcpPayload : Type 0 where
  pub event_type : Text
  pub entitlement_id : Text
  pub account : Text
  pub plan : Text

pub data AzureAction : Type 0 where
  subscribe unsubscribe change_plan change_quantity suspend reinstate transfer : AzureAction

-- The input of azureWebhook, as far as it is read.
pub record AzureInput : Type 0 where
  pub id : Text
  pub plan_id : Text
  pub quantity : Option ℕ
  pub subscription_id : Text
  pub action : AzureAction

-- `{ ok: true, tenantId? }`
pub record Reply : Type 0 where
  pub tenant_id : Option Text

abbrev pub acknowledged : Exec Reply
acknowledged = pure (record { tenant_id = none })

abbrev pub lift {ℓ} : {A : Type ℓ} → Result A → Exec A
lift (ok a) = pure a
lift (throw e) = raise e

-- What the webhooks call that is not the repository's.
pub record Marketplaces : Type 0 where
  pub hostname : Text → Result Text
  pub validate_sns_signature : SnsMessage → Exec (Unit {0})
  -- ResolveCustomer's CustomerIdentifier, which may be absent.
  pub resolve_customer : Text → Exec (Option Text)
  pub parse_message : Text → Result AwsMessage
  pub parse_data : Text → Result GcpPayload

pub data Webhook : Type 0 where
  aws : SnsMessage → Webhook
  gcp : Bool → Text → Webhook
  azure : Bool → AzureInput → Webhook
