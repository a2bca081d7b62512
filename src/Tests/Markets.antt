-- ===== src/Tests/Markets.antt =====
-- apps/api: the marketplaces' webhooks and the installations.
use monok8s.Prelude.{◌≡◌, refl, none, some, List, [], ◌∷◌, Text, lit, arith}
use monok8s.Auth.Workflow.Uuid.{IsUuid}
use monok8s.Services.{Param, ok, throw, error, Trace, StartRequest}
use monok8s.Services.Exec.{Exec, pure}
use monok8s.Services.Traces.{starts, IsQuiet-pure}
use monok8s.Auth.Workflow.{parse_tenant_from_workflow_id}
use monok8s.Api.Marketplace.{SnsMessage, Marketplaces, aws, marketplace_router}
use monok8s.Api.Marketplace.Verification.{IsVerified, ProvisionedIf, marketplace_router-provisions}
use monok8s.Api.Installations.{Database, Registered, register, activate, revoke}
use monok8s.Api.Installations.Registration.{RevokedBy, register-activate, revoke-authorised}
use monok8s.Fixtures.{acme, acme-IsUuid, fresh-IsUuid, alice_user, env}

abbrev notification : SnsMessage
notification = record {
  type = lit "Notification";
  message_id = lit "m1";
  message = lit "{…}";
  timestamp = lit "2026-01-01T00:00:00Z";
  signature = lit "sig";
  signing_cert_url = lit "https://sns.eu-west-1.amazonaws.com/cert.pem";
  subscribe_url = none;
}

abbrev out : Marketplaces
out = record {
  hostname = λ url. ok (lit "sns.eu-west-1.amazonaws.com");
  validate_sns_signature = λ msg. pure tt;
  resolve_customer = λ token. pure (some (lit "customer1"));
  parse_message = λ s. ok (record {
    action = lit "subscribe-success";
    customer_identifier = lit "token1";
    product_code = lit "monok8s";
    offer_identifier = some (lit "monok8s-growth");
  });
  parse_data = λ s. throw (error (lit "Unexpected end of JSON input"));
}

marketplace_router-provisions_example :
    ProvisionedIf
      (IsVerified out (aws notification) [])
      []
      (starts (marketplace_router env out (aws notification) []).1)
marketplace_router-provisions_example =
    marketplace_router-provisions env (λ h. fresh-IsUuid) out (λ msg. IsQuiet-pure tt)
      (λ token. IsQuiet-pure (some (lit "customer1"))) (aws notification) []

abbrev db : Database Text
db = record {
  query = λ sql params. pure [];
  query_one = λ sql params. pure none;
  query_tenant = λ sql params. pure (some acme);
  execute = λ sql params. pure tt;
  absent_row = error (lit "Cannot read properties of undefined");
}

abbrev registered : Registered
registered = record {
  installation_id = env.on_uuid [];
  bootstrap_token = env.on_uuid [];
  expires_in = lit "1 hour";
}

abbrev credentials : Text → Exec Text
credentials workflow_id = pure workflow_id

register-activate_example :
    (r : StartRequest) × ((starts (register env db alice_user []).1 ≡ r ∷ [])
      × ((parse_tenant_from_workflow_id r.workflow_id ≡ some acme)
          × (activate env db credentials alice_user (env.on_uuid []) (lit "any")
              ≡ credentials r.workflow_id)))
unfolding register
register-activate_example =
    register-activate env db credentials alice_user alice_user registered (lit "any") []
      (register env db alice_user []).1 acme-IsUuid refl refl

owner-IsUuid :
    (sql : Text) (params : List Param) (h : Trace) (t : Text)
    → (db.query_tenant sql params h).0 ≡ ok (some t)
    → IsUuid t
owner-IsUuid sql params h t e = let same : acme ≡ t = grind arith in rw (← same) acme-IsUuid

revoke-authorised_example :
    RevokedBy env db alice_user (lit "i1") [] (starts (revoke env db alice_user (lit "i1") []).1)
revoke-authorised_example =
    revoke-authorised env db (λ sql params. IsQuiet-pure (some acme)) owner-IsUuid alice_user
      (lit "i1") []
