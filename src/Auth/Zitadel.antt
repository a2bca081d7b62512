-- ===== src/Auth/Zitadel.antt =====
-- packages/auth/src/zitadel.ts: the verified user. `verify_token` starts where `jwtVerify` (jose) has
-- returned a payload; a claim is absent, a string, an array, or another value.
use monok8s.Prelude.{
  Bool, false, ◌||◌, Option, none, some, List, [], ◌∷◌, Text, lit, ◌==◌, any, is_blank,
  if◌then◌else◌,
}
use monok8s.Services.{error, Result, ok, throw}

pub record VerifiedUser : Type 0 where
  pub user_id : Text
  pub zitadel_id : Text
  pub tenant_id : Text
  pub email : Text
  pub amr : Option (List Text)
  pub acr : Option Text

-- MFA_AMR_VALUES
abbrev pub is_strong : Text → Bool
is_strong m =
    m == lit "mfa" || (m == lit "otp" || (m == lit "totp" || (m == lit "hwk" || m == lit "fido")))

abbrev pub has_mfa : VerifiedUser → Bool
has_mfa u = elim u.amr [ none ↦ false | some amr ↦ any is_strong amr ]

-- An element of an array claim, and a claim.
pub data Element : Type 0 where
  text : Text → Element
  no_text : Element

pub data Claim : Type 0 where
  absent : Claim
  string : Text → Claim
  array : List Element → Claim
  other_value : Claim

pub record Payload : Type 0 where
  pub user_id : Text
  pub sub : Text
  pub tenant_id : Text
  pub email : Text
  pub amr : Claim
  pub acr : Claim

-- `rawAmr.every((v) => typeof v === "string")`
abbrev pub strings : List Element → Option (List Text)
strings [] = some []
strings (text t ∷ es) = let rest = strings es in elim rest [ none ↦ none | some ts ↦ some (t ∷ ts) ]
strings (no_text ∷ es) = none

abbrev pub amr_of : Claim → Option (List Text)
amr_of (array es) = strings es
amr_of _ = none

abbrev pub acr_of : Claim → Option Text
acr_of (string t) = some t
acr_of _ = none

-- The two custom claims are read `as string`, an absent one as the empty text, which is refused too.
unfoldable pub verify_token : Payload → Result VerifiedUser
verify_token p =
    if is_blank p.user_id || is_blank p.tenant_id
    then throw (error (lit "Missing monok8s claims in JWT — check Zitadel action config"))
    else ok (record {
      user_id = p.user_id;
      zitadel_id = p.sub;
      tenant_id = p.tenant_id;
      email = p.email;
      amr = amr_of p.amr;
      acr = acr_of p.acr;
    })
