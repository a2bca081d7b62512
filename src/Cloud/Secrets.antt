-- ===== src/Cloud/Secrets.antt =====
-- packages/cloud-adapters/secrets/baremetal.ts: the adapter for Vault's Transit engine. The server, and
-- `encodeURIComponent`, base64 and the reading of bodies are arguments.
pub mod Transit
pub mod Shredding
pub mod Burial
use monok8s.Prelude.{
  ℕ, Bool, true, false, not, ◌&&◌, Option, none, some, List, [], ◌∷◌, ◌++◌, Text, lit, leb, nat_eq,
  is_blank, if◌then◌else◌,
}
use monok8s.Services.{Result, ok, throw, Thrown, error}
use monok8s.Db.Ask.{decimal}
use monok8s.Cloud.{Served, return, fail, after, ◌>>=◌}

pub record VaultConfig : Type 0 where
  pub endpoint : Text
  pub token : Text
  pub mount : Text

pub data Method : Type 0 where
  post delete : Method

-- The bodies that are sent; `no_body` is none, and `no_fields` is `{}`.
pub data Body : Type 0 where
  no_body no_fields : Body
  key_type plaintext ciphertext : Text → Body
  deletion_allowed : Bool → Body

-- A `fetch`, its header `X-Vault-Token` as `token`.
pub record VaultCall : Type 0 where
  pub url : Text
  pub method : Method
  pub token : Text
  pub body : Body

-- VaultResponse; without `data` both fields are absent.
pub record VaultResponse : Type 0 where
  pub ciphertext : Option Text
  pub plaintext : Option Text

abbrev pub no_data : VaultResponse
no_data = record { ciphertext = none; plaintext = none }

-- `fetch` rejects, or there is a status, and what `text()` and `json()` give.
pub data Answer : Type 0 where
  rejected : Thrown → Answer
  answered : ℕ → Result Text → Result VaultResponse → Answer

abbrev pub is_ok : ℕ → Bool
is_ok status = leb 200 status && leb status 299

abbrev pub method_name : Method → Text
method_name post = lit "POST"
method_name delete = lit "DELETE"

abbrev pub or_throw : Result Text → (Text → Thrown) → Thrown
or_throw (ok raw) f = f raw
or_throw (throw e) f = e

-- What `call` makes of an answer.
unfoldable pub judged : Method → Text → Answer → Result VaultResponse
judged method path (rejected e) = throw e
judged method path (answered status text json) =
    if not (is_ok status)
    then throw (
        or_throw text (λ raw. error (
          lit "vault transit "
          ++ (method_name method
              ++ (lit " " ++ (path ++ (lit " → " ++ (decimal status ++ (lit ": " ++ raw)))))))))
    else if nat_eq status 204
    then ok no_data
    else json

abbrev pub request : VaultConfig → Text → Method → Body → VaultCall
request cfg path method body = record {
  url = cfg.endpoint ++ (lit "/v1/" ++ (cfg.mount ++ (lit "/" ++ path)));
  method = method;
  token = cfg.token;
  body = body;
}

abbrev pub key_path : (Text → Text) → Text → Text
key_path encode name = lit "keys/" ++ encode name

module _ {ℓ} {S : Type ℓ} (serve : VaultCall → S → Answer × S) (encode : Text → Text)
    (to_base64 : List ℕ → Text) (from_base64 : Text → List ℕ) (cfg : VaultConfig) where
  unfoldable pub call : Text → Method → Body → Served S VaultResponse
  call path method body s =
      let (a, s1) = serve (request cfg path method body) s in (judged method path a, s1)

  unfoldable pub mint_key : Text → Served S (Unit {0})
  mint_key name =
      call (key_path encode name) post (key_type (lit "aes256-gcm96")) >>= λ _. return tt

  -- An empty ciphertext is a missing one.
  abbrev pub ciphertext_of : Text → Option Text → Served S Text
  ciphertext_of name none =
      fail (error (lit "vault transit encrypt " ++ (name ++ lit ": missing ciphertext")))
  ciphertext_of name (some ct) =
      if is_blank ct
      then fail (error (lit "vault transit encrypt " ++ (name ++ lit ": missing ciphertext")))
      else return ct

  unfoldable pub encrypt : Text → List ℕ → Served S Text
  encrypt name bytes =
      call (lit "encrypt/" ++ encode name) post (plaintext (to_base64 bytes)) >>= λ r.
      ciphertext_of name r.ciphertext

  abbrev pub plaintext_of : Text → Option Text → Served S (List ℕ)
  plaintext_of name none =
      fail (error (lit "vault transit decrypt " ++ (name ++ lit ": missing plaintext")))
  plaintext_of name (some pt) = return (from_base64 pt)

  unfoldable pub decrypt : Text → Text → Served S (List ℕ)
  decrypt name ct = call (lit "decrypt/" ++ encode name) post (ciphertext ct) >>= λ r.
      plaintext_of name r.plaintext

  unfoldable pub rotate_key : Text → Served S (Unit {0})
  rotate_key name = call (key_path encode name ++ lit "/rotate") post no_fields >>= λ _. return tt

  unfoldable pub delete_key : Text → Served S (Unit {0})
  delete_key name =
      call (key_path encode name ++ lit "/config") post (deletion_allowed true)
      >>= (λ _. call (key_path encode name) delete no_body)
      >>= λ _. return tt
