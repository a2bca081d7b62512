-- ===== src/Cloud/Secrets/Transit.antt =====
-- What Vault's documentation promises of the Transit engine.
use monok8s.Prelude.{
  ◌≡◌, refl, Bool, true, false, not, ◌&&◌, Option, none, some, ◌++◌, Text, lit, arith, is_blank,
  nat_eq, if◌then◌else◌,
}
use monok8s.Services.{ok, throw}
use monok8s.Cloud.{is_throw}
use monok8s.Cloud.Secrets.{
  VaultConfig, VaultCall, VaultResponse, no_data, Answer, rejected, answered, Method, post, delete,
  Body, no_body, no_fields, key_type, plaintext, ciphertext, deletion_allowed, is_ok, judged,
  request,
}

-- A success, with its `data`
abbrev pub grants : Answer → Option VaultResponse
grants (rejected e) = none
grants (answered status text (throw e)) =
    if is_ok status && nat_eq status 204 then some no_data else none
grants (answered status text (ok r)) =
    if is_ok status then some (if nat_eq status 204 then no_data else r) else none

-- A status that is none of success, with a body that can be read
abbrev pub refuses : Answer → Bool
refuses (rejected e) = false
refuses (answered status text json) = not (is_ok status)

pub judged-grants :
    (m : Method) (path : Text) (a : Answer) (r : VaultResponse)
    → grants a ≡ some r
    → judged m path a ≡ ok r
unfolding judged
judged-grants m path (rejected e) r g = ground arith
judged-grants m path (answered status text (throw e)) r g = ground arith
judged-grants m path (answered status text (ok d)) r g = ground arith

pub judged-refuses :
    (m : Method) (path : Text) (a : Answer) → refuses a ≡ true → is_throw (judged m path a) ≡ true
unfolding judged
judged-refuses m path (rejected e) g = refl
judged-refuses m path (answered status text json) g = ground arith

-- What a server in a state holds of the keys, named as in the paths: that a key is there, that it may be
-- deleted, the plaintext, in base64, that a ciphertext of the key has, and that a ciphertext was made with
-- a key that has been deleted since.
pub record Holdings {ℓ} (S : Type ℓ) : Type (ℓ ⊔ 1) where
  pub has_key : S → Text → Type 0
  pub may_delete : S → Text → Type 0
  pub reads : S → Text → Text → Text → Type 0
  pub is_lost : S → Text → Text → Type 0

-- An answer to an encryption: a ciphertext that is not empty, and has the plaintext.
pub record Encrypted {ℓ} {S : Type ℓ} (held : Holdings S) (key pt : Text) (a : Answer) (s : S)
    : Type 0 where
  pub ct : Text
  pub granted : grants a ≡ some (record { ciphertext = some ct; plaintext = none })
  pub filled : is_blank ct ≡ false
  pub has_key : held.has_key s key
  pub readable : held.reads s key ct pt

-- An answer that is a success, and what then holds.
pub record Granted {ℓ} {S : Type ℓ} (after_it : S → Type 0) (a : Answer) (s : S) : Type 0 where
  pub response : VaultResponse
  pub granted : grants a ≡ some response
  pub holds : after_it s

module _ {ℓ} {S : Type ℓ} (serve : VaultCall → S → Answer × S) (cfg : VaultConfig)
    (held : Holdings S) where
  abbrev pub asks : Text → Method → Body → S → Answer × S
  asks path method body s = serve (request cfg path method body) s

  -- The engine's documented behaviour, for names as they stand in paths.
  pub record IsTransit : Type ℓ where
    pub mints :
        (s : S) (key : Text)
        → let (a, s') = asks (lit "keys/" ++ key) post (key_type (lit "aes256-gcm96")) s in
          Granted (λ t. held.has_key t key) a s'
    pub encrypts :
        (s : S) (key pt : Text)
        → held.has_key s key
        → let (a, s') = asks (lit "encrypt/" ++ key) post (plaintext pt) s in
          Encrypted held key pt a s'
    pub decrypts :
        (s : S) (key ct pt : Text)
        → held.reads s key ct pt
        → let (a, s') = asks (lit "decrypt/" ++ key) post (ciphertext ct) s in
          (grants a ≡ some (record { ciphertext = none; plaintext = some pt }))
          × held.has_key s' key
          × held.reads s' key ct pt
    pub rotates :
        (s : S) (key : Text)
        → held.has_key s key
        → let (a, s') = asks ((lit "keys/" ++ key) ++ lit "/rotate") post no_fields s in
          Granted (λ t. held.has_key t key) a s'
          × ((ct pt : Text) → held.reads s key ct pt → held.reads s' key ct pt)
    pub configures :
        (s : S) (key : Text)
        → held.has_key s key
        → let (a, s') =
            asks ((lit "keys/" ++ key) ++ lit "/config") post (deletion_allowed true) s in
          Granted (λ t. held.may_delete t key) a s'
          × ((ct pt : Text) → held.reads s key ct pt → held.reads s' key ct pt)
    pub deletes :
        (s : S) (key : Text)
        → held.may_delete s key
        → let (a, s') = asks (lit "keys/" ++ key) delete no_body s in
          Granted (λ t. (ct pt : Text) → held.reads s key ct pt → held.is_lost t key ct) a s'
    -- A deletion is for good: no later call brings the key's material back, not even one that makes a key
    -- of the same name.
    pub buries :
        (s : S) (key ct path : Text) (method : Method) (body : Body)
        → held.is_lost s key ct
        → held.is_lost (asks path method body s).1 key ct
    pub forgets :
        (s : S) (key ct : Text)
        → held.is_lost s key ct
        → refuses (asks (lit "decrypt/" ++ key) post (ciphertext ct) s).0 ≡ true
