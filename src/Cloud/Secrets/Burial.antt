-- ===== src/Cloud/Secrets/Burial.antt =====
-- What is lost with a key stays lost, whatever the adapter of packages/cloud-adapters/secrets/baremetal.ts
-- is used for later.
use monok8s.Prelude.{
  ℕ, Bool, true, false, Option, none, some, List, [], ◌∷◌, Text, is_blank, if◌then◌else◌,
}
use monok8s.Services.{Result, ok, throw, Thrown}
use monok8s.Cloud.{Served, return, fail, after, ◌>>=◌}
use monok8s.Cloud.Secrets.{
  VaultConfig, VaultCall, Answer, Method, Body, call, ciphertext_of, plaintext_of, mint_key,
  encrypt, decrypt, rotate_key, delete_key,
}
use monok8s.Cloud.Secrets.Transit.{Holdings, IsTransit}

-- The adapter's operations, with their arguments
pub data Operation : Type 0 where
  minted rotated deleted : Text → Operation
  encrypted : Text → List ℕ → Operation
  decrypted : Text → Text → Operation

module _ {ℓ} {S : Type ℓ} (serve : VaultCall → S → Answer × S) (encode : Text → Text)
    (to_base64 : List ℕ → Text) (from_base64 : Text → List ℕ) (cfg : VaultConfig) where
  abbrev minting : Text → Served S (Unit {0})
  minting = mint_key serve encode to_base64 from_base64 cfg

  abbrev encrypting : Text → List ℕ → Served S Text
  encrypting = encrypt serve encode to_base64 from_base64 cfg

  abbrev decrypting : Text → Text → Served S (List ℕ)
  decrypting = decrypt serve encode to_base64 from_base64 cfg

  abbrev rotating : Text → Served S (Unit {0})
  rotating = rotate_key serve encode to_base64 from_base64 cfg

  abbrev deleting : Text → Served S (Unit {0})
  deleting = delete_key serve encode to_base64 from_base64 cfg

  -- The server's state after the operations, whatever they return or throw.
  abbrev pub state_after : Operation → S → S
  state_after (minted name) s = (minting name s).1
  state_after (rotated name) s = (rotating name s).1
  state_after (deleted name) s = (deleting name s).1
  state_after (encrypted name bytes) s = (encrypting name bytes s).1
  state_after (decrypted name ct) s = (decrypting name ct s).1

  abbrev pub state_after_all : List Operation → S → S
  state_after_all [] s = s
  state_after_all (o ∷ os) s = state_after_all os (state_after o s)

module _ {ℓ} {S : Type ℓ} (serve : VaultCall → S → Answer × S) (encode : Text → Text)
    (to_base64 : List ℕ → Text) (from_base64 : Text → List ℕ) (cfg : VaultConfig)
    (held : Holdings S) (laws : IsTransit serve cfg held) where
  -- A lost ciphertext is lost after it.
  record Buries {κ} {A : Type κ} (m : Served S A) : Type ℓ where
    at : (s : S) (key ct : Text) → held.is_lost s key ct → held.is_lost (m s).1 key ct

  Buries-call :
      (path : Text) (method : Method) (body : Body)
      → Buries (call serve encode to_base64 from_base64 cfg path method body)
  unfolding call
  Buries-call path method body = record {
    at = λ s key ct g. laws.buries s key ct path method body g;
  }

  after-buries {κ λ'} :
      {A : Type κ} {B : Type λ'} (r : Result A) (s : S) (f : A → Served S B) (key ct : Text)
      → ((a : A) → Buries (f a))
      → held.is_lost s key ct
      → held.is_lost (after (r, s) f).1 key ct
  after-buries (ok a) s f key ct q g = (q a).at s key ct g
  after-buries (throw e) s f key ct q g = g

  Buries-bind {κ λ'} :
      {A : Type κ} {B : Type λ'} (m : Served S A) (f : A → Served S B)
      → Buries m
      → ((a : A) → Buries (f a))
      → Buries (m >>= f)
  Buries-bind m f q r = record {
    at = λ s key ct g. let (x, t) = m s in after-buries x t f key ct r (q.at s key ct g);
  }

  Buries-return {κ} : {A : Type κ} (a : A) → Buries (return a)
  Buries-return a = record { at = λ s key ct g. g }

  Buries-fail {κ} : {A : Type κ} (e : Thrown) → Buries {A = A} (fail e)
  Buries-fail e = record { at = λ s key ct g. g }

  Buries-if {κ} :
      {A : Type κ} (b : Bool) (m n : Served S A) → Buries m → Buries n → Buries (if b then m else n)
  Buries-if true m n p q = p
  Buries-if false m n p q = q

  Buries-ciphertext :
      (name : Text) (o : Option Text)
      → Buries (ciphertext_of serve encode to_base64 from_base64 cfg name o)
  Buries-ciphertext name none = Buries-fail _
  Buries-ciphertext name (some ct) = Buries-if (is_blank ct) _ _ (Buries-fail _) (Buries-return ct)

  Buries-plaintext :
      (name : Text) (o : Option Text)
      → Buries (plaintext_of serve encode to_base64 from_base64 cfg name o)
  Buries-plaintext name none = Buries-fail _
  Buries-plaintext name (some pt) = Buries-return _

  Buries-encrypt :
      (name : Text) (bytes : List ℕ)
      → Buries (encrypting serve encode to_base64 from_base64 cfg name bytes)
  unfolding encrypt
  Buries-encrypt name bytes =
      Buries-bind _ _ (Buries-call _ _ _) (λ r. Buries-ciphertext name r.ciphertext)

  Buries-decrypt :
      (name ct : Text) → Buries (decrypting serve encode to_base64 from_base64 cfg name ct)
  unfolding decrypt
  Buries-decrypt name ct =
      Buries-bind _ _ (Buries-call _ _ _) (λ r. Buries-plaintext name r.plaintext)

  Buries-mint : (name : Text) → Buries (minting serve encode to_base64 from_base64 cfg name)
  unfolding mint_key
  Buries-mint name = Buries-bind _ _ (Buries-call _ _ _) (λ _. Buries-return tt)

  Buries-rotate : (name : Text) → Buries (rotating serve encode to_base64 from_base64 cfg name)
  unfolding rotate_key
  Buries-rotate name = Buries-bind _ _ (Buries-call _ _ _) (λ _. Buries-return tt)

  Buries-delete : (name : Text) → Buries (deleting serve encode to_base64 from_base64 cfg name)
  unfolding delete_key
  Buries-delete name =
      Buries-bind _ _ (Buries-bind _ _ (Buries-call _ _ _) (λ _. Buries-call _ _ _))
        (λ _. Buries-return tt)

  is_lost-state_after :
      (o : Operation) (s : S) (key ct : Text)
      → held.is_lost s key ct
      → held.is_lost (state_after serve encode to_base64 from_base64 cfg o s) key ct
  is_lost-state_after (minted name) = (Buries-mint name).at
  is_lost-state_after (rotated name) = (Buries-rotate name).at
  is_lost-state_after (deleted name) = (Buries-delete name).at
  is_lost-state_after (encrypted name bytes) = (Buries-encrypt name bytes).at
  is_lost-state_after (decrypted name ct) = (Buries-decrypt name ct).at

  pub is_lost-state_after_all :
      (os : List Operation) (s : S) (key ct : Text)
      → held.is_lost s key ct
      → held.is_lost (state_after_all serve encode to_base64 from_base64 cfg os s) key ct
  is_lost-state_after_all [] s key ct g = g
  is_lost-state_after_all (o ∷ os) s key ct g =
      is_lost-state_after_all os (state_after serve encode to_base64 from_base64 cfg o s) key ct
        (is_lost-state_after o s key ct g)
