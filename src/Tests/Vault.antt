-- ===== src/Tests/Vault.antt =====
-- A server with one key, which behaves as the Transit engine is documented to do.
use monok8s.Prelude.{
  ◌≡◌, refl, ℕ, suc, Bool, true, false, none, some, [], ◌∷◌, Text, lit, nat_eq, ltb, if◌then◌else◌,
  arith,
}
use monok8s.Services.{ok, throw, Thrown, error}
use monok8s.Cloud.Secrets.{
  VaultConfig, VaultCall, VaultResponse, no_data, Answer, answered, Body, no_body, no_fields,
  key_type, plaintext, ciphertext, deletion_allowed,
}
use monok8s.Cloud.Secrets.Transit.{Holdings, IsTransit, Encrypted, Granted, grants, refuses}
use monok8s.Cloud.Secrets.Shredding.{Shreds, lifetime-Shreds}

-- The key's generation: how many keys of its name were deleted before.
data Key : Type 0 where
  gone held : ℕ → Key

abbrev generation : Key → ℕ
generation (gone g) = g
generation (held g) = g

abbrev is_held : Key → Bool
is_held (gone g) = false
is_held (held g) = true

abbrev no_json : Thrown
no_json = error (lit "Unexpected end of JSON input")

abbrev done : Answer
done = answered 204 (ok []) (throw no_json)

abbrev refusal : Answer
refusal = answered 400 (ok (lit "encryption key not found")) (throw no_json)

abbrev found : VaultResponse → Answer
found r = answered 200 (ok []) (ok r)

-- A ciphertext is its key's generation and the plaintext.
abbrev opened : Text → ℕ → Answer
opened [] g = refusal
opened (c ∷ pt) g =
    if nat_eq c g then found (record { ciphertext = none; plaintext = some pt }) else refusal

-- It is of a generation before this one.
abbrev is_older : Text → ℕ → Bool
is_older [] g = false
is_older (c ∷ pt) g = ltb c g

abbrev reply : Body → Key → Answer × Key
reply no_body (gone g) = (done, gone g)
reply no_body (held g) = (done, gone (suc g))
reply no_fields k = (done, k)
reply (key_type t) k = (done, held (generation k))
reply (deletion_allowed b) k = (done, k)
reply (plaintext pt) (gone g) = (refusal, gone g)
reply (plaintext pt) (held g) =
    (found (record { ciphertext = some (g ∷ pt); plaintext = none }), held g)
reply (ciphertext ct) (gone g) = (refusal, gone g)
reply (ciphertext ct) (held g) = (opened ct g, held g)

abbrev serve : VaultCall → Key → Answer × Key
serve c k = reply c.body k

abbrev holdings : Holdings Key
holdings = record {
  has_key = λ k name. is_held k ≡ true;
  may_delete = λ k name. is_held k ≡ true;
  reads = λ k name ct pt. (is_held k ≡ true) × (ct ≡ generation k ∷ pt);
  is_lost = λ k name ct. is_older ct (generation k) ≡ true;
}

abbrev config : VaultConfig
config = record { endpoint = lit "https://vault:8200"; token = lit "s.1"; mount = lit "transit" }

is_older-suc : (ct : Text) (g : ℕ) → is_older ct g ≡ true → is_older ct (suc g) ≡ true
is_older-suc [] g e = absurd (ground arith)
is_older-suc (c ∷ pt) g e = ground arith

opened-older : (ct : Text) (g : ℕ) → is_older ct g ≡ true → refuses (opened ct g) ≡ true
opened-older [] g e = refl
opened-older (c ∷ pt) g e = ground arith

reply-older :
    (body : Body) (k : Key) (ct : Text)
    → is_older ct (generation k) ≡ true
    → is_older ct (generation (reply body k).1) ≡ true
reply-older no_body (gone g) ct e = e
reply-older no_body (held g) ct e = is_older-suc ct g e
reply-older no_fields k ct e = e
reply-older (key_type t) k ct e = e
reply-older (deletion_allowed b) k ct e = e
reply-older (plaintext pt) (gone g) ct e = e
reply-older (plaintext pt) (held g) ct e = e
reply-older (ciphertext c) (gone g) ct e = e
reply-older (ciphertext c) (held g) ct e = e

reply-forgets :
    (k : Key) (ct : Text)
    → is_older ct (generation k) ≡ true
    → refuses (reply (ciphertext ct) k).0 ≡ true
reply-forgets (gone g) ct e = refl
reply-forgets (held g) ct e = opened-older ct g e

reply-encrypts :
    (k : Key) (key pt : Text)
    → is_held k ≡ true
    → Encrypted holdings key pt (reply (plaintext pt) k).0 (reply (plaintext pt) k).1
reply-encrypts (gone g) key pt h = absurd (ground arith)
reply-encrypts (held g) key pt h = record {
  ct = g ∷ pt;
  granted = refl;
  filled = refl;
  has_key = refl;
  readable = (refl, refl);
}

reply-decrypts :
    (k : Key) (ct pt : Text)
    → (is_held k ≡ true) × (ct ≡ generation k ∷ pt)
    → (grants (reply (ciphertext ct) k).0
        ≡ some (record { ciphertext = none; plaintext = some pt }))
      × ((reply (ciphertext ct) k).1 ≡ k)
reply-decrypts (gone g) ct pt h = absurd (ground arith)
reply-decrypts (held g) ct pt h =
    let same : nat_eq g g ≡ true = ground arith in rw (h.1, same) (refl, refl)

reply-deletes :
    (k : Key) (key : Text)
    → is_held k ≡ true
    → Granted
        (λ t. (ct pt : Text) → holdings.reads k key ct pt → holdings.is_lost t key ct)
        (reply no_body k).0
        (reply no_body k).1
reply-deletes (gone g) key h = absurd (ground arith)
reply-deletes (held g) key h = record {
  response = no_data;
  granted = refl;
  holds = λ ct pt r. rw (r.1) (ground arith);
}

serve-IsTransit : IsTransit serve config holdings
serve-IsTransit = record {
  mints = λ s key. record { response = no_data; granted = refl; holds = refl };
  encrypts = λ s key pt h. reply-encrypts s key pt h;
  decrypts = λ s key ct pt h. let (a, b) = reply-decrypts s ct pt h in (a, rw b (h.0), rw b h);
  rotates = λ s key h. (record { response = no_data; granted = refl; holds = h }, λ ct pt r. r);
  configures = λ s key h. (record { response = no_data; granted = refl; holds = h }, λ ct pt r. r);
  deletes = λ s key h. reply-deletes s key h;
  buries = λ s key ct path method body g. reply-older body s ct g;
  forgets = λ s key ct g. reply-forgets s ct g;
}

lifetime-Shreds_example :
    Shreds serve
      (λ t. t)
      (λ bytes. bytes)
      (λ t. t)
      config
      holdings
      serve-IsTransit
      2
      (lit "acme")
      (1 ∷ 2 ∷ [])
      (gone 0)
lifetime-Shreds_example =
    lifetime-Shreds serve (λ t. t) (λ bytes. bytes) (λ t. t) config holdings serve-IsTransit 2
      (lit "acme") (1 ∷ 2 ∷ []) (gone 0) refl
