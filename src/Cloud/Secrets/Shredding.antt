-- ===== src/Cloud/Secrets/Shredding.antt =====
-- What the adapter makes of a server that behaves as Vault's documentation promises.
use monok8s.Prelude.{◌≡◌, refl, ℕ, zero, suc, true, List, ◌++◌, Text, lit}
use monok8s.Services.{Result, ok}
use monok8s.Cloud.{is_throw, after-throw, Served, return, ◌>>=◌}
use monok8s.Cloud.Secrets.{
  VaultConfig, VaultCall, Answer, post, delete, no_body, no_fields, key_type, plaintext, ciphertext,
  deletion_allowed, judged, request, call, key_path, mint_key, encrypt, plaintext_of, decrypt,
  rotate_key, delete_key,
}
use monok8s.Cloud.Secrets.Burial.{Operation, state_after_all, is_lost-state_after_all}
use monok8s.Cloud.Secrets.Transit.{judged-grants, judged-refuses, Holdings, IsTransit}

module _ {ℓ} {S : Type ℓ} (serve : VaultCall → S → Answer × S) (encode : Text → Text)
    (to_base64 : List ℕ → Text) (from_base64 : Text → List ℕ) (cfg : VaultConfig)
    (held : Holdings S) (laws : IsTransit serve cfg held) where
  abbrev minting : Text → Served S (Unit {0})
  minting = mint_key serve encode to_base64 from_base64 cfg

  abbrev encrypting : Text → List ℕ → Served S Text
  encrypting = encrypt serve encode to_base64 from_base64 cfg

  abbrev decrypting : Text → Text → Served S (List ℕ)
  decrypting = decrypt serve encode to_base64 from_base64 cfg

  abbrev rotating : Text → Served S (Unit {0})
  rotating = rotate_key serve encode to_base64 from_base64 cfg

  abbrev deleting : Text → Served S (Unit {0})
  deleting = delete_key serve encode to_base64 from_base64 cfg

  -- The operation returns, and then `holds`.
  record Done {κ} {A : Type κ} (m : Result A × S) (a : A) (after_it : S → Type 0)
      : Type (ℓ ⊔ κ) where
    state : S
    run : m ≡ (ok a, state)
    holds : after_it state

  mint_key-Done :
      (name : Text) (s : S) → Done (minting name s) tt (λ t. held.has_key t (encode name))
  unfolding mint_key call
  mint_key-Done name s =
      let path = key_path encode name in
      let q = serve (request cfg path post (key_type (lit "aes256-gcm96"))) s in
      let l = laws.mints s (encode name) in
      record {
        state = q.1;
        run = rw (judged-grants post path q.0 l.response l.granted) refl;
        holds = l.holds;
      }

  rotate_key-Done :
      (name : Text) (s : S)
      → held.has_key s (encode name)
      → Done (rotating name s) tt (λ t.
        held.has_key t (encode name)
        × ((ct pt : Text) → held.reads s (encode name) ct pt → held.reads t (encode name) ct pt))
  unfolding rotate_key call
  rotate_key-Done name s k =
      let path = key_path encode name ++ lit "/rotate" in
      let q = serve (request cfg path post no_fields) s in
      let (l, kept) = laws.rotates s (encode name) k in
      record {
        state = q.1;
        run = rw (judged-grants post path q.0 l.response l.granted) refl;
        holds = (l.holds, kept);
      }

  decrypt-Done :
      (name ct : Text) (bytes : List ℕ) (s : S)
      → from_base64 (to_base64 bytes) ≡ bytes
      → held.reads s (encode name) ct (to_base64 bytes)
      → Done
          (decrypting name ct s)
          bytes
          (λ t. held.has_key t (encode name) × held.reads t (encode name) ct (to_base64 bytes))
  unfolding decrypt call
  decrypt-Done name ct bytes s b r =
      let path = lit "decrypt/" ++ encode name in
      let q = serve (request cfg path post (ciphertext ct)) s in
      let (g, k, kept) = laws.decrypts s (encode name) ct (to_base64 bytes) r in
      record { state = q.1; run = rw (judged-grants post path q.0 _ g, b) refl; holds = (k, kept) }

  delete_key-Done :
      (name ct pt : Text) (s : S)
      → held.has_key s (encode name)
      → held.reads s (encode name) ct pt
      → Done (deleting name s) tt (λ t. held.is_lost t (encode name) ct)
  unfolding delete_key call
  delete_key-Done name ct pt s k r =
      let path = key_path encode name in
      let q = serve (request cfg (path ++ lit "/config") post (deletion_allowed true)) s in
      let (l, kept) = laws.configures s (encode name) k in
      let q' = serve (request cfg path delete no_body) q.1 in
      let l' = laws.deletes q.1 (encode name) l.holds in
      record {
        state = q'.1;
        run =
            rw
              (
                judged-grants post (path ++ lit "/config") q.0 l.response l.granted,
                judged-grants delete path q'.0 l'.response l'.granted,
              )
              refl;
        holds = l'.holds ct pt (kept ct pt r);
      }

  decrypt-lost :
      (name ct : Text) (s : S)
      → held.is_lost s (encode name) ct
      → is_throw (decrypting name ct s).0 ≡ true
  unfolding decrypt call
  decrypt-lost name ct s g =
      let path = lit "decrypt/" ++ encode name in
      let q = serve (request cfg path post (ciphertext ct)) s in
      after-throw (judged post path q.0) q.1
        (λ r. plaintext_of serve encode to_base64 from_base64 cfg name r.plaintext)
        (judged-refuses post path q.0 (laws.forgets s (encode name) ct g))

  -- `n` rotations of the key
  abbrev pub rotations : ℕ → Text → Served S (Unit {0})
  rotations zero name = return tt
  rotations (suc n) name = rotating name >>= λ _. rotations n name

  rotations-Done :
      (n : ℕ) (name ct pt : Text) (s : S)
      → held.has_key s (encode name)
      → held.reads s (encode name) ct pt
      → Done
          (rotations n name s)
          tt
          (λ t. held.has_key t (encode name) × held.reads t (encode name) ct pt)
  rotations-Done zero name ct pt s k r = record { state = s; run = refl; holds = (k, r) }
  rotations-Done (suc n) name ct pt s k r =
      let d = rotate_key-Done name s k in
      let d' = rotations-Done n name ct pt d.state d.holds.0 (d.holds.1 ct pt r) in
      record { state = d'.state; run = rw d.run d'.run; holds = d'.holds }

  -- A key is made and used, rotated, used again and deleted.
  abbrev pub lifetime : ℕ → Text → List ℕ → Served S (Text × List ℕ)
  lifetime n name bytes = minting name >>= (λ _. encrypting name bytes) >>= λ ct.
      rotations n name >>= (λ _. decrypting name ct) >>= λ read.
      deleting name >>= λ _. return (ct, read)

  -- The encryption returns a ciphertext that has the bytes.
  record Sealed (name : Text) (bytes : List ℕ) (s : S) : Type ℓ where
    ct : Text
    state : S
    run : encrypting name bytes s ≡ (ok ct, state)
    has_key : held.has_key state (encode name)
    readable : held.reads state (encode name) ct (to_base64 bytes)

  encrypt-Sealed :
      (name : Text) (bytes : List ℕ) (s : S) → held.has_key s (encode name) → Sealed name bytes s
  unfolding encrypt call
  encrypt-Sealed name bytes s k =
      let path = lit "encrypt/" ++ encode name in
      let q = serve (request cfg path post (plaintext (to_base64 bytes))) s in
      let l = laws.encrypts s (encode name) (to_base64 bytes) k in
      record {
        ct = l.ct;
        state = q.1;
        run = rw (judged-grants post path q.0 _ l.granted, l.filled) refl;
        has_key = l.has_key;
        readable = l.readable;
      }

  abbrev later_state : List Operation → S → S
  later_state = state_after_all serve encode to_base64 from_base64 cfg

  -- The bytes are read back, and once the key is deleted, they cannot be read any more, whatever the
  -- adapter is used for later.
  pub record Shreds (n : ℕ) (name : Text) (bytes : List ℕ) (s : S) : Type ℓ where
    pub ct : Text
    pub state : S
    pub read_back : lifetime n name bytes s ≡ (ok (ct, bytes), state)
    pub lost :
        (later : List Operation) → is_throw (decrypting name ct (later_state later state)).0 ≡ true

  -- With a server that behaves as Transit's documentation says: what is encrypted under a new key is read
  -- back after any number of rotations of that key, no step failing; and when the key is deleted, which
  -- succeeds, decrypting the same ciphertext throws ever after: right away, and after any sequence of
  -- further operations of the adapter, on that name or others, the minting of a new key of the
  -- same name included. base64 gives back those bytes.
  pub lifetime-Shreds :
      (n : ℕ) (name : Text) (bytes : List ℕ) (s : S)
      → from_base64 (to_base64 bytes) ≡ bytes
      → Shreds n name bytes s
  lifetime-Shreds n name bytes s b =
      let d1 = mint_key-Done name s in
      let d2 = encrypt-Sealed name bytes d1.state d1.holds in
      let d3 = rotations-Done n name d2.ct (to_base64 bytes) d2.state d2.has_key d2.readable in
      let d4 = decrypt-Done name d2.ct bytes d3.state b d3.holds.1 in
      let d5 = delete_key-Done name d2.ct (to_base64 bytes) d4.state d4.holds.0 d4.holds.1 in
      record {
        ct = d2.ct;
        state = d5.state;
        read_back = rw (d1.run, d2.run, d3.run, d4.run, d5.run) refl;
        lost = λ later. decrypt-lost name d2.ct (later_state later d5.state) (
            is_lost-state_after_all serve encode to_base64 from_base64 cfg held laws later d5.state
              (encode name) d2.ct d5.holds);
      }
