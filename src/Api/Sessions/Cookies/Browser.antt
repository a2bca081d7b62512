-- ===== src/Api/Sessions/Cookies/Browser.antt =====
-- What a browser keeps of a `Set-Cookie` header (RFC 6265, section 5), read without the code that writes it.
use monok8s.Prelude.{
  ℕ, ◌≡◌, refl, sym, ◌∙◌, ap, All, Bool, true, false, not, none, some, List, [], ◌∷◌, ◌++◌, Text,
  lit, all, any, is_blank, join, map, nat_eq, split, starts_with, if◌then◌else◌, arith,
}
use monok8s.Prelude.Maps.{Map, get}
use monok8s.Db.Ask.{decimal}
use monok8s.Api.Sessions.Cookies.{
  CookieFlags, flag, format_cookie, format_session_cookie, format_pending_cookie,
  session_cookie_name, pending_cookie_name,
}
use monok8s.Api.Sessions.Cookies.RoundTrip.{
  IsPlain, IsPlain-all, NoSemicolon, NoSemicolon-plain, NoSemicolon-append, split-part, split-last,
}

-- The text before the first `sep`, and the text behind it.
abbrev pub up_to : ℕ → Text → Text
up_to sep [] = []
up_to sep (c ∷ s) = let rest = up_to sep s in if nat_eq c sep then [] else c ∷ rest

abbrev pub behind : ℕ → Text → Text
behind sep [] = []
behind sep (c ∷ s) = let rest = behind sep s in if nat_eq c sep then s else rest

abbrev pub cookie_name : Text → Text
cookie_name set_cookie = up_to b'=' (up_to b';' set_cookie)

abbrev pub cookie_value : Text → Text
cookie_value set_cookie = behind b'=' (up_to b';' set_cookie)

-- The cookie is one to delete: an attribute says that its time is over.
abbrev pub is_over : Text → Bool
is_over set_cookie = any (starts_with (lit " Max-Age=0")) (split b';' set_cookie)

-- After the header was received, the jar has its cookie, or has it no more.
abbrev pub IsKept : Map Text → Text → Type 0
IsKept jar set_cookie =
    get (cookie_name set_cookie) jar
    ≡ (if is_over set_cookie then none else some (cookie_value set_cookie))

up_to-pair : (s rest : Text) → NoSemicolon s → up_to b';' (s ++ (b';' ∷ rest)) ≡ s
up_to-pair [] rest n = refl
up_to-pair (c ∷ s) rest n = rw (n.0, up_to-pair s rest n.1) refl

up_to-plain : (k v : Text) → IsPlain k → up_to b'=' (k ++ (b'=' ∷ v)) ≡ k
up_to-plain [] v p = refl
up_to-plain (c ∷ k) v p = grind (arith, up_to-plain k v)

behind-plain : (k v : Text) → IsPlain k → behind b'=' (k ++ (b'=' ∷ v)) ≡ v
behind-plain [] v p = refl
behind-plain (c ∷ k) v p = grind (arith, behind-plain k v)

split-join :
    (p : Text) (ps : List Text)
    → All NoSemicolon (p ∷ ps)
    → split b';' (join (lit "; ") (p ∷ ps)) ≡ p ∷ map (λ q. b' ' ∷ q) ps
unfolding lit
split-join p [] n = split-last p n.0
split-join p (q ∷ ps) n =
    split-part p (b' ' ∷ join (lit "; ") (q ∷ ps)) n.0 ∙ rw (split-join q ps n.1) refl

is_over-join :
    (p : Text) (ps : List Text)
    → All NoSemicolon (p ∷ ps)
    → any (starts_with (lit " Max-Age=0")) (p ∷ map (λ q. b' ' ∷ q) ps) ≡ false
    → is_over (join (lit "; ") (p ∷ ps)) ≡ false
is_over-join p ps n e = ap (any (starts_with (lit " Max-Age=0"))) (split-join p ps n) ∙ e

NoSemicolon-all : (s : Text) → all (λ c. not (nat_eq c b';')) s ≡ true → NoSemicolon s
NoSemicolon-all [] e = tt
NoSemicolon-all (c ∷ s) e = (grind arith, NoSemicolon-all s (grind arith))

NoSemicolon-flag :
    (b : Bool) (p : Text) (ps : List Text)
    → NoSemicolon p
    → All NoSemicolon ps
    → All NoSemicolon (flag b p ps)
NoSemicolon-flag true p ps n ns = (n, ns)
NoSemicolon-flag false p ps n ns = ns

-- A browser reads from a `Set-Cookie` text a cookie that is to be kept, with this name and value.
pub record Sets (set_cookie name value : Text) : Type 0 where
  pub name_read : cookie_name set_cookie ≡ name
  pub value_read : cookie_value set_cookie ≡ value
  pub lasts : is_over set_cookie ≡ false

-- The flags of the routes
abbrev pub flags_of : Bool → Text → CookieFlags
flags_of secure domain = record {
  secure = secure;
  domain = domain;
  path = none;
  max_age_seconds = none;
}

module _ (name value : Text) (age : ℕ) (p : IsPlain name) (v : NoSemicolon value)
    (first : starts_with (lit " Max-Age=0") (name ++ (b'=' ∷ value)) ≡ false)
    (last : starts_with (lit " Max-Age=0") (b' ' ∷ (lit "Max-Age=" ++ decimal age)) ≡ false)
    (clean : NoSemicolon (lit "Max-Age=" ++ decimal age)) where
  NoSemicolon-pair : NoSemicolon (name ++ (b'=' ∷ value))
  NoSemicolon-pair = NoSemicolon-append name _ (NoSemicolon-plain name p) (refl, v)

  -- The texts behind the pair.
  abbrev attributes : Bool → Text → List Text
  attributes secure domain =
      lit "Path=/"
      ∷ lit "HttpOnly"
      ∷ lit "SameSite=Lax"
      ∷ flag secure (lit "Secure") (
          flag (not (is_blank domain)) (lit "Domain=" ++ domain)
            ((lit "Max-Age=" ++ decimal age) ∷ []))

  NoSemicolon-attributes :
      (secure : Bool) (domain : Text)
      → NoSemicolon domain
      → All NoSemicolon ((name ++ (b'=' ∷ value)) ∷ attributes secure domain)
  unfolding lit
  NoSemicolon-attributes secure domain d = (
    NoSemicolon-pair,
    (
      NoSemicolon-all (lit "Path=/") refl,
      (
        NoSemicolon-all (lit "HttpOnly") refl,
        (
          NoSemicolon-all (lit "SameSite=Lax") refl,
          NoSemicolon-flag secure (lit "Secure") _ (NoSemicolon-all (lit "Secure") refl) (
              NoSemicolon-flag (not (is_blank domain)) (lit "Domain=" ++ domain) _
                (NoSemicolon-append (lit "Domain=") domain (NoSemicolon-all (lit "Domain=") refl) d)
                (clean, tt)),
        ),
      ),
    ),
  )

  lasting :
      (secure : Bool) (domain : Text)
      → any
          (starts_with (lit " Max-Age=0"))
          ((name ++ (b'=' ∷ value)) ∷ map (λ q. b' ' ∷ q) (attributes secure domain))
        ≡ false
  unfolding lit
  lasting true [] = rw (first, last) refl
  lasting false [] = rw (first, last) refl
  lasting true (c ∷ domain) = rw (first, last) refl
  lasting false (c ∷ domain) = rw (first, last) refl

  format_cookie-Sets :
      (secure : Bool) (domain : Text)
      → NoSemicolon domain
      → Sets (format_cookie name value (flags_of secure domain) age) name value
  unfolding format_cookie lit
  format_cookie-Sets secure domain d = record {
    name_read = rw (up_to-pair _ _ NoSemicolon-pair) (up_to-plain name value p);
    value_read = rw (up_to-pair _ _ NoSemicolon-pair) (behind-plain name value p);
    lasts =
        is_over-join (name ++ (b'=' ∷ value)) (attributes secure domain)
          (NoSemicolon-attributes secure domain d) (lasting secure domain);
  }

-- The routes' session cookie, as a browser reads it.
pub format_session_cookie-Sets :
    (id : Text) (secure : Bool) (domain : Text)
    → NoSemicolon id
    → NoSemicolon domain
    → Sets (format_session_cookie id (flags_of secure domain)) session_cookie_name id
unfolding format_session_cookie decimal lit
format_session_cookie-Sets id secure domain i d =
    format_cookie-Sets session_cookie_name id 28800 (IsPlain-all session_cookie_name refl) i refl
      refl (NoSemicolon-all (lit "Max-Age=28800") refl) secure domain d

-- The routes' pending cookie, as a browser reads it.
pub format_pending_cookie-Sets :
    (state : Text) (secure : Bool) (domain : Text)
    → NoSemicolon state
    → NoSemicolon domain
    → Sets (format_pending_cookie state (flags_of secure domain)) pending_cookie_name state
unfolding format_pending_cookie decimal lit
format_pending_cookie-Sets state secure domain i d =
    format_cookie-Sets pending_cookie_name state 300 (IsPlain-all pending_cookie_name refl) i refl
      refl (NoSemicolon-all (lit "Max-Age=300") refl) secure domain d

-- A kept cookie is in the jar under its name.
pub IsKept-Sets :
    (jar : Map Text) (c name value : Text)
    → Sets c name value
    → IsKept jar c
    → get name jar ≡ some value
IsKept-Sets jar c name value r k =
    ap (λ n. get n jar) (sym r.name_read) ∙ (k ∙ rw (r.lasts, r.value_read) refl)
