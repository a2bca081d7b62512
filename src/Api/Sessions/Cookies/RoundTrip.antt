-- ===== src/Api/Sessions/Cookies/RoundTrip.antt =====
-- A header that carries cookies is read back.
use monok8s.Prelude.{
  ℕ, ◌≡◌, refl, ap, ◌∙◌, All, all, Bool, true, false, not, ◌&&◌, Option, none, some, [], ◌∷◌, ◌++◌,
  Text, nat_eq, ◌==◌, is_blank, is_space, trim_end, trim, split, if◌then◌else◌, arith,
}
use monok8s.Prelude.Maps.{Map, get}
use monok8s.Api.Sessions.Cookies.{cut, non_empty, try_part, find_part, parse_cookie_header}

-- A character that neither the header's syntax nor `trim` takes away.
abbrev pub is_plain : ℕ → Bool
is_plain c = not (is_space c) && (not (nat_eq c b';') && not (nat_eq c b'='))

abbrev pub IsPlain : Text → Type 0
IsPlain [] = Unit
IsPlain (c ∷ s) = (is_plain c ≡ true) × IsPlain s

pub IsPlain-all : (s : Text) → all is_plain s ≡ true → IsPlain s
IsPlain-all [] e = tt
IsPlain-all (c ∷ s) e = (grind arith, IsPlain-all s (grind arith))

abbrev pub NoSemicolon : Text → Type 0
NoSemicolon [] = Unit
NoSemicolon (c ∷ s) = (nat_eq c b';' ≡ false) × NoSemicolon s

trim_end-plain : (s : Text) → IsPlain s → trim_end s ≡ s
trim_end-plain [] p = refl
trim_end-plain (c ∷ s) p = grind (arith, trim_end-plain s)

trim-plain : (s : Text) → IsPlain s → trim s ≡ s
trim-plain [] p = refl
trim-plain (c ∷ s) p = grind (arith, trim_end-plain s)

pub split-part :
    (s rest : Text) → NoSemicolon s → split b';' (s ++ (b';' ∷ rest)) ≡ s ∷ split b';' rest
split-part [] rest n = refl
split-part (c ∷ s) rest n = rw (n.0, split-part s rest n.1) refl

pub split-last : (s : Text) → NoSemicolon s → split b';' s ≡ s ∷ []
split-last [] n = refl
split-last (c ∷ s) n = rw (n.0, split-last s n.1) refl

cut-plain : (k v : Text) → IsPlain k → cut b'=' (k ++ (b'=' ∷ v)) ≡ some (k, v)
cut-plain [] v p = refl
cut-plain (c ∷ k) v p = grind (arith, cut-plain k v)

pub NoSemicolon-plain : (s : Text) → IsPlain s → NoSemicolon s
NoSemicolon-plain [] p = tt
NoSemicolon-plain (c ∷ s) p = (grind arith, NoSemicolon-plain s p.1)

pub NoSemicolon-append : (s t : Text) → NoSemicolon s → NoSemicolon t → NoSemicolon (s ++ t)
NoSemicolon-append [] t n m = m
NoSemicolon-append (c ∷ s) t n m = (n.0, NoSemicolon-append s t n.1 m)

-- A cookie that this parser can carry: plain, with a value that is not empty.
abbrev pub IsCookie : Text × Text → Type 0
IsCookie (k, v) = IsPlain k × (IsPlain v × (is_blank v ≡ false))

abbrev part : Text → Text → Text
part k v = k ++ (b'=' ∷ v)

-- The header that a browser sends for its cookies: the pairs, joined by a semicolon and a space.
abbrev pub cookie_header : Map Text → Text
cookie_header [] = []
cookie_header ((k, v) ∷ []) = part k v
cookie_header ((k, v) ∷ e ∷ m) = part k v ++ (b';' ∷ b' ' ∷ cookie_header (e ∷ m))

abbrev spaced : Bool → Text → Text
spaced true s = b' ' ∷ s
spaced false s = s

non_empty-some : (v : Text) → is_blank v ≡ false → non_empty v ≡ some v
non_empty-some [] b = absurd (grind arith)
non_empty-some (c ∷ v) b = refl

NoSemicolon-part :
    (b : Bool) (k v : Text) → IsPlain k → IsPlain v → NoSemicolon (spaced b (part k v))
NoSemicolon-part true k v p q =
    (refl, NoSemicolon-append k _ (NoSemicolon-plain k p) (refl, NoSemicolon-plain v q))
NoSemicolon-part false k v p q =
    NoSemicolon-append k _ (NoSemicolon-plain k p) (refl, NoSemicolon-plain v q)

try-part :
    (b : Bool) (name k v : Text) (rest : Option Text)
    → IsCookie (k, v)
    → try_part name (cut b'=' (spaced b (part k v))) rest ≡ (if k == name then some v else rest)
try-part true name k v rest p =
    rw (cut-plain k v p.0, trim-plain k p.0, trim-plain v p.1.0, non_empty-some v p.1.1) refl
try-part false name k v rest p =
    rw (cut-plain k v p.0, trim-plain k p.0, trim-plain v p.1.0, non_empty-some v p.1.1) refl

spaced-append : (b : Bool) (s t : Text) → spaced b (s ++ t) ≡ spaced b s ++ t
spaced-append true s t = refl
spaced-append false s t = refl

find-header :
    (b : Bool) (name : Text) (e : Text × Text) (m : Map Text)
    → All IsCookie (e ∷ m)
    → find_part name (split b';' (spaced b (cookie_header (e ∷ m)))) ≡ get name (e ∷ m)
find-header b name (k, v) [] p =
    rw (split-last _ (NoSemicolon-part b k v p.0.0 p.0.1.0), try-part b name k v none p.0) refl
find-header b name (k, v) (e ∷ m) p =
    rw
      (
        spaced-append b (part k v) (b';' ∷ b' ' ∷ cookie_header (e ∷ m)),
        split-part (spaced b (part k v)) (b' ' ∷ cookie_header (e ∷ m))
            (NoSemicolon-part b k v p.0.0 p.0.1.0),
      )
      (try-part b name k v _ p.0
        ∙ ap (λ r. if k == name then some v else r) (find-header true name e m p.1))

is_blank-header : (e : Text × Text) (m : Map Text) → is_blank (cookie_header (e ∷ m)) ≡ false
is_blank-header ([], v) [] = refl
is_blank-header (c ∷ k, v) [] = refl
is_blank-header ([], v) (e ∷ m) = refl
is_blank-header (c ∷ k, v) (e ∷ m) = refl

-- From the header that a browser sends for a list of cookies, the parser returns the value of the
-- first cookie of the name asked for, or null where there is none. No name or value has white space, a
-- semicolon or an equals sign, and no value is empty.
pub parse_cookie_header-get :
    (name : Text) (m : Map Text)
    → All IsCookie m
    → parse_cookie_header (cookie_header m) name ≡ get name m
unfolding parse_cookie_header
parse_cookie_header-get name [] p = refl
parse_cookie_header-get name (e ∷ m) p = rw (is_blank-header e m) (find-header false name e m p)
