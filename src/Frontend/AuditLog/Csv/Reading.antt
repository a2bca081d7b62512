-- ===== src/Frontend/AuditLog/Csv/Reading.antt =====
-- Reading what the writer quotes.
use mathlib.Core.List.{append_assoc, append-nil}
use monok8s.Prelude.{
  ℕ, ◌≡◌, refl, ap, ◌∙◌, ◌⊎◌, any, false, List, [], ◌∷◌, ◌++◌, Text, lit, map, join, nat_eq,
  nat_eq_iff, arith, Bool-cases, inl, inr,
}
use monok8s.Frontend.AuditLog.{needs_quotes, escaped, csv_text}
use monok8s.Frontend.AuditLog.Csv.{fresh, plain, quoted, closing, start, reading, outside, read}

snoc-append : (cell s : Text) (c : ℕ) → (cell ++ (c ∷ [])) ++ s ≡ cell ++ (c ∷ s)
snoc-append cell s c = append_assoc cell (c ∷ []) s

-- A character that needs no quotes is one of the cell.
outside-plain :
    (c : ℕ) (cell : Text) (row : List Text)
    → needs_quotes c ≡ false
    → outside c cell row ≡ ([], reading plain (cell ++ (c ∷ [])) row)
outside-plain c cell row n = ground arith

-- Reading goes on after an unquoted text.
read-plain :
    (s rest cell : Text) (row : List Text)
    → any needs_quotes s ≡ false
    → read (reading plain cell row) (s ++ rest) ≡ read (reading plain (cell ++ s) row) rest
unfolding read
read-plain [] rest cell row n = rw append-nil refl
read-plain (c ∷ s) rest cell row n =
    let first : needs_quotes c ≡ false = grind arith in
    let others : any needs_quotes s ≡ false = grind arith in
    rw (outside-plain c cell row first) (
      read-plain s rest (cell ++ (c ∷ [])) row others
      ∙ ap (λ t. read (reading plain t row) rest) (snoc-append cell s c))

quoted-quote :
    (s cell : Text) (row : List Text)
    → read (reading quoted cell row) (b'"' ∷ b'"' ∷ s)
      ≡ read (reading quoted (cell ++ (b'"' ∷ [])) row) s
unfolding read
quoted-quote s cell row = refl

quoted-other :
    (c : ℕ) (s cell : Text) (row : List Text)
    → nat_eq c b'"' ≡ false
    → read (reading quoted cell row) (c ∷ s) ≡ read (reading quoted (cell ++ (c ∷ [])) row) s
unfolding read
quoted-other c s cell row b = rw b refl

quoted_end :
    (rest cell : Text) (row : List Text)
    → read (reading quoted cell row) (b'"' ∷ rest) ≡ read (reading closing (cell ++ []) row) rest
unfolding read
quoted_end rest cell row = rw append-nil refl

-- Reading goes on after a quoted text, at the quote that ends it.
read-quoted :
    (s rest cell : Text) (row : List Text)
    → read (reading quoted cell row) (escaped s ++ (b'"' ∷ rest))
      ≡ read (reading closing (cell ++ s) row) rest
read-quoted [] rest cell row = quoted_end rest cell row
read-quoted (c ∷ s) rest cell row =
    let onward = λ (d : ℕ).
      read-quoted s rest (cell ++ (d ∷ [])) row
      ∙ ap (λ t. read (reading closing t row) rest) (snoc-append cell s d) in
    elim (Bool-cases (nat_eq c b'"')) [
      | inl b ↦ rw ((nat_eq_iff c b'"').0 b) (quoted-quote _ cell row ∙ onward b'"')
      | inr b ↦ rw b (quoted-other c _ cell row b ∙ onward c)
    ]

-- A character that ends a cell.
abbrev IsEnd : ℕ → Type 0
IsEnd d = (d ≡ b',') ⊎ (d ≡ 10)

closing-end :
    (d : ℕ) (rest v : Text) (row : List Text)
    → IsEnd d
    → read (reading closing v row) (d ∷ rest) ≡ read (reading plain v row) (d ∷ rest)
unfolding read
closing-end d rest v row (inl e) = rw e refl
closing-end d rest v row (inr e) = rw e refl

fresh-end :
    (d : ℕ) (rest : Text) (row : List Text)
    → IsEnd d
    → read (reading fresh [] row) (d ∷ rest) ≡ read (reading plain [] row) (d ∷ rest)
unfolding read
fresh-end d rest row (inl e) = rw e refl
fresh-end d rest row (inr e) = rw e refl

fresh-quote :
    (s : Text) (row : List Text)
    → read (reading fresh [] row) (b'"' ∷ s) ≡ read (reading quoted [] row) s
unfolding read
fresh-quote s row = refl

fresh-plain :
    (c : ℕ) (s : Text) (row : List Text)
    → needs_quotes c ≡ false
    → read (reading fresh [] row) (c ∷ s) ≡ read (reading plain [] row) (c ∷ s)
unfolding read
fresh-plain c s row n = let no_quote : nat_eq c b'"' ≡ false = grind arith in rw no_quote refl

unquoted-cell :
    (v : Text) (d : ℕ) (rest : Text) (row : List Text)
    → IsEnd d
    → any needs_quotes v ≡ false
    → read (reading fresh [] row) (v ++ (d ∷ rest)) ≡ read (reading plain v row) (d ∷ rest)
unquoted-cell [] d rest row e n = fresh-end d rest row e
unquoted-cell (c ∷ s) d rest row e n =
    let first : needs_quotes c ≡ false = grind arith in
    fresh-plain c (s ++ (d ∷ rest)) row first ∙ read-plain (c ∷ s) (d ∷ rest) [] row n

-- A cell is read back, quoted or not, up to the character that ends it.
read-cell :
    (v : Text) (d : ℕ) (rest : Text) (row : List Text)
    → IsEnd d
    → read (reading fresh [] row) (csv_text v ++ (d ∷ rest)) ≡ read (reading plain v row) (d ∷ rest)
read-cell v d rest row e = elim (Bool-cases (any needs_quotes v)) [
  | inr n ↦ rw n (unquoted-cell v d rest row e n)
  | inl q ↦
      rw (q, append_assoc (escaped v) (b'"' ∷ []) (d ∷ rest))
        (fresh-quote _ row ∙ (read-quoted v (d ∷ rest) [] row ∙ closing-end d rest v row e))
]

abbrev pub line_of : Text → List Text → Text
line_of v vs = join (lit ",") (map csv_text (v ∷ vs))

plain-comma :
    (s v : Text) (row : List Text)
    → read (reading plain v row) (b',' ∷ s) ≡ read (reading fresh [] (row ++ (v ∷ []))) s
unfolding read
plain-comma s v row = refl

plain-newline :
    (s v : Text) (row : List Text)
    → read (reading plain v row) (10 ∷ s) ≡ (row ++ (v ∷ [])) ∷ read start s
unfolding read
plain-newline s v row = refl

-- A record is read back, up to the line feed that ends it.
read-record :
    (v : Text) (vs row : List Text) (rest : Text)
    → read (reading fresh [] row) (line_of v vs ++ (10 ∷ rest))
      ≡ (row ++ (v ∷ vs)) ∷ read start rest
unfolding lit
read-record v [] row rest = read-cell v 10 rest row (inr refl) ∙ plain-newline rest v row
read-record v (w ∷ ws) row rest = rw (append_assoc (csv_text v) (b',' ∷ line_of w ws) (10 ∷ rest)) (
    read-cell v b',' (line_of w ws ++ (10 ∷ rest)) row (inl refl)
    ∙ (plain-comma (line_of w ws ++ (10 ∷ rest)) v row
        ∙ (read-record w ws (row ++ (v ∷ [])) rest
            ∙ ap (λ r. r ∷ read start rest) (append_assoc row (v ∷ []) (w ∷ ws)))))

abbrev pub lines_of : List (Text × List Text) → List Text
lines_of [] = []
lines_of ((v, vs) ∷ rs) = line_of v vs ∷ lines_of rs

abbrev pub records : List (Text × List Text) → List (List Text)
records [] = []
records ((v, vs) ∷ rs) = (v ∷ vs) ∷ records rs

pub read-lines :
    (v : Text) (vs : List Text) (rs : List (Text × List Text))
    → read start (join (lit "\n") (lines_of ((v, vs) ∷ rs)) ++ lit "\n") ≡ records ((v, vs) ∷ rs)
unfolding lit read
read-lines v vs [] = read-record v vs [] []
read-lines v vs ((w, ws) ∷ rs) =
    rw (append_assoc (line_of v vs) (10 ∷ join (10 ∷ []) (lines_of ((w, ws) ∷ rs))) (10 ∷ []))
      (read-record v vs [] _ ∙ ap (λ r. (v ∷ vs) ∷ r) (read-lines w ws rs))
