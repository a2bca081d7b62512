-- ===== src/Frontend/AuditLog/Csv.antt =====
-- A reader of CSV files by RFC 4180, with records ended by a line feed, independent of the writer.
pub mod Reading
use monok8s.Prelude.{
  ℕ, Bool, true, false, List, [], ◌∷◌, ◌++◌, Text, nat_eq, is_empty, if◌then◌else◌,
}

-- Where a cell stands: at its start, within it, within its quotes, or after a quote that may end them.
pub data Mode : Type 0 where
  fresh plain quoted closing : Mode

-- The cell so far, and the cells of the record before it.
pub record Reader : Type 0 where
  pub mode : Mode
  pub cell : Text
  pub row : List Text

abbrev pub start : Reader
start = record { mode = fresh; cell = []; row = [] }

abbrev pub reading : Mode → Text → List Text → Reader
reading mode cell row = record { mode = mode; cell = cell; row = row }

-- A character outside quotes: it ends the cell, or the record, or is of the cell.
abbrev pub outside : ℕ → Text → List Text → List (List Text) × Reader
outside c cell row =
    if nat_eq c b','
    then ([], reading fresh [] (row ++ (cell ∷ [])))
    else if nat_eq c 10
    then ((row ++ (cell ∷ [])) ∷ [], start)
    else ([], reading plain (cell ++ (c ∷ [])) row)

-- The records that a character ends, and the reader after it.
abbrev pub step : Mode → ℕ → Text → List Text → List (List Text) × Reader
step fresh c cell row = if nat_eq c b'"' then ([], reading quoted cell row) else outside c cell row
step plain c cell row = outside c cell row
step quoted c cell row =
    if nat_eq c b'"'
    then ([], reading closing cell row)
    else ([], reading quoted (cell ++ (c ∷ [])) row)
step closing c cell row =
    if nat_eq c b'"' then ([], reading quoted (cell ++ (c ∷ [])) row) else outside c cell row

-- At the end of the text, an unfinished record is one.
abbrev pub finish : Mode → Text → List Text → List (List Text)
finish fresh cell [] = []
finish fresh cell (v ∷ row) = (v ∷ row ++ (cell ∷ [])) ∷ []
finish _ cell row = (row ++ (cell ∷ [])) ∷ []

unfoldable pub read : Reader → Text → List (List Text)
read r [] = finish r.mode r.cell r.row
read r (c ∷ s) = let (out, r1) = step r.mode c r.cell r.row in out ++ read r1 s

unfoldable pub read_csv : Text → List (List Text)
read_csv s = read start s
