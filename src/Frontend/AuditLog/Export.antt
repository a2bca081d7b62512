-- ===== src/Frontend/AuditLog/Export.antt =====
-- What is exported is read back.
use monok8s.Prelude.{
  ◌≡◌, refl, ap, ◌∙◌, Option, none, some, List, [], ◌∷◌, Text, lit, map, join, or_else,
}
use monok8s.Frontend.AuditLog.{AuditRow, csv_text, csv_cell, csv_headers, json, csv_line, to_csv}
use monok8s.Frontend.AuditLog.Csv.{read_csv}
use monok8s.Frontend.AuditLog.Csv.Reading.{line_of, lines_of, records, read-lines}

abbrev header_rest : List Text
header_rest =
    lit "action"
    ∷ lit "principal_id"
    ∷ lit "principal_type"
    ∷ lit "target_kind"
    ∷ lit "target_id"
    ∷ lit "outcome"
    ∷ lit "error_message"
    ∷ lit "metadata"
    ∷ []

headers-unquoted : join (lit ",") csv_headers ≡ line_of (lit "timestamp") header_rest
unfolding lit
headers-unquoted = refl

module _ {κ} {M : Type κ} (stringify : M → Text) where
  -- What the view shows of a row: a field that is null is empty.
  abbrev values_after_first : AuditRow M → List Text
  values_after_first row =
      row.action
      ∷ row.principal_id
      ∷ or_else row.principal_type []
      ∷ row.target_kind
      ∷ or_else row.target_id []
      ∷ row.outcome
      ∷ or_else row.error_message []
      ∷ or_else (json stringify row.metadata) []
      ∷ []

  abbrev pub values : AuditRow M → List Text
  values row = row.timestamp ∷ values_after_first row

  csv_cell-json :
      (o : Option M) → csv_cell (json stringify o) ≡ csv_text (or_else (json stringify o) [])
  csv_cell-json none = refl
  csv_cell-json (some m) = refl

  csv_line-values :
      (row : AuditRow M) → csv_line stringify row ≡ line_of row.timestamp (values_after_first row)
  csv_line-values row = rw (csv_cell-json row.metadata) refl

  abbrev parts : AuditRow M → Text × List Text
  parts row = (row.timestamp, values_after_first row)

  csv_lines : (rows : List (AuditRow M)) → map (csv_line stringify) rows ≡ lines_of (map parts rows)
  csv_lines [] = refl
  csv_lines (row ∷ rows) = rw (csv_line-values row, csv_lines rows) refl

  records-values : (rows : List (AuditRow M)) → records (map parts rows) ≡ map values rows
  records-values [] = refl
  records-values (row ∷ rows) = rw (records-values rows) refl

  -- A file that is exported is read back, by a reader of RFC 4180: the header, and for each row the text
  -- of each of its fields, whatever commas, quotes and line ends are in them.
  pub read_csv-to_csv :
      (rows : List (AuditRow M)) → read_csv (to_csv stringify rows) ≡ csv_headers ∷ map values rows
  unfolding to_csv read_csv
  read_csv-to_csv rows =
      rw (headers-unquoted, csv_lines rows)
        (read-lines (lit "timestamp") header_rest (map parts rows)
          ∙ ap (λ r. csv_headers ∷ r) (records-values rows))
