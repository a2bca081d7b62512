-- ===== src/Tests/Frontend.antt =====
-- A row of the audit view with quotes, commas and line ends in its fields.
use monok8s.Prelude.{◌≡◌, none, some, List, [], ◌∷◌, Text, lit, map}
use monok8s.Frontend.AuditLog.{AuditRow, history, live, csv_headers, to_csv}
use monok8s.Frontend.AuditLog.Csv.{read_csv}
use monok8s.Frontend.AuditLog.Export.{values, read_csv-to_csv}

abbrev awkward : AuditRow Text
awkward = record {
  source = history;
  key = lit "1";
  timestamp = lit "2026-01-01T00:00:00.000Z";
  action = lit "group.create";
  principal_id = lit "u,1";
  principal_type = some (lit "user");
  target_kind = lit "group";
  target_id = none;
  outcome = lit "error";
  error_message = some (lit "line one\n\"two\", three");
  metadata = some (lit "{\"name\":\"a,b\"}");
}

abbrev bare : AuditRow Text
bare = record {
  source = live;
  key = lit "2";
  timestamp = lit "2026-01-02T00:00:00.000Z";
  action = lit "";
  principal_id = lit "u2";
  principal_type = none;
  target_kind = lit "";
  target_id = none;
  outcome = lit "success";
  error_message = none;
  metadata = none;
}

abbrev rows : List (AuditRow Text)
rows = awkward ∷ bare ∷ []

read_csv-to_csv_example : read_csv (to_csv (λ s. s) rows) ≡ csv_headers ∷ map (values (λ s. s)) rows
read_csv-to_csv_example = read_csv-to_csv (λ s. s) rows
