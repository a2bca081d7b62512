-- ===== src/Frontend/AuditLog.antt =====
-- frontend/src/components/AuditLogView.tsx: the rows of the audit view, and their export as CSV.
-- `JSON.stringify` of the metadata and `toISOString` are arguments; the envelope's principal is a user,
-- as packages/auth makes it.
pub mod Csv
pub mod Export
pub mod Unseen
use monok8s.Prelude.{
  ℕ, Bool, true, false, not, ◌&&◌, ◌||◌, Option, none, some, List, [], ◌∷◌, ◌++◌, Text, lit, ◌==◌,
  any, is_blank, join, ltb, map, nat_eq, or_else, if◌then◌else◌,
}
use monok8s.Services.{AuditLog, CreatedAt, date, printed}
use monok8s.Auth.Audit.{AuditEnvelope, Outcome, success, failed}

pub data Source : Type 0 where
  history live : Source

-- `metadata` is the JSON value, or null.
pub record AuditRow {κ} (M : Type κ) : Type κ where
  pub source : Source
  pub key : Text
  pub timestamp : Text
  pub action : Text
  pub principal_id : Text
  pub principal_type : Option Text
  pub target_kind : Text
  pub target_id : Option Text
  pub outcome : Text
  pub error_message : Option Text
  pub metadata : Option M

pub record AuditFilters : Type 0 where
  pub action : Option Text
  pub principal_id : Option Text
  pub since : Option Text
  pub until : Option Text

-- `s < t` on texts, by code units.
abbrev pub precedes : Text → Text → Bool
precedes s [] = false
precedes [] (d ∷ t) = true
precedes (c ∷ s) (d ∷ t) = let rest = precedes s t in if nat_eq c d then rest else ltb c d

-- `filter && test`: an absent and an empty filter are none.
abbrev pub rejects : Option Text → (Text → Bool) → Bool
rejects none test = false
rejects (some f) test = not (is_blank f) && test f

abbrev pub outcome_text : Outcome → Text
outcome_text success = lit "success"
outcome_text (failed _) = lit "error"

abbrev pub error_text : Outcome → Option Text
error_text success = none
error_text (failed m) = some m

-- The key of an event: `action|principal|timestamp`.
abbrev pub event_key : Text → Text → Text → Text
event_key action principal timestamp = action ++ (b'|' ∷ (principal ++ (b'|' ∷ timestamp)))

module _ {κ} {M : Type κ} where
  unfoldable pub history_row_to_unified : (ℕ → Text) → AuditLog M → AuditRow M
  history_row_to_unified to_iso row = record {
    source = history;
    key = row.id;
    timestamp = elim row.created_at [ date ms ↦ to_iso ms | printed t ↦ t ];
    action = row.action;
    principal_id = row.principal_id;
    principal_type = some row.principal_type;
    target_kind = row.target_kind;
    target_id = row.target_id;
    outcome = row.outcome;
    error_message = row.error_message;
    metadata = row.metadata;
  }

  unfoldable pub envelope_to_unified : AuditEnvelope M → AuditRow M
  envelope_to_unified e = record {
    source = live;
    key = event_key e.action e.principal e.timestamp;
    timestamp = e.timestamp;
    action = e.action;
    principal_id = e.principal;
    principal_type = some (lit "user");
    target_kind = e.target.kind;
    target_id = e.target.id;
    outcome = outcome_text e.outcome;
    error_message = error_text e.outcome;
    metadata = e.metadata;
  }

  unfoldable pub apply_client_filters : AuditRow M → AuditFilters → Bool
  apply_client_filters row filters = not (
      rejects filters.action (λ f. not (row.action == f))
      || (rejects filters.principal_id (λ f. not (row.principal_id == f))
          || (rejects filters.since (λ f. precedes row.timestamp f)
              || rejects filters.until (λ f. not (precedes row.timestamp f)))))

  abbrev pub dedupe_key : AuditRow M → Text
  dedupe_key row = event_key row.action row.principal_id row.timestamp

  -- The two loops of `unifyRows`, given the keys seen: later rows with a key that was seen are dropped.
  unfoldable pub unseen : List Text → List (AuditRow M) → List (AuditRow M)
  unseen seen [] = []
  unseen seen (row ∷ rows) =
      let kept = row ∷ unseen (dedupe_key row ∷ seen) rows in
      let dropped = unseen seen rows in
      if any (λ k. k == dedupe_key row) seen then dropped else kept

  -- The comparator: true is 1, false is -1.
  abbrev pub comes_after : AuditRow M → AuditRow M → Bool
  comes_after a b = precedes a.timestamp b.timestamp

  -- `Array.prototype.sort` is an argument: the comparator is not one for equal timestamps, where it
  -- answers -1 both ways, so that their order is the implementation's.
  unfoldable pub unify_rows :
      ((AuditRow M → AuditRow M → Bool) → List (AuditRow M) → List (AuditRow M))
      → (ℕ → Text)
      → List (AuditLog M)
      → List (AuditEnvelope M)
      → List (AuditRow M)
  unify_rows sort to_iso logs envelopes =
      sort comes_after
        (unseen [] (map (history_row_to_unified to_iso) logs ++ map envelope_to_unified envelopes))

-- `/[",\r\n]/`
abbrev pub needs_quotes : ℕ → Bool
needs_quotes c = nat_eq c b'"' || (nat_eq c b',' || (nat_eq c 13 || nat_eq c 10))

-- `s.replace(/"/g, '""')`
abbrev pub escaped : Text → Text
escaped [] = []
escaped (c ∷ s) = let rest = escaped s in if nat_eq c b'"' then c ∷ c ∷ rest else c ∷ rest

abbrev pub csv_text : Text → Text
csv_text s = if any needs_quotes s then b'"' ∷ (escaped s ++ (b'"' ∷ [])) else s

-- `csvCell` of a text, and of a value that is null or JSON.
abbrev pub csv_cell : Option Text → Text
csv_cell none = []
csv_cell (some s) = csv_text s

abbrev pub csv_headers : List Text
csv_headers =
    lit "timestamp"
    ∷ lit "action"
    ∷ lit "principal_id"
    ∷ lit "principal_type"
    ∷ lit "target_kind"
    ∷ lit "target_id"
    ∷ lit "outcome"
    ∷ lit "error_message"
    ∷ lit "metadata"
    ∷ []

module _ {κ} {M : Type κ} (stringify : M → Text) where
  abbrev pub json : Option M → Option Text
  json none = none
  json (some m) = some (stringify m)

  -- The cells of a row, before they are quoted.
  abbrev pub row_cells : AuditRow M → List (Option Text)
  row_cells row =
      some row.timestamp
      ∷ some row.action
      ∷ some row.principal_id
      ∷ some (or_else row.principal_type [])
      ∷ some row.target_kind
      ∷ some (or_else row.target_id [])
      ∷ some row.outcome
      ∷ some (or_else row.error_message [])
      ∷ json row.metadata
      ∷ []

  abbrev pub csv_line : AuditRow M → Text
  csv_line row = join (lit ",") (map csv_cell (row_cells row))

  unfoldable pub to_csv : List (AuditRow M) → Text
  to_csv rows = join (lit "\n") (join (lit ",") csv_headers ∷ map csv_line rows) ++ lit "\n"
