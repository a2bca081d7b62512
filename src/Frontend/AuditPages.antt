-- ===== src/Frontend/AuditPages.antt =====
-- frontend/src/routes/Audit.tsx: the pages of the audit route, and its live events. Of Solid it takes that
-- a signal set to the value it has tells nobody, that a resource keeps its value while the next loads, that
-- the answer of an older request is dropped, and that a memo runs again when a signal it has read changes:
-- `accumDriver` has read the page and `before`. A page that fails is not modelled.
pub mod Repeats
use monok8s.Prelude.{
  ℕ, Bool, true, false, Option, none, some, List, [], ◌∷◌, ◌++◌, Text, ◌==◌, nat_eq, length,
  if◌then◌else◌,
}
use monok8s.Services.{AuditLog, CreatedAt, date, printed}
use monok8s.Auth.Audit.{AuditEnvelope}
use monok8s.Frontend.AuditLog.{AuditFilters}

abbrev pub page_size : ℕ
page_size = 50

-- The input of `audit.list`
pub record Query : Type 0 where
  pub filters : AuditFilters
  pub before : Option Text
  pub limit : ℕ

-- `page` is what the resource holds; `asked` is newest first.
pub record AuditState {κ} (M : Type κ) : Type κ where
  pub filters : AuditFilters
  pub before : Option Text
  pub page : Option (List (AuditLog M))
  pub loading : Bool
  pub history : List (AuditLog M)
  pub live : List (AuditEnvelope M)
  pub error : Option Text
  pub asked : List Query

pub data Event {κ} (M : Type κ) : Type κ where
  landed : List (AuditLog M) → Event M
  load_more : Event M
  change_filters : AuditFilters → Event M
  arrived : AuditEnvelope M → Event M
  disturbed : Text → Event M

abbrev pub no_filters : AuditFilters
no_filters = record { action = none; principal_id = none; since = none; until = none }

abbrev pub same_before : Option Text → Option Text → Bool
same_before none none = true
same_before none (some b) = false
same_before (some a) none = false
same_before (some a) (some b) = a == b

module _ {κ} {M : Type κ} (to_iso : ℕ → Text) where
  -- The resource asks for a page.
  abbrev pub fetching : AuditState M → AuditState M
  fetching s = record s {
    loading = true;
    asked = record { filters = s.filters; before = s.before; limit = page_size } ∷ s.asked;
  }

  abbrev pub mounted : AuditState M
  mounted = fetching (record {
    filters = no_filters;
    before = none;
    page = none;
    loading = false;
    history = [];
    live = [];
    error = none;
    asked = [];
  })

  -- handlePageLanded
  abbrev pub extended : Option Text → List (AuditLog M) → List (AuditLog M) → List (AuditLog M)
  extended none rows history = rows
  extended (some before) rows history = history ++ rows

  -- accumDriver
  abbrev pub accumulated :
      Option Text → Option (List (AuditLog M)) → List (AuditLog M) → List (AuditLog M)
  accumulated before none history = history
  accumulated before (some rows) history = extended before rows history

  abbrev pub drive : AuditState M → AuditState M
  drive s = record s { history = accumulated s.before s.page s.history }

  abbrev pub set_before : Option Text → AuditState M → AuditState M
  set_before before s =
      if same_before before s.before then s else drive (fetching (record s { before = before }))

  abbrev pub handle_filters_change : AuditFilters → AuditState M → AuditState M
  handle_filters_change next s =
      fetching (record (set_before none s) { history = []; filters = next })

  abbrev pub cursor_of : AuditLog M → Text
  cursor_of row = elim row.created_at [ date ms ↦ to_iso ms | printed t ↦ t ]

  -- `history[history.length - 1]`
  abbrev pub oldest : List (AuditLog M) → Option (AuditLog M)
  oldest [] = none
  oldest (r ∷ rows) = let rest = oldest rows in elim rest [ none ↦ some r | some o ↦ some o ]

  abbrev pub handle_load_more : Option (AuditLog M) → AuditState M → AuditState M
  handle_load_more none s = s
  handle_load_more (some row) s = set_before (some (cursor_of row)) s

  unfoldable pub on_event : Event M → AuditState M → AuditState M
  on_event (landed rows) s =
      if s.loading then drive (record s { page = some rows; loading = false }) else s
  on_event load_more s = handle_load_more (oldest s.history) s
  on_event (change_filters next) s = handle_filters_change next s
  on_event (arrived e) s = record s { live = s.live ++ (e ∷ []) }
  on_event (disturbed m) s = record s { error = some m }

  unfoldable pub run : List (Event M) → AuditState M → AuditState M
  run [] s = s
  run (e ∷ es) s = run es (on_event e s)

  abbrev pub has_more : AuditState M → Bool
  has_more s = elim s.page [ none ↦ false | some rows ↦ nat_eq (length rows) page_size ]
