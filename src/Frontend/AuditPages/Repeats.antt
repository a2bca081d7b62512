-- ===== src/Frontend/AuditPages/Repeats.antt =====
-- Reading on, page after page, and changing the filters.
use monok8s.Prelude.{
  ◌≡◌, ◌∙◌, refl, sym, ap, Bool, true, false, not, ◌&&◌, Option, none, some, List, [], ◌∷◌, ◌++◌,
  Text, ℕ, arith,
}
use mathlib.Core.List.{append_assoc, append-nil}
use monok8s.Services.{AuditLog}
use monok8s.Auth.Audit.{AuditEnvelope}
use monok8s.Frontend.AuditLog.{AuditFilters, AuditRow, unify_rows}
use monok8s.Frontend.AuditLog.Unseen.{once, twice, unify_rows-twice}
use monok8s.Frontend.AuditPages.{
  AuditState, Event, landed, load_more, change_filters, same_before, cursor_of, oldest,
  handle_load_more, mounted, page_size, set_before, on_event, run,
}

-- The page has a row, and its last row is not the one that was asked for.
abbrev pub moves : Option Text → Option Text → Bool
moves before none = false
moves before (some c) = not (same_before (some c) before)

both : (a b : Bool) → (a && b) ≡ true → (a ≡ true) × (b ≡ true)
both a b e = ground arith

module _ {κ} {M : Type κ} (to_iso : ℕ → Text) where
  abbrev pub next_pages : List (List (AuditLog M)) → List (Event M)
  next_pages [] = []
  next_pages (p ∷ ps) = load_more ∷ landed p ∷ next_pages ps

  abbrev pub cursor_at : Option (AuditLog M) → Option Text
  cursor_at none = none
  cursor_at (some row) = some (cursor_of to_iso row)

  abbrev pub cursor : List (AuditLog M) → Option Text
  cursor p = cursor_at (oldest to_iso p)

  abbrev pub advances : Option Text → List (AuditLog M) → List (List (AuditLog M)) → Bool
  advances before p [] = true
  advances before p (q ∷ qs) = moves before (cursor p) && advances (cursor p) q qs

  pub record Reads (s : AuditState M) (rows latest : List (AuditLog M)) (asked : Option Text)
      : Type κ where
    pub history : s.history ≡ rows
    pub page : s.page ≡ some latest
    pub before : s.before ≡ asked

  more_of :
      (s : AuditState M) (o : Option (AuditLog M)) (h p q : List (AuditLog M))
      (before : Option Text)
      → Reads s h p before
      → moves before (cursor_at o) ≡ true
      → Reads
          (on_event to_iso (landed q) (handle_load_more to_iso o s))
          ((h ++ p) ++ q)
          q
          (cursor_at o)
  unfolding on_event
  more_of s none h p q before r m = absurd (ground arith)
  more_of s (some row) h p q before r m =
      let new : same_before (some (cursor_of to_iso row)) s.before ≡ false =
        rw r.before (ground arith) in
      rw new (record { history = rw (r.page, r.history) refl; page = refl; before = refl })

  oldest-append :
      (xs ys : List (AuditLog M)) (y : AuditLog M)
      → oldest to_iso (xs ++ (y ∷ ys)) ≡ oldest to_iso (y ∷ ys)
  oldest-append [] ys y = refl
  oldest-append (x ∷ xs) ys y = rw (oldest-append xs ys y) (ground arith)

  cursor-append :
      (before : Option Text) (xs ys : List (AuditLog M))
      → moves before (cursor ys) ≡ true
      → cursor (xs ++ ys) ≡ cursor ys
  cursor-append before xs [] m = absurd (ground arith)
  cursor-append before xs (y ∷ ys) m = ap cursor_at (oldest-append xs ys y)

  step-Reads :
      (s : AuditState M) (h p q : List (AuditLog M)) (before : Option Text)
      → Reads s (h ++ p) p before
      → moves before (cursor p) ≡ true
      → Reads
          (on_event to_iso (landed q) (on_event to_iso load_more s))
          (((h ++ p) ++ p) ++ q)
          q
          (cursor p)
  unfolding on_event
  step-Reads s h p q before r m =
      let e : cursor s.history ≡ cursor p = rw r.history (cursor-append before h p m) in
      let t = more_of s (oldest to_iso s.history) (h ++ p) p q before r (rw e m) in
      record { history = t.history; page = t.page; before = t.before ∙ e }

  repeats :
      (s : AuditState M) (h p : List (AuditLog M)) (qs : List (List (AuditLog M)))
      (before : Option Text)
      → Reads s (h ++ p) p before
      → advances before p qs ≡ true
      → (run to_iso (next_pages qs) s).history ≡ (h ++ p) ++ twice p qs
  unfolding run
  repeats s h p [] before r a = r.history ∙ sym (append-nil (h ++ p))
  repeats s h p (q ∷ qs) before r a =
      let (m, b) = both (moves before (cursor p)) (advances (cursor p) q qs) a in
      let s' = on_event to_iso (landed q) (on_event to_iso load_more s) in
      repeats s' ((h ++ p) ++ p) q qs (cursor p) (step-Reads s h p q before r m) b
      ∙ append_assoc ((h ++ p) ++ p) q (twice q qs)
      ∙ append_assoc (h ++ p) p (q ++ twice q qs)

  set_before-none :
      (s : AuditState M) (b : Option Text) → s.before ≡ b → (set_before to_iso none s).before ≡ none
  set_before-none s none e = rw e refl
  set_before-none s (some b) e = rw e refl

  -- Reading on, page after page, the audit route's history holds every page but the last twice: when
  -- `before` changes, the rows of the page that the resource still holds are added once more, before the
  -- next page is there. The view shows none of that: of this history and any live events its rows
  -- are those that it would make of each page held once. Each page has a row, and its last row's time is
  -- not the one that page was asked for with.
  pub run-repeated :
      (p : List (AuditLog M)) (qs : List (List (AuditLog M)))
      (sort : (AuditRow M → AuditRow M → Bool) → List (AuditRow M) → List (AuditRow M))
      (live : List (AuditEnvelope M))
      → advances none p qs ≡ true
      → let history = (run to_iso (landed p ∷ next_pages qs) (mounted to_iso)).history in
        (history ≡ p ++ twice p qs)
        × (unify_rows sort to_iso history live ≡ unify_rows sort to_iso (p ++ once qs) live)
  unfolding run on_event
  run-repeated p qs sort live a =
      let held =
        repeats (on_event to_iso (landed p) (mounted to_iso)) [] p qs none
          (record { history = refl; page = refl; before = refl }) a in
      (
        held,
        ap (λ history. unify_rows sort to_iso history live) held
            ∙ unify_rows-twice sort to_iso p qs live,
      )

  -- Whatever was read before, a change of the filters empties the history, and the answer to it is then the
  -- whole history; it was asked for from the newest on, with the new filters.
  pub run-change_filters :
      (s : AuditState M) (f : AuditFilters) (rows : List (AuditLog M))
      → let s1 = on_event to_iso (change_filters f) s in
        let s2 = on_event to_iso (landed rows) s1 in
        (s1.history ≡ [])
        × (s2.history ≡ rows)
        × (s1.asked
            ≡ record { filters = f; before = none; limit = page_size }
              ∷ (set_before to_iso none s).asked)
  unfolding on_event
  run-change_filters s f rows =
      let e = set_before-none s s.before refl in (refl, rw e refl, rw e refl)
