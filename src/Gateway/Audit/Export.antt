-- ===== src/Gateway/Audit/Export.antt =====
-- The exporter of the audit log.
use remote_juggler.Prelude.{
  ℕ, ◌+◌, ◌≤◌, ◌<◌, ◌≡◌, refl, sym, append-nil, append_assoc, ◌∙◌, ap, Bool, true, false, Option,
  none, some, List, [], ◌∷◌, ◌++◌, leb, length, drop, is_some, if◌then◌else◌, arith, length-append,
  length-drop, drop-append, drop_all, Bool-cases, inl, inr,
}
use remote_juggler.Text.{Text}
use remote_juggler.Gateway.Audit.{
  AuditEntry, AuditLog, log_entry, drain, AuditS3Exporter, export, upload, ndjson,
}
use remote_juggler.Gateway.Audit.Buffer.{Fits, log_entry-Fits, log_entry_max_size}

drain-eq-drop : (since : ℕ) (a : AuditLog) → drain since a ≡ drop since a.entries
unfolding drain
drain-eq-drop since a = elim (Bool-cases (leb (length a.entries) since)) [
  | inl past ↦ rw past (sym (drop_all since a.entries (ground arith)))
  | inr inside ↦ rw inside
]

module _ (marshal : AuditEntry → Option Text) where
  -- Any number of calls of Log, each at its own time.
  unfoldable pub log_all : List (ℕ × AuditEntry) → AuditLog → AuditLog
  log_all [] a = a
  log_all ((now, e) ∷ rest) a = log_all rest (log_entry marshal now e a)

  -- The entries of these calls that are stored: those that can be marshalled, stamped.
  unfoldable pub stored : List (ℕ × AuditEntry) → List AuditEntry
  stored [] = []
  stored ((now, e) ∷ rest) =
      let stamped = record e { timestamp = now } in
      let later = stored rest in if is_some (marshal stamped) then stamped ∷ later else later

  log_all-Fits :
      (calls : List (ℕ × AuditEntry)) (a : AuditLog)
      → 10 ≤ a.max_size
      → Fits a
      → Fits (log_all calls a) × ((log_all calls a).max_size ≡ a.max_size)
  unfolding log_all
  log_all-Fits [] a big h = (h, refl)
  log_all-Fits ((now, e) ∷ rest) a big h =
      let same = log_entry_max_size marshal now e a in
      let (fits, max) =
        log_all-Fits rest (log_entry marshal now e a) (rw same big)
          (log_entry-Fits marshal now e a big h) in
      (fits, max ∙ same)

  log_entry_of_room :
      (now : ℕ) (e : AuditEntry) (a : AuditLog)
      → length a.entries < a.max_size
      → (log_entry marshal now e a).entries ≡ a.entries ++ stored ((now, e) ∷ [])
  unfolding log_entry stored
  log_entry_of_room now e a room =
      let room' : leb a.max_size (length a.entries) ≡ false = ground arith in
      elim (Bool-cases (is_some (marshal (record e { timestamp = now })))) [
        | inl s ↦ rw (s, room')
        | inr lost ↦ rw lost (sym (append-nil a.entries))
      ]

  stored-cons :
      (now : ℕ) (e : AuditEntry) (rest : List (ℕ × AuditEntry))
      → stored ((now, e) ∷ rest) ≡ stored ((now, e) ∷ []) ++ stored rest
  unfolding stored
  stored-cons now e rest = ground arith

  length-stored : (calls : List (ℕ × AuditEntry)) → length (stored calls) ≤ length calls
  unfolding stored
  length-stored [] = omega arith
  length-stored ((now, e) ∷ rest) = ground (arith, length-stored rest)

  -- While the buffer has room, logging appends.
  log_all_of_room :
      (calls : List (ℕ × AuditEntry)) (a : AuditLog)
      → length a.entries + length calls ≤ a.max_size
      → (log_all calls a).entries ≡ a.entries ++ stored calls
  unfolding log_all
  log_all_of_room [] a room = unfold stored in sym (append-nil a.entries)
  log_all_of_room ((now, e) ∷ rest) a room =
      let a' = log_entry marshal now e a in
      let grown = log_entry_of_room now e a (omega arith) in
      log_all_of_room rest a' (
        rw (grown, log_entry_max_size marshal now e a)
          (omega (
            arith,
            length-append a.entries (stored ((now, e) ∷ [])),
            length-stored ((now, e) ∷ []),
          )))
      ∙ ap (λ es. es ++ stored rest) grown
      ∙ append_assoc a.entries (stored ((now, e) ∷ [])) (stored rest)
      ∙ ap (λ es. a.entries ++ es) (sym (stored-cons now e rest))

  module _ (put_object : Text → Bool) where
    upload_of_nonempty :
        (x : AuditS3Exporter) (es : List AuditEntry)
        → 0 < length es
        → (upload marshal put_object x es).1 ≡ some (ndjson marshal es)
    unfolding upload
    upload_of_nonempty x [] h = absurd (omega arith)
    upload_of_nonempty x (e ∷ es) h = refl

    upload_ok :
        (x : AuditS3Exporter) (es : List AuditEntry)
        → put_object (ndjson marshal es) ≡ true
        → (upload marshal put_object x es).0.last_export ≡ x.last_export + length es
    unfolding upload
    upload_ok x [] h = omega arith
    upload_ok x (e ∷ es) h = rw h

    -- If the index is at the end of a buffer that has room for some calls of Log, and these
    -- store anything, an export after them uploads exactly what they stored, each entry once and
    -- in order.
    pub export-log_all :
        (calls : List (ℕ × AuditEntry)) (x : AuditS3Exporter) (a : AuditLog)
        → length a.entries + length calls ≤ a.max_size
        → x.last_export ≡ length a.entries
        → 0 < length (stored calls)
        → (export marshal put_object x (log_all calls a)).1 ≡ some (ndjson marshal (stored calls))
    unfolding export
    export-log_all calls x a room upto new =
        let es : drain x.last_export (log_all calls a) ≡ stored calls =
          drain-eq-drop x.last_export (log_all calls a)
          ∙ ap (drop x.last_export) (log_all_of_room calls a room)
          ∙ ap (λ n. drop n (a.entries ++ stored calls)) upto
          ∙ drop-append a.entries (stored calls) in
        ap (λ es. (upload marshal put_object x es).1) es ∙ upload_of_nonempty x (stored calls) new

    stuck :
        (calls : List (ℕ × AuditEntry)) (x : AuditS3Exporter) (a : AuditLog)
        → 10 ≤ a.max_size
        → Fits a
        → a.max_size ≤ x.last_export
        → export marshal put_object x (log_all calls a) ≡ (x, none)
    unfolding export upload
    stuck calls x a big h past =
        let (fits, max) = log_all-Fits calls a big h in
        let es : drain x.last_export (log_all calls a) ≡ [] =
          drain-eq-drop x.last_export (log_all calls a)
          ∙ drop_all x.last_export (log_all calls a).entries (omega arith) in
        ap (upload marshal put_object x) es

    export_ok :
        (x : AuditS3Exporter) (a : AuditLog)
        → put_object (ndjson marshal (drop x.last_export a.entries)) ≡ true
        → (export marshal put_object x a).0.last_export
          ≡ x.last_export + length (drop x.last_export a.entries)
    unfolding export
    export_ok x a ok =
        ap (λ es. (upload marshal put_object x es).0.last_export) (drain-eq-drop x.last_export a)
        ∙ upload_ok x (drop x.last_export a.entries) ok

    -- Once an export has succeeded on a full buffer, with its index before the end and a bound
    -- of at least 10, an export after any number of further calls of Log uploads nothing and
    -- leaves the exporter as it is.
    pub export_after_full :
        (calls : List (ℕ × AuditEntry)) (x : AuditS3Exporter) (a : AuditLog)
        → 10 ≤ a.max_size
        → length a.entries ≡ a.max_size
        → x.last_export < a.max_size
        → put_object (ndjson marshal (drop x.last_export a.entries)) ≡ true
        → let x' = (export marshal put_object x a).0 in
          export marshal put_object x' (log_all calls a) ≡ (x', none)
    export_after_full calls x a big full behind ok =
        stuck calls _ a big (omega arith)
          (omega (arith, export_ok x a ok, length-drop x.last_export a.entries))
