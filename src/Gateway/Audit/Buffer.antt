-- ===== src/Gateway/Audit/Buffer.antt =====
-- The audit log as a buffer: it is bounded, it keeps the newest entries in order, and reading it
-- never goes out of range.
use mathlib.Core.List.{reverse}
use remote_juggler.Prelude.{
  ℕ, ◌/◌, ◌≤◌, ◌≡◌, refl, Option, some, [], ◌∷◌, length, drop, take, is_some, arith, length-append,
  length-drop, Bool-cases, inl, inr,
}
use remote_juggler.Prelude.Int.{pos, negsuc}
use remote_juggler.Text.{Text}
use remote_juggler.Gateway.Newest.{newest_from-eq-take}
use remote_juggler.Gateway.Audit.{AuditEntry, AuditLog, append_entry, log_entry, recent, min_of}

abbrev pub Fits : AuditLog → Type 0
Fits a = length a.entries ≤ a.max_size

append_entry-Fits :
    (e : AuditEntry) (a : AuditLog) → 10 ≤ a.max_size → Fits a → Fits (append_entry e a)
unfolding append_entry
append_entry-Fits e a big h = ground (
  arith,
  length-append (drop (a.max_size / 10) a.entries) (e ∷ []),
  length-append a.entries (e ∷ []),
  length-drop (a.max_size / 10) a.entries,
)

-- Logging keeps a buffer that is within its bound within it, for a bound of at least 10.
pub log_entry-Fits :
    (marshal : AuditEntry → Option Text) (now : ℕ) (e : AuditEntry) (a : AuditLog)
    → 10 ≤ a.max_size
    → Fits a
    → Fits (log_entry marshal now e a)
unfolding log_entry
log_entry-Fits marshal now e a big h =
    let stamped = record e { timestamp = now } in
    elim (Bool-cases (is_some (marshal stamped))) [
      | inl stored ↦ rw stored (append_entry-Fits stamped a big h)
      | inr lost ↦ rw lost h
    ]

-- Appending leaves the bound alone.
pub log_entry_max_size :
    (marshal : AuditEntry → Option Text) (now : ℕ) (e : AuditEntry) (a : AuditLog)
    → (log_entry marshal now e a).max_size ≡ a.max_size
unfolding log_entry
log_entry_max_size marshal now e a = ground arith

-- Recent never indexes out of range, for any argument. It returns the last n entries, newest first:
-- all of them if there are fewer, at most 10000, and none if n is not positive.
pub recent-eq-take :
    (n : ℕ) (a : AuditLog)
    → (recent (pos n) a
        ≡ some (take (min_of (min_of n 10000) (length a.entries)) (reverse a.entries)))
      × (recent (negsuc n) a ≡ some [])
unfolding recent
recent-eq-take n a = (newest_from-eq-take a.entries _ (ground arith), refl)
