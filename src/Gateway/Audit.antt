-- ===== src/Gateway/Audit.antt =====
-- The audit log of gateway/identity.go, a bounded buffer of entries, and the exporter of
-- gateway/audit_s3.go, which uploads what was added to it. Times are nanoseconds.
pub mod Buffer
pub mod Export
use remote_juggler.Prelude.{
  ℕ, zero, suc, ◌+◌, ◌-◌, ◌/◌, Bool, true, false, Option, none, some, List, [], ◌∷◌, ◌++◌, ltb, leb,
  length, drop, is_some, if◌then◌else◌,
}
use remote_juggler.Prelude.Int.{ℤ, pos, negsuc}
use remote_juggler.Text.{Text}
use remote_juggler.Gateway.Identity.{CallerIdentity}
use remote_juggler.Gateway.Newest.{newest_from}

pub record AuditEntry : Type 0 where
  pub timestamp : ℕ
  pub caller : CallerIdentity
  pub action : Text
  pub query : Text
  pub source : Text
  pub allowed : Bool
  pub reason : Text
  pub campaign_id : Text

pub record AuditLog : Type 0 where
  pub entries : List AuditEntry
  pub max_size : ℕ

unfoldable pub new_audit_log : AuditLog
new_audit_log = record { entries = []; max_size = 1000 }

-- Appending drops the oldest tenth of a full buffer first.
unfoldable pub append_entry : AuditEntry → AuditLog → AuditLog
append_entry e a =
    let kept =
      if leb a.max_size (length a.entries) then drop (a.max_size / 10) a.entries else a.entries in
    record a { entries = kept ++ (e ∷ []) }

-- `json.Marshal` of an entry; `none` is its error.
module _ (marshal : AuditEntry → Option Text) where
  -- `Log`: an entry that cannot be marshalled is not stored.
  unfoldable pub log_entry : ℕ → AuditEntry → AuditLog → AuditLog
  unfolding append_entry
  log_entry now e a =
      let stamped = record e { timestamp = now } in
      if is_some (marshal stamped) then append_entry stamped a else a

-- `Drain`
unfoldable pub drain : ℕ → AuditLog → List AuditEntry
drain since a = if leb (length a.entries) since then [] else drop since a.entries

abbrev min_of : ℕ → ℕ → ℕ
min_of a b = if ltb b a then b else a

-- `Recent`; `none` is a panic.
unfoldable pub recent : ℤ → AuditLog → Option (List AuditEntry)
unfolding newest_from
recent (negsuc n) a = some []
recent (pos n) a = newest_from a.entries 0 (min_of (min_of n 10000) (length a.entries))

-- The part of AuditS3Exporter that its export loop changes.
pub record AuditS3Exporter : Type 0 where
  pub last_export : ℕ

-- The lines of an upload. An entry that cannot be marshalled is left out.
unfoldable pub ndjson : (AuditEntry → Option Text) → List AuditEntry → Text
ndjson marshal [] = []
ndjson marshal (e ∷ es) = elim (marshal e) [
  | none ↦ ndjson marshal es
  | some line ↦ line ++ (10 ∷ ndjson marshal es)
]

module _ (marshal : AuditEntry → Option Text) (put_object : Text → Bool) where
  -- The part of `export` after Drain. `put_object` tells whether the upload of a payload succeeds.
  unfoldable pub upload : AuditS3Exporter → List AuditEntry → AuditS3Exporter × Option Text
  unfolding ndjson
  upload x [] = (x, none)
  upload x (e ∷ es) =
      let payload = ndjson marshal (e ∷ es) in
      (
        if put_object payload
            then record x { last_export = x.last_export + length (e ∷ es) }
            else x,
        some payload,
      )

  -- `export`: the exporter afterwards, and what it tried to upload.
  unfoldable pub export : AuditS3Exporter → AuditLog → AuditS3Exporter × Option Text
  unfolding drain upload
  export x a = upload x (drain x.last_export a)
