-- ===== src/Snapshot/Stored.antt =====
-- `epoch_opt` of core/src/snapshot.rs: what a document reads as once it was written. The file keeps the whole seconds
-- of an instant, and a time before the epoch as the epoch.
use lychgate.Prelude.{◌+◌, ◌≤◌, ◌<◌, Option, none, some, [], ◌∷◌, arith}
use lychgate.Prelude.TextMap.{TextMap}
use lychgate.Clock.{SystemTime, unix_epoch, clock_limit, nanos_per_sec, checked_add, duration_since}
use lychgate.Snapshot.{GrantRecord, StateDoc, to_epoch, from_secs_checked}

-- An instant that the clock cannot hold is none that a daemon writes; it stays as it is.
abbrev pub stored_instant : SystemTime → SystemTime
stored_instant t = elim (from_secs_checked (to_epoch t)) [ none ↦ t | some u ↦ u ]

abbrev pub stored_opt : Option SystemTime → Option SystemTime
stored_opt none = none
stored_opt (some t) = some (stored_instant t)

abbrev pub stored_record : GrantRecord → GrantRecord
stored_record r = record r {
  opened_at = stored_opt r.opened_at;
  expires_at = stored_opt r.expires_at;
  since = stored_opt r.since;
  requested_at = stored_opt r.requested_at;
  approval_deadline = stored_opt r.approval_deadline;
}

unfoldable pub stored_records : TextMap GrantRecord → TextMap GrantRecord
stored_records [] = []
stored_records ((host, r) ∷ rest) = (host, stored_record r) ∷ stored_records rest

unfoldable pub stored : StateDoc → StateDoc
stored doc = record doc { grants = stored_records doc.grants }

-- An instant from the epoch on is read back as the whole second at or before it.
pub stored_instant_lem :
    (t : SystemTime)
    → unix_epoch ≤ t
    → t < clock_limit
    → (stored_instant t ≤ t) × (t < stored_instant t + nanos_per_sec)
unfolding to_epoch from_secs_checked checked_add duration_since
stored_instant_lem t l u = ground arith
