-- ===== src/Snapshot.antt =====
-- core/src/snapshot.rs: the registry's on-disk shape. The hexadecimal codec is another crate's: `HexLower` is
-- what the file calls of it. A record holds instants; Snapshot/Stored has what the file keeps of them. The
-- message about an unknown state leaves out its name.
mod Tests
pub mod Stored
pub mod Records
pub mod Renewal
pub mod Load
use Prim.Native.String.{String}
use lychgate.Prelude.{
  ℕ, ◌+◌, ◌-◌, ◌≡◌, Bool, true, false, ◌||◌, not, List, [], ◌∷◌, Option, none, some, Result, ok,
  err, ◌>>=◌, ◌>>◌, refuse_if, ok_or, ltb, leb, ◌==◌, if◌then◌else◌, is_empty, length, retain, map,
}
use lychgate.Prelude.Text.{Text, bytes, text_eq}
use lychgate.Prelude.TextSet.{TextSet, collect}
use lychgate.Prelude.TextMap.{TextMap, contains_key, keys, put}
use lychgate.Clock.{
  SystemTime, Duration, checked_add, duration_since, as_secs, from_secs, unix_epoch,
}
use lychgate.Ttl.{Ttl, max_ttl_secs, ttl_from_secs}
use lychgate.Channel.{Channel}
use lychgate.Grant.{Grant, Nonce, max_approval_window_secs}
use lychgate.Grant.Parts.{GrantParts, pending, opening, opened, needs_revert, parts, restore}
use lychgate.Registry.{GrantRegistry, new}

abbrev pub state_version : ℕ
state_version = 4

-- `data_encoding::HEXLOWER`.
pub record HexLower : Type 0 where
  pub encode : List ℕ → Text
  pub decode : Text → Option (List ℕ)

pub record GrantRecord : Type 0 where
  pub state : Text
  pub opened_at : Option SystemTime
  pub expires_at : Option SystemTime
  pub since : Option SystemTime
  pub channels : List Channel
  pub requested_at : Option SystemTime
  pub approval_deadline : Option SystemTime
  pub ttl_secs : Option ℕ
  pub nonce : Option Text
  pub profile : Option Text
  pub satisfied : Option (List Text)

pub record StateDoc : Type 0 where
  pub version : ℕ
  pub grants : TextMap GrantRecord

pub data SnapshotError : Type 0 where
  unknown_hosts : List Text → SnapshotError
  expiry_not_after_opening : (host : Text) → SnapshotError
  exceeds_cap : (host : Text) (secs : ℕ) → SnapshotError
  approval_deadline_not_after_request : (host : Text) → SnapshotError
  approval_window_exceeds_cap : (host : Text) (secs : ℕ) → SnapshotError
  malformed : (host : Text) (message : String) → SnapshotError

-- `epoch_opt`: the seconds that the file keeps of an instant, and the instant that they are read as.
unfoldable pub to_epoch : SystemTime → ℕ
unfolding duration_since
to_epoch t = elim (duration_since t unix_epoch) [ some d ↦ as_secs d | none ↦ 0 ]

unfoldable pub from_secs_checked : ℕ → Option SystemTime
unfolding checked_add
from_secs_checked secs = checked_add unix_epoch (from_secs secs)

abbrev base : GrantRecord
base = record {
  state = [];
  opened_at = none;
  expires_at = none;
  since = none;
  channels = [];
  requested_at = none;
  approval_deadline = none;
  ttl_secs = none;
  nonce = none;
  profile = none;
  satisfied = none;
}

abbrev is_some {ℓ} : {A : Type ℓ} → Option A → Bool
is_some none = false
is_some (some a) = true

abbrev unwrap_or {ℓ} : {A : Type ℓ} → A → Option A → A
unwrap_or a none = a
unwrap_or a (some b) = b

unfoldable pub no_pending_fields : Text → GrantRecord → Result SnapshotError (Unit {0})
no_pending_fields host r =
    refuse_if
      (is_some r.requested_at
        || is_some r.approval_deadline
        || is_some r.ttl_secs
        || is_some r.nonce
        || is_some r.profile
        || is_some r.satisfied)
      (malformed host
        "requested_at/approval_deadline/ttl_secs/nonce/profile/satisfied belong to pending only")

-- The time from the first instant to the second, when it is more than none.
unfoldable pub positive_span : SystemTime → SystemTime → Option Duration
positive_span later earlier = elim (duration_since later earlier) [
  | none ↦ none
  | some span ↦ if span == 0 then none else some span
]

unfoldable pub interval : Text → GrantRecord → Result SnapshotError (SystemTime × SystemTime)
interval host r = do
  no_pending_fields host r
  opened_at ← ok_or r.opened_at (malformed host "missing opened_at")
  expires_at ← ok_or r.expires_at (malformed host "missing expires_at")
  refuse_if (is_some r.since) (malformed host "\"since\" belongs to needs-revert only")
  span ← ok_or (positive_span expires_at opened_at) (expiry_not_after_opening host)
  refuse_if (ltb max_ttl_secs (as_secs span)) (exceeds_cap host (as_secs span))
  ok (opened_at, expires_at)

module _ (hex : HexLower) where
  unfoldable pub record_of : GrantParts → GrantRecord
  record_of (pending requested_at approval_deadline ttl nonce profile satisfied) = record base {
    state = bytes "pending";
    requested_at = some requested_at;
    approval_deadline = some approval_deadline;
    ttl_secs = some (as_secs ttl.duration);
    nonce = some (hex.encode nonce);
    profile = some profile;
    satisfied = some satisfied;
  }
  record_of (opening opened_at expires_at channels) = record base {
    state = bytes "opening";
    opened_at = some opened_at;
    expires_at = some expires_at;
    channels = channels;
  }
  record_of (opened opened_at expires_at channels) = record base {
    state = bytes "open";
    opened_at = some opened_at;
    expires_at = some expires_at;
    channels = channels;
  }
  record_of (needs_revert channels since) = record base {
    state = bytes "needs-revert";
    since = some since;
    channels = channels;
  }

  -- A ttl of zero or over the cap is refused.
  unfoldable pub ttl_of : Text → ℕ → Result SnapshotError Ttl
  ttl_of host ttl_secs = elim (ttl_from_secs ttl_secs) [
    | ok ttl ↦ ok ttl
    | err e ↦
        if ltb max_ttl_secs ttl_secs
        then err (exceeds_cap host ttl_secs)
        else err (malformed host "ttl_secs is zero")
  ]

  unfoldable pub nonce_of : Text → Text → Result SnapshotError Nonce
  nonce_of host text = do
    nonce ← ok_or (hex.decode text) (malformed host "nonce is not valid hex")
    refuse_if (not (length nonce == 32)) (malformed host "nonce is not 32 bytes")
    ok nonce

  unfoldable pub pending_of : Text → GrantRecord → Result SnapshotError GrantParts
  pending_of host r = do
    refuse_if (is_some r.opened_at || is_some r.expires_at || is_some r.since) (
        malformed host
          "pending carries requested_at/approval_deadline/ttl_secs/nonce, not opened/expires/since")
    refuse_if (not (is_empty r.channels))
        (malformed host "a pending request has no applied channels")
    requested_at ← ok_or r.requested_at (malformed host "missing requested_at")
    approval_deadline ← ok_or r.approval_deadline (malformed host "missing approval_deadline")
    ttl_secs ← ok_or r.ttl_secs (malformed host "missing ttl_secs")
    ttl ← ttl_of host ttl_secs
    window ←
        ok_or (positive_span approval_deadline requested_at)
          (approval_deadline_not_after_request host)
    refuse_if (ltb max_approval_window_secs (as_secs window))
        (approval_window_exceeds_cap host (as_secs window))
    text ← ok_or r.nonce (malformed host "missing nonce")
    nonce ← nonce_of host text
    ok (
        pending requested_at approval_deadline ttl nonce (unwrap_or [] r.profile)
          (collect (unwrap_or [] r.satisfied)))

  unfoldable pub needs_revert_of : Text → GrantRecord → Result SnapshotError GrantParts
  needs_revert_of host r = do
    no_pending_fields host r
    refuse_if (is_some r.opened_at || is_some r.expires_at)
        (malformed host "needs-revert carries only \"since\" and channels")
    since ← ok_or r.since (malformed host "missing since")
    ok (needs_revert r.channels since)

  unfoldable pub parts_of : Text → GrantRecord → Result SnapshotError GrantParts
  parts_of host r =
      if text_eq r.state (bytes "pending")
      then pending_of host r
      else if text_eq r.state (bytes "opening")
      then (interval host r >>= λ (a, b). ok (opening a b r.channels))
      else if text_eq r.state (bytes "open")
      then (interval host r >>= λ (a, b). ok (opened a b r.channels))
      else if text_eq r.state (bytes "needs-revert")
      then needs_revert_of host r
      else err (malformed host "unknown state")

  unfoldable pub records : GrantRegistry → TextMap GrantRecord
  records [] = []
  records ((name, grant) ∷ rest) = elim (parts grant) [
    | none ↦ records rest
    | some p ↦ (name, record_of p) ∷ records rest
  ]

  unfoldable pub snapshot : GrantRegistry → StateDoc
  snapshot r = record { version = state_version; grants = records r }

  unfoldable pub restore_all :
      TextMap GrantRecord → GrantRegistry → Result SnapshotError GrantRegistry
  restore_all [] registry = ok registry
  restore_all ((host, r) ∷ rest) registry = do
    p ← parts_of host r
    restore_all rest (put host (restore p) registry)

  -- `hosts` are the names of the inventory.
  unfoldable pub from_parts : List Text → StateDoc → Result SnapshotError GrantRegistry
  from_parts hosts doc =
      let registry = new hosts in
      let unknown = retain (λ host. not (contains_key host registry)) (keys doc.grants) in
      if not (is_empty unknown)
      then err (unknown_hosts unknown)
      else restore_all doc.grants registry
