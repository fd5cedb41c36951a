-- ===== src/Grant.antt =====
-- core/src/grant.rs: the grant state machine. `Grant` is its one private field, the state; an operation
-- that the source writes with `&mut self` returns the grant after the call and its `Result`.
mod Tests
pub mod Lifecycle
pub mod Expiry
pub mod Bound
pub mod Parts
pub mod Views
use lychgate.Prelude.{
  ℕ, ◌+◌, ◌-◌, ◌<◌, ◌≤◌, ◌≡◌, Bool, true, false, not, List, [], ◌∷◌, Option, none, some, Result, ok,
  err, ltb, leb, ◌==◌, if◌then◌else◌,
}
use lychgate.Prelude.Text.{Text}
use lychgate.Prelude.TextSet.{TextSet, contains, insert}
use lychgate.Clock.{SystemTime, Duration, checked_add, duration_since, as_secs, from_secs}
use lychgate.Ttl.{Ttl, renewal_window_secs, max_ttl_secs}
use lychgate.Channel.{Channel, channels_eq}

abbrev pub max_approval_window_secs : ℕ
max_approval_window_secs = max_ttl_secs

-- The 32 bytes of a challenge nonce.
abbrev pub Nonce : Type 0
Nonce = List ℕ

pub data Grant : Type 0 where
  closed : Grant
  pending :
      (requested_at approval_deadline : SystemTime) (ttl : Ttl) (nonce : Nonce) (profile : Text)
      (satisfied : TextSet)
      → Grant
  opening : (opened_at expires_at : SystemTime) (channels : List Channel) → Grant
  opened : (opened_at expires_at : SystemTime) (channels : List Channel) → Grant
  needs_revert : (channels : List Channel) (since : SystemTime) → Grant

pub data GrantStatus : Type 0 where
  closed : GrantStatus
  awaiting_approval : (remaining : Duration) → GrantStatus
  approval_expired : GrantStatus
  opening : GrantStatus
  opened : (remaining : Duration) → GrantStatus
  expired : GrantStatus
  needs_revert : (channels : List Channel) → GrantStatus

pub record PendingView : Type 0 where
  pub profile : Text
  pub satisfied : TextSet
  pub requested_at : SystemTime
  pub elapsed : Duration

pub data GrantError : Type 0 where
  already_open not_open mid_open already_pending not_pending : GrantError
  approval_window_elapsed : GrantError
  too_early : (remaining : Duration) → GrantError
  clock_overflow : GrantError

-- The part of `ApprovalRequest` that a grant fills in (core/src/approval.rs).
pub record ApprovalRequest : Type 0 where
  pub nonce : Nonce
  pub host : Text
  pub ttl_secs : ℕ
  pub requested_at : SystemTime

-- The time left, when some is: an instant observed exactly has passed.
remaining_until : SystemTime → SystemTime → Option Duration
unfolding duration_since
remaining_until deadline now = elim (duration_since deadline now) [
  | none ↦ none
  | some remaining ↦ if remaining == 0 then none else some remaining
]

unfoldable pub status : Grant → SystemTime → GrantStatus
unfolding remaining_until
status closed now = GrantStatus.closed
status (pending requested_at approval_deadline ttl nonce profile satisfied) now =
    elim (remaining_until approval_deadline now) [
      | none ↦ approval_expired
      | some remaining ↦ awaiting_approval remaining
    ]
status (opening opened_at expires_at channels) now = GrantStatus.opening
status (opened opened_at expires_at channels) now = elim (remaining_until expires_at now) [
  | none ↦ expired
  | some remaining ↦ GrantStatus.opened remaining
]
status (needs_revert channels since) now = GrantStatus.needs_revert channels

-- `now + ttl` as the new expiry, in a state that `into` builds.
open_at : (Grant) → (SystemTime → Grant) → Option SystemTime → Grant × Result GrantError SystemTime
open_at g into none = (g, err clock_overflow)
open_at g into (some expires_at) = (into expires_at, ok expires_at)

unfoldable pub begin_open :
    Grant → SystemTime → Ttl → List Channel → Grant × Result GrantError SystemTime
unfolding status open_at checked_add
begin_open g now ttl channels = elim (status g now) [
  | GrantStatus.closed ↦
      open_at g (λ expires_at. opening now expires_at channels) (checked_add now ttl.duration)
  | GrantStatus.opening ↦ (g, err mid_open)
  | _ ↦ (g, err already_open)
]

unfoldable pub finish_open : Grant → Grant × Result GrantError (Unit {0})
finish_open (opening opened_at expires_at channels) = (opened opened_at expires_at channels, ok tt)
finish_open g = (g, err not_open)

unfoldable pub abort_open : Grant → Grant × Result GrantError (Unit {0})
abort_open (opening opened_at expires_at channels) = (closed, ok tt)
abort_open g = (g, err not_open)

unfoldable pub fail_open : Grant → List Channel → SystemTime → Grant × Result GrantError (Unit {0})
fail_open (opening opened_at expires_at channels) stuck now = (needs_revert stuck now, ok tt)
fail_open g stuck now = (g, err not_open)

unfoldable pub begin_revert : Grant → SystemTime → Grant × Result GrantError (List Channel)
begin_revert (opened opened_at expires_at channels) now = (needs_revert channels now, ok channels)
begin_revert (needs_revert channels since) now = (needs_revert channels since, ok channels)
begin_revert (opening opened_at expires_at channels) now =
    (opening opened_at expires_at channels, err mid_open)
begin_revert (pending requested_at deadline ttl nonce profile satisfied) now =
    (pending requested_at deadline ttl nonce profile satisfied, err not_pending)
begin_revert closed now = (closed, err not_open)

unfoldable pub retain_stuck : Grant → List Channel → Grant × Result GrantError Bool
unfolding channels_eq
retain_stuck (needs_revert channels since) stuck =
    (needs_revert stuck since, ok (not (channels_eq channels stuck)))
retain_stuck g stuck = (g, err not_open)

unfoldable pub finish_revert : Grant → Grant × Result GrantError (Unit {0})
finish_revert (needs_revert channels since) = (closed, ok tt)
finish_revert g = (g, err not_open)

-- `if let GrantState::Open { .. } = &self.state { self.state = .. }` of `renew`.
set_expiry : Grant → SystemTime → Grant
set_expiry (opened opened_at old channels) expires_at = opened opened_at expires_at channels
set_expiry g expires_at = g

unfoldable pub renew : Grant → SystemTime → Ttl → Grant × Result GrantError SystemTime
unfolding status set_expiry open_at checked_add
renew g now ttl = elim (status g now) [
  | GrantStatus.opened remaining ↦
      if ltb (from_secs renewal_window_secs) remaining
      then (g, err (too_early remaining))
      else open_at g (set_expiry g) (checked_add now ttl.duration)
  | _ ↦ (g, err not_open)
]

unfoldable pub begin_pending :
    Grant
    → (now approval_deadline : SystemTime) → Ttl
    → Nonce
    → Text
    → Grant × Result GrantError (Unit {0})
unfolding status
begin_pending g now approval_deadline ttl nonce profile = elim (status g now) [
  | GrantStatus.closed ↦ (pending now approval_deadline ttl nonce profile [], ok tt)
  | GrantStatus.opening ↦ (g, err mid_open)
  | awaiting_approval remaining ↦ (g, err already_pending)
  | approval_expired ↦ (g, err already_pending)
  | _ ↦ (g, err already_open)
]

-- `satisfied.insert(id)`: whether the id is new, and the set with it.
record_proof : Grant → Text → Grant × Result GrantError Bool
unfolding contains insert
record_proof (pending requested_at deadline ttl nonce profile satisfied) id = (
  pending requested_at deadline ttl nonce profile (insert id satisfied),
  ok (not (contains id satisfied)),
)
record_proof g id = (g, err not_pending)

unfoldable pub add_satisfied : Grant → SystemTime → Text → Grant × Result GrantError Bool
unfolding status record_proof
add_satisfied g now id = elim (status g now) [
  | awaiting_approval remaining ↦ record_proof g id
  | approval_expired ↦ (g, err approval_window_elapsed)
  | _ ↦ (g, err not_pending)
]

-- `now.duration_since(requested_at).unwrap_or_default()`
elapsed_since : SystemTime → SystemTime → Duration
unfolding duration_since
elapsed_since now requested_at = elim (duration_since now requested_at) [
  | none ↦ 0
  | some elapsed ↦ elapsed
]

view_of : Grant → SystemTime → Result GrantError PendingView
unfolding elapsed_since
view_of (pending requested_at deadline ttl nonce profile satisfied) now = ok (record {
  profile = profile;
  satisfied = satisfied;
  requested_at = requested_at;
  elapsed = elapsed_since now requested_at;
})
view_of g now = err not_pending

unfoldable pub pending_view : Grant → SystemTime → Result GrantError PendingView
unfolding status view_of
pending_view g now = elim (status g now) [
  | awaiting_approval remaining ↦ view_of g now
  | approval_expired ↦ err approval_window_elapsed
  | _ ↦ err not_pending
]

request_of : Grant → Text → Result GrantError ApprovalRequest
request_of (pending requested_at deadline ttl nonce profile satisfied) host = ok (record {
  nonce = nonce;
  host = host;
  ttl_secs = as_secs ttl.duration;
  requested_at = requested_at;
})
request_of g host = err not_pending

unfoldable pub pending_request : Grant → Text → SystemTime → Result GrantError ApprovalRequest
unfolding status request_of
pending_request g host now = elim (status g now) [
  | awaiting_approval remaining ↦ request_of g host
  | approval_expired ↦ err approval_window_elapsed
  | _ ↦ err not_pending
]

-- The inner `match &self.state` of `approve_to_opening`.
open_pending : Grant → SystemTime → List Channel → Grant × Result GrantError SystemTime
unfolding open_at checked_add
open_pending (pending requested_at deadline ttl nonce profile satisfied) now channels =
    open_at (pending requested_at deadline ttl nonce profile satisfied)
      (λ expires_at. opening now expires_at channels) (checked_add now ttl.duration)
open_pending g now channels = (g, err not_pending)

unfoldable pub approve_to_opening :
    Grant → SystemTime → List Channel → Grant × Result GrantError SystemTime
unfolding status open_pending
approve_to_opening g now channels = elim (status g now) [
  | awaiting_approval remaining ↦ open_pending g now channels
  | approval_expired ↦ (g, err approval_window_elapsed)
  | _ ↦ (g, err not_pending)
]

unfoldable pub cancel_pending : Grant → Grant × Result GrantError (Unit {0})
cancel_pending (pending requested_at deadline ttl nonce profile satisfied) = (closed, ok tt)
cancel_pending g = (g, err not_pending)
