-- ===== src/Registry.antt =====
-- core/src/registry.rs: one grant per inventory host. `GrantRegistry` is its one private field, the map
-- from host names to grants. `none` as the result of a reaping loop stands for a panic of the source.
mod Tests
pub mod Frame
pub mod Views
pub mod Calls
pub mod Reaping
use lychgate.Prelude.{
  ℕ, ◌≡◌, Bool, List, [], ◌∷◌, Option, none, some, Result, ok, err, map_err, ok_or, map, ◌>>=◌,
}
use lychgate.Prelude.Text.{Text}
use lychgate.Prelude.TextMap.{TextMap, get, put, contains_key, insert}
use lychgate.Clock.{SystemTime}
use lychgate.Ttl.{Ttl}
use lychgate.Channel.{Channel}
use lychgate.Grant.{
  Grant, closed, GrantError, GrantStatus, PendingView, ApprovalRequest, Nonce, awaiting_approval,
  approval_expired, expired, status,
}
use lychgate.Grant as Machine
use lychgate.Grant.Parts.{GrantParts, parts}

pub data RegistryError : Type 0 where
  unknown_host : Text → RegistryError
  grant : GrantError → RegistryError

pub record ExpiredGrant : Type 0 where
  pub host : Text
  pub opened_at : SystemTime
  pub expires_at : SystemTime
  pub channels : List Channel

pub record ExpiredPending : Type 0 where
  pub host : Text
  pub requested_at : SystemTime
  pub approval_deadline : SystemTime

abbrev pub GrantRegistry : Type 0
GrantRegistry = TextMap Grant

-- Every inventory host, given by name, starts with a closed grant.
unfoldable pub new : List Text → GrantRegistry
unfolding insert
new [] = []
new (name ∷ names) = insert name closed (new names)

-- `self.grant_mut(host)?.operation(..).map_err(RegistryError::Grant)`
unfoldable pub with_grant {ℓ} :
    {A : Type ℓ}
    → GrantRegistry
    → Text
    → (Grant → Grant × Result GrantError A)
    → GrantRegistry × Result RegistryError A
with_grant r host operation = elim (get host r) [
  | none ↦ (r, err (unknown_host host))
  | some g ↦ (put host (operation g).0 r, map_err grant (operation g).1)
]

-- The same for an operation that reads.
unfoldable pub reading {ℓ} :
    {A : Type ℓ} → GrantRegistry → Text → (Grant → Result GrantError A) → Result RegistryError A
reading r host operation = elim (get host r) [
  | none ↦ err (unknown_host host)
  | some g ↦ map_err grant (operation g)
]

pub begin_open :
    GrantRegistry
    → Text
    → SystemTime
    → Ttl
    → List Channel
    → GrantRegistry × Result RegistryError SystemTime
begin_open r host now ttl channels = with_grant r host (λ g. Machine.begin_open g now ttl channels)

unfoldable pub finish_open : GrantRegistry → Text → GrantRegistry × Result RegistryError (Unit {0})
finish_open r host = with_grant r host (λ g. Machine.finish_open g)

unfoldable pub abort_open : GrantRegistry → Text → GrantRegistry × Result RegistryError (Unit {0})
abort_open r host = with_grant r host (λ g. Machine.abort_open g)

unfoldable pub fail_open :
    GrantRegistry
    → Text
    → List Channel
    → SystemTime
    → GrantRegistry × Result RegistryError (Unit {0})
fail_open r host stuck now = with_grant r host (λ g. Machine.fail_open g stuck now)

pub begin_revert :
    GrantRegistry → Text → SystemTime → GrantRegistry × Result RegistryError (List Channel)
begin_revert r host now = with_grant r host (λ g. Machine.begin_revert g now)

unfoldable pub retain_stuck :
    GrantRegistry → Text → List Channel → GrantRegistry × Result RegistryError Bool
retain_stuck r host stuck = with_grant r host (λ g. Machine.retain_stuck g stuck)

unfoldable pub finish_revert :
    GrantRegistry → Text → GrantRegistry × Result RegistryError (Unit {0})
finish_revert r host = with_grant r host (λ g. Machine.finish_revert g)

pub renew :
    GrantRegistry → Text → SystemTime → Ttl → GrantRegistry × Result RegistryError SystemTime
renew r host now ttl = with_grant r host (λ g. Machine.renew g now ttl)

pub begin_pending :
    GrantRegistry
    → Text
    → (now approval_deadline : SystemTime) → Ttl
    → Nonce
    → Text
    → GrantRegistry × Result RegistryError (Unit {0})
begin_pending r host now approval_deadline ttl nonce profile =
    with_grant r host (λ g. Machine.begin_pending g now approval_deadline ttl nonce profile)

pub add_satisfied :
    GrantRegistry → Text → SystemTime → Text → GrantRegistry × Result RegistryError Bool
add_satisfied r host now id = with_grant r host (λ g. Machine.add_satisfied g now id)

pub pending_view : GrantRegistry → Text → SystemTime → Result RegistryError PendingView
pending_view r host now = reading r host (λ g. Machine.pending_view g now)

pub pending : GrantRegistry → Text → SystemTime → Result RegistryError ApprovalRequest
pending r host now = reading r host (λ g. Machine.pending_request g host now)

pub approve_to_opening :
    GrantRegistry
    → Text
    → SystemTime
    → List Channel
    → GrantRegistry × Result RegistryError SystemTime
approve_to_opening r host now channels =
    with_grant r host (λ g. Machine.approve_to_opening g now channels)

pub cancel_pending : GrantRegistry → Text → GrantRegistry × Result RegistryError (Unit {0})
cancel_pending r host = with_grant r host (λ g. Machine.cancel_pending g)

pub host_status : GrantRegistry → Text → SystemTime → Result RegistryError GrantStatus
host_status r host now = reading r host (λ g. ok (status g now))

-- Every host's status, in name order.
pub statuses : GrantRegistry → SystemTime → List (Text × GrantStatus)
statuses r now = map (λ e. (e.0, status e.1 now)) r

awaits : GrantStatus → Bool
awaits (awaiting_approval remaining) = Bool.true
awaits _ = Bool.false

-- Hosts observed awaiting approval, in name order.
pub awaiting_approval_hosts : GrantRegistry → SystemTime → List Text
unfolding awaits
awaiting_approval_hosts [] now = []
awaiting_approval_hosts ((name, g) ∷ r) now = elim (awaits (status g now)) [
  | Bool.true ↦ name ∷ awaiting_approval_hosts r now
  | Bool.false ↦ awaiting_approval_hosts r now
]

unfoldable pub needing_revert : GrantRegistry → SystemTime → List (Text × List Channel)
needing_revert [] now = []
needing_revert ((name, g) ∷ r) now = elim (status g now) [
  | GrantStatus.needs_revert channels ↦ (name, channels) ∷ needing_revert r now
  | _ ↦ needing_revert r now
]

-- The channels of a stored-open grant, if it is observed open.
open_channels_of : Grant → SystemTime → Option (List Channel)
open_channels_of g now = elim (status g now) [
  | GrantStatus.opened remaining ↦ elim (parts g) [
    | some (GrantParts.opened a b channels) ↦ some channels
    | _ ↦ none
  ]
  | _ ↦ none
]

unfoldable pub open_channels : GrantRegistry → SystemTime → List (Text × List Channel)
unfolding open_channels_of
open_channels [] now = []
open_channels ((name, g) ∷ r) now = elim (open_channels_of g now) [
  | some channels ↦ (name, channels) ∷ open_channels r now
  | none ↦ open_channels r now
]

-- One round of a loop over `self.grants.iter_mut()`: the grant after it, and what it pushed.
abbrev pub Round : Type 0 → Type 0
Round A = Text → Grant → SystemTime → Option (Grant × Option A)

abbrev pub push_found : {A : Type 0} → Option A → List A → List A
push_found none found = found
push_found (some a) found = a ∷ found

each : {A : Type 0} → Round A → GrantRegistry → SystemTime → Option (GrantRegistry × List A)
each round [] now = some ([], [])
each round ((name, g) ∷ r) now = elim (round name g now) [
  | none ↦ none
  | some (g', found) ↦ elim (each round r now) [
    | none ↦ none
    | some (r', rest) ↦ some ((name, g') ∷ r', push_found found rest)
  ]
]

expire_round : Round ExpiredGrant
expire_round name g now = elim (status g now) [
  | expired ↦ elim (parts g) [
    | some (GrantParts.opened a b cs) ↦ elim (Machine.begin_revert g now).1 [
      | ok channels ↦ some (
        (Machine.begin_revert g now).0,
        some (record { host = name; opened_at = a; expires_at = b; channels = channels }),
      )
      | err e ↦ none
    ]
    | _ ↦ none
  ]
  | _ ↦ some (g, none)
]

unfoldable pub reap_to_revert :
    GrantRegistry → SystemTime → Option (GrantRegistry × List ExpiredGrant)
unfolding each expire_round
reap_to_revert r now = each expire_round r now

lapse_round : Round ExpiredPending
lapse_round name g now = elim (status g now) [
  | approval_expired ↦ elim (parts g) [
    | some (GrantParts.pending a b t n p s) ↦ elim (Machine.cancel_pending g).1 [
      | ok done ↦ some (
        (Machine.cancel_pending g).0,
        some (record { host = name; requested_at = a; approval_deadline = b }),
      )
      | err e ↦ none
    ]
    | _ ↦ none
  ]
  | _ ↦ some (g, none)
]

unfoldable pub reap_expired_pending :
    GrantRegistry → SystemTime → Option (GrantRegistry × List ExpiredPending)
unfolding each lapse_round
reap_expired_pending r now = each lapse_round r now

demote_round : Round (Text × List Channel)
demote_round name g now = elim (status g now) [
  | GrantStatus.opening ↦ elim (parts g) [
    | some (GrantParts.opening a b channels) ↦ elim (Machine.fail_open g channels now).1 [
      | ok done ↦ some ((Machine.fail_open g channels now).0, some (name, channels))
      | err e ↦ none
    ]
    | _ ↦ none
  ]
  | _ ↦ some (g, none)
]

-- Boot-time demotion of a stored `Opening`.
unfoldable pub demote_opening :
    GrantRegistry → SystemTime → Option (GrantRegistry × List (Text × List Channel))
unfolding each demote_round
demote_opening r now = each demote_round r now
