-- ===== src/Daemon.antt =====
-- daemon/src/lifecycle.rs: the daemon's state, and its calls as actions on that state that answer or end the
-- daemon. `Outside` is what a call meets beyond the process: the drivers of core/src/channel.rs, the `dyn
-- DeadmanControl`, and whether the state file can be read and written and the journal written. A call runs alone.
mod Tests
pub mod Frame
pub mod Opening
pub mod Reverting
pub mod Renewing
pub mod Proofs
pub mod Policy
pub mod Requesting
pub mod Approving
pub mod Maturing
pub mod Dispatch
use Prim.Native.String.{String}
use lychgate.Prelude.{
  ℕ, ◌+◌, Bool, true, false, not, List, [], ◌∷◌, ◌++◌, Option, none, some, Result, ok, err,
  if◌then◌else◌, map, map_err, ◌==◌, ◌&&◌, ◌||◌,
}
use lychgate.Prelude.Text.{Text, text_eq}
use lychgate.Clock.{SystemTime}
use lychgate.Ttl.{TtlError}
use lychgate.Channel.{Channel}
use lychgate.Channel.Drivers.{Driver, DriverSet, DriverError}
use lychgate.Registry.{GrantRegistry, RegistryError}
use lychgate.Authority.Spec.{AuthorityBody, AuthorityError}
use lychgate.Prelude.TextMap.{TextMap}
use lychgate.Approval.{ApprovalError}
use lychgate.Approval.Ledgers.{ReadError}
use lychgate.Protocol.{PendingChallenge, GrantLine}
use lychgate.Snapshot.Stored.{stored}
use lychgate.Snapshot.{state_version, HexLower, StateDoc, SnapshotError, snapshot, from_parts}

-- The profiles that a host permits, and its own authorities for some of them.
pub record HostAccess : Type 0 where
  pub profiles : List Text
  pub overrides : TextMap AuthorityBody

-- What the calls read of an inventory host.
pub record Host : Type 0 where
  pub name : Text
  pub channels : List Channel
  pub has_ssh : Bool
  pub drill : Bool
  pub access : Option HostAccess

-- An event without its error message.
pub data Event : Type 0 where
  daemon_start : (inventory : Text) (hosts : ℕ) → Event
  daemon_stop : Event
  requested :
      (host : Text) (declared : List Channel) (ttl_secs requested_at approval_deadline : ℕ) → Event
  proof_accepted : (host authenticator : Text) → Event
  approval_denied mcp_refused : (host : Text) → Event
  opened : (host : Text) (applied declared : List Channel) (ttl_secs expires_at : ℕ) → Event
  open_failed : (host : Text) (failed : Channel) (stuck : List Channel) → Event
  renewed : (host : Text) (ttl_secs expires_at : ℕ) → Event
  closed : (host : Text) (deadman_fired : Bool) → Event
  expired : (host : Text) (channels : List Channel) (opened_at expires_at : ℕ) → Event
  reestablished : (host : Text) (channels : List Channel) → Event
  approved : (host : Text) (requested_at : ℕ) → Event
  request_expired : (host : Text) (requested_at approval_deadline : ℕ) → Event
  request_cancelled drill_passed drill_failed : (host : Text) → Event

-- Why a call answers `Response::refused`.
pub data Refusal : Type 0 where
  registry : RegistryError → Refusal
  ttl : TtlError → Refusal
  no_backstop not_rescheduled not_told : DriverError → Refusal
  open_failed_on : Channel → DriverError → (stuck : List Channel) → Refusal
  close_incomplete : (stuck : List Channel) → Refusal
  not_awaiting not_canary not_idle drill_did_not_pass : Refusal
  no_permitted_profile : (host : Text) → Refusal
  profile_not_named : (host : Text) (permitted : List Text) → Refusal
  profile_not_permitted : (host profile : Text) → Refusal
  profile_undefined : (profile : Text) → Refusal
  bad_override : AuthorityError → Refusal
  wait_exceeds_window : (profile : Text) (wait_secs window_secs : ℕ) → Refusal
  window_overflows needs_policy drill_not_mcp : Refusal
  profile_not_mcp : (profile host : Text) → Refusal
  proof_refused : ApprovalError → Refusal

-- A response, by the answers that these calls give.
pub data Response (Secret : Type 0) : Type 0 where
  refused : Refusal → Response Secret
  opened_until : (expires_at : ℕ) (secret : Option (Channel × Secret)) → Response Secret
  opening already_closed closed cancelled drill_passed : Response Secret
  pending : PendingChallenge → Response Secret
  grants : List GrantLine → Response Secret

-- What ends the daemon: an error that `?` passes out of a call, or a panic. `too_deep` is the bound of the model
-- on the depth of a recursion into groups.
pub data Fatal : Type 0 where
  unreadable unwritable unjournaled panic : Fatal
  invalid : SnapshotError → Fatal
  unexpected : RegistryError → Fatal
  bad_ledger : ReadError → Fatal
  uncounted stored_hash too_deep : Fatal

pub record DeadmanControl (World : Type 0) : Type 0 where
  pub install : Host → SystemTime → World → World × Result DriverError (Unit {0})
  pub reschedule : Host → SystemTime → World → World × Result DriverError (Unit {0})
  pub remove : Host → World → World × Result DriverError Bool

pub record Outside (Secret World : Type 0) : Type 0 where
  pub driver : Driver Host Secret World
  pub deadman : DeadmanControl World
  pub hex : HexLower
  pub can_read : StateDoc → Bool
  pub can_write : StateDoc → Bool
  pub can_journal : List Event → Event → Bool

pub record Daemon (World : Type 0) : Type 0 where
  pub inventory : List Host
  pub doc : StateDoc
  pub journal : List Event
  pub drivers : DriverSet World

-- An action of the daemon.
abbrev pub Act : Type 0 → Type 0 → Type 0
Act World A = Daemon World → Daemon World × Result Fatal A

-- The versions of the state file that this build reads.
abbrev pub is_readable : (version : ℕ) → Bool
is_readable v = v == 2 || v == 3 || v == state_version

-- `self.host(name)`
unfoldable pub find_host : Text → List Host → Option Host
find_host name [] = none
find_host name (h ∷ hs) = if text_eq h.name name then some h else find_host name hs

module _ {World : Type 0} where
  abbrev pub pure : {A : Type 0} → A → Act World A
  pure a d = (d, ok a)

  abbrev pub fatal : {A : Type 0} → Fatal → Act World A
  fatal e d = (d, err e)

  infixl 5 ◌>>=◌ ◌>>◌
  abbrev pub ◌>>=◌ : {A B : Type 0} → Act World A → (A → Act World B) → Act World B
  ◌>>=◌ m f d = let r = m d in elim r.1 [ ok a ↦ f a r.0 | err e ↦ (r.0, err e) ]

  abbrev pub ◌>>◌ : {A B : Type 0} → Act World A → Act World B → Act World B
  m >> k = m >>= λ _. k

  unfoldable pub host_of : Text → Act World (Option Host)
  unfolding find_host
  host_of name d = (d, ok (find_host name d.inventory))

  abbrev pub known : Option Host → Act World Host
  known none = fatal panic
  known (some h) = pure h

  -- The same where the code panics on a host that is not there.
  unfoldable pub known_host : Text → Act World Host
  known_host name d = known (find_host name d.inventory) d

  module _ {Secret : Type 0} (outside : Outside Secret World) where
    unfoldable pub journal : Event → Act World (Unit {0})
    journal event d =
        if outside.can_journal d.journal event
        then (record d { journal = d.journal ++ (event ∷ []) }, ok tt)
        else (d, err unjournaled)

    -- The document after an operation: a refusal leaves it as it was.
    abbrev pub next_doc :
        {A : Type 0} → StateDoc → GrantRegistry → Result RegistryError A → StateDoc
    next_doc doc r (ok _) = snapshot outside.hex r
    next_doc doc r (err _) = doc

    -- The state holds the document as the next read finds it.
    abbrev pub write : {A : Type 0} → StateDoc → A → Act World A
    write doc a d =
        if outside.can_write doc then (record d { doc = stored doc }, ok a) else (d, err unwritable)

    abbrev pub commit :
        {A : Type 0}
        → (GrantRegistry → GrantRegistry × Result RegistryError A)
        → Result Fatal GrantRegistry
        → Act World (Result RegistryError A)
    commit op (err e) d = (d, err e)
    commit op (ok r) d = write (next_doc d.doc (op r).0 (op r).1) (op r).1 d

    -- `store.read`, which refuses the versions that it does not know, and `from_parts`.
    abbrev pub registry_of : Daemon World → Result Fatal GrantRegistry
    registry_of d =
        if outside.can_read d.doc && is_readable d.doc.version
        then map_err invalid (from_parts outside.hex (map (λ (h : Host). h.name) d.inventory) d.doc)
        else err unreadable

    -- `store.mutate` around `from_parts`, an operation and `snapshot`.
    unfoldable pub with_registry :
        {A : Type 0}
        → (GrantRegistry → GrantRegistry × Result RegistryError A)
        → Act World (Result RegistryError A)
    with_registry op d = commit op (registry_of d) d

    -- The same around an operation that refuses nothing; `none` is its panic.
    unfoldable pub mutate :
        {A : Type 0} → (GrantRegistry → Option (GrantRegistry × A)) → Act World A
    mutate op d = elim (registry_of d) [
      | err e ↦ (d, err e)
      | ok r ↦ elim (op r) [
        | none ↦ (d, err panic)
        | some (r', a) ↦ write (snapshot outside.hex r') a d
      ]
    ]

    abbrev pub expect : {A : Type 0} → Result RegistryError A → Act World A
    expect (ok a) = pure a
    expect (err _) = fatal panic

    -- `with_registry` with `expect` on the refusal.
    unfoldable pub must :
        {A : Type 0} → (GrantRegistry → GrantRegistry × Result RegistryError A) → Act World A
    must op = with_registry op >>= expect

    unfoldable pub with_read_registry : {A : Type 0} → (GrantRegistry → A) → Act World A
    with_read_registry op d = elim (registry_of d) [ err e ↦ (d, err e) | ok r ↦ (d, ok (op r)) ]

  -- A call on the drivers, or on the targets that they reach.
  unfoldable pub with_drivers : {A : Type 0} → (DriverSet World → DriverSet World × A) → Act World A
  with_drivers f d = (record d { drivers = (f d.drivers).0 }, ok (f d.drivers).1)

  unfoldable pub with_target : {A : Type 0} → (World → World × A) → Act World A
  with_target f d = (
    record d { drivers = record d.drivers { world = (f d.drivers.world).0 } },
    ok (f d.drivers.world).1,
  )
