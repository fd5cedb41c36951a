-- ===== src/Daemon/Reverting/Closing.antt =====
-- What daemon/src/lifecycle.rs has done when it says that a grant is closed.
use lychgate.Prelude.{
  ◌≡◌, ◌≢◌, ◌&&◌, inl, inr, Bool-cases, refl, sym, ap, ◌∙◌, Bool, true, false, List, Option, none,
  some, Result, ok, err, map, if◌then◌else◌, arith,
}
use lychgate.Prelude.Text.{Text}
use lychgate.Prelude.TextMap.{get}
use lychgate.Clock.{SystemTime}
use lychgate.Channel.{Channel, member}
use lychgate.Channel.Drivers.{DriverError, RevertOutcome, reverted, stuck, revert_channels}
use lychgate.Channel.Orchestration.{Contract, Retracts, revert_channels-Retracts}
use lychgate.Grant.{Grant, GrantError, not_open, needs_revert}
use lychgate.Grant as Machine
use lychgate.Registry.{GrantRegistry, RegistryError, grant, with_grant}
use lychgate.Registry
use lychgate.Snapshot.{from_parts}
use lychgate.Daemon.{
  Host, Event, Fatal, panic, known, Outside, Daemon, Act, pure, ◌>>=◌, find_host, known_host,
  with_drivers, with_registry, with_target, journal, commit, registry_of, is_readable,
}
use lychgate.Daemon.Opening.Commits.{names}
use lychgate.Daemon.Reverting.{
  RevertProgress, all_closed, still_stuck, drive_one_revert, settle_revert, finish_close,
  keep_stuck, finished, retained, removed,
}

module _ {Secret World : Type 0} (outside : Outside Secret World) where
  -- An action that leaves the drivers and the targets alone.
  abbrev Leaves : {A : Type 0} → Act World A → Type 0
  Leaves m = (d : Daemon World) → (m d).0.drivers ≡ d.drivers

  then-Leaves :
      {A B : Type 0} (m : Act World A) (f : A → Act World B)
      → Leaves m
      → ((a : A) → Leaves (f a))
      → Leaves (m >>= f)
  then-Leaves {A = A} {B = B} m f h k d = after (m d).1 (m d).0 (h d)
    where
      after :
          (r : Result Fatal A) (d' : Daemon World)
          → d'.drivers ≡ d.drivers
          → (elim r as (λ _. Daemon World × Result Fatal B) [
            | ok a ↦ f a d'
            | err e ↦ (d', err e)
          ]).0.drivers
            ≡ d.drivers
      after (ok a) d' e = k a d' ∙ e
      after (err x) d' e = e

  journal-Leaves : (event : Event) → Leaves (journal outside event)
  unfolding journal
  journal-Leaves event d = ground arith

  with_registry-Leaves :
      {A : Type 0} (op : GrantRegistry → GrantRegistry × Result RegistryError A)
      → Leaves (with_registry outside op)
  unfolding with_registry
  with_registry-Leaves op d = committed (registry_of outside d)
    where
      committed : (x : Result Fatal GrantRegistry) → (commit outside op x d).0.drivers ≡ d.drivers
      committed (err e) = refl
      committed (ok r) = ground arith

  finished-Leaves :
      (host : Text) (fired : Bool) (x : Result RegistryError (Unit {0}))
      → Leaves (finished outside host fired x)
  finished-Leaves host fired (ok _) d =
      then-Leaves (journal outside (Event.closed host fired)) (λ _. pure all_closed)
        (journal-Leaves (Event.closed host fired)) (λ _ d. refl) d
  finished-Leaves host fired (err (grant not_open)) d = refl
  finished-Leaves host fired (err e) d = ground arith

  finish_close-Leaves : (host : Text) (fired : Bool) → Leaves (finish_close outside host fired)
  unfolding finish_close
  finish_close-Leaves host fired =
      then-Leaves (with_registry outside (λ r. Registry.finish_revert r host))
        (finished outside host fired) (with_registry-Leaves (λ r. Registry.finish_revert r host))
        (finished-Leaves host fired)

  -- An action that ends with a value ran its parts.
  then_inv :
      {A B : Type 0} (m : Act World A) (f : A → Act World B) (d : Daemon World) (b : B)
      → ((m >>= f) d).1 ≡ ok b
      → (a : A) × ((m d).1 ≡ ok a) × ((f a (m d).0).1 ≡ ok b) × (((m >>= f) d).0 ≡ (f a (m d).0).0)
  then_inv {A = A} {B = B} m f d b h = inverted (m d).1 refl h
    where
      inverted :
          (r : Result Fatal A)
          → (m d).1 ≡ r
          → (elim r as (λ _. Daemon World × Result Fatal B) [
            | ok a ↦ f a (m d).0
            | err e ↦ ((m d).0, err e)
          ]).1
            ≡ ok b
          → (a : A) × ((m d).1 ≡ ok a)
            × ((f a (m d).0).1 ≡ ok b)
            × ((elim r as (λ _. Daemon World × Result Fatal B) [
              | ok a ↦ f a (m d).0
              | err e ↦ ((m d).0, err e)
            ]).0
                ≡ (f a (m d).0).0)
      inverted (ok a) e q = (a, e, q, refl)
      inverted (err x) e q = absurd (let e : Path (Result Fatal B) (err x) (ok b) = q in cc)

  stuck_closed :
      (left : List Channel)
      → Path (Result Fatal RevertProgress) (ok (still_stuck left)) (ok all_closed)
      → ⊥
  stuck_closed left q = ground (arith, q)

  commit_inv :
      {A : Type 0} (op : GrantRegistry → GrantRegistry × Result RegistryError A) (r : GrantRegistry)
      (d : Daemon World) (x : Result RegistryError A)
      → (commit outside op (ok r) d).1 ≡ ok x
      → x ≡ (op r).1
  commit_inv op r d x h = ground (arith, h)

  retain_stuck_ok :
      (r : GrantRegistry) (left channels : List Channel) (since : SystemTime) (host : Text)
      → get host r ≡ some (needs_revert channels since)
      → ((e : RegistryError) → (Registry.retain_stuck r host left).1 ≢ err e)
  unfolding Registry.retain_stuck with_grant Machine.retain_stuck
  retain_stuck_ok r left channels since host g x h = ground (arith, g, h)

  -- A call that answers has read the registry that the document holds.
  registry_of-answered :
      {A : Type 0} (op : GrantRegistry → GrantRegistry × Result RegistryError A) (d : Daemon World)
      (r : GrantRegistry) (x : Result RegistryError A)
      → from_parts outside.hex (names d.inventory) d.doc ≡ ok r
      → (with_registry outside op d).1 ≡ ok x
      → registry_of outside d ≡ ok r
  unfolding with_registry
  registry_of-answered op d r x e p =
      elim (Bool-cases (outside.can_read d.doc && is_readable d.doc.version)) [
        | inl b ↦ ground (arith, b, e)
        | inr b ↦ absurd (ground (arith, b, p))
      ]

  -- A grant that needs its revert keeps it while a channel is stuck.
  keep_stuck_open :
      (host : Text) (left : List Channel) (d : Daemon World) (r : GrantRegistry)
      (channels : List Channel) (since : SystemTime)
      → from_parts outside.hex (names d.inventory) d.doc ≡ ok r
      → get host r ≡ some (needs_revert channels since)
      → (keep_stuck outside host left d).1 ≡ ok all_closed
      → ⊥
  unfolding keep_stuck with_registry
  keep_stuck_open host left d r channels since e g h =
      let (x, p, q, _) =
        then_inv (with_registry outside (λ r. Registry.retain_stuck r host left))
          (retained outside left) d all_closed h in
      let op : GrantRegistry → GrantRegistry × Result RegistryError Bool =
        λ r. Registry.retain_stuck r host left in
      let s : x ≡ (op r).1 =
        commit_inv op r d x
          (ap (λ y. (commit outside op y d).1) (sym (registry_of-answered op d r x e p)) ∙ p) in
      not_closed x (with_registry outside op d).0
        (λ e u. retain_stuck_ok r left channels since host g e (sym s ∙ u)) q
    where
      not_closed :
          (x : Result RegistryError Bool) (d' : Daemon World)
          → ((e : RegistryError) → x ≢ err e)
          → (retained outside left x d').1 ≡ ok all_closed
          → ⊥
      not_closed (ok b) d' u q = stuck_closed left q
      not_closed (err e) d' u q = u e refl

module _ {Secret World : Type 0} (outside : Outside Secret World) (live : Channel → World → Bool)
    (contract : Contract outside.driver live) where
  settle_revert_closed :
      (host : Text) (cfg : Host) (channels : List Channel) (outcome : RevertOutcome)
      (d : Daemon World) (before : World) (r : GrantRegistry) (wanted : List Channel)
      (since : SystemTime) (k : Channel)
      → ((h : Host) (w : World) → live k (outside.deadman.remove h w).0 ≡ true → live k w ≡ true)
      → Retracts outside.driver live contract cfg channels before d.drivers.world k outcome
      → from_parts outside.hex (names d.inventory) d.doc ≡ ok r
      → get host r ≡ some (needs_revert wanted since)
      → (settle_revert outside host cfg channels outcome d).1 ≡ ok all_closed
      → member k channels ≡ true
      → live k (settle_revert outside host cfg channels outcome d).0.drivers.world ≡ false
  unfolding settle_revert with_target
  settle_revert_closed host cfg channels (stuck left) d before r wanted since k quiet t e g h m =
      absurd (keep_stuck_open outside host (map (λ e. e.0) left) d r wanted since e g h)
  settle_revert_closed host cfg channels reverted d before r wanted since k quiet t e g h m =
      settled cfg.has_ssh h
    where
      down : live k d.drivers.world ≡ false
      down = ground (arith, t.1, m)

      after_removal :
          (x : Result DriverError Bool) (d' : Daemon World)
          → live k d'.drivers.world ≡ false
          → (removed outside host channels x d').1 ≡ ok all_closed
          → live k (removed outside host channels x d').0.drivers.world ≡ false
      after_removal (ok fired) d' l h =
          ap (λ s. live k s.world) (finish_close-Leaves outside host fired d') ∙ l
      after_removal (err e) d' l h =
          let (_, _, q, _) =
            then_inv outside (with_registry outside (λ r. Registry.retain_stuck r host channels))
              (λ _. pure (still_stuck channels)) d' all_closed h in
          absurd (stuck_closed outside channels q)

      settled :
          (b : Bool)
          → ((if◌then◌else◌ {A = Act World RevertProgress} b
                (with_target (outside.deadman.remove cfg) >>= removed outside host channels)
                (finish_close outside host false))
              d).1
            ≡ ok all_closed
          → live k
              ((if◌then◌else◌ {A = Act World RevertProgress} b
                  (with_target (outside.deadman.remove cfg) >>= removed outside host channels)
                  (finish_close outside host false))
                d).0.drivers.world
            ≡ false
      settled false h = ap (λ s. live k s.world) (finish_close-Leaves outside host false d) ∙ down
      settled true h =
          after_removal (outside.deadman.remove cfg d.drivers.world).1
            (record d {
              drivers = record d.drivers { world = (outside.deadman.remove cfg d.drivers.world).0 };
            })
            (ground (arith, quiet cfg d.drivers.world, down)) h

  -- Over drivers that keep the contract of core/src/channel.rs and a backstop whose removal opens no channel,
  -- from a state file that holds the host as waiting for its revert, when drive_one_revert reports the grant
  -- as closed, no channel that it was asked to revert is applied.
  pub drive_one_revert_closed :
      (host : Text) (channels : List Channel) (d : Daemon World) (r : GrantRegistry)
      (wanted : List Channel) (since : SystemTime) (k : Channel)
      → ((h : Host) (w : World) → live k (outside.deadman.remove h w).0 ≡ true → live k w ≡ true)
      → from_parts outside.hex (names d.inventory) d.doc ≡ ok r
      → get host r ≡ some (needs_revert wanted since)
      → (drive_one_revert outside host channels d).1 ≡ ok all_closed
      → member k channels ≡ true
      → live k (drive_one_revert outside host channels d).0.drivers.world ≡ false
  unfolding drive_one_revert with_drivers known_host
  drive_one_revert_closed host channels d r wanted since k quiet e g h m =
      driven (find_host host d.inventory) h
    where
      driven :
          (o : Option Host)
          → ((known o >>= λ cfg.
                with_drivers (λ set. revert_channels outside.driver set cfg channels)
                >>= settle_revert outside host cfg channels)
              d).1
            ≡ ok all_closed
          → live k
              ((known o >>= λ cfg.
                  with_drivers (λ set. revert_channels outside.driver set cfg channels)
                  >>= settle_revert outside host cfg channels)
                d).0.drivers.world
            ≡ false
      driven none h =
          absurd (let q : Path (Result Fatal RevertProgress) (err panic) (ok all_closed) = h in cc)
      driven (some cfg) h =
          let x = revert_channels outside.driver d.drivers cfg channels in
          settle_revert_closed host cfg channels x.1 (record d { drivers = x.0 }) d.drivers.world r
            wanted since k quiet
            (revert_channels-Retracts outside.driver live contract cfg d.drivers channels k) e g h m
