-- ===== src/Daemon/Opening/Coverage.antt =====
-- Whatever `drive_open` of daemon/src/lifecycle.rs leaves on the target, the state file lists.
use lychgate.Prelude.{
  ℕ, ◌≡◌, sym, subst, Bool, true, false, List, [], ◌∷◌, Option, none, some, Result, ok, err, all,
  if◌then◌else◌, arith, inl, inr, ◌⊎◌,
}
use lychgate.Prelude.Text.{Text}
use lychgate.Prelude.TextMap.{get}
use lychgate.Clock.{SystemTime}
use lychgate.Channel.{Channel, member, ssh}
use lychgate.Channel.Drivers.{
  DriverError, DriverSet, ApplyCtx, ApplyOutcome, applied, failed, RevertOutcome, reverted, stuck,
  has_driver, apply_channels, revert_channels, take_secret,
}
use lychgate.Channel.Orchestration.{
  Contract, Accounts, apply_channels-Accounts, apply_channels_live, Retracts,
  revert_channels-Retracts,
}
use lychgate.Grant.{opening}
use lychgate.Registry.{GrantRegistry, RegistryError, with_grant}
use lychgate.Registry
use lychgate.Snapshot.{from_parts}
use lychgate.Daemon.{
  Host, Event, Response, refused, opened_until, no_backstop, open_failed_on, Outside, Daemon, Act,
  pure, ◌>>◌, journal, must, with_drivers, with_target,
}
use lychgate.Approval.{epoch_secs}
use lychgate.Daemon.Opening.{
  find_secret, abandon, commit_open, unwind_open, settle_open, drive_open, stuck_of, wants_deadman,
}
use lychgate.Daemon.Opening.Listed.{lists}
use lychgate.Daemon.Opening.Commits.{
  names, Covered, IsOpening, then-Covered, journal-Covered, finish_open-Covered, abandon-Covered,
}

-- What the calls beyond the drivers do to the channels: they open none.
pub record OpensNothing {Secret World : Type 0} (outside : Outside Secret World)
    (live : Channel → World → Bool) : Type 0 where
  pub install :
      (host : Host) (expires : SystemTime) (w : World) (k : Channel)
      → live k (outside.deadman.install host expires w).0 ≡ true
      → live k w ≡ true
  pub secret :
      (c : Channel) (w : World) (k : Channel)
      → live k (outside.driver.take_secret c w).0 ≡ true
      → live k w ≡ true

module _ {Secret World : Type 0} (outside : Outside Secret World) (live : Channel → World → Bool)
    (contract : Contract outside.driver live) (quiet : OpensNothing outside live) (name : Text)
    (cfg : Host) where
  take_secret_live :
      (c : Channel) (set : DriverSet World) (k : Channel)
      → live k (take_secret outside.driver set c).0.world ≡ true
      → live k set.world ≡ true
  unfolding take_secret
  take_secret_live c set k l = ground (arith, l, quiet.secret c set.world k)

  find_secret_live :
      (channels : List Channel) (set : DriverSet World) (k : Channel)
      → live k (find_secret outside channels set).0.world ≡ true
      → live k set.world ≡ true
  unfolding find_secret
  find_secret_live [] set k l = l
  find_secret_live (c ∷ cs) set k l =
      take_secret_live c set k
        (ground (arith, l, find_secret_live cs (take_secret outside.driver set c).0 k))

  commit_open-Covered :
      (channels declared : List Channel) (ttl_secs : ℕ) (expires : SystemTime) (d : Daemon World)
      → IsOpening outside live name channels d
      → Covered outside live name (commit_open outside name channels declared ttl_secs expires d).0
  unfolding commit_open with_drivers
  commit_open-Covered channels declared ttl_secs expires d o =
      let finish = must outside (λ r. Registry.finish_open r name) in
      let event = Event.opened name channels declared ttl_secs (epoch_secs expires) in
      then-Covered outside live name
        (finish >> journal outside event >> with_drivers (find_secret outside channels))
        (λ secret. pure (opened_until (epoch_secs expires) secret)) d
        (then-Covered outside live name (finish >> journal outside event)
          (λ _. with_drivers (find_secret outside channels)) d
          (then-Covered outside live name finish (λ _. journal outside event) d
            (finish_open-Covered outside live name channels d o)
            (λ a d h. journal-Covered outside live name event d h))
          (λ a d h k l. h k (find_secret_live channels d.drivers k l)))
        (λ a d h. h)

  unwind_open-Covered :
      (channels : List Channel) (error : DriverError) (now : SystemTime) (d : Daemon World)
      → IsOpening outside live name channels d
      → Covered outside live name (unwind_open outside name cfg channels error now d).0
  unfolding unwind_open with_drivers
  unwind_open-Covered channels error now d o =
      let r = revert_channels outside.driver d.drivers cfg channels in
      let d' : Daemon World = record d { drivers = r.0 } in
      let t : (k : Channel)
          → Retracts outside.driver live contract cfg channels d.drivers.world r.0.world k r.1 =
        λ k. revert_channels-Retracts outside.driver live contract cfg d.drivers channels k in
      let o' : IsOpening outside live name channels d' = record {
        registry = o.registry;
        opened_at = o.opened_at;
        expires_at = o.expires_at;
        reads = o.reads;
        grant = o.grant;
        within =
            λ k l. o.within k (opened_nothing channels d.drivers.world r.0.world k r.1 (t k) l);
      } in
      then-Covered outside live name
        (abandon outside name (stuck_of r.1) now
          >> journal outside (Event.open_failed name ssh (stuck_of r.1)))
        (λ _. pure (refused (no_backstop error))) d'
        (then-Covered outside live name (abandon outside name (stuck_of r.1) now)
          (λ _. journal outside (Event.open_failed name ssh (stuck_of r.1))) d'
          (abandon-Covered outside live name channels (stuck_of r.1) now d' o'
            (λ k l. left_stuck channels d.drivers.world r.0.world k r.1 (t k) l (o'.within k l)))
          (λ a d h.
            journal-Covered outside live name (Event.open_failed name ssh (stuck_of r.1)) d h))
        (λ a d h. h)
    where
      opened_nothing :
          (channels : List Channel) (before after : World) (k : Channel) (r : RevertOutcome)
          → Retracts outside.driver live contract cfg channels before after k r
          → live k after ≡ true
          → live k before ≡ true
      opened_nothing channels before after k reverted t l = ground (arith, t.0, l)
      opened_nothing channels before after k (stuck left) t l = ground (arith, t.0, l)

      left_stuck :
          (channels : List Channel) (before after : World) (k : Channel) (r : RevertOutcome)
          → Retracts outside.driver live contract cfg channels before after k r
          → live k after ≡ true
          → member k channels ≡ true
          → member k (stuck_of r) ≡ true
      left_stuck channels before after k reverted t l m = ground (arith, t.1, l, m)
      left_stuck channels before after k (stuck left) t l m = ground (arith, t.1, l, m)

  branch-Covered :
      {A : Type 0} (b : Bool) (x y : Act World A) (d : Daemon World)
      → Covered outside live name (x d).0
      → Covered outside live name (y d).0
      → Covered outside live name ((if◌then◌else◌ {A = Act World A} b x y) d).0
  branch-Covered true x y d h h' = h
  branch-Covered false x y d h h' = h'

  -- The same daemon after a call that opens nothing.
  quiet-IsOpening :
      (channels : List Channel) (d : Daemon World) (w : World)
      → IsOpening outside live name channels d
      → ((k : Channel) → live k w ≡ true → live k d.drivers.world ≡ true)
      → IsOpening outside live name channels (record d { drivers = record d.drivers { world = w } })
  quiet-IsOpening channels d w o f = record {
    registry = o.registry;
    opened_at = o.opened_at;
    expires_at = o.expires_at;
    reads = o.reads;
    grant = o.grant;
    within = λ k l. o.within k (f k l);
  }

  settle_open-Covered :
      (declared to_apply : List Channel) (ttl_secs : ℕ) (expires now : SystemTime)
      (outcome : Option ApplyOutcome) (d : Daemon World)
      → IsOpening outside live name to_apply d
      → ((k : Channel)
          → Accounts outside.driver live contract cfg to_apply d.drivers.world k outcome)
      → Covered outside live name
          (settle_open outside name cfg declared ttl_secs expires now outcome d).0
  unfolding settle_open with_target
  settle_open-Covered declared to_apply ttl_secs expires now none d o f = absurd (f ssh)
  settle_open-Covered declared to_apply ttl_secs expires now (some (failed c e done left)) d o f =
      then-Covered outside live name
        (abandon outside name left now >> journal outside (Event.open_failed name c left))
        (λ _. pure (refused (open_failed_on c e left))) d
        (then-Covered outside live name (abandon outside name left now)
          (λ _. journal outside (Event.open_failed name c left)) d
          (abandon-Covered outside live name to_apply left now d o (λ k l. ground (arith, f k, l)))
          (λ a d h. journal-Covered outside live name (Event.open_failed name c left) d h))
        (λ a d h. h)
  settle_open-Covered declared to_apply ttl_secs expires now (some (applied channels)) d o f =
      let e : to_apply ≡ channels = sym (f ssh).0 in
      let o' = subst (λ cs. IsOpening outside live name cs d) e o in
      let installed = outside.deadman.install cfg expires d.drivers.world in
      let o'' =
        quiet-IsOpening channels d installed.0 o' (quiet.install cfg expires d.drivers.world) in
      branch-Covered (wants_deadman cfg channels) _ _ d (backed installed.1 channels _ o'')
        (commit_open-Covered channels declared ttl_secs expires d o')
    where
      backed :
          (r : Result DriverError (Unit {0})) (channels : List Channel) (d : Daemon World)
          → IsOpening outside live name channels d
          → Covered outside live name
              ((elim r as (λ _. Act World (Response Secret)) [
                | ok _ ↦ commit_open outside name channels declared ttl_secs expires
                | err e ↦ unwind_open outside name cfg channels e now
              ])
                d).0
      backed (ok _) channels d o = commit_open-Covered channels declared ttl_secs expires d o
      backed (err e) channels d o = unwind_open-Covered channels e now d o

-- Over drivers that keep the contract of core/src/channel.rs and a backstop and secrets that open no channel,
-- from a state file that holds the host as opening with the channels to apply, all of them with a driver and
-- none of any kind applied, whatever drive_open ends with, a refusal, a panic or a failed write included, each
-- channel that may then be applied is listed in the record of the host in the state file.
pub drive_open-Covered :
    {Secret World : Type 0} (outside : Outside Secret World) (live : Channel → World → Bool)
    (host : Text) (cfg : Host) (to_apply declared : List Channel) (ttl_secs : ℕ)
    (expires now : SystemTime) (d : Daemon World) (registry : GrantRegistry)
    (opened_at expires_at : SystemTime)
    → Contract outside.driver live
    → OpensNothing outside live
    → from_parts outside.hex (names d.inventory) d.doc ≡ ok registry
    → get host registry ≡ some (opening opened_at expires_at to_apply)
    → all (λ c. has_driver c d.drivers.registered) to_apply ≡ true
    → ((k : Channel) → live k d.drivers.world ≡ false)
    → (k : Channel)
    → live k (drive_open outside host cfg to_apply declared ttl_secs expires now d).0.drivers.world
      ≡ true
    → lists
        (drive_open outside host cfg to_apply declared ttl_secs expires now d).0.doc.grants
        host
        k
      ≡ true
unfolding drive_open with_drivers
drive_open-Covered outside live host cfg to_apply declared ttl_secs expires now d registry opened_at
      expires_at contract quiet e g a n =
    let ctx : ApplyCtx = record { ttl_secs = ttl_secs; expires_at = expires } in
    let r = apply_channels outside.driver d.drivers cfg to_apply ctx in
    settle_open-Covered outside live contract quiet host cfg declared to_apply ttl_secs expires now
      r.1 (record d { drivers = r.0 })
      (record {
        registry = registry;
        opened_at = opened_at;
        expires_at = expires_at;
        reads = e;
        grant = g;
        within = λ k l.
            was_asked (live k d.drivers.world) (member k to_apply) (n k)
              (apply_channels_live outside.driver live contract cfg d.drivers to_apply ctx k l);
      })
      (λ k. apply_channels-Accounts outside.driver live contract cfg d.drivers to_apply ctx k a n)
  where
    was_asked : (a b : Bool) → a ≡ false → (a ≡ true) ⊎ (b ≡ true) → b ≡ true
    was_asked a b h (inl l) = ground (arith, h, l)
    was_asked a b h (inr m) = m
