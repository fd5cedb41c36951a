-- ===== src/Channel/Drivers.antt =====
-- The driver seam of core/src/channel.rs. The drivers of a `DriverSet` are boxed trait objects: `World`
-- is the state of all of them and of the targets they reach, and a `Driver` is what their methods do to
-- it, channel by channel.
use lychgate.Prelude.{
  ℕ, Bool, List, [], ◌∷◌, ◌++◌, Option, none, some, Result, ok, err, reverse, retain, ltb,
  if◌then◌else◌,
}
use lychgate.Prelude.Text.{Text, bytes}
use lychgate.Clock.{SystemTime}
use lychgate.Channel.{
  Channel, ssh, authorized_keys, bmc, vnc, http, mqtt, serial, device, member, rank,
}

pub data DriverError : Type 0 where
  driver_error : Text → DriverError

pub data ChannelState : Type 0 where
  closed opened : ChannelState

pub record ApplyCtx : Type 0 where
  pub ttl_secs : ℕ
  pub expires_at : SystemTime

-- `trait ChannelDriver`; `Secret` is the one-time secret that `take_secret` hands out.
pub record Driver (Host Secret World : Type 0) : Type 0 where
  pub apply : Channel → Host → ApplyCtx → World → World × Result DriverError (Unit {0})
  pub revert : Channel → Host → World → World × Result DriverError (Unit {0})
  pub verify : Channel → Host → World → World × Result DriverError ChannelState
  pub renew : Channel → Host → ApplyCtx → World → World × Result DriverError (Unit {0})
  pub take_secret : Channel → World → World × Option Secret
  pub reestablish : Channel → Host → World → World × Result DriverError ChannelState
  pub suspend : Channel → World → World

-- `{channel:?}`
debug : Channel → Text
debug ssh = bytes "Ssh"
debug authorized_keys = bytes "AuthorizedKeys"
debug bmc = bytes "Bmc"
debug vnc = bytes "Vnc"
debug http = bytes "Http"
debug mqtt = bytes "Mqtt"
debug serial = bytes "Serial"
debug device = bytes "Device"

pub no_driver : Channel → DriverError
unfolding debug
no_driver c = driver_error (bytes "no driver registered for channel " ++ debug c)

pub already_registered : Channel → DriverError
unfolding debug
already_registered c =
    driver_error (bytes "a driver for channel " ++ (debug c ++ bytes " is already registered"))

pub read_back_closed : Channel → DriverError
unfolding debug
read_back_closed c =
    driver_error (bytes "channel " ++ (debug c ++ bytes " read back closed after re-establishment"))

-- The channels that have a driver, in order, and the drivers' state.
pub record DriverSet (World : Type 0) : Type 0 where
  pub registered : List Channel
  pub world : World

abbrev pub has_driver : Channel → List Channel → Bool
has_driver c registered = member c registered

insert_channel : Channel → List Channel → List Channel
insert_channel c [] = c ∷ []
insert_channel c (d ∷ ds) = if ltb (rank c) (rank d) then c ∷ d ∷ ds else d ∷ insert_channel c ds

pub data ApplyOutcome : Type 0 where
  applied : List Channel → ApplyOutcome
  failed : (channel : Channel) (error : DriverError) (reverted stuck : List Channel) → ApplyOutcome

pub data RevertOutcome : Type 0 where
  reverted : RevertOutcome
  stuck : List (Channel × DriverError) → RevertOutcome

pub data ReestablishOutcome : Type 0 where
  restored : ReestablishOutcome
  lost : List (Channel × DriverError) → ReestablishOutcome

module _ {World : Type 0} where
  -- `register`: the boxed driver joins the set, and with it `world` its state.
  pub register : DriverSet World → Channel → World → DriverSet World × Result DriverError (Unit {0})
  unfolding insert_channel
  register set c world =
      if has_driver c set.registered
      then (set, err (already_registered c))
      else (record { registered = insert_channel c set.registered; world = world }, ok tt)

  unfoldable pub drivable : DriverSet World → List Channel → List Channel
  drivable set requested = retain (λ c. has_driver c set.registered) requested

module _ {Host Secret World : Type 0} (d : Driver Host Secret World) where
  abbrev pub with_world : DriverSet World → World → DriverSet World
  with_world set w = record set { world = w }

  unfoldable pub take_secret : DriverSet World → Channel → DriverSet World × Option Secret
  take_secret set c =
      if has_driver c set.registered
      then (with_world set (d.take_secret c set.world).0, (d.take_secret c set.world).1)
      else (set, none)

  suspend_each : List Channel → World → World
  suspend_each [] w = w
  suspend_each (c ∷ cs) w = suspend_each cs (d.suspend c w)

  pub suspend_all : DriverSet World → DriverSet World
  unfolding suspend_each
  suspend_all set = with_world set (suspend_each set.registered set.world)

  -- The unwinding loop of `apply_channels`: what was reverted, and what is stuck.
  unfoldable pub unwind : Host → List Channel → World → World × List Channel × List Channel
  unwind host [] w = (w, [], [])
  unwind host (c ∷ cs) w =
      let (w', r) = d.revert c host w in
      let (w'', done, left) = unwind host cs w' in
      elim r [ ok u ↦ (w'', c ∷ done, left) | err e ↦ (w'', done, c ∷ left) ]

  -- The loop of `apply_channels`, with the channels applied so far. `none` is the panic of `expect` on a
  -- channel that has no driver.
  unfoldable pub apply_from :
      List Channel
      → Host
      → List Channel
      → ApplyCtx
      → List Channel
      → World
      → World × Option ApplyOutcome
  unfolding unwind
  apply_from registered host so_far ctx [] w = (w, some (applied so_far))
  apply_from registered host so_far ctx (c ∷ cs) w =
      let rest = apply_from registered host (so_far ++ (c ∷ [])) ctx cs (d.apply c host ctx w).0 in
      if has_driver c registered
      then elim (d.apply c host ctx w).1 [
        | ok u ↦ rest
        | err error ↦
            let (w', done, left) = unwind host (c ∷ reverse so_far) (d.apply c host ctx w).0 in
            (w', some (failed c error done left))
      ]
      else (w, none)

  unfoldable pub apply_channels :
      DriverSet World → Host → List Channel → ApplyCtx → DriverSet World × Option ApplyOutcome
  unfolding apply_from
  apply_channels set host channels ctx =
      let (w, outcome) = apply_from set.registered host [] ctx channels set.world in
      (with_world set w, outcome)

  renew_from :
      List Channel
      → Host
      → ApplyCtx
      → List Channel
      → World
      → World × Result (Channel × DriverError) (Unit {0})
  renew_from registered host ctx [] w = (w, ok tt)
  renew_from registered host ctx (c ∷ cs) w =
      let rest = renew_from registered host ctx cs (d.renew c host ctx w).0 in
      if has_driver c registered
      then elim (d.renew c host ctx w).1 [
        | ok u ↦ rest
        | err e ↦ ((d.renew c host ctx w).0, err (c, e))
      ]
      else (w, err (c, no_driver c))

  unfoldable pub renew_channels :
      DriverSet World
      → Host
      → List Channel
      → ApplyCtx
      → DriverSet World × Result (Channel × DriverError) (Unit {0})
  unfolding renew_from
  renew_channels set host channels ctx =
      let (w, outcome) = renew_from set.registered host ctx channels set.world in
      (with_world set w, outcome)

  -- The loop of `revert_channels`, over the channels in the order that it takes them.
  unfoldable pub revert_from :
      List Channel → Host → List Channel → World → World × List (Channel × DriverError)
  revert_from registered host [] w = (w, [])
  revert_from registered host (c ∷ cs) w =
      let (w', r) = d.revert c host w in
      let skipped = revert_from registered host cs w in
      let tried = revert_from registered host cs w' in
      if has_driver c registered
      then elim r [ ok u ↦ tried | err e ↦ (tried.0, (c, e) ∷ tried.1) ]
      else (skipped.0, (c, no_driver c) ∷ skipped.1)

  abbrev pub revert_outcome : List (Channel × DriverError) → RevertOutcome
  revert_outcome [] = reverted
  revert_outcome (e ∷ es) = stuck (e ∷ es)

  unfoldable pub revert_channels :
      DriverSet World → Host → List Channel → DriverSet World × RevertOutcome
  unfolding revert_from
  revert_channels set host channels =
      let (w, left) = revert_from set.registered host (reverse channels) set.world in
      (with_world set w, revert_outcome left)

  -- What `reestablish` of one channel adds to the lost ones.
  abbrev lost_by : Channel → Result DriverError ChannelState → List (Channel × DriverError)
  lost_by c (ok opened) = []
  lost_by c (ok closed) = (c, read_back_closed c) ∷ []
  lost_by c (err e) = (c, e) ∷ []

  reestablish_from :
      List Channel → Host → List Channel → World → World × List (Channel × DriverError)
  reestablish_from registered host [] w = (w, [])
  reestablish_from registered host (c ∷ cs) w =
      let (w', r) = d.reestablish c host w in
      let skipped = reestablish_from registered host cs w in
      let tried = reestablish_from registered host cs w' in
      if has_driver c registered
      then (tried.0, lost_by c r ++ tried.1)
      else (skipped.0, (c, no_driver c) ∷ skipped.1)

  abbrev reestablish_outcome : List (Channel × DriverError) → ReestablishOutcome
  reestablish_outcome [] = restored
  reestablish_outcome (e ∷ es) = lost (e ∷ es)

  unfoldable pub reestablish_channels :
      DriverSet World → Host → List Channel → DriverSet World × ReestablishOutcome
  unfolding reestablish_from
  reestablish_channels set host channels =
      let (w, gone) = reestablish_from set.registered host channels set.world in
      (with_world set w, reestablish_outcome gone)
