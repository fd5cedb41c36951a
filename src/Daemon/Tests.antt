-- ===== src/Daemon/Tests.antt =====
-- The calls of daemon/src/lifecycle.rs on one host whose ssh channel is one bit of the target.
use lychgate.Prelude.{◌+◌, ◌≡◌, refl, Bool, true, false, [], ◌∷◌, none, some, ok, arith, ◌⊎◌}
use lychgate.Prelude.Text.{bytes, text_compare}
use lychgate.Prelude.TextMap.{get, insert, put, contains_key}
use lychgate.Clock.{unix_epoch, from_secs, duration_since}
use lychgate.Channel.{Channel, ssh, channel_eq}
use lychgate.Channel.Drivers.{
  ApplyCtx, Driver, closed, apply_channels, apply_from, revert_channels, revert_from, take_secret,
}
use lychgate.Channel.Orchestration.{Contract}
use lychgate.Grant.{Grant}
use lychgate.Grant as Machine
use lychgate.Grant.Parts.{GrantParts, restore}
use lychgate.Registry.{GrantRegistry, new, with_grant}
use lychgate.Registry
use lychgate.Snapshot.{
  record_of, parts_of, interval, no_pending_fields, positive_span, needs_revert_of, from_parts,
  restore_all,
}
use lychgate.Daemon.{
  Host, Outside, Daemon, journal, with_registry, must, with_drivers, with_target, known_host,
  find_host,
}
use lychgate.Daemon.Opening.{drive_open, settle_open, commit_open, wants_deadman, find_secret}
use lychgate.Daemon.Opening.Listed.{lists}
use lychgate.Daemon.Opening.Coverage.{OpensNothing, drive_open-Covered}
use lychgate.Daemon.Reverting.{drive_one_revert, settle_revert, finish_close}
use lychgate.Daemon.Reverting.Closing.{drive_one_revert_closed}

abbrev target : Driver Host (Unit {0}) Bool
target = record {
  apply = λ c h ctx w. elim c [ ssh ↦ (true, ok tt) | _ ↦ (w, ok tt) ];
  revert = λ c h w. elim c [ ssh ↦ (false, ok tt) | _ ↦ (w, ok tt) ];
  verify = λ c h w. (w, ok closed);
  renew = λ c h ctx w. (w, ok tt);
  take_secret = λ c w. (w, none);
  reestablish = λ c h w. (w, ok closed);
  suspend = λ c w. w;
}

abbrev is_live : Channel → Bool → Bool
is_live ssh w = w
is_live _ w = false

target-Contract : Contract target is_live
target-Contract = record {
  apply_own = λ c k h ctx w l. own c k h ctx w l;
  revert_opens_nothing = λ c k h w l. opens_nothing c k h w l;
  revert_closes = λ c h w e. closes c h w e;
}
  where
    own :
        (c k : Channel) (h : Host) (ctx : ApplyCtx) (w : Bool)
        → is_live k (target.apply c h ctx w).0 ≡ true
        → (is_live k w ≡ true) ⊎ (c ≡ k)
    own c k h ctx w l = ground arith

    opens_nothing :
        (c k : Channel) (h : Host) (w : Bool)
        → is_live k (target.revert c h w).0 ≡ true
        → is_live k w ≡ true
    opens_nothing c k h w l = ground arith

    closes :
        (c : Channel) (h : Host) (w : Bool)
        → (target.revert c h w).1 ≡ ok tt
        → is_live c (target.revert c h w).0 ≡ false
    closes c h w e = ground arith

abbrev outside : Outside (Unit {0}) Bool
outside = record {
  driver = target;
  deadman = record {
    install = λ h t w. (w, ok tt);
    reschedule = λ h t w. (w, ok tt);
    remove = λ h w. (w, ok false);
  };
  hex = record { encode = λ bs. bs; decode = λ t. some t };
  can_read = λ doc. true;
  can_write = λ doc. true;
  can_journal = λ events event. true;
}

outside-OpensNothing : OpensNothing outside is_live
outside-OpensNothing = record { install = λ h t w k l. l; secret = λ c w k l. l }

abbrev host : Host
host = record {
  name = bytes "a";
  channels = ssh ∷ [];
  has_ssh = true;
  drill = false;
  access = none;
}

abbrev storing : GrantParts → Bool → Daemon Bool
storing p w = record {
  inventory = host ∷ [];
  doc = record { version = 4; grants = (bytes "a", record_of outside.hex p) ∷ [] };
  journal = [];
  drivers = record { registered = ssh ∷ []; world = w };
}

abbrev mid_open : GrantParts
mid_open = GrantParts.opening unix_epoch (unix_epoch + from_secs 60) (ssh ∷ [])

abbrev to_revert : GrantParts
to_revert = GrantParts.needs_revert (ssh ∷ []) unix_epoch

drive_open-Covered_example :
    lists
      (drive_open outside
        (bytes "a")
        host
        (ssh ∷ [])
        (ssh ∷ [])
        60
        (unix_epoch + from_secs 60)
        unix_epoch
        (storing mid_open false)).0.doc.grants
      (bytes "a")
      ssh
    ≡ true
unfolding drive_open with_drivers settle_open commit_open wants_deadman with_target must
    with_registry journal find_secret take_secret apply_channels apply_from channel_eq
    Registry.finish_open with_grant Machine.finish_open from_parts restore_all restore new insert
    put get contains_key parts_of record_of interval no_pending_fields positive_span text_compare
    duration_since
drive_open-Covered_example =
    drive_open-Covered outside is_live (bytes "a") host (ssh ∷ []) (ssh ∷ []) 60
      (unix_epoch + from_secs 60) unix_epoch (storing mid_open false)
      ((bytes "a", restore mid_open) ∷ []) unix_epoch (unix_epoch + from_secs 60) target-Contract
      outside-OpensNothing refl refl refl (λ k. ground arith) ssh refl

drive_one_revert_closed_example :
    is_live ssh
      (drive_one_revert outside (bytes "a") (ssh ∷ []) (storing to_revert true)).0.drivers.world
    ≡ false
unfolding drive_one_revert with_drivers known_host settle_revert finish_close with_target
    with_registry journal revert_channels revert_from channel_eq Registry.finish_revert with_grant
    Machine.finish_revert from_parts restore_all restore new insert put get contains_key parts_of
    record_of needs_revert_of no_pending_fields text_compare find_host
drive_one_revert_closed_example =
    drive_one_revert_closed outside is_live target-Contract (bytes "a") (ssh ∷ [])
      (storing to_revert true) ((bytes "a", restore to_revert) ∷ []) (ssh ∷ []) unix_epoch ssh
      (λ h w l. l) refl refl refl refl
