-- ===== src/Channel/Tests.antt =====
-- Drivers that keep the contract of core/src/channel.rs, for one target whose ssh channel can be opened.
use lychgate.Prelude.{◌≡◌, refl, Bool, true, false, [], ◌∷◌, none, some, ok, err, arith, ◌⊎◌}
use lychgate.Channel.{Channel, ssh, bmc, vnc, channel_eq}
use lychgate.Channel.Drivers.{
  driver_error, ApplyCtx, Driver, DriverSet, closed, apply_channels, revert_channels, failed,
  apply_from, unwind,
}
use lychgate.Channel.Orchestration.{
  Contract, Accounts, Retracts, apply_channels-Accounts, revert_channels-Retracts,
}

-- An apply on bmc fails, and so does a revert on vnc.
abbrev target : Driver (Unit {0}) (Unit {0}) Bool
target = record {
  apply = λ c h ctx w. elim c [
    | ssh ↦ (true, ok tt)
    | bmc ↦ (w, err (driver_error []))
    | _ ↦ (w, ok tt)
  ];
  revert =
      λ c h w. elim c [ ssh ↦ (false, ok tt) | vnc ↦ (w, err (driver_error [])) | _ ↦ (w, ok tt) ];
  verify = λ c h w. (w, ok closed);
  renew = λ c h ctx w. (w, ok tt);
  take_secret = λ c w. (w, none);
  reestablish = λ c h w. (w, ok closed);
  suspend = λ c w. w;
}

abbrev is_live : Channel → Bool → Bool
is_live ssh w = w
is_live _ w = false

target-Contract : Contract target is_live
target-Contract = record {
  apply_own = λ c k h ctx w l. own c k h ctx w l;
  revert_opens_nothing = λ c k h w l. opens_nothing c k h w l;
  revert_closes = λ c h w e. closes c h w e;
}
  where
    own :
        (c k : Channel) (h : Unit {0}) (ctx : ApplyCtx) (w : Bool)
        → is_live k (target.apply c h ctx w).0 ≡ true
        → (is_live k w ≡ true) ⊎ (c ≡ k)
    own c k h ctx w l = ground arith

    opens_nothing :
        (c k : Channel) (h : Unit {0}) (w : Bool)
        → is_live k (target.revert c h w).0 ≡ true
        → is_live k w ≡ true
    opens_nothing c k h w l = ground arith

    closes :
        (c : Channel) (h : Unit {0}) (w : Bool)
        → (target.revert c h w).1 ≡ ok tt
        → is_live c (target.revert c h w).0 ≡ false
    closes c h w e = ground arith

abbrev all_closed : DriverSet Bool
all_closed = record { registered = ssh ∷ bmc ∷ vnc ∷ []; world = false }

abbrev ctx : ApplyCtx
ctx = record { ttl_secs = 60; expires_at = 60 }

apply_channels_test :
    (apply_channels target all_closed tt (ssh ∷ bmc ∷ vnc ∷ []) ctx).1
    ≡ some (failed bmc (driver_error []) (bmc ∷ ssh ∷ []) [])
unfolding apply_channels apply_from unwind channel_eq
apply_channels_test = refl

apply_channels-Accounts_example :
    Accounts target is_live target-Contract tt
      (ssh ∷ bmc ∷ vnc ∷ [])
      (apply_channels target all_closed tt (ssh ∷ bmc ∷ vnc ∷ []) ctx).0.world
      ssh
      (apply_channels target all_closed tt (ssh ∷ bmc ∷ vnc ∷ []) ctx).1
unfolding channel_eq
apply_channels-Accounts_example =
    apply_channels-Accounts target is_live target-Contract tt all_closed (ssh ∷ bmc ∷ vnc ∷ []) ctx
      ssh refl (λ j. ground arith)

revert_channels-Retracts_example :
    Retracts target is_live target-Contract tt
      (ssh ∷ vnc ∷ [])
      true
      (revert_channels target (record all_closed { world = true }) tt (ssh ∷ vnc ∷ [])).0.world
      ssh
      (revert_channels target (record all_closed { world = true }) tt (ssh ∷ vnc ∷ [])).1
revert_channels-Retracts_example =
    revert_channels-Retracts target is_live target-Contract tt (record all_closed { world = true })
      (ssh ∷ vnc ∷ []) ssh
