-- ===== src/Embed.antt =====
-- The device engine of embed/src/lib.rs. Its three traits are the record `Hal`, over the states of the clock,
-- the sequence store and the gate; each reading of the clock moves the clock on.
mod Tests
pub mod Contract
pub mod Sequence
pub mod Deadline
use Prim.Native.Nat.{min}
use lychgate.Prelude.{
  ℕ, ◌+◌, ◌-◌, ◌*◌, ◌/◌, ◌%◌, ◌≡◌, Bool, true, false, ◌&&◌, not, List, Option, none, some, Result,
  ok, err, ltb, leb, ◌==◌, if◌then◌else◌,
}
use lychgate.Prelude.Decimal.{u64_limit}
use lychgate.Prelude.Text.{Text, bytes, text_eq}
use lychgate.Wire.{WireError, version_key_mismatch, max_ttl_secs}
use lychgate.Wire.Payload.{Capability, Revocation}
use lychgate.Wire.Token.{Crypto, PublicKey, verify_capability, verify_revocation}
use lychgate.Wire.Line as Line

-- `none` of `load`, and `false` of `store`, is the `StoreError`.
pub record Hal (Clock Seq Gate : Type 0) : Type 0 where
  pub uptime_ms : Clock → Clock × ℕ
  pub load : Seq → Seq × Option ℕ
  pub store : ℕ → Seq → Seq × Bool
  pub set_open : Bool → Gate → Gate
  pub sense : Gate → Option Bool
  pub fail_state : Gate → Option Line.FailState

pub record Held : Type 0 where
  pub nonce : List ℕ
  pub expires_at_ms : ℕ

pub record DeviceEngine (Clock Seq Gate : Type 0) : Type 0 where
  pub clock : Clock
  pub seq : Seq
  pub gate : Gate
  pub device_id : List ℕ
  pub trust : PublicKey
  pub grant : Option Held
  pub last_close : Option Line.CloseReason

-- `u64::saturating_add` and `u64::saturating_mul`.
abbrev pub saturating : ℕ → ℕ
saturating n = min n (u64_limit - 1)

-- `u64::div_ceil(1000)`.
abbrev pub ceil_secs : ℕ → ℕ
ceil_secs ms = if ms % 1000 == 0 then ms / 1000 else ms / 1000 + 1

abbrev nak : {C S G : Type 0} → DeviceEngine C S G → Text → DeviceEngine C S G × Line.Reply
nak d reason = (d, Line.nak reason)

-- The reply to a token that does not verify.
unverified : WireError → Text
unverified version_key_mismatch = bytes "wrong-alg"
unverified _ = bytes "bad-token"

module _ {C S G : Type 0} (hal : Hal C S G) (crypto : Crypto) where
  unfoldable pub new : List ℕ → PublicKey → C → S → G → DeviceEngine C S G
  new device_id trust clock seq gate = record {
    clock = clock;
    seq = seq;
    gate = hal.set_open false gate;
    device_id = device_id;
    trust = trust;
    grant = none;
    last_close = some Line.boot;
  }

  unfoldable pub close : Line.CloseReason → DeviceEngine C S G → DeviceEngine C S G
  close reason d = record d {
    grant = none;
    gate = hal.set_open false d.gate;
    last_close = some reason;
  }

  unfoldable pub tick : DeviceEngine C S G → DeviceEngine C S G
  tick d = elim d.grant [
    | none ↦ d
    | some grant ↦
        let (clock, now) = hal.uptime_ms d.clock in
        let d₁ = record d { clock = clock } in
        if leb grant.expires_at_ms now then close Line.expiry d₁ else d₁
  ]

  unfoldable pub remaining_secs : Held → DeviceEngine C S G → DeviceEngine C S G × ℕ
  remaining_secs grant d =
      let (clock, now) = hal.uptime_ms d.clock in
      (record d { clock = clock }, ceil_secs (grant.expires_at_ms - now))

  abbrev report_held : Option Held → ℕ → DeviceEngine C S G → DeviceEngine C S G × Line.Report
  report_held none mark d = (
    d,
    record {
      opened = none;
      seq = mark;
      load = hal.sense d.gate;
      fail = hal.fail_state d.gate;
      reason = d.last_close;
    },
  )
  report_held (some g) mark d =
      let (d₁, remaining) = remaining_secs g d in
      (
        d₁,
        record {
          opened = some (g.nonce, remaining);
          seq = mark;
          load = hal.sense d₁.gate;
          fail = hal.fail_state d₁.gate;
          reason = none;
        },
      )

  -- A mark that does not load is reported as 0.
  unfoldable pub report : DeviceEngine C S G → DeviceEngine C S G × Line.Report
  report d =
      let (seq, loaded) = hal.load d.seq in
      let mark : ℕ = elim loaded [ none ↦ 0 | some n ↦ n ] in
      report_held d.grant mark (record d { seq = seq })

  abbrev ack_open : Held → DeviceEngine C S G → DeviceEngine C S G × Line.Reply
  ack_open grant d =
      let (d₁, remaining) = remaining_secs grant d in (d₁, Line.ack_open grant.nonce remaining)

  -- The end of `accept_token`, from the test of the sequence number on.
  unfoldable pub advance : Capability → ℕ → DeviceEngine C S G → DeviceEngine C S G × Line.Reply
  advance cap stored d =
      if leb cap.issued_seq stored
      then nak d (bytes "replay")
      else if ltb max_ttl_secs cap.ttl_secs
      then nak d (bytes "ttl")
      else let (seq, written) = hal.store cap.issued_seq d.seq in
        let d₁ = record d { seq = seq } in
        if not written
        then nak d₁ (bytes "store-failed")
        else let (clock, now) = hal.uptime_ms d₁.clock in
          let grant : Held = record {
            nonce = cap.grant_nonce;
            expires_at_ms = saturating (now + saturating (cap.ttl_secs * 1000));
          } in
          ack_open grant (record d₁ {
            clock = clock;
            grant = some grant;
            last_close = none;
            gate = hal.set_open true d₁.gate;
          })

  -- The middle of `accept_token`: the mark is loaded, and a grant may be held.
  unfoldable pub weigh : Capability → ℕ → DeviceEngine C S G → DeviceEngine C S G × Line.Reply
  weigh cap stored d = elim d.grant [
    | none ↦ advance cap stored d
    | some grant ↦
        if text_eq grant.nonce cap.grant_nonce && (cap.issued_seq == stored)
        then ack_open grant d
        else if not (text_eq grant.nonce cap.grant_nonce)
        then nak d (bytes "busy")
        else advance cap stored d
  ]

  unfoldable pub accept_token : Text → DeviceEngine C S G → DeviceEngine C S G × Line.Reply
  unfolding unverified
  accept_token token d = elim (verify_capability crypto d.trust token) [
    | err e ↦ nak d (unverified e)
    | ok cap ↦
        if not (text_eq cap.device_id d.device_id)
        then nak d (bytes "wrong-device")
        else let (seq, loaded) = hal.load d.seq in
          let d₁ = record d { seq = seq } in
          elim loaded [ none ↦ nak d₁ (bytes "store-failed") | some stored ↦ weigh cap stored d₁ ]
  ]

  unfoldable pub accept_revocation : Text → DeviceEngine C S G → DeviceEngine C S G × Line.Reply
  unfolding unverified
  accept_revocation token d = elim (verify_revocation crypto d.trust token) [
    | err e ↦ nak d (unverified e)
    | ok rvk ↦
        if not (text_eq rvk.device_id d.device_id)
        then nak d (bytes "wrong-device")
        else let (seq, loaded) = hal.load d.seq in
          let d₁ = record d { seq = seq } in
          elim loaded [
            | none ↦ nak d₁ (bytes "store-failed")
            | some stored ↦
                if leb rvk.issued_seq stored
                then nak d₁ (bytes "replay")
                else let (seq', written) = hal.store rvk.issued_seq d₁.seq in
                  let d₂ = record d₁ { seq = seq' } in
                  if not written then nak d₂ (bytes "store-failed") else elim d₂.grant [
                    | none ↦ (d₂, Line.ack_closed)
                    | some grant ↦
                        if text_eq grant.nonce rvk.grant_nonce
                        then (close Line.revert d₂, Line.ack_closed)
                        else nak d₂ (bytes "wrong-grant")
                  ]
          ]
  ]

  unfoldable pub perform :
      Result WireError Line.Command → DeviceEngine C S G → DeviceEngine C S G × Line.Reply
  perform (ok (Line.token t)) d = accept_token t d
  perform (ok (Line.revoke t)) d = accept_revocation t d
  perform (ok Line.status) d = let (d₁, r) = report d in (d₁, Line.state r)
  perform (ok Line.se_pubkey) d = nak d (bytes "unsupported")
  perform (ok (Line.se_sign c)) d = nak d (bytes "unsupported")
  perform (err e) d = nak d (bytes "bad-command")

  unfoldable pub answer : Text → DeviceEngine C S G → DeviceEngine C S G × Line.Reply
  answer input d = perform (Line.parse_command input) d

  -- An `err` is the panic of the `expect`.
  unfoldable pub handle_line :
      Text → DeviceEngine C S G → DeviceEngine C S G × Result WireError Text
  handle_line input d = let (d₁, reply) = answer input (tick d) in (d₁, Line.render_reply reply)
