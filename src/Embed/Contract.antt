-- ===== src/Embed/Contract.antt =====
-- What the traits of embed/src/lib.rs ask of the firmware that implements them, and what a call can do to the
-- grant, the gate and the mark.
use lychgate.Prelude.{
  ℕ, ◌+◌, ◌*◌, ◌<◌, ◌≤◌, Option-cases, Result-cases, ◌≡◌, ◌∙◌, sym, ◌⊎◌, inl, inr, Bool, true,
  false, Option, none, some, Result, ok, err, arith,
}
use lychgate.Prelude.Text.{Text}
use lychgate.Wire.Token.{Crypto, verify_capability, verify_revocation, open_token}
use lychgate.Wire.Payload.{Capability}
use lychgate.Wire.{WireError, max_ttl_secs}
use lychgate.Wire.Line as Line
use lychgate.Embed.{
  Hal, Held, DeviceEngine, close, tick, remaining_secs, report, advance, accept_token,
  accept_revocation, answer, perform, weigh,
}

-- The clock does not run backwards, a store that returns has recorded the mark, a failed one may have, and the
-- gate does what it is told.
pub record Contract {C S G : Type 0} (hal : Hal C S G) : Type 0 where
  pub time : C → ℕ
  pub mark : S → ℕ
  pub is_open : G → Bool
  pub monotone : (c : C) → time c ≤ (hal.uptime_ms c).1
  pub reading : (c : C) → time (hal.uptime_ms c).0 ≡ (hal.uptime_ms c).1
  pub load_keeps : (s : S) → mark (hal.load s).0 ≡ mark s
  pub load_reads : (s : S) (n : ℕ) → (hal.load s).1 ≡ some n → n ≡ mark s
  pub stored : (n : ℕ) (s : S) → (hal.store n s).1 ≡ true → mark (hal.store n s).0 ≡ n
  pub store_failed :
      (n : ℕ) (s : S)
      → (hal.store n s).1 ≡ false
      → (mark (hal.store n s).0 ≡ mark s) ⊎ (mark (hal.store n s).0 ≡ n)
  pub driven : (b : Bool) (g : G) → is_open (hal.set_open b g) ≡ b

abbrev pub is_held : Option Held → Bool
is_held none = false
is_held (some h) = true

-- The uptime at which a held grant ends.
abbrev pub deadline : Option Held → ℕ
deadline none = 0
deadline (some h) = h.expires_at_ms

abbrev pub max_ttl_ms : ℕ
max_ttl_ms = max_ttl_secs * 1000

module _ {C S G : Type 0} (hal : Hal C S G) (crypto : Crypto) (contract : Contract hal) where
  -- The three things that a call can do to the grant, and what it does to the mark and the gate with it.
  abbrev pub Forward : DeviceEngine C S G → DeviceEngine C S G → Type 0
  Forward d d' =
      (contract.mark d.seq ≤ contract.mark d'.seq)
      × (contract.time d.clock ≤ contract.time d'.clock)
      × (d'.trust ≡ d.trust)

  abbrev pub Kept : DeviceEngine C S G → DeviceEngine C S G → Type 0
  Kept d d' =
      (d'.grant ≡ d.grant) × (contract.is_open d'.gate ≡ contract.is_open d.gate) × Forward d d'

  abbrev pub Opened : DeviceEngine C S G → DeviceEngine C S G → Type 0
  Opened d d' =
      (contract.mark d.seq < contract.mark d'.seq)
      × (is_held d'.grant ≡ true)
      × (contract.is_open d'.gate ≡ true)
      × (deadline d'.grant ≤ contract.time d'.clock + max_ttl_ms)
      × Forward d d'

  abbrev pub Closed : DeviceEngine C S G → DeviceEngine C S G → Type 0
  Closed d d' = (d'.grant ≡ none) × (contract.is_open d'.gate ≡ false) × Forward d d'

  abbrev pub Change : DeviceEngine C S G → DeviceEngine C S G → Type 0
  Change d d' = Kept d d' ⊎ Opened d d' ⊎ Closed d d'

  pub tick-Change : (d : DeviceEngine C S G) → Change d (tick hal crypto d)
  unfolding tick close
  tick-Change d =
      ground
        (arith, contract.driven false d.gate, contract.monotone d.clock, contract.reading d.clock)

  pub advance-Change :
      (cap : Capability) (n : ℕ) (d : DeviceEngine C S G)
      → n ≡ contract.mark d.seq
      → Change d (advance hal crypto cap n d).0
  unfolding advance remaining_secs
  advance-Change cap n d h =
      let c₁ = (hal.uptime_ms d.clock).0 in
      ground (
        arith,
        contract.driven true d.gate,
        contract.stored cap.issued_seq d.seq,
        contract.store_failed cap.issued_seq d.seq,
        contract.monotone d.clock,
        contract.reading d.clock,
        contract.monotone c₁,
        contract.reading c₁,
      )

  pub weigh-Change :
      (cap : Capability) (n : ℕ) (d : DeviceEngine C S G)
      → n ≡ contract.mark d.seq
      → Change d (weigh hal crypto cap n d).0
  unfolding weigh remaining_secs
  weigh-Change cap n d h =
      ground (arith, advance-Change cap n d h, contract.monotone d.clock, contract.reading d.clock)

  pub accept_token-Change :
      (t : Text) (d : DeviceEngine C S G) → Change d (accept_token hal crypto t d).0
  unfolding accept_token verify_capability open_token
  accept_token-Change t d =
      let d₁ = record d { seq = (hal.load d.seq).0 } in
      let keeps = contract.load_keeps d.seq in
      elim (Result-cases (verify_capability crypto d.trust t)) [
        | inr (e, p) ↦ rw p (ground arith)
        | inl (cap, p) ↦ rw p (elim (Option-cases (hal.load d.seq).1) [
          | inl q ↦ rw q (ground arith)
          | inr (n, q) ↦
              rw q
                (ground (arith, weigh-Change cap n d₁ (contract.load_reads d.seq n q ∙ sym keeps)))
        ])
      ]

  pub accept_revocation-Change :
      (t : Text) (d : DeviceEngine C S G) → Change d (accept_revocation hal crypto t d).0
  unfolding accept_revocation close verify_revocation open_token
  accept_revocation-Change t d =
      let s₁ = (hal.load d.seq).0 in
      let keeps = contract.load_keeps d.seq in
      elim (Result-cases (verify_revocation crypto d.trust t)) [
        | inr (e, p) ↦ rw p (ground arith)
        | inl (rvk, p) ↦ rw p (elim (Option-cases (hal.load d.seq).1) [
          | inl q ↦ rw q (ground arith)
          | inr (n, q) ↦ rw q (
              ground (
                arith,
                contract.load_reads d.seq n q,
                contract.driven false d.gate,
                contract.stored rvk.issued_seq s₁,
                contract.store_failed rvk.issued_seq s₁,
              ))
        ])
      ]

  pub report-Change : (d : DeviceEngine C S G) → Change d (report hal crypto d).0
  unfolding report remaining_secs
  report-Change d =
      ground (arith, contract.load_keeps d.seq, contract.monotone d.clock, contract.reading d.clock)

  perform-Change :
      (c : Result WireError Line.Command) (d : DeviceEngine C S G)
      → Change d (perform hal crypto c d).0
  unfolding perform
  perform-Change (ok (Line.token t)) d = accept_token-Change t d
  perform-Change (ok (Line.revoke t)) d = accept_revocation-Change t d
  perform-Change (ok Line.status) d = report-Change d
  perform-Change (ok Line.se_pubkey) d = ground arith
  perform-Change (ok (Line.se_sign c)) d = ground arith
  perform-Change (err e) d = ground arith

  pub answer-Change :
      (input : Text) (d : DeviceEngine C S G) → Change d (answer hal crypto input d).0
  unfolding answer
  answer-Change input d = perform-Change (Line.parse_command input) d
