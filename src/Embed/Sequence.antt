-- ===== src/Embed/Sequence.antt =====
-- The anti-replay mark of embed/src/lib.rs.
use lychgate.Prelude.{
  ℕ, ◌≤◌, ◌≡◌, refl, ap, ◌∙◌, ◌⊎◌, inl, inr, none, List, [], ◌∷◌, ok, arith, Option-cases,
}
use lychgate.Prelude.Text.{Text}
use lychgate.Wire.Payload.{Capability}
use lychgate.Wire.Token.{Crypto, verify_capability, open_token}
use lychgate.Embed.{
  Hal, DeviceEngine, new, tick, handle_line, advance, weigh, accept_token, remaining_secs,
}
use lychgate.Embed.Contract.{Contract}
use lychgate.Embed.Deadline.{serve, handle_line-Changes}

module _ {C S G : Type 0} (hal : Hal C S G) (crypto : Crypto) (contract : Contract hal) where
  -- Over firmware that keeps the contract of the traits, no sequence of lines moves the mark back.
  pub serve-mark :
      (inputs : List Text) (d : DeviceEngine C S G)
      → contract.mark d.seq ≤ contract.mark (serve hal crypto contract inputs d).seq
  unfolding serve
  serve-mark [] d = omega arith
  serve-mark (input ∷ inputs) d =
      let (a, b) = handle_line-Changes hal crypto contract input d in
      let rest = serve-mark inputs (handle_line hal crypto input d).0 in
      let one : contract.mark d.seq ≤ contract.mark (tick hal crypto d).seq = ground arith in
      let two : contract.mark (tick hal crypto d).seq
          ≤ contract.mark (handle_line hal crypto input d).0.seq =
        ground arith in
      omega arith

  serve-trust :
      (inputs : List Text) (d : DeviceEngine C S G)
      → (serve hal crypto contract inputs d).trust ≡ d.trust
  unfolding serve
  serve-trust [] d = refl
  serve-trust (input ∷ inputs) d =
      let (a, b) = handle_line-Changes hal crypto contract input d in
      let rest = serve-trust inputs (handle_line hal crypto input d).0 in
      let one : (tick hal crypto d).trust ≡ d.trust = ground arith in
      let two : (handle_line hal crypto input d).0.trust ≡ (tick hal crypto d).trust =
        ground arith in
      rest ∙ two ∙ one

  stale_weigh :
      (cap : Capability) (n : ℕ) (d : DeviceEngine C S G)
      → cap.issued_seq ≤ n
      → ((weigh hal crypto cap n d).0.grant ≡ d.grant)
        × ((weigh hal crypto cap n d).0.gate ≡ d.gate)
  unfolding weigh advance remaining_secs
  stale_weigh cap n d h = ground arith

  -- Over firmware that keeps the contract of the traits, a capability token that verifies and is at or below
  -- the mark changes neither the grant nor the gate.
  pub accept_token_stale :
      (t : Text) (d : DeviceEngine C S G) (c : Capability)
      → verify_capability crypto d.trust t ≡ ok c
      → c.issued_seq ≤ contract.mark d.seq
      → ((accept_token hal crypto t d).0.grant ≡ d.grant)
        × ((accept_token hal crypto t d).0.gate ≡ d.gate)
  unfolding accept_token verify_capability open_token
  accept_token_stale t d c p h =
      let d₁ = record d { seq = (hal.load d.seq).0 } in
      rw p (elim (Option-cases (hal.load d.seq).1) [
        | inl q ↦ rw q (ground arith)
        | inr (n, q) ↦
            let e = contract.load_reads d.seq n q in
            rw q (ground (arith, stale_weigh c n d₁ (omega arith)))
      ])

  -- Power is lost after the lines `before`: the store is kept, and the lines `after` come after the boot.
  abbrev pub reboot : List Text → List Text → C → G → DeviceEngine C S G → DeviceEngine C S G
  reboot before after clock gate d =
      serve hal crypto contract after
        (new hal crypto d.device_id d.trust clock (serve hal crypto contract before d).seq gate)

  -- Over firmware that keeps the contract of the traits, a capability token that verifies and whose number is
  -- at or below the mark is dead: after any lines, a reboot that keeps the store and any further lines,
  -- delivering it changes neither the grant nor the gate.
  pub reboot_superseded :
      (before after : List Text) (d : DeviceEngine C S G) (clock : C) (gate : G) (t : Text)
      (c : Capability)
      → verify_capability crypto d.trust t ≡ ok c
      → c.issued_seq ≤ contract.mark d.seq
      → ((accept_token hal crypto t (reboot before after clock gate d)).0.grant
          ≡ (reboot before after clock gate d).grant)
        × ((accept_token hal crypto t (reboot before after clock gate d)).0.gate
            ≡ (reboot before after clock gate d).gate)
  unfolding new
  reboot_superseded before after d clock gate t c p h =
      let s = (serve hal crypto contract before d).seq in
      let d₁ = new hal crypto d.device_id d.trust clock s gate in
      let grown = serve-mark before d in
      let kept = serve-mark after d₁ in
      let e : (reboot before after clock gate d).trust ≡ d.trust = serve-trust after d₁ in
      accept_token_stale t (reboot before after clock gate d) c
        (ap (λ k. verify_capability crypto k t) e ∙ p) (omega arith)

  -- Over firmware that keeps the contract of the traits, a line that does not move the mark leaves the grant
  -- as it is or closes it.
  pub handle_line_unmarked :
      (input : Text) (d : DeviceEngine C S G)
      → contract.mark (handle_line hal crypto input d).0.seq ≡ contract.mark d.seq
      → ((handle_line hal crypto input d).0.grant ≡ d.grant)
        ⊎ ((handle_line hal crypto input d).0.grant ≡ none)
  handle_line_unmarked input d h =
      let (a, b) = handle_line-Changes hal crypto contract input d in ground arith
