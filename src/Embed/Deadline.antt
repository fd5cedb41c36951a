-- ===== src/Embed/Deadline.antt =====
-- The gate and the deadline of embed/src/lib.rs.
use lychgate.Prelude.{ℕ, ◌+◌, ◌<◌, ◌≤◌, ◌≡◌, true, false, List, [], ◌∷◌, arith}
use lychgate.Prelude.Text.{Text}
use lychgate.Wire.Token.{Crypto, PublicKey}
use lychgate.Embed.{Hal, DeviceEngine, new, tick, handle_line, close}
use lychgate.Embed.Contract.{
  Contract, Change, is_held, deadline, max_ttl_ms, tick-Change, answer-Change,
}

module _ {C S G : Type 0} (hal : Hal C S G) (crypto : Crypto) (contract : Contract hal) where
  -- The gate is open exactly while a grant is held, and a held grant ends within the longest ttl.
  abbrev pub IsSafe : DeviceEngine C S G → Type 0
  IsSafe d =
      (contract.is_open d.gate ≡ is_held d.grant)
      × (deadline d.grant ≤ contract.time d.clock + max_ttl_ms)

  Change-IsSafe :
      (d d' : DeviceEngine C S G) → Change hal crypto contract d d' → IsSafe d → IsSafe d'
  Change-IsSafe d d' c s = ground arith

  -- What `DeviceEngine::new` boots into is closed and safe, whatever state the gate was found in.
  pub new-IsSafe :
      (id : List ℕ) (trust : PublicKey) (c : C) (s : S) (g : G)
      → IsSafe (new hal crypto id trust c s g)
        × (contract.is_open (new hal crypto id trust c s g).gate ≡ false)
  unfolding new
  new-IsSafe id trust c s g = ground (arith, contract.driven false g)

  -- The engine after a sequence of lines.
  unfoldable pub serve : List Text → DeviceEngine C S G → DeviceEngine C S G
  serve [] d = d
  serve (input ∷ inputs) d = serve inputs (handle_line hal crypto input d).0

  pub handle_line-Changes :
      (input : Text) (d : DeviceEngine C S G)
      → Change hal crypto contract d (tick hal crypto d)
        × Change hal crypto contract (tick hal crypto d) (handle_line hal crypto input d).0
  unfolding handle_line
  handle_line-Changes input d = (
    tick-Change hal crypto contract d,
    answer-Change hal crypto contract input (tick hal crypto d),
  )

  -- Over firmware that keeps the contract of the traits, whatever lines arrive, the gate stays open exactly
  -- while a grant is held and a held grant ends within the longest ttl of the uptime, if that held before.
  pub serve-IsSafe :
      (inputs : List Text) (d : DeviceEngine C S G) → IsSafe d → IsSafe (serve inputs d)
  unfolding serve
  serve-IsSafe [] d s = s
  serve-IsSafe (input ∷ inputs) d s =
      let (a, b) = handle_line-Changes input d in
      let d₁ = (handle_line hal crypto input d).0 in
      serve-IsSafe inputs d₁
        (Change-IsSafe (tick hal crypto d) d₁ b (Change-IsSafe d (tick hal crypto d) a s))

  -- Over firmware that keeps the contract of the traits, from a safe engine, if the gate is open after a tick
  -- then the grant is the one that was held and the clock that the tick read is before its deadline.
  pub tick_lem :
      (d : DeviceEngine C S G)
      → IsSafe d
      → contract.is_open (tick hal crypto d).gate ≡ true
      → (contract.time (tick hal crypto d).clock < deadline d.grant)
        × ((tick hal crypto d).grant ≡ d.grant)
  unfolding tick close
  tick_lem d s h = ground (arith, contract.driven false d.gate, contract.reading d.clock)
