-- ===== src/Embed/Tests.antt =====
-- A device engine of embed/src/lib.rs with a clock that advances on each reading, a store that keeps one number
-- and a gate that is a switch.
use lychgate.Prelude.{
  ℕ, ◌+◌, ◌≤◌, ◌≡◌, refl, inr, Bool, true, List, [], ◌∷◌, ◌++◌, none, some, ok, arith,
}
use lychgate.Prelude.Text.{Text, bytes}
use lychgate.Wire.Cbor.{
  read_map, read_uint_entry, read_uint_entry_u32, read_bstr16_entry, read_key, read_head, read_wide,
  read_be, read_byte, read_bytes, read_end,
}
use lychgate.Wire.Payload.{Capability, decode_capability, read_ver}
use lychgate.Wire.Token.{Crypto, ed25519, verify_capability, open_token, b64_decode, verify_sig}
use lychgate.Embed.{Hal, DeviceEngine, accept_token}
use lychgate.Embed.Contract.{Contract}
use lychgate.Embed.Deadline.{IsSafe, serve, serve-IsSafe}
use lychgate.Embed.Sequence.{serve-mark, reboot, reboot_superseded}

abbrev board : Hal ℕ ℕ Bool
board = record {
  uptime_ms = λ c. (c + 5, c + 5);
  load = λ s. (s, some s);
  store = λ n s. (n, true);
  set_open = λ b g. b;
  sense = λ g. none;
  fail_state = λ g. none;
}

read_back : (s n : ℕ) → some s ≡ some n → n ≡ s
read_back s n h = ground arith

abbrev board_contract : Contract board
board_contract = record {
  time = λ c. c;
  mark = λ s. s;
  is_open = λ g. g;
  monotone = λ c. omega arith;
  reading = λ c. refl;
  load_keeps = λ s. refl;
  load_reads = λ s n h. read_back s n h;
  stored = λ n s h. refl;
  store_failed = λ n s h. inr refl;
  driven = λ b g. refl;
}

-- A codec that keeps the bytes, and signatures that all verify.
abbrev trusting : Crypto
trusting = record {
  decode_len = λ n. some n;
  decode_mut = λ bs. some bs;
  ed25519_key = λ k. true;
  ed25519_verify = λ k m s. true;
  p256_key = λ k. true;
  p256_signature = λ s. true;
  sha256 = λ m. m;
  p256_verify_prehash = λ k m s. true;
}

abbrev sixteen : ℕ → List ℕ
sixteen b = b ∷ b ∷ b ∷ b ∷ b ∷ b ∷ b ∷ b ∷ b ∷ b ∷ b ∷ b ∷ b ∷ b ∷ b ∷ b ∷ []

abbrev door : Capability
door = record {
  ver = 1;
  device_id = sixteen 7;
  grant_nonce = sixteen 9;
  capability = 1;
  ttl_secs = 20;
  issued_seq = 5;
}

abbrev door_token : Text
door_token =
    bytes "lgcap."
    ++ ((166 ∷ 0 ∷ 1 ∷ 1 ∷ 80 ∷ sixteen 7)
        ++ ((2 ∷ 80 ∷ sixteen 9)
            ++ ((3 ∷ 1 ∷ 4 ∷ 20 ∷ 5 ∷ 5 ∷ 46 ∷ [])
                ++ (sixteen 0 ++ (sixteen 0 ++ (sixteen 0 ++ sixteen 0))))))

abbrev engine : DeviceEngine ℕ ℕ Bool
engine = record {
  clock = 1000;
  seq = 5;
  gate = true;
  device_id = sixteen 7;
  trust = ed25519 [];
  grant = some (record { nonce = sixteen 9; expires_at_ms = 20_000 });
  last_close = none;
}

door_token-verifies : verify_capability trusting (ed25519 []) door_token ≡ ok door
unfolding verify_capability open_token b64_decode verify_sig decode_capability read_map read_ver
    read_uint_entry read_uint_entry_u32 read_bstr16_entry read_key read_head read_wide read_be
    read_byte read_bytes read_end
door_token-verifies = refl

reboot_superseded_example :
    ((accept_token board trusting door_token (
        reboot board trusting board_contract
          (bytes "STAT" ∷ [])
          (bytes "STAT" ∷ [])
          0
          true
          engine)).0.grant
      ≡ (reboot board trusting board_contract
          (bytes "STAT" ∷ [])
          (bytes "STAT" ∷ [])
          0
          true
          engine).grant)
    × ((accept_token board trusting door_token (
          reboot board trusting board_contract
            (bytes "STAT" ∷ [])
            (bytes "STAT" ∷ [])
            0
            true
            engine)).0.gate
        ≡ (reboot board trusting board_contract
            (bytes "STAT" ∷ [])
            (bytes "STAT" ∷ [])
            0
            true
            engine).gate)
reboot_superseded_example =
    reboot_superseded board trusting board_contract (bytes "STAT" ∷ []) (bytes "STAT" ∷ []) engine 0
      true door_token door door_token-verifies (ground arith)

serve-IsSafe_example :
    IsSafe board trusting board_contract (
      serve board trusting board_contract ((bytes "TOK " ++ door_token) ∷ bytes "STAT" ∷ []) engine)
serve-IsSafe_example =
    serve-IsSafe board trusting board_contract ((bytes "TOK " ++ door_token) ∷ bytes "STAT" ∷ [])
      engine (ground arith, ground arith)

serve-mark_example : 5 ≤ (serve board trusting board_contract (bytes "STAT" ∷ []) engine).seq
serve-mark_example = serve-mark board trusting board_contract (bytes "STAT" ∷ []) engine
