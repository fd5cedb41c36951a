-- ===== src/Wire/Tests.antt =====
-- Payloads and lines of wire/src at concrete values.
use lychgate.Prelude.{ℕ, ◌≡◌, refl, List, [], ◌∷◌, ◌++◌, ok, err, ◌>>=◌, arith, inl, inr}
use lychgate.Prelude.Text.{Text, bytes}
use lychgate.Wire.{buffer_too_small}
use lychgate.Wire.Cbor.{
  read_map, read_uint_entry, read_uint_entry_u32, read_bstr16_entry, read_key, read_head, read_wide,
  read_be, read_byte, read_bytes, read_end,
}
use lychgate.Wire.Payload.{
  read_ver, Capability, Revocation, IsCapability, IsRevocation, encode_capability,
  encode_revocation, decode_capability, decode_revocation, max_payload_len,
}
use lychgate.Wire.Payload.RoundTrip.{
  encode_capability-decode, encode_revocation-decode, decode_capability-encode,
  decode_revocation-encode,
}
use lychgate.Wire.Line.{se_sign, push, render_command, parse_command, trim_end}
use lychgate.Wire.Line.Commands.{render_command-parse}

abbrev sixteen : ℕ → List ℕ
sixteen b = b ∷ b ∷ b ∷ b ∷ b ∷ b ∷ b ∷ b ∷ b ∷ b ∷ b ∷ b ∷ b ∷ b ∷ b ∷ b ∷ []

abbrev door : Capability
door = record {
  ver = 1;
  device_id = sixteen 7;
  grant_nonce = sixteen 9;
  capability = 1;
  ttl_secs = 3600;
  issued_seq = 70_000;
}

abbrev no_door : Revocation
no_door = record { ver = 2; device_id = sixteen 7; grant_nonce = sixteen 9; issued_seq = 70_001 }

door-IsCapability : IsCapability door
door-IsCapability = record {
  known = inl refl;
  id_len = refl;
  id_bytes = ground arith;
  nonce_len = refl;
  nonce_bytes = ground arith;
  capability_fits = ground arith;
  ttl_fits = ground arith;
  seq_fits = ground arith;
}

no_door-IsRevocation : IsRevocation no_door
no_door-IsRevocation = record {
  known = inr refl;
  id_len = refl;
  id_bytes = ground arith;
  nonce_len = refl;
  nonce_bytes = ground arith;
  seq_fits = ground arith;
}

encode_capability-decode_example :
    (encode_capability door max_payload_len >>= decode_capability) ≡ ok door
encode_capability-decode_example = encode_capability-decode door door-IsCapability

encode_revocation-decode_example :
    (encode_revocation no_door max_payload_len >>= decode_revocation) ≡ ok no_door
encode_revocation-decode_example = encode_revocation-decode no_door no_door-IsRevocation

-- The payload of `door`, byte by byte.
abbrev door_bytes : List ℕ
door_bytes =
    166 ∷ 0 ∷ 1 ∷ 1 ∷ 80 ∷ 7 ∷ 7 ∷ 7 ∷ 7 ∷ 7 ∷ 7 ∷ 7 ∷ 7 ∷ 7 ∷ 7 ∷ 7 ∷ 7 ∷ 7 ∷ 7 ∷ 7 ∷ 7 ∷ 2 ∷ 80
    ∷ 9 ∷ 9 ∷ 9 ∷ 9 ∷ 9 ∷ 9 ∷ 9 ∷ 9 ∷ 9 ∷ 9 ∷ 9 ∷ 9 ∷ 9 ∷ 9 ∷ 9 ∷ 9 ∷ 3 ∷ 1 ∷ 4 ∷ 25 ∷ 14 ∷ 16 ∷ 5
    ∷ 26 ∷ 0 ∷ 1 ∷ 17 ∷ 112 ∷ []

abbrev no_door_bytes : List ℕ
no_door_bytes =
    164 ∷ 0 ∷ 2 ∷ 1 ∷ 80 ∷ 7 ∷ 7 ∷ 7 ∷ 7 ∷ 7 ∷ 7 ∷ 7 ∷ 7 ∷ 7 ∷ 7 ∷ 7 ∷ 7 ∷ 7 ∷ 7 ∷ 7 ∷ 7 ∷ 2 ∷ 80
    ∷ 9 ∷ 9 ∷ 9 ∷ 9 ∷ 9 ∷ 9 ∷ 9 ∷ 9 ∷ 9 ∷ 9 ∷ 9 ∷ 9 ∷ 9 ∷ 9 ∷ 9 ∷ 9 ∷ 3 ∷ 26 ∷ 0 ∷ 1 ∷ 17 ∷ 113 ∷ []

decode_capability-encode_example :
    IsCapability door × (encode_capability door max_payload_len ≡ ok door_bytes)
unfolding decode_capability read_map read_ver read_uint_entry read_uint_entry_u32 read_bstr16_entry
    read_key read_head read_wide read_be read_byte read_bytes read_end
decode_capability-encode_example = decode_capability-encode door_bytes door (ground arith) refl

decode_revocation-encode_example :
    IsRevocation no_door × (encode_revocation no_door max_payload_len ≡ ok no_door_bytes)
unfolding decode_revocation read_map read_ver read_uint_entry read_uint_entry_u32 read_bstr16_entry
    read_key read_head read_wide read_be read_byte read_bytes read_end
decode_revocation-encode_example =
    decode_revocation-encode no_door_bytes no_door (ground arith) refl

-- The longest challenge that fits a line behind its word.
abbrev challenge : Text
challenge =
    sixteen b'a'
    ++ (sixteen b'b'
        ++ (sixteen b'c'
            ++ (sixteen b'd'
                ++ (sixteen b'e'
                    ++ (sixteen b'f'
                        ++ (sixteen b'g'
                            ++ (sixteen b'h'
                                ++ (sixteen b'i'
                                    ++ (sixteen b'j'
                                        ++ (sixteen b'k' ++ bytes "lllllllllll"))))))))))

render_command-parse_example :
    (render_command (se_sign challenge) >>= parse_command) ≡ ok (se_sign challenge)
unfolding trim_end
render_command-parse_example = render_command-parse (se_sign challenge) refl

render_command_refused : render_command (se_sign (b'l' ∷ challenge)) ≡ err buffer_too_small
unfolding render_command push
render_command_refused = refl
