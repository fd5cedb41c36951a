-- ===== src/Wire.antt =====
-- The crate wire: the token formats and the device line protocol (wire/src).
mod Tests
pub mod Cbor
pub mod Payload
pub mod Token
pub mod Line
use Prim.Native.String.{String}
use lychgate.Prelude.{ℕ}

-- `WireError` of wire/src/lib.rs.
pub data WireError : Type 0 where
  bad_prefix bad_base64 : WireError
  malformed : String → WireError
  unknown_version version_key_mismatch bad_key bad_signature buffer_too_small : WireError

-- The longest ttl that consumers of the wire format accept.
abbrev pub max_ttl_secs : ℕ
max_ttl_secs = 86_400
