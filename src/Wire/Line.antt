-- ===== src/Wire/Line.antt =====
-- The device line protocol of wire/src/line.rs: both of its renderers, and the parser of commands.
pub mod Commands
use Prim.Native.String.{String}
use lychgate.Prelude.{
  ℕ, zero, suc, ◌+◌, ◌/◌, ◌%◌, Bool, true, false, ◌&&◌, ◌||◌, List, [], ◌∷◌, ◌++◌, Option, none,
  some, Result, ok, err, ◌>>=◌, ltb, ◌==◌, if◌then◌else◌, length, is_empty,
}
use lychgate.Prelude.Decimal.{decimal}
use lychgate.Prelude.Text.{Text, bytes, text_eq}
use lychgate.Wire.{WireError, malformed, buffer_too_small}
use lychgate.Wire.Payload.{max_token_len}
use lychgate.Wire.Token.{strip_prefix}

abbrev pub max_line_len : ℕ
max_line_len = 4 + max_token_len + 16

pub data Command : Type 0 where
  token revoke : Text → Command
  status se_pubkey : Command
  se_sign : Text → Command

pub data CloseReason : Type 0 where
  revert expiry boot : CloseReason

pub data FailState : Type 0 where
  energized de_energized : FailState

pub record Report : Type 0 where
  pub opened : Option (List ℕ × ℕ)
  pub seq : ℕ
  pub load : Option Bool
  pub fail : Option FailState
  pub reason : Option CloseReason

pub data Reply : Type 0 where
  ack_open : (nonce : List ℕ) (remaining_secs : ℕ) → Reply
  ack_closed : Reply
  nak : Text → Reply
  state : Report → Reply
  pubkey sig : Text → Reply

hex_digit : ℕ → ℕ
hex_digit d = if ltb d 10 then 48 + d else 87 + d

unfoldable pub hex_nonce : List ℕ → Text
unfolding hex_digit
hex_nonce [] = []
hex_nonce (b ∷ bs) = hex_digit (b / 16) ∷ hex_digit (b % 16) ∷ hex_nonce bs

-- The text of a `Line` with a buffer of `max_line_len` bytes.
unfoldable pub push : Text → Text → Result WireError Text
push s line =
    if ltb max_line_len (length line + length s) then err buffer_too_small else ok (line ++ s)

-- The digits are `decimal`, whose loop the source writes out in a buffer of 20 bytes.
unfoldable pub push_u64 : ℕ → Text → Result WireError Text
push_u64 n line = push (decimal n) line

unfoldable pub render_command : Command → Result WireError Text
render_command (token t) = push (bytes "TOK ") [] >>= push t
render_command (revoke t) = push (bytes "RVK ") [] >>= push t
render_command status = push (bytes "STAT") []
render_command se_pubkey = push (bytes "SE-PUBKEY?") []
render_command (se_sign c) = push (bytes "SE-SIGN ") [] >>= push c

fail_word : FailState → Text
fail_word energized = bytes " fail=energized"
fail_word de_energized = bytes " fail=de-energized"

reason_word : CloseReason → Text
reason_word revert = bytes " reason=revert"
reason_word expiry = bytes " reason=expiry"
reason_word boot = bytes " reason=boot"

push_trailer : {A : Type 0} → (A → Text) → Option A → Text → Result WireError Text
push_trailer word none line = ok line
push_trailer word (some a) line = push (word a) line

push_open : Option (List ℕ × ℕ) → Text → Result WireError Text
push_open none line = push (bytes "closed") line
push_open (some (nonce, remaining)) line =
    push (bytes "open ") line >>= push (hex_nonce nonce) >>= push (bytes " ") >>= push_u64 remaining

unfoldable pub render_reply : Reply → Result WireError Text
unfolding fail_word reason_word push_trailer push_open
render_reply (ack_open nonce remaining_secs) =
    push (bytes "ACK ") []
    >>= push (hex_nonce nonce)
    >>= push (bytes " ")
    >>= push_u64 remaining_secs
render_reply ack_closed = push (bytes "ACK closed") []
render_reply (nak reason) = push (bytes "NAK ") [] >>= push reason
render_reply (state report) = do
  line₁ ← push (bytes "STATE ") []
  line₂ ← push_open report.opened line₁
  line₃ ← push (bytes " seq=") line₂
  line₄ ← push_u64 report.seq line₃
  line₅ ← push_trailer (λ on. if on then bytes " load=on" else bytes " load=off") report.load line₄
  line₆ ← push_trailer fail_word report.fail line₅
  push_trailer reason_word report.reason line₆
render_reply (pubkey hex) = push (bytes "PUBKEY ") [] >>= push hex
render_reply (sig tpm) = push (bytes "SIG ") [] >>= push tpm

-- `line.trim_end_matches(['\r', '\n'])`.
unfoldable pub trim_end : Text → Text
trim_end [] = []
trim_end (x ∷ xs) =
    let rest = trim_end xs in if (x == 13 || x == 10) && is_empty rest then [] else x ∷ rest

unfoldable pub parse_command : Text → Result WireError Command
parse_command input =
    let line = trim_end input in
    if text_eq line (bytes "STAT")
    then ok status
    else if text_eq line (bytes "SE-PUBKEY?")
    then ok se_pubkey
    else elim (strip_prefix (bytes "TOK ") line) [
      | some rest ↦ ok (token rest)
      | none ↦ elim (strip_prefix (bytes "RVK ") line) [
        | some rest ↦ ok (revoke rest)
        | none ↦ elim (strip_prefix (bytes "SE-SIGN ") line) [
          | some rest ↦ ok (se_sign rest)
          | none ↦ err (malformed "unknown command")
        ]
      ]
    ]
