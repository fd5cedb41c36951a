-- ===== src/Protocol.antt =====
-- core/src/proto.rs: the requests that a client sends and the parts of a response. `Json` is what the file calls of
-- the `serde_json` crate on the two forms that a request is read as; an outstanding factor is kept as it is, where
-- the source makes a label of it, and the label of a gate without a policy is `none`.
mod Tests
use lychgate.Prelude.{
  ℕ, ◌*◌, ◌≤◌, ◌≡◌, ◌≢◌, refl, Bool, true, false, not, List, [], ◌∷◌, Option, none, some, Result,
  ok, err, ◌>>=◌, ◌>>◌, ok_or, refuse_if, ltb, leb, ◌==◌, if◌then◌else◌, length, map, arith,
}
use lychgate.Prelude.Text.{Text, bytes, text_eq, text_eq_iff, text_compare}
use lychgate.Clock.{SystemTime, as_secs}
use lychgate.Channel.{Channel}
use lychgate.Grant.{GrantStatus}
use lychgate.Registry.{GrantRegistry, statuses}
use lychgate.Authority.{Missing}

abbrev pub proto_version : ℕ
proto_version = 4

abbrev pub max_line_bytes : ℕ
max_line_bytes = 64 * 1024

pub data Op : Type 0 where
  open_host : (host ttl : Text) (profile : Option Text) → Op
  approve : (host token : Text) → Op
  close : (host : Text) → Op
  renew : (host ttl : Text) → Op
  status : Op
  drill : (host : Text) → Op

pub data ProtoError : Type 0 where
  too_large : (bytes : ℕ) → ProtoError
  malformed : ProtoError
  version_mismatch : (theirs : ℕ) → ProtoError
  missing_field : (op field : Text) → ProtoError
  unknown_op : Text → ProtoError

pub record RequestWire : Type 0 where
  pub proto : ℕ
  pub op : Text
  pub host : Option Text
  pub ttl : Option Text
  pub token : Option Text
  pub profile : Option Text

-- `probe` reads the version alone, `strict` the whole request with no unknown field, and `print` writes the fields
-- that are there.
pub record Json : Type 0 where
  pub probe : Text → Option (Option ℕ)
  pub strict : Text → Option RequestWire
  pub print : RequestWire → Text

-- The `match` on the name of the operation.
op_of : RequestWire → Result ProtoError Op
op_of wire =
    if text_eq wire.op (bytes "open")
    then (do
      host ← ok_or wire.host (missing_field (bytes "open") (bytes "host"))
      ttl ← ok_or wire.ttl (missing_field (bytes "open") (bytes "ttl"))
      ok (open_host host ttl wire.profile))
    else if text_eq wire.op (bytes "approve")
    then (do
      host ← ok_or wire.host (missing_field (bytes "approve") (bytes "host"))
      token ← ok_or wire.token (missing_field (bytes "approve") (bytes "token"))
      ok (approve host token))
    else if text_eq wire.op (bytes "close")
    then (do host ← ok_or wire.host (missing_field (bytes "close") (bytes "host")); ok (close host))
    else if text_eq wire.op (bytes "renew")
    then (do
      host ← ok_or wire.host (missing_field (bytes "renew") (bytes "host"))
      ttl ← ok_or wire.ttl (missing_field (bytes "renew") (bytes "ttl"))
      ok (renew host ttl))
    else if text_eq wire.op (bytes "status")
    then ok status
    else if text_eq wire.op (bytes "drill")
    then (do host ← ok_or wire.host (missing_field (bytes "drill") (bytes "host")); ok (drill host))
    else err (unknown_op wire.op)

unfoldable pub decode_request : Json → Text → Result ProtoError Op
unfolding op_of
decode_request json line = do
  refuse_if (ltb max_line_bytes (length line)) (too_large (length line))
  version ← ok_or (json.probe line) malformed
  elim version [ none ↦ ok tt | some v ↦ refuse_if (not (v == proto_version)) (version_mismatch v) ]
  wire ← ok_or (json.strict line) malformed
  op_of wire

abbrev request : Text → Option Text → Option Text → Option Text → Option Text → RequestWire
request op host ttl token profile = record {
  proto = proto_version;
  op = op;
  host = host;
  ttl = ttl;
  token = token;
  profile = profile;
}

wire_of : Op → RequestWire
wire_of (open_host host ttl profile) = request (bytes "open") (some host) (some ttl) none profile
wire_of (approve host token) = request (bytes "approve") (some host) none (some token) none
wire_of (renew host ttl) = request (bytes "renew") (some host) (some ttl) none none
wire_of (close host) = request (bytes "close") (some host) none none none
wire_of status = request (bytes "status") none none none none
wire_of (drill host) = request (bytes "drill") (some host) none none none

unfoldable pub encode_request : Json → Op → Text
unfolding wire_of
encode_request json op = json.print (wire_of op)

pub data GrantState : Type 0 where
  closed awaiting_approval approval_expired opening opened expired needs_revert : GrantState

pub record GrantLine : Type 0 where
  pub host : Text
  pub state : GrantState
  pub remaining_secs : Option ℕ
  pub stuck_channels : Option (List Channel)

abbrev line : Text → GrantState → Option ℕ → Option (List Channel) → GrantLine
line host state remaining stuck = record {
  host = host;
  state = state;
  remaining_secs = remaining;
  stuck_channels = stuck;
}

status_line : Text × GrantStatus → GrantLine
status_line (host, GrantStatus.closed) = line host closed none none
status_line (host, GrantStatus.awaiting_approval left) =
    line host awaiting_approval (some (as_secs left)) none
status_line (host, GrantStatus.approval_expired) = line host approval_expired none none
status_line (host, GrantStatus.opening) = line host opening none none
status_line (host, GrantStatus.opened left) = line host opened (some (as_secs left)) none
status_line (host, GrantStatus.expired) = line host expired none none
status_line (host, GrantStatus.needs_revert channels) = line host needs_revert none (some channels)

unfoldable pub status_lines : GrantRegistry → SystemTime → List GrantLine
unfolding status_line
status_lines r now = map status_line (statuses r now)

pub record PendingChallenge : Type 0 where
  pub host : Text
  pub challenge : Text
  pub ttl_secs : ℕ
  pub requested_at : ℕ
  pub approval_deadline : ℕ
  pub profile : Text
  pub weight : ℕ
  pub threshold : ℕ
  pub missing : Option (List Missing)

-- What the crate documents of a value that it prints: both forms read it back.
pub record Prints (json : Json) : Type 0 where
  pub probed : (w : RequestWire) → json.probe (json.print w) ≡ some (some w.proto)
  pub read : (w : RequestWire) → json.strict (json.print w) ≡ some w

op_of-wire_of : (op : Op) → op_of (wire_of op) ≡ ok op
unfolding op_of wire_of text_compare
op_of-wire_of (open_host host ttl profile) = refl
op_of-wire_of (approve host token) = refl
op_of-wire_of (close host) = refl
op_of-wire_of (renew host ttl) = refl
op_of-wire_of status = refl
op_of-wire_of (drill host) = refl

wire_of_version : (op : Op) → (wire_of op).proto ≡ proto_version
unfolding wire_of
wire_of_version (open_host host ttl profile) = refl
wire_of_version (approve host token) = refl
wire_of_version (close host) = refl
wire_of_version (renew host ttl) = refl
wire_of_version status = refl
wire_of_version (drill host) = refl

-- Over a JSON library that reads back what it prints, a request that fits in a line is encoded to a line that
-- decodes to it.
pub decode_request-encode_request :
    (json : Json) (op : Op)
    → Prints json
    → length (encode_request json op) ≤ max_line_bytes
    → decode_request json (encode_request json op) ≡ ok op
unfolding decode_request encode_request
decode_request-encode_request json op p l =
    ground
      (arith, l, p.probed (wire_of op), p.read (wire_of op), wire_of_version op, op_of-wire_of op)

-- A line that names another version is refused with that version, whatever else it holds.
pub decode_request_version :
    (json : Json) (line : Text) (v : ℕ)
    → json.probe line ≡ some (some v)
    → v ≢ proto_version
    → length line ≤ max_line_bytes
    → decode_request json line ≡ err (version_mismatch v)
unfolding decode_request
decode_request_version json line v h n l = ground arith
