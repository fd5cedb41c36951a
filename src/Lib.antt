-- ===== src/Lib.antt =====
-- lychgate opens break-glass access to hosts for a bounded time. A daemon holds one grant per inventory
-- host, drives the access channels of the host through drivers, and keeps the grants in a state file; a
-- cooperative device takes signed tokens and gates the access itself.
--
-- The parts, and the files that model them:
--
-- - core/src/ttl.rs: Ttl. The cap, the renewal window, Ttl::from_secs, Ttl::parse and the printer. Times are
--   those of Clock, nanoseconds on the native numbers with the checked operations of std::time.
-- - core/src/grant.rs: Grant, a state machine with the states closed, pending, opening, opened and
--   needs_revert. An operation returns the grant after the call and its result. Grant/Parts holds the stored
--   parts; Grant/Lifecycle folds the operations into one step with the edges that a call may follow;
--   Grant/Bound is about sequences of calls, Grant/Expiry about single instants.
-- - core/src/registry.rs: Registry, a map from host names to grants, ascending like a BTreeMap. with_grant
--   is grant_mut followed by the operation; the reaping loops return none where the source would panic.
--   Registry/Calls folds the calls on all hosts into one step and runs them; Registry/Frame and
--   Registry/Reaping hold the theorems on one call and on the loops.
-- - core/src/channel.rs: Channel and Channel/Drivers. A driver is a parameter, the record Driver, over a
--   state World that stands for all drivers and the targets they reach. none is the panic of a missing
--   driver. Channel/Orchestration states the contract that the file asks of drivers and what the loops give
--   for it.
-- - core/src/snapshot.rs: Snapshot. Records, their validation, the snapshot of a registry and loading one.
--   The hexadecimal codec is a parameter. Snapshot/Stored has what a document reads as once it was written,
--   with the whole seconds of its instants. Snapshot/Records is about one record, Snapshot/Load about whole
--   documents, Snapshot/Renewal about what a renewal does to a record.
-- - wire/src/cbor.rs and wire/src/token.rs: Wire/Cbor, Wire/Payload and Wire/Token. A writer is the bytes
--   written and the capacity of its buffer, a reader the bytes left. Base64, Ed25519, P-256 and SHA-256 are
--   the record Crypto, a parameter. Wire/Cbor/Bytes, Head and Entries carry the lemmas on the codec,
--   Wire/Payload/Layout, Decode and Size those on payloads, and Wire/Payload/RoundTrip the theorems.
-- - wire/src/line.rs: Wire/Line, the renderers of commands and replies and the parser of commands;
--   Wire/Line/Commands holds the theorem on commands.
-- - embed/src/lib.rs: Embed. The clock, the store of the sequence number and the gate are the record Hal, a
--   parameter; every reading of the clock moves it on, so that no two readings are assumed equal.
--   Embed/Contract states what the traits ask of firmware and what a call can do; Embed/Deadline and
--   Embed/Sequence follow from it.
--
-- - core/src/authority.rs: Authority, Authority/Graph and Authority/Spec. A gate is a threshold over
--   weighted factors; evaluate recurses into groups and takes a bound on its depth; the cycle check takes a
--   bound on the rounds of its loop. Authority/Spec has the policy as written with the checks of one
--   authority, Authority/Spec/Build the loading of a whole policy. Authority/Graph/Covering and
--   Authority/Graph/Order show what a finished cycle check gives, Authority/Graph/Ending (over Pushing, Met
--   and Load beside it) that the check ends, Authority/Evaluation that evaluation then ends,
--   Authority/Spec/Build/Checked what loading has checked, and Authority/Spec/Build/Opening when gates open.
--   Authority/Proofs has the lists of authenticators by kind and the verification of an SSH signature over
--   the record Ssh, a parameter.
-- - core/src/approval.rs, core/src/fido2.rs, core/src/tpm.rs and core/src/totp.rs: Approval, Approval/Fido2,
--   Approval/Tpm and Approval/Totp, with the theorems in Approval/Canonical, Approval/Fido2/Assertions and
--   Challenge, Approval/Tpm and Approval/Totp/Window. Base64, JSON, hashes and signature schemes are the
--   records Codec, Webauthn, Scheme and Hotp, parameters; the laws that a theorem needs of them are its
--   hypotheses.
-- - core/src/hmac_factor.rs and core/src/password.rs: Approval/HmacFactor and Approval/Password, over
--   parameters for the MAC and for Argon2.
-- - core/src/proto.rs: Protocol, the requests with their encoder and decoder, the lines of a status and the
--   challenge. The JSON library is the record Json, a parameter.
-- - core/src/ssh.rs: Ssh, the postures and the fence in a file of authorized keys. Ssh/Lines and Ssh/Markers
--   carry the lemmas on lines and markers, Ssh/Fence the theorem.
-- - core/src/vnc.rs and core/src/generic.rs: Templates, the placeholders of command templates and the state
--   that a response shows, with a theorem in Templates/Found.
-- - core/src/inventory.rs: Inventory, its types and errors; Inventory/Channels and Inventory/Validation have
--   the validation rules, Inventory/Access shows what a valid inventory gives the daemon, and
--   Inventory/Distinct what it keeps apart.
-- - daemon/src/totp_ledger.rs and daemon/src/fido2_counters.rs: Approval/Ledgers, the content of the two
--   files and one step per call. Approval/Ledgers/Replay and Approval/Ledgers/Counters are about sequences
--   of calls.
-- - daemon/src/lifecycle.rs: Daemon, Daemon/Opening, Daemon/Reverting and Daemon/Renewing. A call is an
--   action on the daemon's state, which is the inventory, the document of the state file, the journal and
--   the drivers; it answers or ends the daemon with an error. Outside is the record of what lies beyond the
--   process: the drivers, the dead man's control, and whether a read or a write succeeds; a write leaves the
--   document as the next read finds it. Daemon/Opening/Listed relates the document to the registry,
--   Daemon/Opening/Commits, Daemon/Opening/Coverage and Daemon/Reverting/Closing follow the channels of one
--   host through a call. Daemon/Policy has the approval policy as the daemon reads it and the daemon with
--   its two ledgers; Daemon/Proofs routes a proof to its factor, Daemon/Requesting is open, Daemon/Approving
--   is approve, Daemon/Maturing is the part of a pass that opens a request whose wait is over, and
--   Daemon/Dispatch is dispatch_from with the MCP gate. Daemon/Frame carries lemmas on what an action keeps;
--   Daemon/Proofs/Accepted, Daemon/Approving/Met, Daemon/Maturing/Ready and Daemon/Dispatch/Gate hold the
--   theorems. Daemon/Proofs/Checked is about each kind of proof, Daemon/Approving/Judged about what follows
--   one, and Daemon/Dispatch/Unresolved about an operation whose profile cannot be resolved.
--
-- How the parts interact: the registry calls the grant's operations, the snapshot layer reads and restores
-- its grants, and the ttl bounds both; the daemon loads the registry for each call, applies an operation and
-- stores the snapshot before it drives channels; a request names a profile of the policy that its host
-- permits in the inventory, and an approval is evaluated against it over proofs that the factors verify; the
-- device engine parses lines, verifies tokens with the payload codec and drives the gate.
--
-- Bounds: integers are the native numbers, with the wrap-around and the saturation of the source written
-- out. Loops recurse on their lists. The loop of the decimal printer is bounded by the 20 places of the
-- source's buffer, which hold every number of 64 bits. A CBOR reader takes at most nine bytes for a head.
-- The depth of evaluate is bounded: the theorem on its end gives a depth that is enough for groups without a
-- cycle. The bound on the cycle check counts the pops of its stack for one start, and two for each factor of
-- the policy and two more are enough. The longest wait is bounded likewise. The daemon takes one bound for
-- both, the field depth of Policy, and a call that meets it ends as too_deep, an end that the source does
-- not have; nothing is said here of a bound that is too small.
--
-- Not modelled: what an open says of the channels that it cannot verify, the printed report of a pass, the
-- JSON form of a response, the reload command and the effective posture of sshd, the messages of the bmc
-- channel, the daemon's drivers, storage and sockets, the scripts of the dead man, the sequence numbers of
-- devices, the parser of device replies, the signing of tokens, the command line, the MCP server, the TPM
-- tool, the simulator and the firmware. The JSON, TOML and cryptographic libraries are other crates. Display
-- of errors is left out, and so is the name in the message about an unknown stored state.
--
-- Each part has its tests, with runs at concrete values, in a module Tests below it. Prelude holds what the
-- parts share: texts as lists of bytes, sorted maps and sets, Result as a monad, and lists measured by
-- native numbers.
pub mod Prelude
pub mod Clock
pub mod Ttl
pub mod Channel
pub mod Grant
pub mod Registry
pub mod Authority
pub mod Snapshot
pub mod Wire
pub mod Embed
pub mod Approval
pub mod Protocol
pub mod Ssh
pub mod Templates
pub mod Inventory
pub mod Daemon
