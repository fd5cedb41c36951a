-- ===== src/Daemon/Dispatch/Tests.antt =====
-- The calls of daemon/src/lifecycle.rs that look at the approval policy, on one host whose ssh channel is one bit of
-- the target. The profile `p` asks for the password of `k` and the profile `q` for a minute of waiting.
use lychgate.Prelude.{
  ◌≡◌, refl, ℕ, ◌+◌, Bool, true, false, List, [], ◌∷◌, none, some, ok, ◌⊎◌, if◌then◌else◌,
}
use lychgate.Prelude.Text.{Text, bytes, text_compare, text_eq}
use lychgate.Clock.{unix_epoch, from_secs}
use lychgate.Channel.{ssh}
use lychgate.Channel.Drivers.{Driver, closed}
use lychgate.Grant.{ApprovalRequest}
use lychgate.Grant.Parts.{GrantParts}
use lychgate.Snapshot.{record_of}
use lychgate.Approval.Fido2.{Scheme}
use lychgate.Approval.Password
use lychgate.Approval.Ledgers.{File}
use lychgate.Authority.{Factor, Authority}
use lychgate.Authority.Spec.Build.{AuthorityModel, Authenticator}
use lychgate.Daemon.{Host, Outside}
use lychgate.Daemon.Policy.{Policy, Station}
use lychgate.Daemon.Proofs.{Factors, Secrets, Ledgers, verify_proof, try_passwords}
use lychgate.Daemon.Proofs.Accepted.{Proves, verify_proof-Proves}
use lychgate.Daemon.Approving.{approve}
use lychgate.Daemon.Approving.Met.{ProvesMet, approve_needs_met}
use lychgate.Daemon.Maturing.{mature_one}
use lychgate.Daemon.Maturing.Ready.{IsReady, mature_one_needs_time}
use lychgate.Protocol.{Op}
use lychgate.Daemon.Dispatch.{Origin, dispatch_from}
use lychgate.Daemon.Dispatch.Gate.{held, LetIn, mcp_keeps_out}

abbrev refusing : Scheme
refusing = record {
  key = λ k. false;
  signature = λ s. false;
  verify = λ k m s. false;
  public = λ k. none;
  sign = λ k m. none;
}

-- Libraries that read no token; a stored password is its own hash.
abbrev factors : Factors
factors = record {
  codec = record { trim = λ t. t; encode = λ bs. bs; decode = λ t. some t };
  ssh = record { parse = λ t. none; verify = λ k n m s. false };
  webauthn = record {
    token_to_vec = λ t. [];
    token_from_slice = λ bs. none;
    client_to_vec = λ c. [];
    client_from_slice = λ bs. none;
    sha256 = λ bs. [];
    p256 = refusing;
    ed25519 = refusing;
  };
  mac = λ k m. [];
  hotp = record {
    drop_whitespace = λ t. t;
    trim = λ t. t;
    base32 = λ t. none;
    hmac_sha1 = λ k m i. 0;
  };
  argon2 = record {
    PasswordHash = Text;
    parse = λ t. some t;
    has_digest = λ h. true;
    verify_password = λ p h. if text_eq p h then Password.same else Password.wrong;
    encode_salt = λ bs. none;
    hash_password = λ p s. none;
  };
}

abbrev only : Factor → Authority
only f = record { threshold = 1; factors = record { weight = 1; factor = f } ∷ [] }

abbrev model : AuthorityModel
model = record {
  authenticators = (bytes "k", Authenticator.password (bytes "file")) ∷ [];
  groups = [];
  profiles =
      (bytes "p", only (Factor.authenticator (bytes "k")))
      ∷ (bytes "q", only (Factor.wait (from_secs 60)))
      ∷ [];
  mcp_profiles = [];
}

abbrev secrets : Secrets
secrets = record {
  totp_secrets = [];
  password_hashes = (bytes "k", bytes "pw") ∷ [];
  hmac_secrets = [];
}

abbrev policy : Policy
policy = record {
  approval = some model;
  approval_window = from_secs 600;
  secrets = secrets;
  depth = 2;
}

abbrev no_ledgers : Ledgers
no_ledgers = record { totp_ledger = File.not_found; fido2_counters = File.not_found }

abbrev target : Driver Host (Unit {0}) Bool
target = record {
  apply = λ c h ctx w. (true, ok tt);
  revert = λ c h w. (false, ok tt);
  verify = λ c h w. (w, ok closed);
  renew = λ c h ctx w. (w, ok tt);
  take_secret = λ c w. (w, none);
  reestablish = λ c h w. (w, ok closed);
  suspend = λ c w. w;
}

abbrev outside : Outside (Unit {0}) Bool
outside = record {
  driver = target;
  deadman = record {
    install = λ h t w. (w, ok tt);
    reschedule = λ h t w. (w, ok tt);
    remove = λ h w. (w, ok false);
  };
  hex = record { encode = λ bs. bs; decode = λ t. some t };
  can_read = λ doc. true;
  can_write = λ doc. true;
  can_journal = λ events event. true;
}

abbrev zeros : List ℕ
zeros =
    0 ∷ 0 ∷ 0 ∷ 0 ∷ 0 ∷ 0 ∷ 0 ∷ 0 ∷ 0 ∷ 0 ∷ 0 ∷ 0 ∷ 0 ∷ 0 ∷ 0 ∷ 0 ∷ 0 ∷ 0 ∷ 0 ∷ 0 ∷ 0 ∷ 0 ∷ 0 ∷ 0
    ∷ 0 ∷ 0 ∷ 0 ∷ 0 ∷ 0 ∷ 0 ∷ 0 ∷ 0 ∷ []

-- A request under a profile that was made at the epoch.
abbrev waiting : (profile : Text) → Station Bool
waiting profile = record {
  daemon = record {
    inventory =
        record {
          name = bytes "a";
          channels = ssh ∷ [];
          has_ssh = true;
          drill = false;
          access = none;
        }
        ∷ [];
    doc = record {
      version = 4;
      grants =
          (
            bytes "a",
            record_of outside.hex (
                GrantParts.pending unix_epoch (unix_epoch + from_secs 600)
                  (record { duration = from_secs 60 }) zeros profile []),
          )
          ∷ [];
    };
    journal = [];
    drivers = record { registered = ssh ∷ []; world = false };
  };
  ledgers = no_ledgers;
}

approve_needs_met_example :
    ((approve outside factors policy
        (bytes "a")
        (bytes "pw")
        (unix_epoch + 1)
        (waiting (bytes "p"))).0.daemon.drivers
      ≡ (waiting (bytes "p")).daemon.drivers)
    ⊎ ProvesMet outside factors policy model
        (bytes "a")
        (bytes "pw")
        (unix_epoch + 1)
        (waiting (bytes "p"))
approve_needs_met_example =
    approve_needs_met outside factors policy model (bytes "a") (bytes "pw") (unix_epoch + 1)
      (waiting (bytes "p")) refl

mature_one_needs_time_example :
    ((mature_one outside factors policy model
        (unix_epoch + from_secs 60)
        (bytes "a")
        (waiting (bytes "q")).daemon).0.drivers
      ≡ (waiting (bytes "q")).daemon.drivers)
    ⊎ IsReady outside factors policy model
        (bytes "a")
        (unix_epoch + from_secs 60)
        (waiting (bytes "q")).daemon
mature_one_needs_time_example =
    mature_one_needs_time outside factors policy model (bytes "a") (unix_epoch + from_secs 60)
      (waiting (bytes "q")).daemon

mcp_keeps_out_example :
    (held
        (dispatch_from outside factors policy Origin.mcp
          (Op.approve (bytes "a") (bytes "pw"))
          zeros
          (unix_epoch + 1)
          (waiting (bytes "p"))).0
      ≡ held (waiting (bytes "p")))
    ⊎ LetIn outside factors policy
        (Op.approve (bytes "a") (bytes "pw"))
        (unix_epoch + 1)
        (waiting (bytes "p")).daemon
mcp_keeps_out_example =
    mcp_keeps_out outside factors policy (Op.approve (bytes "a") (bytes "pw")) zeros
      (unix_epoch + 1) (waiting (bytes "p")) refl

abbrev request : ApprovalRequest
request = record { nonce = zeros; host = bytes "a"; ttl_secs = 60; requested_at = unix_epoch }

verify_proof-Proves_example :
    Proves factors model secrets request (bytes "pw") (unix_epoch + 1) no_ledgers (bytes "k")
unfolding verify_proof try_passwords Password.verify text_compare
verify_proof-Proves_example =
    verify_proof-Proves factors model secrets request (bytes "pw") (unix_epoch + 1) no_ledgers
      no_ledgers (bytes "k") refl
