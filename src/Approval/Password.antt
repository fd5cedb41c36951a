-- ===== src/Approval/Password.antt =====
-- core/src/password.rs: hashes of passwords. `Argon2` is what the file calls of the `argon2` crate; an error's
-- message is left out.
use lychgate.Prelude.{
  ℕ, Bool, true, false, not, List, Option, Result, ok, err, ◌>>=◌, ◌>>◌, ok_or, refuse_if,
}
use lychgate.Prelude.Text.{Text}

pub data PasswordError : Type 0 where
  bad_hash hashing : PasswordError

-- How the crate's comparison ends.
pub data Verdict : Type 0 where
  same wrong failed : Verdict

pub record Argon2 : Type 1 where
  pub PasswordHash : Type 0
  pub parse : Text → Option PasswordHash
  pub has_digest : PasswordHash → Bool
  pub verify_password : (password : Text) → PasswordHash → Verdict
  pub encode_salt : List ℕ → Option Text
  pub hash_password : (password salt : Text) → Option Text

module _ (lib : Argon2) where
  open lib use {PasswordHash}

  unfoldable pub hash : (password : Text) (salt : List ℕ) → Result PasswordError Text
  hash password salt = do
    s ← ok_or (lib.encode_salt salt) hashing
    ok_or (lib.hash_password password s) hashing

  -- The private `parse` of the file.
  unfoldable pub parse_hash : Text → Result PasswordError PasswordHash
  parse_hash phc = do
    parsed ← ok_or (lib.parse phc) bad_hash
    refuse_if (not (lib.has_digest parsed)) bad_hash
    ok parsed

  abbrev judged : Verdict → Result PasswordError Bool
  judged same = ok true
  judged wrong = ok false
  judged failed = err bad_hash

  unfoldable pub verify : (phc password : Text) → Result PasswordError Bool
  unfolding parse_hash
  verify phc password = do parsed ← parse_hash phc; judged (lib.verify_password password parsed)

  unfoldable pub validate_hash : Text → Result PasswordError (Unit {0})
  unfolding parse_hash
  validate_hash phc = do parsed ← parse_hash phc; ok tt
