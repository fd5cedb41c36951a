-- ===== src/Daemon/Proofs/Checked.antt =====
-- What each kind of proof is checked against before daemon/src/lifecycle.rs accepts it.
use lychgate.Prelude.{
  ℕ, ◌≡◌, inl, inr, refl, Bool, true, false, not, ◌||◌, List, [], ◌∷◌, Option, some, ok, err, arith,
  ok_or, refuse_if, Option-cases, Result-cases, >>=-eq-ok, subst, sym,
}
use lychgate.Prelude.Text.{Text, text_eq, text_eq_iff}
use lychgate.Prelude.TextMap.{TextMap}
use lychgate.Clock.{SystemTime}
use lychgate.Grant.{ApprovalRequest}
use lychgate.Approval.{
  challenge_string, ApprovalError, malformed, wrong_namespace, unknown_approver, bad_signature,
}
use lychgate.Approval.Fido2.{Fido2Credential, Fido2Error}
use lychgate.Approval.Fido2
use lychgate.Approval.Tpm
use lychgate.Approval.Tpm.{TpmError}
use lychgate.Approval.HmacFactor.{HmacError}
use lychgate.Approval.Ledgers
use lychgate.Approval.HmacFactor
use lychgate.Approval.Password
use lychgate.Approval.Totp
use lychgate.Approval.Ledgers.{consume, observe, fresh, regressed, CounterVerdict, File}
use lychgate.Authority.Spec.Build.{AuthorityModel, Authenticator, ed25519}
use lychgate.Authority.Proofs.{
  SshSig, Entry, first, later, approval_namespace, verify_ed25519, find_signer, find_signer-Entry,
}
use lychgate.Daemon.Proofs.{
  Factors, Ledgers, Answer, count_fido2, try_fido2, try_tpm, try_hmac, try_totp, try_passwords,
  noted, is_malformed_tpm, is_malformed_mac,
}

-- Some entry of the map for the authenticator passes.
abbrev pub Passes : {A : Type 0} → Text → (A → Type 0) → TextMap A → Type 0
Passes {A} id P m = (a : A) × Entry id a m × P a

module _ {A : Type 0} (P : A → Type 0) {id : Text} {m : TextMap A} where
  Passes-first : (j : Text) (a : A) → j ≡ id → P a → Passes id P ((j, a) ∷ m)
  Passes-first j a e p = (a, subst (λ i. Entry i a ((j, a) ∷ m)) e first, p)

  Passes-later : {e : Text × A} → Passes id P m → Passes id P (e ∷ m)
  Passes-later h = let (a, n, p) = h in (a, later n, p)

-- A loop that refuses accepts nothing.
refused-ne-accepted :
    (l l' : Ledgers) (e : ApprovalError) (id : Text)
    → ◌≡◌ {A = Answer} (l, ok (err e)) (l', ok (ok id))
    → ⊥
refused-ne-accepted l l' e id h = ground (arith, h)

module _ (factors : Factors) where
  abbrev pub SignsTpm : (token challenge : Text) → List ℕ → Type 0
  SignsTpm token challenge key =
      Tpm.verify factors.codec factors.webauthn.p256 key token challenge ≡ ok tt

  pub try_tpm-Passes :
      (keys : TextMap (List ℕ)) (token challenge : Text) (any broken : Bool) (l l' : Ledgers)
      (id : Text)
      → try_tpm factors keys token challenge any broken l ≡ (l', ok (ok id))
      → Passes id (SignsTpm token challenge) keys
  unfolding try_tpm
  try_tpm-Passes [] token challenge any broken l l' id h = absurd (refused-ne-accepted l l' _ id h)
  try_tpm-Passes ((j, key) ∷ keys) token challenge any broken l l' id h =
      elim (Result-cases (Tpm.verify factors.codec factors.webauthn.p256 key token challenge)) [
        | inl (_, e) ↦ Passes-first (SignsTpm token challenge) j key (ground (arith, h, e)) e
        | inr (x, e) ↦ Passes-later (SignsTpm token challenge) (
            try_tpm-Passes keys token challenge true (is_malformed_tpm x || broken) l l' id
              (ground (arith, h, e)))
      ]

  abbrev pub HasMac : (token challenge : Text) → List ℕ → Type 0
  HasMac token challenge secret =
      HmacFactor.verify factors.codec factors.mac secret token challenge ≡ ok tt

  pub try_hmac-Passes :
      (secrets : TextMap (List ℕ)) (token challenge : Text) (any broken : Bool) (l l' : Ledgers)
      (id : Text)
      → try_hmac factors secrets token challenge any broken l ≡ (l', ok (ok id))
      → Passes id (HasMac token challenge) secrets
  unfolding try_hmac
  try_hmac-Passes [] token challenge any broken l l' id h = absurd (refused-ne-accepted l l' _ id h)
  try_hmac-Passes ((j, key) ∷ keys) token challenge any broken l l' id h =
      elim (Result-cases (HmacFactor.verify factors.codec factors.mac key token challenge)) [
        | inl (_, e) ↦ Passes-first (HasMac token challenge) j key (ground (arith, h, e)) e
        | inr (x, e) ↦ Passes-later (HasMac token challenge) (
            try_hmac-Passes keys token challenge true (is_malformed_mac x || broken) l l' id
              (ground (arith, h, e)))
      ]

  abbrev pub HasPassword : Text → Text → Type 0
  HasPassword password phc = Password.verify factors.argon2 phc password ≡ ok true

  pub try_passwords-Passes :
      (hashes : TextMap Text) (password : Text) (l l' : Ledgers) (id : Text)
      → try_passwords factors hashes password l ≡ (l', ok (ok id))
      → Passes id (HasPassword password) hashes
  unfolding try_passwords
  try_passwords-Passes [] password l l' id h = absurd (refused-ne-accepted l l' _ id h)
  try_passwords-Passes ((j, phc) ∷ hashes) password l l' id h =
      elim (Result-cases (Password.verify factors.argon2 phc password)) [
        | inl (true, e) ↦ Passes-first (HasPassword password) j phc (ground (arith, h, e)) e
        | inl (false, e) ↦
            Passes-later (HasPassword password)
              (try_passwords-Passes hashes password l l' id (ground (arith, h, e)))
        | inr (x, e) ↦ absurd (ground (arith, h, e))
      ]

  -- A code matches some counter, and the ledger has not seen it.
  abbrev pub IsFreshCode : Text → (code : Text) → SystemTime → Ledgers → List ℕ → Type 0
  IsFreshCode id code now l secret =
      (counter : ℕ) × (file : File (List Ledgers.Entry)) × (Totp.matches factors.hotp secret code
          now 1
        ≡ some counter)
      × (consume id counter now l.totp_ledger ≡ ok (file, true))

  pub try_totp-Passes :
      (secrets : TextMap (List ℕ)) (code : Text) (now : SystemTime) (l l' : Ledgers) (id : Text)
      → try_totp factors secrets code now l ≡ (l', ok (ok id))
      → Passes id (IsFreshCode id code now l) secrets
  unfolding try_totp
  try_totp-Passes [] code now l l' id h = absurd (refused-ne-accepted l l' _ id h)
  try_totp-Passes ((j, secret) ∷ secrets) code now l l' id h =
      elim (Option-cases (Totp.matches factors.hotp secret code now 1)) [
        | inl e ↦
            Passes-later (IsFreshCode id code now l)
              (try_totp-Passes secrets code now l l' id (ground (arith, h, e)))
        | inr (counter, e) ↦ elim (Result-cases (consume j counter now l.totp_ledger)) [
          | inr (x, c) ↦ absurd (ground (arith, h, e, c))
          | inl ((file, false), c) ↦ absurd (ground (arith, h, e, c))
          | inl ((file, true), c) ↦
              let at : j ≡ id = ground (arith, h, e, c) in
              Passes-first (IsFreshCode id code now l) j secret at (
                counter,
                file,
                e,
                subst (λ i. consume i counter now l.totp_ledger ≡ ok (file, true)) at c,
              )
        ]
      ]

  -- An assertion verifies, and its counter is above the mark.
  abbrev pub IsFreshAssertion : (token challenge : Text) → Ledgers → Fido2Credential → Type 0
  IsFreshAssertion token challenge l cred =
      (counter : ℕ) × (file : File (TextMap ℕ)) × (Fido2.verify factors.codec factors.webauthn cred
          token challenge
        ≡ ok tt)
      × (Fido2.token_counter factors.codec factors.webauthn token ≡ ok counter)
      × (observe factors.codec cred.credential_id counter l.fido2_counters ≡ ok (file, fresh))

  counted :
      (j id : Text) (cred : Fido2Credential) (token challenge : Text) (l l' : Ledgers)
      → Fido2.verify factors.codec factors.webauthn cred token challenge ≡ ok tt
      → count_fido2 factors j cred token l ≡ (l', ok (ok id))
      → (j ≡ id) × IsFreshAssertion token challenge l cred
  unfolding count_fido2
  counted j id cred token challenge l l' v h =
      elim (Result-cases (Fido2.token_counter factors.codec factors.webauthn token)) [
        | inr (x, e) ↦ absurd (ground (arith, h, e))
        | inl (counter, e) ↦
            elim (Result-cases
              (observe factors.codec cred.credential_id counter l.fido2_counters)) [
                | inr (x, c) ↦ absurd (ground (arith, h, e, c))
                | inl ((file, regressed), c) ↦ absurd (ground (arith, h, e, c))
                | inl ((file, fresh), c) ↦ (ground (arith, h, e, c), (counter, file, v, e, c))
              ]
      ]

  pub try_fido2-Passes :
      (creds : TextMap Fido2Credential) (token challenge : Text) (matched_err : Option Fido2Error)
      (l l' : Ledgers) (id : Text)
      → try_fido2 factors creds token challenge matched_err l ≡ (l', ok (ok id))
      → Passes id (IsFreshAssertion token challenge l) creds
  unfolding try_fido2
  try_fido2-Passes [] token challenge matched_err l l' id h =
      absurd (refused-ne-accepted l l' _ id h)
  try_fido2-Passes ((j, cred) ∷ creds) token challenge matched_err l l' id h =
      elim (Result-cases (Fido2.verify factors.codec factors.webauthn cred token challenge)) [
        | inl (_, e) ↦
            let (at, p) = counted j id cred token challenge l l' e (ground (arith, h, e)) in
            Passes-first (IsFreshAssertion token challenge l) j cred at p
        | inr (x, e) ↦ Passes-later (IsFreshAssertion token challenge l) (
            try_fido2-Passes creds token challenge (noted x matched_err) l l' id
              (ground (arith, h, e)))
      ]

  -- The signature is that of a listed key, in the namespace of approvals, over the challenge.
  abbrev pub SignsSsh : (token challenge : Text) → Authenticator → Type 0
  SignsSsh token challenge a =
      (key : ℕ) × (sig : SshSig) × (a ≡ ed25519 key)
      × (factors.ssh.parse (factors.codec.trim token) ≡ some sig)
      × (sig.public_key ≡ key)
      × (sig.namespace ≡ approval_namespace)
      × (factors.ssh.verify key approval_namespace challenge sig ≡ true)

  pub verify_ed25519-Passes :
      (model : AuthorityModel) (request : ApprovalRequest) (token id : Text)
      → verify_ed25519 factors.codec factors.ssh model request token ≡ ok id
      → Passes id (SignsSsh token (challenge_string factors.codec request)) model.authenticators
  unfolding verify_ed25519
  verify_ed25519-Passes model request token id h =
      let (sig, p, h₁) =
        >>=-eq-ok (ok_or (factors.ssh.parse (factors.codec.trim token)) malformed) _ h in
      let (_, n, h₂) =
        >>=-eq-ok (refuse_if (not (text_eq sig.namespace approval_namespace)) wrong_namespace) _
          h₁ in
      let ((j, key), f, h₃) =
        >>=-eq-ok (ok_or (find_signer sig.public_key model.authenticators) unknown_approver) _ h₂ in
      let (_, v, h₄) =
        >>=-eq-ok
          (refuse_if
            (not (
              factors.ssh.verify key approval_namespace (challenge_string factors.codec request)
                sig))
            bad_signature)
          (λ _. ok j) h₃ in
      let (entry, same) =
        find_signer-Entry sig.public_key model.authenticators j key (ground (arith, f)) in
      let at : j ≡ id = ground (arith, h₄) in
      (
        ed25519 key,
        subst (λ i. Entry i (ed25519 key) model.authenticators) at entry,
        (
          key,
          sig,
          refl,
          ground (arith, p),
          sym same,
          ground (arith, n, text_eq_iff sig.namespace approval_namespace),
          ground (arith, v),
        ),
      )
