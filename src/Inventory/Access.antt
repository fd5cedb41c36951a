-- ===== src/Inventory/Access.antt =====
-- The profiles that a valid inventory of core/src/inventory.rs lets a host use can be resolved.
use lychgate.Prelude.{
  ℕ, ◌≡◌, refl, subst, inl, inr, Bool, true, not, ◌&&◌, List, [], ◌∷◌, ◌++◌, Option, none, some, ok,
  ◌>>=◌, >>=-eq-ok, map_err, refuse_if, is_empty, any, All, arith, Bool-cases, Option-cases,
  Result-cases,
}
use lychgate.Prelude.Text.{Text, text_eq, text_eq_iff}
use lychgate.Prelude.TextMap.{TextMap, get, keys}
use lychgate.Channel.{Channel, member}
use lychgate.Approval.{Codec}
use lychgate.Approval.Fido2.{Webauthn}
use lychgate.Authority.{Authority}
use lychgate.Authority.Spec.{AuthorityBody}
use lychgate.Authority.Spec.Build.{AuthorityModel, Keys, resolve_override, profile}
use lychgate.Authority.Proofs.{profile_ids}
use lychgate.Daemon.{HostAccess}
use lychgate.Daemon as Served
use lychgate.Daemon.Policy.{permitted_profiles, resolve_authority, effective, global}
use lychgate.Inventory.{Host, Inventory, InventoryError}
use lychgate.Inventory.Channels.{present}
use lychgate.Inventory.Validation.{
  validate_hosts, check_profiles, check_overrides, check_access, check_all_access, approval_model,
  validate,
}

-- What the calls of the daemon read of a host.
abbrev pub served : Host → Served.Host
served host = record {
  name = host.name;
  channels = host.channels;
  has_ssh = present host.ssh;
  drill = host.drill;
  access = host.access;
}

check_profiles-All :
    (model : AuthorityModel) (name : Text) (ps : List Text)
    → check_profiles model name ps ≡ ok tt
    → All (λ p. present (profile model p) ≡ true) ps
unfolding check_profiles
check_profiles-All model name [] h = tt
check_profiles-All model name (p ∷ ps) h =
    let (_, a, b) =
      >>=-eq-ok
        (refuse_if (not (present (profile model p))) (InventoryError.unknown_profile name p))
        (λ _. check_profiles model name ps) h in
    (ground (arith, a), check_profiles-All model name ps b)

check_overrides-get :
    (model : AuthorityModel) (name : Text) (permitted : List Text)
    (overrides : TextMap AuthorityBody) (p : Text) (body : AuthorityBody)
    → check_overrides model name permitted overrides ≡ ok tt
    → get p overrides ≡ some body
    → (a : Authority) × (resolve_override model p body ≡ ok a)
unfolding check_overrides get
check_overrides-get model name permitted [] p body h g = absurd (ground (arith, g))
check_overrides-get model name permitted ((q, b) ∷ overrides) p body h g =
    let (_, _, h₁) =
      >>=-eq-ok
        (refuse_if (not (any (λ r. text_eq r q) permitted))
          (InventoryError.override_for_unpermitted_profile name q))
        _ h in
    let (_, m, h₂) =
      >>=-eq-ok (map_err InventoryError.bad_override (resolve_override model q b >>= λ _. ok tt))
        (λ _. check_overrides model name permitted overrides) h₁ in
    elim (Bool-cases (text_eq q p)) [
      | inr e ↦ check_overrides-get model name permitted overrides p body h₂ (ground (arith, g, e))
      | inl e ↦ elim (Result-cases (resolve_override model q b)) [
        | inr (x, f) ↦ absurd (ground (arith, m, f))
        | inl (a, f) ↦
            let same : b ≡ body = ground (arith, g, e) in
            (
              a,
              subst (λ q. resolve_override model q body ≡ ok a) ((text_eq_iff q p).0 e)
                  (subst (λ b. resolve_override model q b ≡ ok a) same f),
            )
      ]
    ]

All-any :
    (P : Text → Bool) (p : Text) (ps : List Text)
    → All (λ q. P q ≡ true) ps
    → any (λ q. text_eq q p) ps ≡ true
    → P p ≡ true
All-any P p [] a h = absurd (ground (arith, h))
All-any P p (q ∷ ps) a h = elim (Bool-cases (text_eq q p)) [
  | inl e ↦ subst (λ q. P q ≡ true) ((text_eq_iff q p).0 e) a.0
  | inr e ↦ All-any P p ps a.1 (ground (arith, h, e))
]

keys-get :
    {A : Type 0} (m : TextMap A) (p : Text)
    → any (λ q. text_eq q p) (keys m) ≡ true
    → (a : A) × (get p m ≡ some a)
unfolding get
keys-get [] p h = absurd (ground (arith, h))
keys-get ((q, a) ∷ m) p h = elim (Bool-cases (text_eq q p)) [
  | inl e ↦ (a, rw e refl)
  | inr e ↦ let (b, g) = keys-get m p (ground (arith, h, e)) in (b, rw e g)
]

global-known :
    (model : AuthorityModel) (p : Text)
    → present (profile model p) ≡ true
    → (a : Authority) × (global model p ≡ ok a)
global-known model p h = elim (Option-cases (profile model p)) [
  | inl e ↦ absurd (ground (arith, h, e))
  | inr (a, e) ↦ (a, rw (e, global) refl)
]

effective-known :
    (model : AuthorityModel) (name : Text) (access : Option HostAccess) (p : Text)
    → check_access (some model) name access ≡ ok tt
    → any
        (λ q. text_eq q p)
        (elim access as (λ _. List Text) [ some a ↦ a.profiles | none ↦ keys model.profiles ])
      ≡ true
    → (a : Authority) × (effective model access p ≡ ok a)
unfolding check_access profile
effective-known model name none p h m =
    let (a, g) = keys-get model.profiles p m in global-known model p (rw g refl)
effective-known model name (some access) p h m =
    let (_, _, h₁) =
      >>=-eq-ok (refuse_if (is_empty access.profiles) (InventoryError.access_no_profiles name)) _
        h in
    let (_, k, o) =
      >>=-eq-ok (check_profiles model name access.profiles)
        (λ _. check_overrides model name access.profiles access.overrides) h₁ in
    elim (Option-cases (get p access.overrides)) [
      | inl e ↦
          let (a, g) = global-known model p (
            All-any (λ q. present (profile model q)) p access.profiles
              (check_profiles-All model name access.profiles k) m) in
          (a, rw (e, effective) g)
      | inr (body, e) ↦
          let (a, g) = check_overrides-get model name access.profiles access.overrides p body o e in
          (a, rw (e, effective) (rw (g, effective) refl))
    ]

check_all_access-at :
    (model : Option AuthorityModel) (front back : List Host) (host : Host)
    → check_all_access model (front ++ (host ∷ back)) ≡ ok tt
    → check_access model host.name host.access ≡ ok tt
unfolding check_all_access
check_all_access-at model [] back host h =
    let (_, a, _) =
      >>=-eq-ok (check_access model host.name host.access) (λ _. check_all_access model back) h in
    a
check_all_access-at model (f ∷ front) back host h =
    let (_, _, b) =
      >>=-eq-ok (check_access model f.name f.access)
        (λ _. check_all_access model (front ++ (host ∷ back))) h in
    check_all_access-at model front back host b

module _ (ks : Keys) (codec : Codec) (lib : Webauthn) (fuel : ℕ) where
  validate-access :
      (inventory : Inventory) (model : Option AuthorityModel)
      → validate ks codec lib fuel inventory ≡ ok tt
      → approval_model ks codec lib fuel inventory.approval ≡ ok model
      → check_all_access model inventory.hosts ≡ ok tt
  unfolding validate
  validate-access inventory model h e =
      let (_, _, h₁) =
        >>=-eq-ok (validate_hosts codec.trim inventory.signing [] [] inventory.hosts) _ h in
      let (_, _, h₂) =
        >>=-eq-ok
          (refuse_if
            (present inventory.signing
              && not (any (λ (h : Host). member Channel.device h.channels) inventory.hosts))
            InventoryError.signing_unused)
          _ h₁ in
      let (m, a, h₃) =
        >>=-eq-ok (approval_model ks codec lib fuel inventory.approval)
          (λ m. check_all_access m inventory.hosts) h₂ in
      subst (λ m. check_all_access m inventory.hosts ≡ ok tt) (ground (arith, a, e)) h₃

  -- In an inventory that validates and has an approval policy, each profile that a host permits resolves to an
  -- authority for that host.
  pub validate_resolves :
      (inventory : Inventory) (model : AuthorityModel) (front back : List Host) (host : Host)
      (p : Text)
      → validate ks codec lib fuel inventory ≡ ok tt
      → approval_model ks codec lib fuel inventory.approval ≡ ok (some model)
      → inventory.hosts ≡ front ++ (host ∷ back)
      → any (λ q. text_eq q p) (permitted_profiles model (served host)) ≡ true
      → (a : Authority) × (resolve_authority model (served host) p ≡ ok a)
  unfolding resolve_authority permitted_profiles profile_ids
  validate_resolves inventory model front back host p h e s m =
      let checked = check_all_access-at (some model) front back host (
        subst (λ hosts. check_all_access (some model) hosts ≡ ok tt) s
          (validate-access inventory (some model) h e)) in
      let (a, g) = effective-known model host.name host.access p checked m in (a, rw m g)
