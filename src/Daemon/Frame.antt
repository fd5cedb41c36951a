-- ===== src/Daemon/Frame.antt =====
-- Which parts of the state the steps of daemon/src/lifecycle.rs leave alone. A step works on any state, so that the
-- lemmas serve the actions of the daemon and those of the daemon with its ledgers.
use lychgate.Prelude.{
  Bool-cases, Option, none, some, ◌≡◌, refl, ◌∙◌, sym, ap, subst, ◌⊎◌, inl, inr, Result, ok, err,
  arith,
}
use lychgate.Prelude.Text.{Text}
use lychgate.Registry.{GrantRegistry, RegistryError}
use lychgate.Channel.Drivers.{DriverSet}
use lychgate.Daemon.{
  Host, find_host, known, Event, Fatal, Outside, Daemon, commit, registry_of, journal, known_host,
  with_registry, with_read_registry,
}

-- A part of the state after a step is as it was, or something else holds.
abbrev pub KeepsOr : {S A B : Type 0} → (S → B) → Type 0 → (S → S × Result Fatal A) → S → Type 0
KeepsOr part P m s = (part (m s).0 ≡ part s) ⊎ P

abbrev pub drivers_of : {World : Type 0} → Daemon World → DriverSet World
drivers_of d = d.drivers

module _ {S B A C : Type 0} (part : S → B) (P : Type 0) where
  after :
      (f : A → S → S × Result Fatal C) (s₀ s : S) (r : Result Fatal A)
      → part s ≡ part s₀
      → ((a : A) → r ≡ ok a → KeepsOr part P (f a) s)
      → (part (elim r as (λ _. S × Result Fatal C) [ ok a ↦ f a s | err e ↦ (s, err e) ]).0
          ≡ part s₀)
        ⊎ P
  after f s₀ s (ok a) k g = elim (g a refl) [ inl e ↦ inl (e ∙ k) | inr p ↦ inr p ]
  after f s₀ s (err e) k g = inl k

  -- A step that keeps the part, and then one that may do otherwise.
  pub KeepsOr-bind :
      (m : S → S × Result Fatal A) (f : A → S → S × Result Fatal C) (s : S)
      → part (m s).0 ≡ part s
      → ((a : A) → (m s).1 ≡ ok a → KeepsOr part P (f a) (m s).0)
      → (part
            (elim (m s).1 as (λ _. S × Result Fatal C) [
              | ok a ↦ f a (m s).0
              | err e ↦ ((m s).0, err e)
            ]).0
          ≡ part s)
        ⊎ P
  KeepsOr-bind m f s k g = after f s (m s).0 (m s).1 k g

module _ {S A C : Type 0} where
  -- What a step and its continuation come to, from what the step comes to.
  pub bind_at :
      (m : S → S × Result Fatal A) (f : A → S → S × Result Fatal C) (s s' : S) (a : A)
      → m s ≡ (s', ok a)
      → (elim (m s).1 as (λ _. S × Result Fatal C) [
        | ok a ↦ f a (m s).0
        | err e ↦ ((m s).0, err e)
      ])
        ≡ f a s'
  bind_at m f s s' a e =
      ap
        (λ (r : S × Result Fatal A). elim r.1 as (λ _. S × Result Fatal C) [
          | ok a ↦ f a r.0
          | err x ↦ (r.0, err x)
        ])
        e

  pub bind_same :
      (m : S → S × Result Fatal A) (f : A → S → S × Result Fatal C) (s : S)
      → (m s).0 ≡ s
      → ((a : A) (s : S) → (f a s).0 ≡ s)
      → (elim (m s).1 as (λ _. S × Result Fatal C) [
        | ok a ↦ f a (m s).0
        | err e ↦ ((m s).0, err e)
      ]).0
        ≡ s
  bind_same m f s k g = ends (m s).1
    where
      ends :
          (r : Result Fatal A)
          → (elim r as (λ _. S × Result Fatal C) [
            | ok a ↦ f a (m s).0
            | err e ↦ ((m s).0, err e)
          ]).0
            ≡ s
      ends (ok a) = g a (m s).0 ∙ k
      ends (err e) = k

  -- A step and its continuation answered, so both did.
  pub bind_inv :
      (m : S → S × Result Fatal A) (f : A → S → S × Result Fatal C) (s : S) (c : C)
      → (elim (m s).1 as (λ _. S × Result Fatal C) [
        | ok a ↦ f a (m s).0
        | err e ↦ ((m s).0, err e)
      ]).1
        ≡ ok c
      → (a : A) × ((m s).1 ≡ ok a) × ((f a (m s).0).1 ≡ ok c)
  bind_inv m f s c h = ends (m s).1 refl h
    where
      ends :
          (r : Result Fatal A)
          → (m s).1 ≡ r
          → (elim r as (λ _. S × Result Fatal C) [
            | ok a ↦ f a (m s).0
            | err e ↦ ((m s).0, err e)
          ]).1
            ≡ ok c
          → (a : A) × ((m s).1 ≡ ok a) × ((f a (m s).0).1 ≡ ok c)
      ends (ok a) e h = (a, e, h)
      ends (err x) e h = absurd (ground (arith, h))

module _ {Secret World : Type 0} (outside : Outside Secret World) where
  pub journal-drivers :
      (event : Event) (d : Daemon World) → (journal outside event d).0.drivers ≡ d.drivers
  unfolding journal
  journal-drivers event d = ground arith

  pub journal-doc : (event : Event) (d : Daemon World) → (journal outside event d).0.doc ≡ d.doc
  unfolding journal
  journal-doc event d = ground arith

  pub with_read_registry_same :
      {A : Type 0} (op : GrantRegistry → A) (d : Daemon World)
      → (with_read_registry outside op d).0 ≡ d
  unfolding with_read_registry
  with_read_registry_same {A} op d = same (registry_of outside d)
    where
      same :
          (r : Result Fatal GrantRegistry)
          → (elim r as (λ _. Daemon World × Result Fatal A) [
            | err e ↦ (d, err e)
            | ok r ↦ (d, ok (op r))
          ]).0
            ≡ d
      same (ok r) = refl
      same (err e) = refl

  pub with_registry-drivers :
      {A : Type 0} (op : GrantRegistry → GrantRegistry × Result RegistryError A) (d : Daemon World)
      → (with_registry outside op d).0.drivers ≡ d.drivers
  unfolding with_registry
  with_registry-drivers op d = same (registry_of outside d)
    where
      same : (r : Result Fatal GrantRegistry) → (commit outside op r d).0.drivers ≡ d.drivers
      same (ok r) = ground arith
      same (err e) = refl

  pub with_read_registry_at :
      {A : Type 0} (op : GrantRegistry → A) (d : Daemon World) (r : GrantRegistry)
      → registry_of outside d ≡ ok r
      → with_read_registry outside op d ≡ (d, ok (op r))
  unfolding with_read_registry
  with_read_registry_at {A} op d r h =
      subst
        (λ x.
          ◌≡◌ {A = Daemon World × Result Fatal A}
            (elim x as (λ _. Daemon World × Result Fatal A) [
              | err e ↦ (d, err e)
              | ok r ↦ (d, ok (op r))
            ])
            (d, ok (op r)))
        (sym h) refl

  pub with_read_registry_inv :
      {A : Type 0} (op : GrantRegistry → A) (d : Daemon World) (a : A)
      → (with_read_registry outside op d).1 ≡ ok a
      → (r : GrantRegistry) × (registry_of outside d ≡ ok r) × (op r ≡ a)
  unfolding with_read_registry
  with_read_registry_inv {A} op d a h = found (registry_of outside d) refl h
    where
      found :
          (r : Result Fatal GrantRegistry)
          → registry_of outside d ≡ r
          → (elim r as (λ _. Daemon World × Result Fatal A) [
            | err e ↦ (d, err e)
            | ok r ↦ (d, ok (op r))
          ]).1
            ≡ ok a
          → (r : GrantRegistry) × (registry_of outside d ≡ ok r) × (op r ≡ a)
      found (ok r) e h = (r, e, ground (arith, h))
      found (err x) e h = absurd (ground (arith, h))

  pub journal-registry_of :
      (event : Event) (d : Daemon World)
      → registry_of outside (journal outside event d).0 ≡ registry_of outside d
  unfolding journal
  journal-registry_of event d = elim (Bool-cases (outside.can_journal d.journal event)) [
    | inl e ↦ rw e refl
    | inr e ↦ rw e refl
  ]

module _ {World : Type 0} where
  pub known_host_same : (host : Text) (d : Daemon World) → (known_host host d).0 ≡ d
  unfolding known_host
  known_host_same host d = same (find_host host d.inventory)
    where
      same : (o : Option Host) → (known o d).0 ≡ d
      same none = refl
      same (some cfg) = refl

  pub known_host_inv :
      (host : Text) (d : Daemon World) (cfg : Host)
      → (known_host host d).1 ≡ ok cfg
      → find_host host d.inventory ≡ some cfg
  unfolding known_host
  known_host_inv host d cfg h = found (find_host host d.inventory) h
    where
      found : (o : Option Host) → (known o d).1 ≡ ok cfg → o ≡ some cfg
      found none h = absurd (ground (arith, h))
      found (some c) h = ground (arith, h)
