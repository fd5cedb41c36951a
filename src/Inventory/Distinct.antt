-- ===== src/Inventory/Distinct.antt =====
-- What core/src/inventory.rs keeps apart between the hosts of a valid inventory.
use lychgate.Prelude.{
  ℕ, ◌≡◌, ◌≢◌, refl, subst, inl, inr, Bool, true, false, not, List, [], ◌∷◌, ◌++◌, Option, none,
  some, ok, >>=-eq-ok, refuse_if, ◌==◌, ==_iff, any, arith, Bool-cases, length, is_empty, map_err,
}
use lychgate.Prelude.Text.{Text, text_eq, text_eq_refl}
use lychgate.Channel.{Channel, member}
use lychgate.Approval.{Codec}
use lychgate.Approval.Fido2.{Webauthn}
use lychgate.Authority.Spec.Build.{Keys}
use lychgate.Templates.{check_set_command, check_clear_command}
use lychgate.Inventory.{Host, Inventory, VncConfig, SigningSpec, InventoryError}
use lychgate.Inventory.Channels.{present, configured}
use lychgate.Inventory.Validation.{
  Ports, port_owner, check_vnc, free_port, check_ssh, check_bmc, vnc_template_error,
  unique_channels, wants_ssh, forwarded, validate_host, validate_hosts, validate,
}

-- Whether two hosts forward the same port of the daemon's machine.
abbrev pub shares_port : Option VncConfig → Option VncConfig → Bool
shares_port (some v) (some w) = v.local_port == w.local_port
shares_port _ _ = false

abbrev is_named : Text → List Text → Bool
is_named name names = any (λ n. text_eq n name) names

abbrev is_taken : ℕ → Ports → Bool
is_taken port ports = present (port_owner port ports)

-- The port that a host forwards is taken.
abbrev holds_port : Option VncConfig → Ports → Bool
holds_port none ports = true
holds_port (some vnc) ports = is_taken vnc.local_port ports

forwarded-taken :
    (port : ℕ) (vnc : Option VncConfig) (ports : Ports) (name : Text)
    → is_taken port ports ≡ true
    → is_taken port (forwarded vnc ports name) ≡ true
forwarded-taken port none ports name h = h
forwarded-taken port (some vnc) ports name h = elim (Bool-cases (vnc.local_port == port)) [
  | inl e ↦ rw e refl
  | inr e ↦ rw e h
]

holds_port-forwarded :
    (vnc : Option VncConfig) (ports : Ports) (name : Text)
    → holds_port vnc (forwarded vnc ports name) ≡ true
holds_port-forwarded none ports name = refl
holds_port-forwarded (some vnc) ports name = ground arith

holds_port-later :
    (held vnc : Option VncConfig) (ports : Ports) (name : Text)
    → holds_port held ports ≡ true
    → holds_port held (forwarded vnc ports name) ≡ true
holds_port-later none vnc ports name h = refl
holds_port-later (some v) vnc ports name h = forwarded-taken v.local_port vnc ports name h

free_port-untaken :
    (name : Text) (port : ℕ) (owner : Option Text)
    → free_port name port owner ≡ ok tt
    → present owner ≡ false
unfolding free_port
free_port-untaken name port none h = refl
free_port-untaken name port (some other) h = absurd (ground (arith, h))

module _ (trim : Text → Text) (signing : Option SigningSpec) where
  -- The loop over the first hosts of a list, and what it hands on.
  validate_hosts-append :
      (front back : List Host) (names : List Text) (ports : Ports)
      → validate_hosts trim signing names ports (front ++ back) ≡ ok tt
      → (names' : List Text) × (ports' : Ports) × (validate_hosts trim signing names' ports' back
          ≡ ok tt)
        × ((name : Text) → is_named name names ≡ true → is_named name names' ≡ true)
        × ((held : Option VncConfig) → holds_port held ports ≡ true → holds_port held ports' ≡ true)
  unfolding validate_hosts
  validate_hosts-append [] back names ports h = (names, ports, h, λ name n. n, λ held p. p)
  validate_hosts-append (f ∷ front) back names ports h =
      let (_, _, h₁) =
        >>=-eq-ok (validate_host trim signing names ports f)
          (λ _.
            validate_hosts trim signing (f.name ∷ names) (forwarded f.vnc ports f.name)
              (front ++ back))
          h in
      let (names', ports', v, n, p) =
        validate_hosts-append front back (f.name ∷ names) (forwarded f.vnc ports f.name) h₁ in
      (
        names',
        ports',
        v,
        λ name e. n name (ground (arith, e)),
        λ held e. p held (holds_port-later held f.vnc ports f.name e),
      )

  -- A port that is handed on is refused to a later host.
  check_vnc-apart :
      (held : Option VncConfig) (ports : Ports) (host : Host) (vnc : VncConfig)
      → check_vnc ports host vnc ≡ ok tt
      → holds_port held ports ≡ true
      → shares_port held (some vnc) ≡ false
  unfolding check_vnc
  check_vnc-apart none ports host vnc h p = refl
  check_vnc-apart (some v) ports host vnc h p =
      let (_, _, h₁) =
        >>=-eq-ok (refuse_if (vnc.rfb_port == 0) (InventoryError.vnc_bad_port host.name "rfb_port"))
          _ h in
      let (_, _, h₂) =
        >>=-eq-ok
          (refuse_if (vnc.local_port == 0) (InventoryError.vnc_bad_port host.name "local_port")) _
          h₁ in
      let (_, _, h₃) =
        >>=-eq-ok
          (refuse_if (vnc.password_len == 0) (InventoryError.vnc_bad_password_len host.name)) _
          h₂ in
      let (_, _, h₄) =
        >>=-eq-ok
          (map_err (vnc_template_error host.name "set_password_cmd")
            (check_set_command vnc.set_password_cmd))
          _ h₃ in
      let (_, _, h₅) =
        >>=-eq-ok
          (map_err (vnc_template_error host.name "clear_password_cmd")
            (check_clear_command vnc.clear_password_cmd))
          _ h₄ in
      let free = free_port-untaken host.name vnc.local_port (port_owner vnc.local_port ports) h₅ in
      elim (Bool-cases (v.local_port == vnc.local_port)) [
        | inr e ↦ e
        | inl e ↦ absurd (
            ground (
              arith,
              free,
              subst (λ k. is_taken k ports ≡ true) ((==_iff v.local_port vnc.local_port).0 e) p,
            ))
      ]

  configured-apart :
      (held vnc : Option VncConfig) (declared : Bool) (missing unused : InventoryError)
      (ports : Ports) (host : Host)
      → configured vnc declared missing unused (check_vnc ports host) ≡ ok tt
      → holds_port held ports ≡ true
      → shares_port held vnc ≡ false
  configured-apart none none declared missing unused ports host h p = refl
  configured-apart (some v) none declared missing unused ports host h p = refl
  configured-apart held (some vnc) false missing unused ports host h p = absurd (ground (arith, h))
  configured-apart held (some vnc) true missing unused ports host h p =
      check_vnc-apart held ports host vnc h p

  validate_host-apart :
      (names : List Text) (ports : Ports) (host : Host)
      → validate_host trim signing names ports host ≡ ok tt
      → (is_named host.name names ≡ false)
        × ((held : Option VncConfig)
            → holds_port held ports ≡ true
            → shares_port held host.vnc ≡ false)
  unfolding validate_host
  validate_host-apart names ports host h =
      let (_, _, h₁) =
        >>=-eq-ok (refuse_if (is_empty host.name) InventoryError.empty_host_name) _ h in
      let (_, n, h₂) =
        >>=-eq-ok
          (refuse_if (is_named host.name names) (InventoryError.duplicate_host_name host.name)) _
          h₁ in
      let (_, _, h₃) =
        >>=-eq-ok (refuse_if (is_empty host.address) (InventoryError.empty_address host.name)) _
          h₂ in
      let (_, _, h₄) =
        >>=-eq-ok (refuse_if (is_empty host.channels) (InventoryError.no_channels host.name)) _
          h₃ in
      let (_, _, h₅) =
        >>=-eq-ok
          (refuse_if (not (length (unique_channels host.channels) == length host.channels))
            (InventoryError.duplicate_channel host.name))
          _ h₄ in
      let (_, _, h₆) =
        >>=-eq-ok
          (configured host.ssh (wants_ssh host) (InventoryError.ssh_config_missing host.name)
            (InventoryError.ssh_config_unused host.name) (check_ssh trim host))
          _ h₅ in
      let (_, _, h₇) =
        >>=-eq-ok
          (configured host.bmc (member Channel.bmc host.channels)
            (InventoryError.bmc_config_missing host.name)
            (InventoryError.bmc_config_unused host.name) (check_bmc host))
          _ h₆ in
      let (_, c, h₈) =
        >>=-eq-ok
          (configured host.vnc (member Channel.vnc host.channels)
            (InventoryError.vnc_config_missing host.name)
            (InventoryError.vnc_config_unused host.name) (check_vnc ports host))
          _ h₇ in
      (
        ground (arith, n),
        λ held p.
            configured-apart held host.vnc (member Channel.vnc host.channels)
              (InventoryError.vnc_config_missing host.name)
              (InventoryError.vnc_config_unused host.name) ports host c p,
      )

-- In an inventory that validates, two hosts at different places of the list have different names, and they do
-- not forward the same port of the machine of the daemon.
pub validate_distinct :
    (keys : Keys) (codec : Codec) (lib : Webauthn) (fuel : ℕ) (inventory : Inventory)
    (front mid back : List Host) (a b : Host)
    → validate keys codec lib fuel inventory ≡ ok tt
    → inventory.hosts ≡ front ++ (a ∷ (mid ++ (b ∷ back)))
    → (a.name ≢ b.name) × (shares_port a.vnc b.vnc ≡ false)
unfolding validate validate_hosts
validate_distinct keys codec lib fuel inventory front mid back a b h s =
    let (_, v, _) =
      >>=-eq-ok (validate_hosts codec.trim inventory.signing [] [] inventory.hosts) _ h in
    let whole =
      subst (λ hosts. validate_hosts codec.trim inventory.signing [] [] hosts ≡ ok tt) s v in
    let (names, ports, v₁, _, _) =
      validate_hosts-append codec.trim inventory.signing front (a ∷ (mid ++ (b ∷ back))) [] []
        whole in
    let (_, _, v₂) = >>=-eq-ok (validate_host codec.trim inventory.signing names ports a) _ v₁ in
    let (names', ports', v₃, n, p) =
      validate_hosts-append codec.trim inventory.signing mid (b ∷ back) (a.name ∷ names)
        (forwarded a.vnc ports a.name) v₂ in
    let (_, w, _) = >>=-eq-ok (validate_host codec.trim inventory.signing names' ports' b) _ v₃ in
    let (fresh, free) = validate_host-apart codec.trim inventory.signing names' ports' b w in
    (
      λ e. absurd (
          ground (
            arith,
            fresh,
            subst (λ x. is_named x names' ≡ true) e
                (n a.name (ground (arith, text_eq_refl a.name))),
          )),
      free a.vnc (p a.vnc (holds_port-forwarded a.vnc ports a.name)),
    )
