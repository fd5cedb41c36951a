-- ===== src/Daemon/Opening/Listed.antt =====
-- Which channels the state file lists for a host: core/src/snapshot.rs under the calls of
-- daemon/src/lifecycle.rs.
use lychgate.Prelude.{
  ◌≡◌, refl, sym, ap, ◌∙◌, Bool, true, false, ◌||◌, ◌&&◌, List, [], ◌∷◌, some, Result, ok, err,
  ◌>>=◌, >>=-eq-ok, if◌then◌else◌, arith, Bool-cases, Result-cases, inl, inr, ◌⊎◌,
}
use lychgate.Clock.{SystemTime}
use lychgate.Prelude.Text.{Text, bytes, text_eq}
use lychgate.Prelude.TextMap.{TextMap, get, put, contains_key, get-put, get-insert}
use lychgate.Channel.{Channel, member}
use lychgate.Grant.{Grant, closed, pending, opening, opened, needs_revert}
use lychgate.Grant.Parts.{GrantParts, parts, restore}
use lychgate.Registry.{GrantRegistry, new}
use lychgate.Snapshot.Stored.{stored_records}
use lychgate.Snapshot.{
  HexLower, GrantRecord, StateDoc, record_of, records, parts_of, pending_of, needs_revert_of,
  interval, malformed, no_pending_fields, restore_all, from_parts,
}

-- The channels that a grant may have applied.
abbrev pub channels_of : Grant → List Channel
channels_of (opening a b cs) = cs
channels_of (opened a b cs) = cs
channels_of (needs_revert cs a) = cs
channels_of _ = []

-- Some record of the host lists the channel.
unfoldable pub lists : TextMap GrantRecord → Text → Channel → Bool
lists [] host k = false
lists ((j, r) ∷ rest) host k = (text_eq j host && member k r.channels) || lists rest host k

-- What a write makes of the instants leaves the channels alone.
pub lists-stored_records :
    (m : TextMap GrantRecord) (host : Text) (k : Channel)
    → lists (stored_records m) host k ≡ lists m host k
unfolding lists stored_records
lists-stored_records [] host k = refl
lists-stored_records ((j, r) ∷ rest) host k = rw (lists-stored_records rest host k) refl

if_ok :
    {E A C : Type 0} (b : Bool) {x y : Result E A} {a : A}
    → (if b then x else y) ≡ ok a
    → (x ≡ ok a → C)
    → (y ≡ ok a → C)
    → C
if_ok true h f g = f h
if_ok false h f g = g h

module _ (hex : HexLower) where
  pub lists-records :
      (r : GrantRegistry) (host : Text) (g : Grant) (k : Channel)
      → get host r ≡ some g
      → member k (channels_of g) ≡ true
      → lists (records hex r) host k ≡ true
  unfolding records lists record_of parts get
  lists-records [] host g k h m = cc
  lists-records ((j, closed) ∷ r) host g k h m = ground (arith, h, m, lists-records r host g k)
  lists-records ((j, pending a b t n p s) ∷ r) host g k h m =
      ground (arith, h, m, lists-records r host g k)
  lists-records ((j, opening a b cs) ∷ r) host g k h m =
      ground (arith, h, m, lists-records r host g k)
  lists-records ((j, opened a b cs) ∷ r) host g k h m =
      ground (arith, h, m, lists-records r host g k)
  lists-records ((j, needs_revert cs a) ∷ r) host g k h m =
      ground (arith, h, m, lists-records r host g k)

  pending_of_channels :
      (host : Text) (r : GrantRecord) (p : GrantParts)
      → pending_of hex host r ≡ ok p
      → channels_of (restore p) ≡ []
  unfolding pending_of restore
  pending_of_channels host r p h = ground arith

  parts_of_channels :
      (host : Text) (r : GrantRecord) (p : GrantParts) (k : Channel)
      → parts_of hex host r ≡ ok p
      → member k (channels_of (restore p)) ≡ true
      → member k r.channels ≡ true
  unfolding parts_of pending_of needs_revert_of no_pending_fields restore
  parts_of_channels host r p k h m =
      if_ok (text_eq r.state (bytes "pending")) h
        (λ q. absurd (none_of (restore p) (pending_of_channels host r p q) m))
        (λ h.
          if_ok (text_eq r.state (bytes "opening")) h
            (λ q. spanned (λ a b. GrantParts.opening a b r.channels) (λ a b. refl) q)
            (λ h.
              if_ok (text_eq r.state (bytes "open")) h
                (λ q. spanned (λ a b. GrantParts.opened a b r.channels) (λ a b. refl) q)
                (λ h.
                  if_ok (text_eq r.state (bytes "needs-revert")) h (λ q. stuck_since q)
                    (λ q. absurd (let e : err (malformed host "unknown state") ≡ ok p = q in cc)))))
    where
      none_of : (g : Grant) → channels_of g ≡ [] → member k (channels_of g) ≡ true → ⊥
      none_of g e m = ground (arith, e, m)

      spanned :
          (into : SystemTime → SystemTime → GrantParts)
          → ((a b : SystemTime) → channels_of (restore (into a b)) ≡ r.channels)
          → (interval host r >>= λ (a, b). ok (into a b)) ≡ ok p
          → member k r.channels ≡ true
      spanned into f q = elim (Result-cases (interval host r)) [
        | inl ((a, b), e) ↦
            let s : into a b ≡ p = ground (arith, q, e) in
            ap (member k) (sym (f a b)) ∙ ap (λ p. member k (channels_of (restore p))) s ∙ m
        | inr (e, e') ↦ absurd (ground (arith, q, e'))
      ]

      stuck_since : needs_revert_of hex host r ≡ ok p → member k r.channels ≡ true
      stuck_since q = elim (Result-cases (no_pending_fields host r)) [
        | inl (_, e) ↦ ground (arith, q, e, m)
        | inr (x, e) ↦ absurd (ground (arith, q, e))
      ]

  written :
      (j : Text) (x : GrantRecord) (p : GrantParts) (r : GrantRegistry) (host : Text) (g : Grant)
      (k : Channel)
      → parts_of hex j x ≡ ok p
      → get host (put j (restore p) r) ≡ some g
      → member k (channels_of g) ≡ true
      → (((text_eq j host && member k x.channels) || false) ≡ true) ⊎ (get host r ≡ some g)
  written j x p r host g k q t m = elim (Bool-cases (text_eq j host && contains_key j r)) [
    | inr e ↦ inr (ground (arith, e, t, get-put host j (restore p) r))
    | inl e ↦
        let s : restore p ≡ g = ground (arith, e, t, get-put host j (restore p) r) in
        inl (
          ground (arith, e, parts_of_channels j x p k q (ap (λ g. member k (channels_of g)) s ∙ m)))
  ]

  restore_all-lists :
      (doc : TextMap GrantRecord) (r r' : GrantRegistry) (host : Text) (g : Grant) (k : Channel)
      → restore_all hex doc r ≡ ok r'
      → get host r' ≡ some g
      → member k (channels_of g) ≡ true
      → (lists doc host k ≡ true) ⊎ (get host r ≡ some g)
  unfolding restore_all lists
  restore_all-lists [] r r' host g k h e m = inr (ground (arith, h, e))
  restore_all-lists ((j, x) ∷ doc) r r' host g k h e m =
      let (p, q, h') = >>=-eq-ok (parts_of hex j x) _ h in
      elim (restore_all-lists doc (put j (restore p) r) r' host g k h' e m) [
        | inl t ↦ inl (ground (arith, t))
        | inr t ↦ elim (written j x p r host g k q t m) [
          | inl u ↦ inl (ground (arith, u))
          | inr u ↦ inr u
        ]
      ]

  new-closed :
      (hosts : List Text) (host : Text) (g : Grant) → get host (new hosts) ≡ some g → g ≡ closed
  unfolding new get
  new-closed [] host g h = cc
  new-closed (x ∷ hosts) host g h =
      ground (arith, h, get-insert host x closed (new hosts), new-closed hosts host g)

  pub from_parts-lists :
      (hosts : List Text) (doc : StateDoc) (r : GrantRegistry) (host : Text) (g : Grant)
      (k : Channel)
      → from_parts hex hosts doc ≡ ok r
      → get host r ≡ some g
      → member k (channels_of g) ≡ true
      → lists doc.grants host k ≡ true
  unfolding from_parts
  from_parts-lists hosts doc r host g k h e m =
      let q : restore_all hex doc.grants (new hosts) ≡ ok r = ground arith in
      elim (restore_all-lists doc.grants (new hosts) r host g k q e m) [
        | inl t ↦ t
        | inr t ↦ absurd (ground (arith, m, new-closed hosts host g t))
      ]
