-- ===== src/Registry/Frame.antt =====
-- One host's call in core/src/registry.rs reaches that host's grant and no other.
use lychgate.Prelude.{
  Option-cases, inl, inr, ◌∙◌, err, none, ◌≡◌, refl, true, some, Result, map_err, arith, [], ◌∷◌,
  if◌then◌else◌,
}
use lychgate.Prelude.Text.{text_eq_iff, Text, text_eq}
use lychgate.Prelude.TextMap.{get, put, contains_key, get-put, keys, keys-put}
use lychgate.Grant.{Grant, GrantError}
use lychgate.Registry.{unknown_host, GrantRegistry, grant, with_grant}

contains_key-get :
    (k : Text) (r : GrantRegistry) {g : Grant} → get k r ≡ some g → contains_key k r ≡ true
unfolding get contains_key
contains_key-get k [] h = cc
contains_key-get k ((j, g') ∷ r) {g} h = ground (arith, contains_key-get k r {g = g})

module _ {ℓ} {A : Type ℓ} (r : GrantRegistry) (host : Text)
    (op : Grant → Grant × Result GrantError A) where
  with_grant-none : get host r ≡ none → with_grant r host op ≡ (r, err (unknown_host host))
  unfolding with_grant
  with_grant-none e = rw (e, with_grant)

  with_grant-some :
      (g : Grant)
      → get host r ≡ some g
      → with_grant r host op ≡ (put host (op g).0 r, map_err grant (op g).1)
  unfolding with_grant
  with_grant-some g e = rw (e, with_grant)

-- A call on a known host leaves that host with the grant that the operation returns and passes its result on;
-- every other host's grant and the set of hosts stay as they were.
pub with_grant_known {ℓ} :
    {A : Type ℓ} (r : GrantRegistry) (host other : Text) (g : Grant)
    (operation : Grant → Grant × Result GrantError A)
    → get host r ≡ some g
    → (get other (with_grant r host operation).0
        ≡ (if text_eq host other then some (operation g).0 else get other r))
      × ((with_grant r host operation).1 ≡ map_err grant (operation g).1)
      × (keys (with_grant r host operation).0 ≡ keys r)
with_grant_known r host other g operation e = rw (with_grant-some r host operation g e) (
  ground (arith, get-put other host (operation g).0 r, contains_key-get host r e),
  refl,
  keys-put host (operation g).0 r,
)

-- Whether or not the called host is known.
pub with_grant_any {ℓ} :
    {A : Type ℓ} (r : GrantRegistry) (host other : Text) (g : Grant)
    (operation : Grant → Grant × Result GrantError A)
    → get other r ≡ some g
    → get other (with_grant r host operation).0
      ≡ (if text_eq host other then some (operation g).0 else some g)
with_grant_any r host other g operation e = elim (Option-cases (get host r)) [
  | inl p ↦ rw (with_grant-none r host operation p) (ground (arith, text_eq_iff host other))
  | inr (k, p) ↦
      (with_grant_known r host other k operation p).0 ∙ ground (arith, text_eq_iff host other)
]
