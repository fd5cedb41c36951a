-- ===== src/Snapshot/Load.antt =====
-- Loading a state document of core/src/snapshot.rs.
use Prim.Native.Nat.{Ordering}
use lychgate.Prelude.{
  ◌≡◌, ap, ◌∙◌, subst, true, false, List, [], ◌∷◌, none, some, ok, >>=-eq-ok, arith, if◌then◌else◌,
  All,
}
use lychgate.Prelude.Text.{Text, text_compare, text_eq}
use lychgate.Prelude.TextMap.{TextMap, insert, put, keys, keys-put}
use lychgate.Grant.{Grant, closed}
use lychgate.Grant.Parts.{GrantParts, parts, restore}
use lychgate.Registry.{GrantRegistry, new}
use lychgate.Snapshot.{HexLower, GrantRecord, StateDoc, parts_of, restore_all, from_parts}
use lychgate.Snapshot.Records.{IsBounded, parts_of-IsBounded}

-- A stored grant whose times are within the caps.
abbrev pub IsBoundedGrant : Grant → Type 0
IsBoundedGrant g = elim (parts g) as (λ _. Type 0) [ none ↦ Unit {0} | some p ↦ IsBounded p ]

abbrev pub AllBounded : GrantRegistry → Type 0
AllBounded r = All (λ (e : Text × Grant). IsBoundedGrant e.1) r

insert-AllBounded :
    (k : Text) (g : Grant) (r : GrantRegistry)
    → IsBoundedGrant g
    → AllBounded r
    → AllBounded (insert k g r)
unfolding insert
insert-AllBounded k g [] h a = (h, tt)
insert-AllBounded k g ((j, w) ∷ r) h a =
    elim (text_compare k j)
      as (λ o. AllBounded (elim o as (λ _. GrantRegistry) [
        | Ordering.lt ↦ (k, g) ∷ (j, w) ∷ r
        | Ordering.eq ↦ (k, g) ∷ r
        | Ordering.gt ↦ (j, w) ∷ insert k g r
      ])) [
        | Ordering.lt ↦ (h, a)
        | Ordering.eq ↦ (h, a.1)
        | Ordering.gt ↦ (a.0, insert-AllBounded k g r h a.1)
      ]

put-AllBounded :
    (k : Text) (g : Grant) (r : GrantRegistry)
    → IsBoundedGrant g
    → AllBounded r
    → AllBounded (put k g r)
unfolding put
put-AllBounded k g [] h a = tt
put-AllBounded k g ((j, w) ∷ r) h a =
    elim (text_eq j k) as (λ b. AllBounded (if b then (j, g) ∷ r else (j, w) ∷ put k g r)) [
      | true ↦ (h, a.1)
      | false ↦ (a.0, put-AllBounded k g r h a.1)
    ]

new-AllBounded : (hosts : List Text) → AllBounded (new hosts)
unfolding new parts
new-AllBounded [] = tt
new-AllBounded (h ∷ hs) =
    insert-AllBounded h closed (new hs) (unfold parts in tt) (new-AllBounded hs)

restore-IsBoundedGrant : (p : GrantParts) → IsBounded p → IsBoundedGrant (restore p)
unfolding parts restore
restore-IsBoundedGrant (GrantParts.pending a b t n p s) h = h
restore-IsBoundedGrant (GrantParts.opening a b cs) h = h
restore-IsBoundedGrant (GrantParts.opened a b cs) h = h
restore-IsBoundedGrant (GrantParts.needs_revert cs a) h = tt

module _ (hex : HexLower) where
  restore_all-AllBounded :
      (doc : TextMap GrantRecord) (r r' : GrantRegistry)
      → AllBounded r
      → restore_all hex doc r ≡ ok r'
      → AllBounded r'
  unfolding restore_all
  restore_all-AllBounded [] r r' a h = subst AllBounded (let e : r ≡ r' = cc in e) a
  restore_all-AllBounded ((host, g) ∷ doc) r r' a h =
      let (p, e, q) = >>=-eq-ok (parts_of hex host g) _ h in
      let b = restore-IsBoundedGrant p (parts_of-IsBounded hex host g p e) in
      restore_all-AllBounded doc (put host (restore p) r) r' (put-AllBounded host (restore p) r b a)
        q

  restore_all-keys :
      (doc : TextMap GrantRecord) (r r' : GrantRegistry)
      → restore_all hex doc r ≡ ok r'
      → keys r' ≡ keys r
  unfolding restore_all
  restore_all-keys [] r r' h = ap (λ m. keys m) (let e : r' ≡ r = cc in e)
  restore_all-keys ((host, g) ∷ doc) r r' h =
      let (p, e, q) = >>=-eq-ok (parts_of hex host g) _ h in
      restore_all-keys doc (put host (restore p) r) r' q ∙ keys-put host (restore p) r

  -- A registry that loads from a state document has a grant for exactly the hosts of the inventory, and every
  -- grant in it is within the caps.
  pub from_parts-AllBounded :
      (hosts : List Text) (doc : StateDoc) (r : GrantRegistry)
      → from_parts hex hosts doc ≡ ok r
      → AllBounded r × (keys r ≡ keys (new hosts))
  unfolding from_parts
  from_parts-AllBounded hosts doc r h =
      let q : restore_all hex doc.grants (new hosts) ≡ ok r = ground arith in
      (
        restore_all-AllBounded doc.grants (new hosts) r (new-AllBounded hosts) q,
        restore_all-keys doc.grants (new hosts) r q,
      )
