-- ===== src/Daemon/Opening/Commits.antt =====
-- How the commits of daemon/src/lifecycle.rs keep each channel that may be live listed in the state file.
use lychgate.Prelude.{
  ◌≡◌, refl, ◌∙◌, subst, Bool, true, false, List, [], ◌∷◌, some, Result, ok, err, map,
  if◌then◌else◌, arith,
}
use lychgate.Prelude.Text.{Text, text_eq_refl}
use lychgate.Prelude.TextMap.{get, contains_key, get-put}
use lychgate.Clock.{SystemTime}
use lychgate.Channel.{Channel, member}
use lychgate.Grant.{Grant, GrantError, opening, opened, needs_revert}
use lychgate.Grant as Machine
use lychgate.Registry.{GrantRegistry, RegistryError, with_grant}
use lychgate.Registry
use lychgate.Snapshot.Stored.{stored}
use lychgate.Snapshot.{StateDoc, from_parts, snapshot, records}
use lychgate.Daemon.{
  Host, Event, Fatal, Outside, Daemon, Act, ◌>>=◌, journal, must, expect, commit, write, next_doc,
  registry_of, with_registry,
}
use lychgate.Daemon.Opening.{abandon}
use lychgate.Daemon.Opening.Listed.{
  channels_of, lists, lists-records, lists-stored_records, from_parts-lists,
}

pub get-contains_key :
    (host : Text) (r : GrantRegistry) (g : Grant) → get host r ≡ some g → contains_key host r ≡ true
unfolding get contains_key
get-contains_key host [] g e = cc
get-contains_key host ((j, x) ∷ r) g e = ground (arith, e, get-contains_key host r g)

abbrev pub names : List Host → List Text
names hosts = map (λ (h : Host). h.name) hosts

module _ {Secret World : Type 0} (outside : Outside Secret World) (live : Channel → World → Bool)
    (host : Text) where
  -- Each channel that may be live is listed.
  abbrev pub Covered : Daemon World → Type 0
  Covered d = (k : Channel) → live k d.drivers.world ≡ true → lists d.doc.grants host k ≡ true

  -- The file reads as a registry that holds the host's grant as opening, with these channels, and nothing else
  -- is live.
  pub record IsOpening (channels : List Channel) (d : Daemon World) : Type 0 where
    pub registry : GrantRegistry
    pub opened_at : SystemTime
    pub expires_at : SystemTime
    pub reads : from_parts outside.hex (names d.inventory) d.doc ≡ ok registry
    pub grant : get host registry ≡ some (opening opened_at expires_at channels)
    pub within : (k : Channel) → live k d.drivers.world ≡ true → member k channels ≡ true

  pub IsOpening-Covered :
      (channels : List Channel) (d : Daemon World) → IsOpening channels d → Covered d
  IsOpening-Covered channels d o k l =
      from_parts-lists outside.hex (names d.inventory) d.doc o.registry host
        (opening o.opened_at o.expires_at channels) k o.reads o.grant (o.within k l)

  pub after-Covered :
      {A B : Type 0} (r : Result Fatal A) (f : A → Act World B) (d : Daemon World)
      → Covered d
      → ((a : A) (d' : Daemon World) → Covered d' → Covered (f a d').0)
      → Covered
          (elim r as (λ _. Daemon World × Result Fatal B) [ ok a ↦ f a d | err e ↦ (d, err e) ]).0
  after-Covered (ok a) f d h k = k a d h
  after-Covered (err e) f d h k = h

  pub then-Covered :
      {A B : Type 0} (m : Act World A) (f : A → Act World B) (d : Daemon World)
      → Covered (m d).0
      → ((a : A) (d' : Daemon World) → Covered d' → Covered (f a d').0)
      → Covered ((m >>= f) d).0
  then-Covered m f d h k = after-Covered (m d).1 f (m d).0 h k

  pub either-Covered :
      {A : Type 0} (b : Bool) (x y : Daemon World × A)
      → Covered x.0
      → Covered y.0
      → Covered (if◌then◌else◌ {A = Daemon World × A} b x y).0
  either-Covered true x y h h' = h
  either-Covered false x y h h' = h'

  pub journal-Covered :
      (event : Event) (d : Daemon World) → Covered d → Covered (journal outside event d).0
  unfolding journal
  journal-Covered event d h = either-Covered (outside.can_journal d.journal event) _ _ h h

  -- What a commit must list.
  pub Lists : Daemon World → GrantRegistry → Type 0
  Lists d r =
      (k : Channel) → live k d.drivers.world ≡ true → lists (records outside.hex r) host k ≡ true

  pub next_doc-lists :
      {A : Type 0} (d : Daemon World) (r : GrantRegistry) (x : Result RegistryError A)
      → Covered d
      → ((a : A) → x ≡ ok a → Lists d r)
      → (k : Channel) → live k d.drivers.world ≡ true
      → lists (next_doc outside d.doc r x).grants host k ≡ true
  unfolding snapshot Lists
  next_doc-lists d r (ok a) h f = f a refl
  next_doc-lists d r (err e) h f = h

  write-Covered :
      {A : Type 0} (doc : StateDoc) (a : A) (d : Daemon World)
      → Covered d
      → ((k : Channel) → live k d.drivers.world ≡ true → lists doc.grants host k ≡ true)
      → Covered (write outside doc a d).0
  unfolding stored
  write-Covered doc a d h f =
      either-Covered (outside.can_write doc) _ _
        (λ k l. lists-stored_records doc.grants host k ∙ f k l) h

  pub commit-Covered :
      {A : Type 0} (op : GrantRegistry → GrantRegistry × Result RegistryError A) (d : Daemon World)
      (x : Result Fatal GrantRegistry)
      → Covered d
      → ((r : GrantRegistry) (a : A) → x ≡ ok r → (op r).1 ≡ ok a → Lists d (op r).0)
      → Covered (commit outside op x d).0
  commit-Covered op d (err e) h f = h
  commit-Covered op d (ok r) h f =
      write-Covered (next_doc outside d.doc (op r).0 (op r).1) (op r).1 d h
        (next_doc-lists d (op r).0 (op r).1 h (λ a e. f r a refl e))

  pub expect-Covered :
      {A : Type 0} (r : Result RegistryError A) (d : Daemon World)
      → Covered d
      → Covered (expect outside r d).0
  expect-Covered (ok a) d h = h
  expect-Covered (err e) d h = h

  pub must-Covered :
      {A : Type 0} (op : GrantRegistry → GrantRegistry × Result RegistryError A) (d : Daemon World)
      → Covered d
      → ((r : GrantRegistry) (a : A)
          → registry_of outside d ≡ ok r
          → (op r).1 ≡ ok a
          → Lists d (op r).0)
      → Covered (must outside op d).0
  unfolding must with_registry
  must-Covered op d h f =
      then-Covered (with_registry outside op) (expect outside) d
        (commit-Covered op d (registry_of outside d) h f) expect-Covered

  pub get-with_grant :
      {A : Type 0} (r : GrantRegistry) (g : Grant) (op : Grant → Grant × Result GrantError A)
      → get host r ≡ some g
      → get host (with_grant r host op).0 ≡ some (op g).0
  unfolding with_grant
  get-with_grant r g op e =
      ground
        (arith, e, get-put host host (op g).0 r, text_eq_refl host, get-contains_key host r g e)

  pub with_grant-Lists :
      {A : Type 0} (d : Daemon World) (r : GrantRegistry) (g : Grant)
      (op : Grant → Grant × Result GrantError A)
      → get host r ≡ some g
      → ((k : Channel) → live k d.drivers.world ≡ true → member k (channels_of (op g).0) ≡ true)
      → Lists d (with_grant r host op).0
  unfolding Lists
  with_grant-Lists d r g op e f k l =
      lists-records outside.hex (with_grant r host op).0 host (op g).0 k (get-with_grant r g op e)
        (f k l)

  -- The commits of an open, over a state file that reads as opening.
  pub same_grant :
      (channels : List Channel) (d : Daemon World) (o : IsOpening channels d) (r : GrantRegistry)
      → registry_of outside d ≡ ok r
      → get host r ≡ some (opening o.opened_at o.expires_at channels)
  same_grant channels d o r e =
      let s : o.registry ≡ r = ground (arith, o.reads, e) in
      subst (λ r. get host r ≡ some (opening o.opened_at o.expires_at channels)) s o.grant

  pub finish_open-Covered :
      (channels : List Channel) (d : Daemon World)
      → IsOpening channels d
      → Covered (must outside (λ r. Registry.finish_open r host) d).0
  unfolding Registry.finish_open Machine.finish_open
  finish_open-Covered channels d o =
      must-Covered (λ r. Registry.finish_open r host) d (IsOpening-Covered channels d o)
        (λ r a e _.
          with_grant-Lists d r _ (λ g. Machine.finish_open g) (same_grant channels d o r e)
            o.within)

  pub abandon-Covered :
      (channels left : List Channel) (now : SystemTime) (d : Daemon World)
      → IsOpening channels d
      → ((k : Channel) → live k d.drivers.world ≡ true → member k left ≡ true)
      → Covered (abandon outside host left now d).0
  unfolding abandon Registry.abort_open Registry.fail_open Machine.fail_open Machine.abort_open
  abandon-Covered channels [] now d o f =
      must-Covered (λ r. Registry.abort_open r host) d (IsOpening-Covered channels d o)
        (λ r a e _.
          with_grant-Lists d r _ (λ g. Machine.abort_open g) (same_grant channels d o r e) f)
  abandon-Covered channels (c ∷ left) now d o f =
      must-Covered (λ r. Registry.fail_open r host (c ∷ left) now) d
        (IsOpening-Covered channels d o)
        (λ r a e _.
          with_grant-Lists d r _ (λ g. Machine.fail_open g (c ∷ left) now)
            (same_grant channels d o r e) f)
