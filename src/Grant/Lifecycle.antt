-- ===== src/Grant/Lifecycle.antt =====
-- The diagram at the top of core/src/grant.rs: the mutating calls of a grant as one step function, and
-- the edges that an accepted call may follow.
use mathlib.Core.List.{Memᴰ}
use lychgate.Prelude.{
  inl, inr, Option-cases, ◌⊎◌, ◌<◌, ◌≤◌, ◌+◌, sym, subst, ◌≡◌, refl, List, [], ◌∷◌, Option, none,
  some, Result, ok, err, arith,
}
use lychgate.Prelude.Text.{Text}
use lychgate.Prelude.TextSet.{TextSet, insert}
use lychgate.Clock.{SystemTime, checked_add, from_secs}
use lychgate.Ttl.{Ttl, renewal_window_secs}
use lychgate.Channel.{Channel}
use lychgate.Grant.{
  Grant, closed, pending, opening, opened, needs_revert, GrantError, Nonce, begin_open, finish_open,
  abort_open, fail_open, begin_revert, retain_stuck, finish_revert, renew, begin_pending,
  add_satisfied, approve_to_opening, cancel_pending,
}

-- The calls that take `&mut self`.
pub data Call : Type 0 where
  begins_open : (now : SystemTime) → Ttl → List Channel → Call
  finishes_open aborts_open : Call
  fails_open : List Channel → (now : SystemTime) → Call
  begins_revert : (now : SystemTime) → Call
  retains_stuck : List Channel → Call
  finishes_revert : Call
  renews : (now : SystemTime) → Ttl → Call
  begins_pending : (now approval_deadline : SystemTime) → Ttl → Nonce → Text → Call
  adds_satisfied : (now : SystemTime) → Text → Call
  approves : (now : SystemTime) → List Channel → Call
  cancels_pending : Call

abbrev error_of {ℓ} : {A : Type ℓ} → Result GrantError A → Option GrantError
error_of (ok a) = none
error_of (err e) = some e

abbrev forget {ℓ} : {A : Type ℓ} → Grant × Result GrantError A → Grant × Option GrantError
forget (g, r) = (g, error_of r)

-- The grant after the call, and the error that the call returned.
unfoldable pub step : Grant → Call → Grant × Option GrantError
unfolding begin_open finish_open abort_open fail_open begin_revert retain_stuck finish_revert renew
    begin_pending add_satisfied approve_to_opening cancel_pending
step g (begins_open now ttl channels) = forget (begin_open g now ttl channels)
step g finishes_open = forget (finish_open g)
step g aborts_open = forget (abort_open g)
step g (fails_open stuck now) = forget (fail_open g stuck now)
step g (begins_revert now) = forget (begin_revert g now)
step g (retains_stuck stuck) = forget (retain_stuck g stuck)
step g finishes_revert = forget (finish_revert g)
step g (renews now ttl) = forget (renew g now ttl)
step g (begins_pending now deadline ttl nonce profile) =
    forget (begin_pending g now deadline ttl nonce profile)
step g (adds_satisfied now id) = forget (add_satisfied g now id)
step g (approves now channels) = forget (approve_to_opening g now channels)
step g cancels_pending = forget (cancel_pending g)

-- What an accepted call may do. `Closed` is left only by a request or by a recorded intent, `Open` only
-- for `NeedsRevert`, and a pending request never skips `Opening`.
pub data Edge : Grant → Grant → Type 0 where
  record_intent :
      {now expires_at : SystemTime} {channels : List Channel} (ttl : Ttl)
      → checked_add now ttl.duration ≡ some expires_at
      → Edge closed (opening now expires_at channels)
  complete :
      {opened_at expires_at : SystemTime} {channels : List Channel}
      → Edge (opening opened_at expires_at channels) (opened opened_at expires_at channels)
  unwind :
      {opened_at expires_at : SystemTime} {channels : List Channel}
      → Edge (opening opened_at expires_at channels) closed
  get_stuck :
      {opened_at expires_at since : SystemTime} {channels stuck : List Channel}
      → Edge (opening opened_at expires_at channels) (needs_revert stuck since)
  retract :
      {opened_at expires_at since : SystemTime} {channels : List Channel}
      → Edge (opened opened_at expires_at channels) (needs_revert channels since)
  retry :
      {since : SystemTime} {channels stuck : List Channel}
      → Edge (needs_revert channels since) (needs_revert stuck since)
  clear : {since : SystemTime} {channels : List Channel} → Edge (needs_revert channels since) closed
  extend :
      {opened_at old expires_at : SystemTime} {channels : List Channel} (now : SystemTime)
      (ttl : Ttl)
      → now < old
      → old ≤ now + from_secs renewal_window_secs
      → checked_add now ttl.duration ≡ some expires_at
      → Edge (opened opened_at old channels) (opened opened_at expires_at channels)
  request :
      {now deadline : SystemTime} {ttl : Ttl} {nonce : Nonce} {profile : Text}
      → Edge closed (pending now deadline ttl nonce profile [])
  prove :
      {at deadline : SystemTime} {ttl : Ttl} {nonce : Nonce} {profile : Text} {ids : TextSet}
      (id : Text)
      → Edge
          (pending at deadline ttl nonce profile ids)
          (pending at deadline ttl nonce profile (insert id ids))
  approve :
      {at deadline now expires_at : SystemTime} {ttl : Ttl} {nonce : Nonce} {profile : Text}
      {ids : TextSet} {channels : List Channel}
      → now < deadline
      → checked_add now ttl.duration ≡ some expires_at
      → Edge (pending at deadline ttl nonce profile ids) (opening now expires_at channels)
  cancel :
      {at deadline : SystemTime} {ttl : Ttl} {nonce : Nonce} {profile : Text} {ids : TextSet}
      → Edge (pending at deadline ttl nonce profile ids) closed

-- A call on a grant that is refused leaves the grant as it was.
pub step_refused :
    (g : Grant) (c : Call) {e : GrantError} → (step g c).1 ≡ some e → (step g c).0 ≡ g
unfolding step
step_refused closed c h = ground arith
step_refused (pending a b t n p s) c h = ground arith
step_refused (opening a b cs) c h = ground arith
step_refused (opened a b cs) c h = ground arith
step_refused (needs_revert cs a) c h = ground arith

-- Inversions: what an accepted call that reads the clock found, and where it went.
begins_open_inv :
    (now : SystemTime) (ttl : Ttl) (channels : List Channel)
    → (step closed (begins_open now ttl channels)).1 ≡ none
    → (e : SystemTime) × (checked_add now ttl.duration ≡ some e)
      × ((step closed (begins_open now ttl channels)).0 ≡ opening now e channels)
unfolding step
begins_open_inv now ttl channels h = (now + ttl.duration, ground arith, ground arith)

renews_inv :
    (a b now : SystemTime) (cs : List Channel) (ttl : Ttl)
    → (step (opened a b cs) (renews now ttl)).1 ≡ none
    → (e : SystemTime) × (now < b)
      × (b ≤ now + from_secs renewal_window_secs)
      × (checked_add now ttl.duration ≡ some e)
      × ((step (opened a b cs) (renews now ttl)).0 ≡ opened a e cs)
unfolding step
renews_inv a b now cs ttl h =
    (now + ttl.duration, ground arith, ground arith, ground arith, ground arith)

module _ (a b : SystemTime) (t : Ttl) (n : Nonce) (p : Text) (s : TextSet) where
  adds_satisfied_inv :
      (now : SystemTime) (id : Text)
      → (step (pending a b t n p s) (adds_satisfied now id)).1 ≡ none
      → (step (pending a b t n p s) (adds_satisfied now id)).0 ≡ pending a b t n p (insert id s)
  unfolding step
  adds_satisfied_inv now id h = ground arith

  approves_inv :
      (now : SystemTime) (channels : List Channel)
      → (step (pending a b t n p s) (approves now channels)).1 ≡ none
      → (e : SystemTime) × (now < b)
        × (checked_add now t.duration ≡ some e)
        × ((step (pending a b t n p s) (approves now channels)).0 ≡ opening now e channels)
  unfolding step
  approves_inv now channels h = (now + t.duration, ground arith, ground arith, ground arith)

-- Every call on a grant that is accepted moves it along an edge of the lifecycle diagram.
pub step-Edge : (g : Grant) (c : Call) → (step g c).1 ≡ none → Edge g (step g c).0
unfolding step
step-Edge closed (begins_open now ttl channels) h =
    let (e, p, q) = begins_open_inv now ttl channels h in
    subst (Edge closed) (sym q) (record_intent ttl p)
step-Edge closed (begins_pending now deadline ttl nonce profile) h = request
step-Edge closed c h = cc
step-Edge (pending a b t n p s) (adds_satisfied now id) h =
    subst (Edge (pending a b t n p s)) (sym (adds_satisfied_inv a b t n p s now id h)) (prove id)
step-Edge (pending a b t n p s) (approves now channels) h =
    let (e, q, r, u) = approves_inv a b t n p s now channels h in
    subst (Edge (pending a b t n p s)) (sym u) (approve q r)
step-Edge (pending a b t n p s) cancels_pending h = cancel
step-Edge (pending a b t n p s) c h = ground arith
step-Edge (opening a b cs) finishes_open h = complete
step-Edge (opening a b cs) aborts_open h = unwind
step-Edge (opening a b cs) (fails_open stuck now) h = get_stuck
step-Edge (opening a b cs) c h = cc
step-Edge (opened a b cs) (begins_revert now) h = retract
step-Edge (opened a b cs) (renews now ttl) h =
    let (e, q, w, r, u) = renews_inv a b now cs ttl h in
    subst (Edge (opened a b cs)) (sym u) (extend now ttl q w r)
step-Edge (opened a b cs) c h = ground arith
step-Edge (needs_revert cs a) (begins_revert now) h = retry
step-Edge (needs_revert cs a) (retains_stuck stuck) h = retry
step-Edge (needs_revert cs a) finishes_revert h = clear
step-Edge (needs_revert cs a) c h = cc

unfoldable pub run : Grant → List Call → Grant
run g [] = g
run g (c ∷ cs) = run (step g c).0 cs

-- A grant whose channels were all applied, or whose revert is under way.
abbrev pub HasApplied : Grant → Type 0
HasApplied (opened a b cs) = Unit
HasApplied (needs_revert cs a) = Unit
HasApplied _ = ⊥

abbrev IsOpened : Grant → Type 0
IsOpened (opened a b cs) = Unit
IsOpened _ = ⊥

Edge-HasApplied : {g h : Grant} → IsOpened g → Edge g h → HasApplied h
Edge-HasApplied i (record_intent ttl e) = elim i [ ]
Edge-HasApplied i retract = tt
Edge-HasApplied i (extend now ttl p w q) = tt
Edge-HasApplied i complete = tt
Edge-HasApplied i unwind = elim i [ ]
Edge-HasApplied i get_stuck = tt
Edge-HasApplied i retry = tt
Edge-HasApplied i clear = elim i [ ]
Edge-HasApplied i request = elim i [ ]
Edge-HasApplied i (prove id) = elim i [ ]
Edge-HasApplied i (approve p q) = elim i [ ]
Edge-HasApplied i cancel = elim i [ ]

opened-step :
    (a b : SystemTime) (cs : List Channel) (c : Call) → HasApplied (step (opened a b cs) c).0
opened-step a b cs c = elim (Option-cases (step (opened a b cs) c).1) [
  | inl p ↦ Edge-HasApplied {g = opened a b cs} tt (step-Edge (opened a b cs) c p)
  | inr (e, p) ↦ subst HasApplied (sym (step_refused (opened a b cs) c p)) tt
]

HasApplied-step :
    (g : Grant) (c : Call) → HasApplied g → (c ≡ finishes_revert) ⊎ HasApplied (step g c).0
unfolding step
HasApplied-step closed c i = elim i [ ]
HasApplied-step (pending _ _ _ _ _ _) c i = elim i [ ]
HasApplied-step (opening _ _ _) c i = elim i [ ]
HasApplied-step (opened a b cs) c i = inr (opened-step a b cs c)
HasApplied-step (needs_revert cs a) finishes_revert i = inl refl
HasApplied-step (needs_revert cs a) c i = inr tt

-- A sequence of calls that takes a grant whose access is open, or still to be reverted, to closed contains a
-- finish_revert.
pub closes_by_revert :
    (g : Grant) (cs : List Call) → HasApplied g → run g cs ≡ closed → Memᴰ finishes_revert cs
unfolding run
closes_by_revert g [] i h = absurd (subst HasApplied h i)
closes_by_revert g (c ∷ cs) i h = elim (HasApplied-step g c i) [
  | inl e ↦ Memᴰ.head (sym e)
  | inr j ↦ Memᴰ.tail (closes_by_revert (step g c).0 cs j h)
]
