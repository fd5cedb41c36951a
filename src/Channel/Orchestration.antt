-- ===== src/Channel/Orchestration.antt =====
-- What the loops of core/src/channel.rs guarantee over drivers that keep their contract.
use mathlib.Core.List.{reverse-cons, append-nil, append_assoc}
use mathlib.Core.Bool.{false≢true}
use lychgate.Prelude.{
  ◌≡◌, ◌⊎◌, inl, inr, refl, Bool, true, false, not, ◌||◌, ◌&&◌, List, [], ◌∷◌, ◌++◌, Option, none,
  some, ok, reverse, all, arith, Result-cases, Bool-cases, map, sym, ◌∙◌,
}
use lychgate.Channel.{Channel, member, channel_eq, channel_eq_iff}
use lychgate.Channel.Drivers.{
  DriverError, ApplyCtx, Driver, DriverSet, ApplyOutcome, applied, failed, RevertOutcome, reverted,
  stuck, has_driver, unwind, apply_from, apply_channels, revert_from, revert_channels,
  revert_outcome,
}

-- The contract at the top of the file, asked of every host and context. `live c w` says that channel `c` is,
-- or may be, applied on the target: an `apply` may change that for its own channel only, whether it succeeds
-- or not; a `revert` opens nothing, and one that succeeds leaves its channel closed.
pub record Contract {Host Secret World : Type 0} (d : Driver Host Secret World)
    (live : Channel → World → Bool) : Type 0 where
  pub apply_own :
      (c k : Channel) (host : Host) (ctx : ApplyCtx) (w : World)
      → live k (d.apply c host ctx w).0 ≡ true
      → (live k w ≡ true) ⊎ (c ≡ k)
  pub revert_opens_nothing :
      (c k : Channel) (host : Host) (w : World)
      → live k (d.revert c host w).0 ≡ true
      → live k w ≡ true
  pub revert_closes :
      (c : Channel) (host : Host) (w : World)
      → (d.revert c host w).1 ≡ ok tt
      → live c (d.revert c host w).0 ≡ false

or_swap : (a b : Bool) → (a || (b || false)) ≡ (b || a)
or_swap a b = ground arith

listed : (a b : Bool) → (a ≡ true → b ≡ true) → (not a || b) ≡ true
listed a b h = ground arith

cleared :
    (after before asked : Bool)
    → (after ≡ true → (before ≡ true) × (asked ≡ true → false ≡ true))
    → ((not after || before) ≡ true) × ((asked && after) ≡ false)
cleared after before asked h = ground arith

kept :
    (after before asked left : Bool)
    → (after ≡ true → (before ≡ true) × (asked ≡ true → left ≡ true))
    → ((not after || before) ≡ true) × ((not (asked && after) || left) ≡ true)
kept after before asked left h = ground arith

or_left : (a b : Bool) → a ≡ true → (a || b) ≡ true
or_left a b h = ground arith

or_right : (a b : Bool) → b ≡ true → (a || b) ≡ true
or_right a b h = ground arith

member-append :
    (k : Channel) (xs ys : List Channel) → member k (xs ++ ys) ≡ (member k xs || member k ys)
member-append k [] ys = refl
member-append k (x ∷ xs) ys = ground (arith, member-append k xs ys)

member-reverse : (k : Channel) (xs : List Channel) → member k (reverse xs) ≡ member k xs
member-reverse k [] = refl
member-reverse k (x ∷ xs) =
    rw (reverse-cons x xs, member-append k (reverse xs) (x ∷ []), member-reverse k xs)
      (or_swap (member k xs) (channel_eq x k))

module _ {Host Secret World : Type 0} (d : Driver Host Secret World) (live : Channel → World → Bool)
    (contract : Contract d live) (host : Host) where
  unwind_lem :
      (cs : List Channel) (w : World) (k : Channel)
      → live k (unwind d host cs w).0 ≡ true
      → (live k w ≡ true) × (member k cs ≡ true → member k (unwind d host cs w).2 ≡ true)
  unfolding unwind
  unwind_lem [] w k h = (h, λ m. m)
  unwind_lem (c ∷ cs) w k h = ground (
    arith,
    unwind_lem cs (d.revert c host w).0 k,
    contract.revert_opens_nothing c k host w,
    contract.revert_closes c host w,
    channel_eq_iff c k,
  )

  -- What an outcome says about the target: a complete application lists the channels asked for, and whatever
  -- may be applied is listed as applied, or as stuck.
  abbrev Covers : List Channel → World → Option ApplyOutcome → Type 0
  Covers channels w none = ⊥
  Covers channels w (some (applied cs)) =
      (cs ≡ channels) × ((k : Channel) → live k w ≡ true → member k cs ≡ true)
  Covers channels w (some (failed c e done left)) =
      (k : Channel) → live k w ≡ true → member k left ≡ true

  apply_from-Covers :
      (registered so_far cs channels : List Channel) (ctx : ApplyCtx) (w : World)
      → so_far ++ cs ≡ channels
      → all (λ c. has_driver c registered) cs ≡ true
      → ((k : Channel) → live k w ≡ true → member k so_far ≡ true)
      → Covers channels
          (apply_from d registered host so_far ctx cs w).0
          (apply_from d registered host so_far ctx cs w).1
  unfolding apply_from
  apply_from-Covers registered so_far [] channels ctx w e r h = (sym (append-nil so_far) ∙ e, h)
  apply_from-Covers registered so_far (c ∷ cs) channels ctx w e r h =
      elim (Result-cases (d.apply c host ctx w).1) [
        | inl (u, p) ↦
            rw (p, here)
              (apply_from-Covers registered (so_far ++ (c ∷ [])) cs channels ctx
                (d.apply c host ctx w).0 (append_assoc so_far (c ∷ []) cs ∙ e) later carried)
        | inr (x, p) ↦
            rw (p, here)
              (λ k l.
                let (l', m) = unwind_lem (c ∷ reverse so_far) (d.apply c host ctx w).0 k l in
                m (attempted k (after k l')))
      ]
    where
      here : has_driver c registered ≡ true
      here = ground arith

      later : all (λ c. has_driver c registered) cs ≡ true
      later = ground arith

      after :
          (k : Channel)
          → live k (d.apply c host ctx w).0 ≡ true
          → (member k so_far ≡ true) ⊎ (c ≡ k)
      after k l = elim (contract.apply_own c k host ctx w l) [ inl m ↦ inl (h k m) | inr m ↦ inr m ]

      carried :
          (k : Channel)
          → live k (d.apply c host ctx w).0 ≡ true
          → member k (so_far ++ (c ∷ [])) ≡ true
      carried k l = rw (member-append k so_far (c ∷ [])) (elim (after k l) [
        | inl m ↦ or_left (member k so_far) (member k (c ∷ [])) m
        | inr m ↦
            or_right (member k so_far) (member k (c ∷ []))
              (or_left (channel_eq c k) false ((channel_eq_iff c k).1 m))
      ])

      attempted :
          (k : Channel) → (member k so_far ≡ true) ⊎ (c ≡ k) → member k (c ∷ reverse so_far) ≡ true
      attempted k (inl m) = or_right (channel_eq c k) _ (rw (member-reverse k so_far) m)
      attempted k (inr m) = or_left (channel_eq c k) _ ((channel_eq_iff c k).1 m)

  -- What an outcome says about one channel: a complete application lists the channels asked for, and a channel
  -- that may be applied is listed as applied, or as stuck. A panic says nothing that is true.
  abbrev pub Accounts : List Channel → World → Channel → Option ApplyOutcome → Type 0
  Accounts channels w k none = ⊥
  Accounts channels w k (some (applied cs)) =
      (cs ≡ channels) × ((not (live k w) || member k cs) ≡ true)
  Accounts channels w k (some (failed c e done left)) = (not (live k w) || member k left) ≡ true

  Covers-Accounts :
      (channels : List Channel) (w : World) (o : Option ApplyOutcome) (k : Channel)
      → Covers channels w o
      → Accounts channels w k o
  Covers-Accounts channels w none k h = h
  Covers-Accounts channels w (some (applied cs)) k h = (h.0, listed (live k w) _ (h.1 k))
  Covers-Accounts channels w (some (failed c e done left)) k h = listed (live k w) _ (h k)

  -- Over drivers that keep the contract of the file, from a target with nothing applied and with a driver for
  -- every channel asked for, apply_channels does not panic, success lists exactly the channels asked for, and
  -- after a failure every channel that may still be applied is listed as stuck.
  pub apply_channels-Accounts :
      (set : DriverSet World) (channels : List Channel) (ctx : ApplyCtx) (k : Channel)
      → all (λ c. has_driver c set.registered) channels ≡ true
      → ((j : Channel) → live j set.world ≡ false)
      → Accounts channels
          (apply_channels d set host channels ctx).0.world
          k
          (apply_channels d set host channels ctx).1
  unfolding apply_channels
  apply_channels-Accounts set channels ctx k r h =
      Covers-Accounts channels _ (apply_from d set.registered host [] ctx channels set.world).1 k (
        apply_from-Covers set.registered [] channels channels ctx set.world refl r
          (λ j l. absurd (false≢true (sym (h j) ∙ l))))

  revert_from_lem :
      (registered cs : List Channel) (w : World) (k : Channel)
      → live k (revert_from d registered host cs w).0 ≡ true
      → (live k w ≡ true)
        × (member k cs ≡ true
            → member k (map (λ e. e.0) (revert_from d registered host cs w).1) ≡ true)
  unfolding revert_from
  revert_from_lem registered [] w k l = (l, λ m. m)
  revert_from_lem registered (c ∷ cs) w k l = elim (Bool-cases (has_driver c registered)) [
    | inl p ↦ ground (
      arith,
      p,
      revert_from_lem registered cs (d.revert c host w).0 k,
      contract.revert_opens_nothing c k host w,
      contract.revert_closes c host w,
      channel_eq_iff c k,
    )
    | inr p ↦ ground (arith, p, revert_from_lem registered cs w k)
  ]

  -- What a revert says about one channel of the target: it was not opened, and a channel asked for that may
  -- still be applied is listed as stuck; after a complete revert no channel asked for is still applied.
  abbrev pub Retracts : List Channel → World → World → Channel → RevertOutcome → Type 0
  Retracts channels before after k reverted =
      ((not (live k after) || live k before) ≡ true) × ((member k channels && live k after) ≡ false)
  Retracts channels before after k (stuck left) =
      ((not (live k after) || live k before) ≡ true)
      × ((not (member k channels && live k after) || member k (map (λ e. e.0) left)) ≡ true)

  outcome-Retracts :
      (channels : List Channel) (before after : World) (k : Channel)
      (left : List (Channel × DriverError))
      → (live k after ≡ true
          → (live k before ≡ true)
            × (member k channels ≡ true → member k (map (λ e. e.0) left) ≡ true))
      → Retracts channels before after k (revert_outcome d left)
  outcome-Retracts channels before after k [] h = cleared (live k after) _ _ h
  outcome-Retracts channels before after k (e ∷ left) h = kept (live k after) _ _ _ h

  -- Over drivers that keep the contract of the file, after revert_channels a channel is applied only if it was
  -- before, and a channel asked for that may still be applied is listed as stuck.
  pub revert_channels-Retracts :
      (set : DriverSet World) (channels : List Channel) (k : Channel)
      → Retracts channels set.world
          (revert_channels d set host channels).0.world
          k
          (revert_channels d set host channels).1
  unfolding revert_channels
  revert_channels-Retracts set channels k =
      outcome-Retracts channels set.world
        (revert_from d set.registered host (reverse channels) set.world).0 k
        (revert_from d set.registered host (reverse channels) set.world).1
        (λ l.
          let (b, m) = revert_from_lem set.registered (reverse channels) set.world k l in
          (b, λ q. m (rw (member-reverse k channels) q)))

  apply_from_live :
      (registered so_far cs : List Channel) (ctx : ApplyCtx) (w : World) (k : Channel)
      → live k (apply_from d registered host so_far ctx cs w).0 ≡ true
      → (live k w ≡ true) ⊎ (member k cs ≡ true)
  unfolding apply_from
  apply_from_live registered so_far [] ctx w k l = inl l
  apply_from_live registered so_far (c ∷ cs) ctx w k l =
      elim (Bool-cases (has_driver c registered)) [
        | inr p ↦ inl (ground (arith, p, l))
        | inl p ↦ elim (Result-cases (d.apply c host ctx w).1) [
          | inl (u, q) ↦ step c cs w k (
              apply_from_live registered (so_far ++ (c ∷ [])) cs ctx (d.apply c host ctx w).0 k
                (ground (arith, p, q, l)))
          | inr (x, q) ↦ step c cs w k (
              inl
                (unwind_lem (c ∷ reverse so_far) (d.apply c host ctx w).0 k
                  (ground (arith, p, q, l))).0)
        ]
      ]
    where
      step :
          (c : Channel) (cs : List Channel) (w : World) (k : Channel)
          → (live k (d.apply c host ctx w).0 ≡ true) ⊎ (member k cs ≡ true)
          → (live k w ≡ true) ⊎ (member k (c ∷ cs) ≡ true)
      step c cs w k (inr m) = inr (or_right (channel_eq c k) _ m)
      step c cs w k (inl l) = elim (contract.apply_own c k host ctx w l) [
        | inl m ↦ inl m
        | inr e ↦ inr (or_left (channel_eq c k) _ ((channel_eq_iff c k).1 e))
      ]

  -- An application touches only the channels asked for.
  pub apply_channels_live :
      (set : DriverSet World) (channels : List Channel) (ctx : ApplyCtx) (k : Channel)
      → live k (apply_channels d set host channels ctx).0.world ≡ true
      → (live k set.world ≡ true) ⊎ (member k channels ≡ true)
  unfolding apply_channels
  apply_channels_live set channels ctx k l =
      apply_from_live set.registered [] channels ctx set.world k l
