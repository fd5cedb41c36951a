-- ===== src/Authority.antt =====
-- core/src/authority.rs: weighted-threshold approval authorities. A referrer is named by its kind and id, and a
-- wait that does not parse by its error, where the source formats a message from them.
mod Tests
pub mod Graph
pub mod Evaluation
pub mod Spec
pub mod Proofs
use Prim.Native.String.{String}
use lychgate.Prelude.{
  ℕ, zero, suc, ◌+◌, ◌-◌, Bool, true, false, ◌||◌, List, [], ◌∷◌, Option, none, some, Result, ok,
  err, ◌>>=◌, ◌>>◌, ltb, leb, ◌==◌, if◌then◌else◌, is_empty,
}
use lychgate.Prelude.Text.{Text, bytes}
use lychgate.Prelude.TextSet.{TextSet, contains, insert}
use lychgate.Prelude.TextMap.{TextMap, get}
use lychgate.Clock.{Duration}

pub data Factor : Type 0 where
  authenticator group : Text → Factor
  wait : Duration → Factor

pub record WeightedFactor : Type 0 where
  pub weight : ℕ
  pub factor : Factor

pub record Authority : Type 0 where
  pub threshold : ℕ
  pub factors : List WeightedFactor

pub data Missing : Type 0 where
  authenticator group : Text → Missing
  wait : (remaining : Duration) → Missing

pub record Outcome : Type 0 where
  pub weight : ℕ
  pub threshold : ℕ
  pub met : Bool
  pub missing : List Missing

-- What a factor that does not hold still needs.
needs : Duration → Factor → Missing
needs elapsed (authenticator id) = Missing.authenticator id
needs elapsed (group id) = Missing.group id
needs elapsed (wait dur) = Missing.wait (dur - elapsed)

-- Whether a factor holds; `none` when the group's own evaluation does not return.
unfoldable pub factor_ok : (Text → Option Bool) → TextSet → Duration → Factor → Option Bool
factor_ok group_met satisfied elapsed (authenticator id) = some (contains id satisfied)
factor_ok group_met satisfied elapsed (group id) = group_met id
factor_ok group_met satisfied elapsed (wait dur) = some (leb dur elapsed)

-- The loop over the factors: the weight of those that hold, and what the others need.
unfoldable pub tally :
    (Text → Option Bool) → TextSet → Duration → List WeightedFactor → Option (ℕ × List Missing)
unfolding needs
tally group_met satisfied elapsed [] = some (0, [])
tally group_met satisfied elapsed (wf ∷ factors) =
    let rest = tally group_met satisfied elapsed factors in
    elim (factor_ok group_met satisfied elapsed wf.factor) [
      | none ↦ none
      | some holds ↦ elim rest [
        | none ↦ none
        | some (weight, missing) ↦ some (
            if holds
            then (wf.weight + weight, missing)
            else (weight, needs elapsed wf.factor ∷ missing))
      ]
    ]

unfoldable pub outcome : Authority → Option (ℕ × List Missing) → Option Outcome
outcome a none = none
outcome a (some (weight, missing)) = some (record {
  weight = weight;
  threshold = a.threshold;
  met = leb a.threshold weight;
  missing = missing;
})

abbrev pub met_of : Option Outcome → Option Bool
met_of none = none
met_of (some o) = some o.met

-- `AuthorityModel::evaluate`, with the depth of the recursion bounded: `none` stands for a recursion that is
-- deeper than that.
unfoldable pub evaluate : ℕ → TextMap Authority → Authority → TextSet → Duration → Option Outcome
evaluate zero groups authority satisfied elapsed = none
evaluate (suc depth) groups authority satisfied elapsed = outcome authority (
    tally
      (λ id. elim (get id groups) [
        | none ↦ some false
        | some g ↦ met_of (evaluate depth groups g satisfied elapsed)
      ])
      satisfied elapsed authority.factors)
