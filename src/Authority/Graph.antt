-- ===== src/Authority/Graph.antt =====
-- `check_group_acyclic` of core/src/authority.rs.
pub mod Covering
pub mod Order
pub mod Pushing
pub mod Met
pub mod Load
pub mod Ending
use lychgate.Prelude.{
  ℕ, zero, suc, Bool, true, false, List, [], ◌∷◌, Option, none, some, Result, ok, err, ◌>>=◌, ◌>>◌,
}
use lychgate.Prelude.Text.{Text}
use lychgate.Prelude.TextMap.{TextMap, get, insert, keys}
use lychgate.Authority.{Authority, WeightedFactor, Factor, authenticator, group, wait}

pub data Colour : Type 0 where
  white grey black : Colour

-- How the search ends early: a back-edge, the panic of an index that is not there, or a bound on the rounds of
-- the loop that is too small.
pub data Stop : Type 0 where
  cycle : Text → Stop
  missing_key out_of_fuel : Stop

-- A node, and whether it is being entered.
abbrev pub Stack : Type 0
Stack = List (Text × Bool)

abbrev pub Groups : Type 0
Groups = TextMap Authority

-- The body of the loop over the factors of a group that is entered.
unfoldable pub push_child : TextMap Colour → Factor → Stack → Result Stop Stack
push_child colour (group child) stack = elim (get child colour) [
  | none ↦ err missing_key
  | some grey ↦ err (cycle child)
  | some white ↦ ok ((child, true) ∷ stack)
  | some black ↦ ok stack
]
push_child colour (authenticator id) stack = ok stack
push_child colour (wait dur) stack = ok stack

unfoldable pub push_children : TextMap Colour → List WeightedFactor → Stack → Result Stop Stack
push_children colour [] stack = ok stack
push_children colour (wf ∷ factors) stack =
    push_child colour wf.factor stack >>= push_children colour factors

unfoldable pub descend : ℕ → Groups → TextMap Colour → Stack → Result Stop (TextMap Colour)
descend fuel groups colour [] = ok colour
descend zero groups colour (_ ∷ _) = err out_of_fuel
descend (suc fuel) groups colour ((node, true) ∷ stack) = elim (get node groups) [
  | none ↦ err missing_key
  | some g ↦ do
    stack' ← push_children (insert node grey colour) g.factors ((node, false) ∷ stack)
    descend fuel groups (insert node grey colour) stack'
]
descend (suc fuel) groups colour ((node, false) ∷ stack) =
    descend fuel groups (insert node black colour) stack

-- The loop over the keys; a round of the search may take `fuel` pops.
unfoldable pub search : ℕ → Groups → List Text → TextMap Colour → Result Stop (TextMap Colour)
search fuel groups [] colour = ok colour
search fuel groups (start ∷ starts) colour = elim (get start colour) [
  | none ↦ err missing_key
  | some white ↦ do
    colour' ← descend fuel groups colour ((start, true) ∷ [])
    search fuel groups starts colour'
  | some _ ↦ search fuel groups starts colour
]

unfoldable pub all_white : List Text → TextMap Colour
all_white [] = []
all_white (k ∷ ks) = insert k white (all_white ks)

unfoldable pub check_group_acyclic : ℕ → Groups → Result Stop (Unit {0})
check_group_acyclic fuel groups = do
  colour ← search fuel groups (keys groups) (all_white (keys groups))
  ok tt
