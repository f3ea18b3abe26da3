-- ===== src/Routing/Queue.antt =====
-- agent/core/router.py: the queue of the router, an `asyncio.PriorityQueue` of a priority, a sequence
-- number and a message. `get` takes the least entry out; the list has the entries as they came.
pub mod Lanes
use agent_life_space.Prelude.{
  ℕ, Bool, Option, none, some, List, [], ◌∷◌, ltb, leb, ◌&&◌, ◌||◌, if◌then◌else◌,
}
use agent_life_space.Routing.Message.{Message}

pub record Entry (F : Type 0) : Type 0 where
  pub priority : ℕ
  pub seq : ℕ
  pub message : Message F

module _ {F : Type 0} where
  -- The order of the tuples, where no two sequence numbers are equal.
  abbrev pub precedes : Entry F → Entry F → Bool
  precedes a b = ltb a.priority b.priority || (leb a.priority b.priority && ltb a.seq b.seq)

  -- The least of `e` and the entries, and the others.
  unfoldable pub take_least : Entry F → List (Entry F) → Entry F × List (Entry F)
  take_least e [] = (e, [])
  take_least e (x ∷ xs) =
      let (m, rest) = take_least x xs in if precedes m e then (m, e ∷ rest) else (e, x ∷ xs)

  unfoldable pub get : List (Entry F) → Option (Entry F × List (Entry F))
  unfolding take_least
  get [] = none
  get (e ∷ es) = some (take_least e es)
