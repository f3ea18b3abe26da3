-- ===== src/Routing/DeadLetters.antt =====
-- agent/core/router.py: the class DeadLetterQueue, a dict from ids to a message and a reason. Log
-- lines are left out.
use agent_life_space.Prelude.{
  ℕ, String, Option, none, some, List, Dict, lookup, insert, erase, values, length, drop, leb,
  if◌then◌else◌,
}
use agent_life_space.Routing.Message.{Message}

pub record DeadLetterQueue (F : Type 0) : Type 0 where
  pub entries : Dict (Message F × String)
  pub max_size : ℕ

module _ {F : Type 0} where
  -- A full queue loses its oldest entry; an id that is there already keeps its place.
  unfoldable pub add : Message F → String → DeadLetterQueue F → DeadLetterQueue F
  unfolding insert
  add m reason q =
      let room = if leb q.max_size (length q.entries) then drop 1 q.entries else q.entries in
      record q { entries = insert m.id (m, reason) room }

  unfoldable pub get_all : DeadLetterQueue F → List (Message F × String)
  get_all q = values q.entries

  abbrev message_of : Option (Message F × String) → Option (Message F)
  message_of none = none
  message_of (some (m, reason)) = some m

  -- `retry`: the message is taken out.
  unfoldable pub retry : String → DeadLetterQueue F → DeadLetterQueue F × Option (Message F)
  unfolding lookup erase
  retry id q = (record q { entries = erase id q.entries }, message_of (lookup id q.entries))

  unfoldable pub size : DeadLetterQueue F → ℕ
  size q = length q.entries
