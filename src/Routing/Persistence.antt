-- ===== src/Routing/Persistence.antt =====
-- agent/core/router.py: the class MessagePersistence. The column `message_json` holds the message,
-- since `Message(**data)` reads back what `model_dump` wrote. `time.time()` is an argument.
use agent_life_space.Prelude.{
  ℕ, String, Option, none, some, List, [], Dict, erase, values, map, filter, not,
}
use agent_life_space.Prelude.Rows.{replace}
use agent_life_space.Prelude.Sorting.{sort_desc}
use agent_life_space.Routing.Message.{is_expired}
use agent_life_space.Routing.Queue.{Entry, precedes}

pub record PendingRow (F : Type 0) : Type 0 where
  pub entry : Entry F
  pub enqueued_at : ℕ

-- The table `pending_messages`, `None` before `init` and after `close`.
pub record MessagePersistence (F : Type 0) : Type 0 where
  pub db : Option (Dict (PendingRow F))

module _ {F : Type 0} where
  unfoldable pub store_row :
      String → Entry F → ℕ → Option (Dict (PendingRow F)) → Option (Dict (PendingRow F))
  unfolding replace
  store_row id e now none = none
  store_row id e now (some rows) = some (replace id (record { entry = e; enqueued_at = now }) rows)

  unfoldable pub store : String → Entry F → ℕ → MessagePersistence F → MessagePersistence F
  unfolding store_row
  store id e now p = record { db = store_row id e now p.db }

  unfoldable pub remove_row : String → Option (Dict (PendingRow F)) → Option (Dict (PendingRow F))
  unfolding erase
  remove_row id none = none
  remove_row id (some rows) = some (erase id rows)

  unfoldable pub remove : String → MessagePersistence F → MessagePersistence F
  unfolding remove_row
  remove id p = record { db = remove_row id p.db }

  -- ORDER BY priority, seq, without the expired messages.
  unfoldable pub load_pending : ℕ → MessagePersistence F → List (Entry F)
  unfolding sort_desc is_expired
  load_pending now p = elim p.db [
    | none ↦ []
    | some rows ↦
        filter (λ e. not (is_expired now e.message))
          (sort_desc (λ x y. precedes y x) (map (λ row. row.entry) (values rows)))
  ]

  unfoldable pub close : MessagePersistence F → MessagePersistence F
  close p = record { db = none }
