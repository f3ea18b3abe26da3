-- ===== src/Routing/Router.antt =====
-- agent/core/router.py: the class MessageRouter. A handler is outside: the router has the modules
-- that have one, and what a handler does with a message is an argument, as are the clocks. The
-- routing loop and a delivery are cut at their awaits: `take` and `take_draining` end where a handler
-- is called, `finish` starts with its outcome and ends where the loop sleeps before a retry, and
-- `send` goes on with the retry. `send` ends where the row of the message is written, and `end_send`
-- has that write. The deletion of a row is part of the step that it stands in. `stop` is taking from
-- the queue while it has an entry, and then `closed`. Delays are in milliseconds, and log lines are
-- left out.
pub mod Steps
pub mod Lanes
pub mod Order
pub mod Balance
pub mod Rows
pub mod Durable
use agent_life_space.Prelude.{
  ℕ, ◌+◌, ◌-◌, ◌*◌, ◌^◌, min, max, String, Bool, true, false, Option, none, some, List, [], ◌∷◌,
  ◌++◌, elem, Dict, insert, erase, bump, map, filter, not, ltb, ◌==◌, if◌then◌else◌,
}
use agent_life_space.Prelude.Text.{concat, show_nat}
use agent_life_space.Routing.Message.{
  Message, ModuleId, module_value, priority_value, is_expired, pending,
}
use agent_life_space.Routing.DeadLetters.{DeadLetterQueue, add}
use agent_life_space.Routing.Queue.{Entry, get}
use agent_life_space.Routing.Persistence.{
  PendingRow, MessagePersistence, store, remove, load_pending, close,
}

pub record MessageRouter (F : Type 0) : Type 0 where
  pub handlers : List String
  pub queue : List (Entry F)
  pub seq : ℕ
  pub dead_letters : DeadLetterQueue F
  -- The seconds, as the reason of a retry shows them.
  pub delivery_timeout : String
  pub retry_base_delay : ℕ
  pub retry_max_delay : ℕ
  pub metrics : Dict ℕ
  pub last_activity : Dict ℕ
  pub persistence : MessagePersistence F

-- What a handler does: it returns a message or None, takes too long, or raises.
pub data Outcome (F : Type 0) : Type 0 where
  responded : Option (Message F) → Outcome F
  timed_out : Outcome F
  raised : String → Outcome F

module _ {F : Type 0} where
  -- A new router: the table is opened by `init`.
  unfoldable pub new_router : String → ℕ → ℕ → MessageRouter F
  new_router delivery_timeout retry_base_delay retry_max_delay = record {
    handlers = [];
    queue = [];
    seq = 0;
    dead_letters = record { entries = []; max_size = 10000 };
    delivery_timeout = delivery_timeout;
    retry_base_delay = retry_base_delay;
    retry_max_delay = retry_max_delay;
    metrics = [];
    last_activity = [];
    persistence = record { db = none };
  }

  unfoldable pub register_handler : ModuleId → ℕ → MessageRouter F → MessageRouter F
  unfolding module_value elem insert
  register_handler id now r =
      let name = module_value id in
      record r {
        handlers = if elem name r.handlers then r.handlers else r.handlers ++ name ∷ [];
        last_activity = insert name now r.last_activity;
      }

  unfoldable pub unregister_handler : ModuleId → MessageRouter F → MessageRouter F
  unfolding module_value erase
  unregister_handler id r =
      let name = module_value id in
      record r {
        handlers = filter (λ s. not (s == name)) r.handlers;
        last_activity = erase name r.last_activity;
      }

  -- The greatest sequence number, plus one, of a list that has entries.
  unfoldable pub seq_after : List (Entry F) → ℕ
  seq_after [] = 1
  seq_after (e ∷ es) = max (e.seq + 1) (seq_after es)

  -- `init` with the rows that the file has.
  unfoldable pub init : Dict (PendingRow F) → ℕ → MessageRouter F → MessageRouter F
  unfolding load_pending seq_after
  init rows now r =
      let opened = record r { persistence = record { db = some rows } } in
      elim (load_pending now opened.persistence) [
        | [] ↦ opened
        | e ∷ es ↦ record opened { queue = r.queue ++ e ∷ es; seq = seq_after (e ∷ es) }
      ]

  abbrev count : String → MessageRouter F → MessageRouter F
  unfolding bump
  count name r = record r { metrics = bump name r.metrics }

  -- A message to the dead letters, with a reason and a metric.
  abbrev bury : Message F → String → String → MessageRouter F → MessageRouter F
  unfolding add bump
  bury m reason name r = count name (record r { dead_letters = add m reason r.dead_letters })

  -- `send` up to the write of the row: the entry that it put in the queue.
  unfoldable pub send : Message F → ℕ → MessageRouter F → MessageRouter F × Option (Entry F)
  unfolding is_expired elem module_value add bump priority_value concat
  send m now r =
      if is_expired now m
      then (bury m "expired_before_send" "expired" r, none)
      else if not (elem (module_value m.target) r.handlers)
      then (bury m (concat ("no_handler_for_" ∷ module_value m.target ∷ [])) "no_handler" r, none)
      else let e : Entry F = record {
        priority = priority_value m.priority;
        seq = r.seq + 1;
        message = m;
      } in
        (record r { seq = r.seq + 1; queue = r.queue ++ e ∷ [] }, some e)

  -- The rest of `send`: other tasks may have run since, and the entry may be out of the queue.
  unfoldable pub end_send : Entry F → ℕ → MessageRouter F → MessageRouter F
  unfolding store bump
  end_send e wall r =
      count "enqueued" (record r { persistence = store e.message.id e wall r.persistence })

  -- `_deliver` up to the call of the handler: the message that goes to it.
  unfoldable pub begin_delivery : Message F → MessageRouter F → MessageRouter F × Option (Message F)
  unfolding elem module_value add bump
  begin_delivery m r =
      if elem (module_value m.target) r.handlers
      then (r, some m)
      else (bury m "handler_disappeared" "delivery_failed" r, none)

  -- One round of the loop of `start`: nothing to take is the timeout of the wait.
  unfoldable pub take_found :
      Option (Entry F × List (Entry F)) → ℕ → MessageRouter F → MessageRouter F × Option (Message F)
  unfolding is_expired begin_delivery add bump
  take_found none now r = (r, none)
  take_found (some (e, rest)) now r =
      let r' = record r { queue = rest } in
      if is_expired now e.message
      then (bury e.message "expired_in_queue" "expired" r', none)
      else begin_delivery e.message r'

  unfoldable pub take : ℕ → MessageRouter F → MessageRouter F × Option (Message F)
  unfolding get take_found
  take now r = take_found (get r.queue) now r

  -- One round of the loop of `stop`.
  unfoldable pub drain_found :
      Option (Entry F × List (Entry F)) → ℕ → MessageRouter F → MessageRouter F × Option (Message F)
  unfolding is_expired begin_delivery
  drain_found none now r = (r, none)
  drain_found (some (e, rest)) now r =
      let r' = record r { queue = rest } in
      if is_expired now e.message then (r', none) else begin_delivery e.message r'

  unfoldable pub take_draining : ℕ → MessageRouter F → MessageRouter F × Option (Message F)
  unfolding get drain_found
  take_draining now r = drain_found (get r.queue) now r

  unfoldable pub closed : MessageRouter F → MessageRouter F
  unfolding close
  closed r = record r { persistence = close r.persistence }

  -- How long `_maybe_retry` sleeps.
  unfoldable pub backoff : Message F → MessageRouter F → ℕ
  backoff m r = min (r.retry_base_delay * 2 ^ m.retry_count) r.retry_max_delay

  -- `_maybe_retry`: the message that is sent after the sleep.
  unfoldable pub maybe_retry :
      Message F → String → MessageRouter F → MessageRouter F × Option (Message F)
  unfolding add concat show_nat
  maybe_retry m reason r =
      if ltb m.retry_count m.max_retries
      then (r, some (record m { retry_count = m.retry_count + 1; status = pending }))
      else let text = concat (reason ∷ " (after " ∷ show_nat m.max_retries ∷ " retries)" ∷ []) in
        (record r { dead_letters = add m text r.dead_letters }, none)

  -- What `_deliver` notes when the handler returned.
  unfoldable pub note_delivered : Message F → ℕ → MessageRouter F → MessageRouter F
  unfolding insert module_value remove bump
  note_delivered m now r = record r {
    metrics = bump "delivered" r.metrics;
    last_activity = insert (module_value m.target) now r.last_activity;
    persistence = remove m.id r.persistence;
  }

  -- `_deliver` from the outcome of the handler: the message to send after a sleep, and the entry of a
  -- response whose row is to be written.
  unfoldable pub finish :
      Message F
      → Outcome F
      → ℕ
      → MessageRouter F
      → MessageRouter F × Option (Message F) × Option (Entry F)
  unfolding note_delivered send maybe_retry bump concat
  finish m (responded none) now r = (note_delivered m now r, none, none)
  finish m (responded (some a)) now r =
      let (r', e) = send a now (note_delivered m now r) in (r', none, e)
  finish m timed_out now r =
      let (r', again) =
        maybe_retry m (concat ("delivery_timeout_after_" ∷ r.delivery_timeout ∷ "s" ∷ []))
          (count "delivery_timeout" r) in
      (r', again, none)
  finish m (raised e) now r =
      let (r', again) = maybe_retry m (concat ("error: " ∷ e ∷ [])) (count "delivery_error" r) in
      (r', again, none)

  -- The seconds since the last activity.
  unfoldable pub get_last_activity : ℕ → MessageRouter F → Dict ℕ
  get_last_activity now r = map (λ p. (p.0, now - p.1)) r.last_activity
