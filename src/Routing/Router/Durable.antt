-- ===== src/Routing/Router/Durable.antt =====
-- agent/core/router.py: the rows of the messages that are not delivered yet.
use agent_life_space.Prelude.{
  ℕ, ◌+◌, String, Bool, true, false, Option, none, some, List, [], ◌∷◌, ◌++◌, ◌≡◌, if_cases, ltb,
  elem, not, All, All-append, All-implies, arith,
}
use agent_life_space.Prelude.Waiting.{take_out, FoundAll, take_out-All}
use agent_life_space.Routing.Message.{Message, module_value, priority_value, is_expired}
use agent_life_space.Routing.Queue.{Entry, get}
use agent_life_space.Routing.Queue.Lanes.{get-FoundAll}
use agent_life_space.Routing.Persistence.{store_row, store, remove_row, remove}
use agent_life_space.Routing.Router.{
  end_send, MessageRouter, Outcome, responded, timed_out, raised, register_handler,
  unregister_handler, send, begin_delivery, take_found, drain_found, take, take_draining,
  maybe_retry, note_delivered, finish,
}
use agent_life_space.Routing.Router.Rows.{
  is_open, Safe, SafeEntry, Grows, remove_row-Grows, same_table, known, known-Grows, known-new,
  Splits, take_out-Splits, written-Grows,
}
use agent_life_space.Routing.Router.Steps.{
  Working, Step, register_step, unregister_step, send_step, store_step, take_step, drain_step,
  finish_step, wake_step, close_step, with_option, with_entry, taken, sent, stored, finished,
  sent_again, step, run,
}

module _ {F : Type 0} where
  -- The ids of what was delivered, and of what has its row being written.
  abbrev pub known_to : Working F → List String
  known_to w = known w.delivered_ids w.storing

  -- The table is open, and every message in the queue, at a handler or before a retry has a row under
  -- its id, unless the write of such a row has not ended yet or a message of that id was delivered.
  abbrev pub IsDurable : Working F → Type 0
  IsDurable w =
      let t = w.router.persistence.db in
      (is_open t ≡ true)
      × All (SafeEntry (known_to w) t) w.router.queue
      × All (Safe (known_to w) t) w.delivering
      × All (Safe (known_to w) t) w.resting

  abbrev pub is_close : Step F → Bool
  is_close close_step = true
  is_close _ = false

  -- The router keeps what is covered, and its queue stays safe.
  abbrev Carries : List String → MessageRouter F → List String → MessageRouter F → Type 0
  Carries ids r ids' r' =
      Grows ids r.persistence.db ids' r'.persistence.db
      × (is_open r.persistence.db ≡ true
          → All (SafeEntry ids r.persistence.db) r.queue
          → All (SafeEntry ids' r'.persistence.db) r'.queue)

  send-Carries :
      (ids : List String) (es : List (Entry F)) (m : Message F) (now : ℕ) (r : MessageRouter F)
      → let q = send m now r in Carries (known ids es) r (known ids (with_entry q.1 es)) q.0
  unfolding send
  send-Carries ids es m now r =
      let t = r.persistence.db in
      let e : Entry F = record {
        priority = priority_value m.priority;
        seq = r.seq + 1;
        message = m;
      } in
      let grows = known-Grows ids es e t in
      let Does = λ (q : MessageRouter F × Option (Entry F)).
        Carries (known ids es) r (known ids (with_entry q.1 es)) q.0 in
      if_cases Does (is_expired now m) _ _ (λ late. (same_table (known ids es) t, λ o h. h))
        (λ in_time.
          if_cases Does (not (elem (module_value m.target) r.handlers)) _ _
            (λ gone. (same_table (known ids es) t, λ o h. h))
            (λ there. (
              grows,
              λ o h.
                  All-append (SafeEntry (known ids (es ++ e ∷ [])) t) r.queue (e ∷ [])
                    (All-implies (SafeEntry (known ids es) t)
                      (SafeEntry (known ids (es ++ e ∷ [])) t) (λ x. grows.1 x.message.id) r.queue
                      h)
                    (ground (arith, known-new ids es e), tt),
            )))

  end_send-Carries :
      (ids : List String) (es rest : List (Entry F)) (e : Entry F) (wall : ℕ) (r : MessageRouter F)
      → Splits es (some (e, rest))
      → is_open r.persistence.db ≡ true
      → Carries (known ids es) r (known ids rest) (end_send e wall r)
  unfolding end_send store
  end_send-Carries ids es rest e wall r split open_ =
      let t = r.persistence.db in
      let grows = written-Grows ids es rest e wall t split open_ in
      (
        grows,
        λ o h.
            All-implies (SafeEntry (known ids es) t)
              (SafeEntry (known ids rest) (store_row e.message.id e wall t))
              (λ x. grows.1 x.message.id) r.queue h,
      )

  note_delivered-Carries :
      (ids : List String) (m : Message F) (now : ℕ) (r : MessageRouter F)
      → Carries ids r (m.id ∷ ids) (note_delivered m now r)
  unfolding note_delivered remove
  note_delivered-Carries ids m now r =
      let t = r.persistence.db in
      let grows = remove_row-Grows ids m.id t in
      (
        grows,
        λ o h.
            All-implies (SafeEntry ids t) (SafeEntry (m.id ∷ ids) (remove_row m.id t))
              (λ x. grows.1 x.message.id) r.queue h,
      )

  -- What the router carries is durable with the messages that wait outside of it.
  Carries-IsDurable :
      (r : MessageRouter F) (ids : List String) (es : List (Entry F)) (w : Working F)
      → Carries (known_to w) w.router (known ids es) r
      → IsDurable w
      → IsDurable (record w { router = r; delivered_ids = ids; storing = es })
  Carries-IsDurable r ids es w c d =
      let before = Safe (known_to w) w.router.persistence.db in
      let after = Safe (known ids es) r.persistence.db in
      (
        c.0.0 d.0,
        c.1 d.0 d.1,
        All-implies before after (λ m. c.0.1 m.id) w.delivering d.2,
        All-implies before after (λ m. c.0.1 m.id) w.resting d.3,
      )

  -- After a round of a loop.
  abbrev Rounds : Working F → MessageRouter F × Option (Message F) → Type 0
  Rounds w q = IsDurable (taken q w)

  begin-Rounds :
      (m : Message F) (w : Working F)
      → IsDurable w
      → Safe (known_to w) w.router.persistence.db m
      → Rounds w (begin_delivery m w.router)
  unfolding begin_delivery taken
  begin-Rounds m w d safe =
      if_cases (Rounds w) (elem (module_value m.target) w.router.handlers) _ _
        (λ there. (
          d.0,
          d.1,
          All-append (Safe (known_to w) w.router.persistence.db) w.delivering (m ∷ []) d.2
              (safe, tt),
          d.3,
        ))
        (λ gone. d)

  abbrev SafeRest : Working F → Option (Entry F × List (Entry F)) → Type 0
  SafeRest w o = FoundAll (SafeEntry (known_to w) w.router.persistence.db) o

  take_found-Rounds :
      (o : Option (Entry F × List (Entry F))) (now : ℕ) (w : Working F)
      → IsDurable w
      → SafeRest w o
      → Rounds w (take_found o now w.router)
  unfolding take_found taken
  take_found-Rounds none now w d f = d
  take_found-Rounds (some (e, rest)) now w d f =
      let popped : Working F = record w { router = record w.router { queue = rest } } in
      if_cases (Rounds w) (is_expired now e.message) _ _ (λ late. (d.0, f.1, d.2, d.3))
        (λ in_time. begin-Rounds e.message popped (d.0, f.1, d.2, d.3) f.0)

  drain_found-Rounds :
      (o : Option (Entry F × List (Entry F))) (now : ℕ) (w : Working F)
      → IsDurable w
      → SafeRest w o
      → Rounds w (drain_found o now w.router)
  unfolding drain_found taken
  drain_found-Rounds none now w d f = d
  drain_found-Rounds (some (e, rest)) now w d f =
      let popped : Working F = record w { router = record w.router { queue = rest } } in
      if_cases (Rounds w) (is_expired now e.message) _ _ (λ late. (d.0, f.1, d.2, d.3))
        (λ in_time. begin-Rounds e.message popped (d.0, f.1, d.2, d.3) f.0)

  -- After a failed delivery of `m`.
  abbrev Retries : Working F → MessageRouter F × Option (Message F) → Type 0
  Retries w q = IsDurable (record w { router = q.0; resting = with_option q.1 w.resting })

  maybe_retry-Retries :
      (m : Message F) (reason : String) (w : Working F)
      → IsDurable w
      → Safe (known_to w) w.router.persistence.db m
      → Retries w (maybe_retry m reason w.router)
  unfolding maybe_retry
  maybe_retry-Retries m reason w d safe =
      if_cases (Retries w) (ltb m.retry_count m.max_retries) _ _
        (λ again. (
          d.0,
          d.1,
          d.2,
          All-append (Safe (known_to w) w.router.persistence.db) w.resting _ d.3 (safe, tt),
        ))
        (λ enough. d)

  Carries-twice :
      (ids : List String) (r : MessageRouter F) (ids' : List String) (r' : MessageRouter F)
      (ids'' : List String) (r'' : MessageRouter F)
      → Carries ids r ids' r'
      → Carries ids' r' ids'' r''
      → Carries ids r ids'' r''
  Carries-twice ids r ids' r' ids'' r'' c k =
      ((λ o. k.0.0 (c.0.0 o), λ id h. k.0.1 id (c.0.1 id h)), λ o h. k.1 (c.0.0 o) (c.1 o h))

  finished-IsDurable :
      (outcome : Outcome F) (now : ℕ) (o : Option (Message F × List (Message F))) (w : Working F)
      → IsDurable w
      → FoundAll (Safe (known_to w) w.router.persistence.db) o
      → IsDurable (finished outcome now o w)
  unfolding finished finish
  finished-IsDurable outcome now none w d f = d
  finished-IsDurable (responded none) now (some (m, others)) w d f =
      Carries-IsDurable (note_delivered m now w.router) (m.id ∷ w.delivered_ids) w.storing
        (record w { delivering = others }) (note_delivered-Carries (known_to w) m now w.router)
        (d.0, d.1, f.1, d.3)
  finished-IsDurable (responded (some a)) now (some (m, others)) w d f =
      let noted = note_delivered m now w.router in
      let ids = m.id ∷ w.delivered_ids in
      let (r, e) = send a now noted in
      Carries-IsDurable r ids (with_entry e w.storing) (record w { delivering = others })
        (Carries-twice (known_to w) w.router (known ids w.storing) noted
          (known ids (with_entry e w.storing)) r
          (note_delivered-Carries (known_to w) m now w.router)
          (send-Carries ids w.storing a now noted))
        (d.0, d.1, f.1, d.3)
  finished-IsDurable timed_out now (some (m, others)) w d f =
      maybe_retry-Retries m _
        (record w { delivering = others; router = record w.router { metrics = _ } })
        (d.0, d.1, f.1, d.3) f.0
  finished-IsDurable (raised e) now (some (m, others)) w d f =
      maybe_retry-Retries m _
        (record w { delivering = others; router = record w.router { metrics = _ } })
        (d.0, d.1, f.1, d.3) f.0

  sent-IsDurable :
      (m : Message F) (now : ℕ) (w : Working F)
      → IsDurable w
      → IsDurable (sent (send m now w.router) w)
  unfolding sent
  sent-IsDurable m now w d =
      let (r, e) = send m now w.router in
      Carries-IsDurable r w.delivered_ids (with_entry e w.storing) w
        (send-Carries w.delivered_ids w.storing m now w.router) d

  sent_again-IsDurable :
      (now : ℕ) (o : Option (Message F × List (Message F))) (w : Working F)
      → IsDurable w
      → FoundAll (Safe (known_to w) w.router.persistence.db) o
      → IsDurable (sent_again now o w)
  unfolding sent_again
  sent_again-IsDurable now none w d f = d
  sent_again-IsDurable now (some (m, others)) w d f =
      sent-IsDurable m now (record w { resting = others }) (d.0, d.1, d.2, f.1)

  stored-IsDurable :
      (wall : ℕ) (o : Option (Entry F × List (Entry F))) (w : Working F)
      → IsDurable w
      → Splits w.storing o
      → IsDurable (stored wall o w)
  unfolding stored
  stored-IsDurable wall none w d f = d
  stored-IsDurable wall (some (e, rest)) w d f =
      Carries-IsDurable (end_send e wall w.router) w.delivered_ids rest w
        (end_send-Carries w.delivered_ids w.storing rest e wall w.router f d.0) d

  step-IsDurable :
      (s : Step F) (w : Working F) → is_close s ≡ false → IsDurable w → IsDurable (step s w)
  unfolding step register_handler unregister_handler take take_draining
  step-IsDurable (register_step id now) w n d = d
  step-IsDurable (unregister_step id) w n d = d
  step-IsDurable (send_step m now) w n d = sent-IsDurable m now w d
  step-IsDurable (store_step i wall) w n d =
      stored-IsDurable wall (take_out i w.storing) w d (take_out-Splits i w.storing)
  step-IsDurable (take_step now) w n d =
      let es = w.router.queue in
      take_found-Rounds (get es) now w d
        (get-FoundAll (SafeEntry (known_to w) w.router.persistence.db) es d.1)
  step-IsDurable (drain_step now) w n d =
      let es = w.router.queue in
      drain_found-Rounds (get es) now w d
        (get-FoundAll (SafeEntry (known_to w) w.router.persistence.db) es d.1)
  step-IsDurable (finish_step i outcome now) w n d =
      finished-IsDurable outcome now (take_out i w.delivering) w d
        (take_out-All (Safe (known_to w) w.router.persistence.db) i w.delivering d.2)
  step-IsDurable (wake_step i now) w n d =
      sent_again-IsDurable now (take_out i w.resting) w d
        (take_out-All (Safe (known_to w) w.router.persistence.db) i w.resting d.3)
  step-IsDurable close_step w n d = ground (arith, n)

  -- In a run with the table open, with sends, writes of rows, takes, outcomes, retries and draining
  -- in any order, every message that is in the queue, at a handler or waits for its retry has a row
  -- under its id in the table pending_messages between any two steps, unless `send` has put a message
  -- of this id in the queue and its write of the row has not ended, or a message of this id was
  -- delivered, where it was so at the start.
  pub run-IsDurable :
      (ss : List (Step F)) (w : Working F)
      → All (λ s. is_close s ≡ false) ss
      → IsDurable w
      → IsDurable (run ss w)
  unfolding run
  run-IsDurable [] w n d = d
  run-IsDurable (s ∷ ss) w n d = run-IsDurable ss (step s w) n.1 (step-IsDurable s w n.0 d)
