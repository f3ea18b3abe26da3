-- ===== src/Routing/Router/Balance.antt =====
-- agent/core/router.py: the metrics of the router against the calls of `send`.
use agent_life_space.Prelude.{
  ℕ, ◌+◌, String, Bool, true, false, Option, none, some, List, [], ◌∷◌, ◌≡◌, refl, if_cases, ltb,
  if◌then◌else◌, elem, not, length, length-append, All, Dict, lookup, lookup-insert, or_zero, bump,
  ◌==◌, eq_of_==, arith, ◌∙◌,
}
use agent_life_space.Prelude.Waiting.{take_out, Shorter, take_out-Shorter}
use agent_life_space.Routing.Message.{Message, module_value, priority_value, is_expired}
use agent_life_space.Routing.Queue.{Entry, precedes, take_least, get}
use agent_life_space.Routing.Router.{
  end_send, MessageRouter, Outcome, responded, timed_out, raised, register_handler,
  unregister_handler, send, begin_delivery, take_found, take, closed, maybe_retry, note_delivered,
  finish,
}
use agent_life_space.Routing.Router.Steps.{
  Working, Step, register_step, unregister_step, send_step, store_step, take_step, drain_step,
  finish_step, wake_step, close_step, with_option, sends_of, taken, sent, stored, finished,
  sent_again, step, run,
}

abbrev metric : String → Dict ℕ → ℕ
metric name d = or_zero (lookup name d)

-- The sum of some metrics.
abbrev tally : List String → Dict ℕ → ℕ
tally [] d = 0
tally (k ∷ ks) d = metric k d + tally ks d

abbrev occurrences : String → List String → ℕ
occurrences name [] = 0
occurrences name (k ∷ ks) = (if name == k then 1 else 0) + occurrences name ks

tally-bump :
    (name : String) (ks : List String) (d : Dict ℕ)
    → tally ks (bump name d) ≡ tally ks d + occurrences name ks
unfolding bump
tally-bump name [] d = omega arith
tally-bump name (k ∷ ks) d =
    ground
      (arith, tally-bump name ks d, lookup-insert name k (metric name d + 1) d, eq_of_== name k)

-- The metrics that one way out of the router each has.
abbrev pub ways_out : List String
ways_out =
    "delivered" ∷ "delivery_timeout" ∷ "delivery_error" ∷ "delivery_failed" ∷ "expired"
    ∷ "no_handler" ∷ []

abbrev pub settled : Dict ℕ → ℕ
settled d = tally ways_out d

module _ {F : Type 0} where
  -- What is in the queue, and what the metrics say to be out of it.
  abbrev held : MessageRouter F → ℕ
  held r = length r.queue + settled r.metrics

  abbrev pub is_drain : Step F → Bool
  is_drain (drain_step now) = true
  is_drain _ = false

  -- Every call of `send` is in the queue, with a handler, or in one of the metrics.
  abbrev pub IsBalanced : Working F → Type 0
  IsBalanced w = length w.router.queue + length w.delivering + settled w.router.metrics ≡ w.sends

  take_least-length : (e : Entry F) (xs : List (Entry F)) → length (take_least e xs).1 ≡ length xs
  unfolding take_least
  take_least-length e [] = refl
  take_least-length e (x ∷ xs) =
      if_cases (λ (q : Entry F × List (Entry F)). length q.1 ≡ length (x ∷ xs))
        (precedes (take_least x xs).0 e) _ _ (λ sooner. omega (arith, take_least-length x xs))
        (λ later. refl)

  get-Shorter : (es : List (Entry F)) → Shorter es (get es)
  unfolding get
  get-Shorter [] = tt
  get-Shorter (e ∷ es) = omega (arith, take_least-length e es)

  send-held : (m : Message F) (now : ℕ) (r : MessageRouter F) → held (send m now r).0 ≡ held r + 1
  unfolding send ◌==◌
  send-held m now r =
      let OneMore = λ (q : MessageRouter F × Option (Entry F)). held q.0 ≡ held r + 1 in
      if_cases OneMore (is_expired now m) _ _
        (λ late. omega (arith, tally-bump "expired" ways_out r.metrics))
        (λ in_time.
          if_cases OneMore (not (elem (module_value m.target) r.handlers)) _ _
            (λ gone. omega (arith, tally-bump "no_handler" ways_out r.metrics))
            (λ there. omega (
              arith,
              length-append r.queue (
                  record { priority = priority_value m.priority; seq = r.seq + 1; message = m }
                  ∷ []),
            )))

  stored-IsBalanced :
      (wall : ℕ) (o : Option (Entry F × List (Entry F))) (w : Working F)
      → IsBalanced w
      → IsBalanced (stored wall o w)
  unfolding stored end_send ◌==◌
  stored-IsBalanced wall none w b = b
  stored-IsBalanced wall (some (e, others)) w b =
      omega (arith, b, tally-bump "enqueued" ways_out w.router.metrics)

  -- What a round of the loop leaves, with what it gives to a handler.
  abbrev Moves : MessageRouter F → MessageRouter F × Option (Message F) → Type 0
  Moves r q = (ds : List (Message F)) → held q.0 + length (with_option q.1 ds) ≡ held r + length ds

  begin-Moves :
      (m : Message F) (r : MessageRouter F) (ds : List (Message F))
      → held (begin_delivery m r).0 + length (with_option (begin_delivery m r).1 ds)
        ≡ held r + length ds + 1
  unfolding begin_delivery ◌==◌
  begin-Moves m r ds =
      if_cases {A = MessageRouter F × Option (Message F)}
        (λ q. held q.0 + length (with_option q.1 ds) ≡ held r + length ds + 1)
        (elem (module_value m.target) r.handlers) _ _
        (λ there. omega (arith, length-append ds (m ∷ [])))
        (λ gone. omega (arith, tally-bump "delivery_failed" ways_out r.metrics))

  take_found-Moves :
      (o : Option (Entry F × List (Entry F))) (now : ℕ) (r : MessageRouter F)
      → Shorter r.queue o
      → Moves r (take_found o now r)
  unfolding take_found ◌==◌
  take_found-Moves none now r h ds = refl
  take_found-Moves (some (e, rest)) now r h ds =
      if_cases {A = MessageRouter F × Option (Message F)}
        (λ q. held q.0 + length (with_option q.1 ds) ≡ held r + length ds)
        (is_expired now e.message) _ _
        (λ late. omega (arith, h, tally-bump "expired" ways_out r.metrics))
        (λ in_time. omega (arith, h, begin-Moves e.message (record r { queue = rest }) ds))

  maybe_retry-held :
      (m : Message F) (reason : String) (r : MessageRouter F)
      → held (maybe_retry m reason r).0 ≡ held r
  unfolding maybe_retry
  maybe_retry-held m reason r =
      if_cases {A = MessageRouter F × Option (Message F)} (λ q. held q.0 ≡ held r)
        (ltb m.retry_count m.max_retries) _ _ (λ again. refl) (λ enough. refl)

  finish-held :
      (m : Message F) (outcome : Outcome F) (now : ℕ) (r : MessageRouter F)
      → held (finish m outcome now r).0 ≡ held r + 1 + sends_of outcome
  unfolding finish note_delivered ◌==◌
  finish-held m (responded none) now r = omega (arith, tally-bump "delivered" ways_out r.metrics)
  finish-held m (responded (some a)) now r =
      omega
        (arith, send-held a now (note_delivered m now r), tally-bump "delivered" ways_out r.metrics)
  finish-held m timed_out now r =
      maybe_retry-held m _ (record r { metrics = bump "delivery_timeout" r.metrics })
      ∙ omega (arith, tally-bump "delivery_timeout" ways_out r.metrics)
  finish-held m (raised e) now r =
      maybe_retry-held m _ (record r { metrics = bump "delivery_error" r.metrics })
      ∙ omega (arith, tally-bump "delivery_error" ways_out r.metrics)

  finished-IsBalanced :
      (outcome : Outcome F) (now : ℕ) (o : Option (Message F × List (Message F))) (w : Working F)
      → Shorter w.delivering o
      → IsBalanced w
      → IsBalanced (finished outcome now o w)
  unfolding finished
  finished-IsBalanced outcome now none w h b = b
  finished-IsBalanced outcome now (some (m, others)) w h b =
      omega (arith, h, b, finish-held m outcome now w.router)

  sent_again-IsBalanced :
      (now : ℕ) (o : Option (Message F × List (Message F))) (w : Working F)
      → IsBalanced w
      → IsBalanced (sent_again now o w)
  unfolding sent_again sent
  sent_again-IsBalanced now none w b = b
  sent_again-IsBalanced now (some (m, others)) w b = omega (arith, b, send-held m now w.router)

  step-IsBalanced :
      (s : Step F) (w : Working F) → is_drain s ≡ false → IsBalanced w → IsBalanced (step s w)
  unfolding step register_handler unregister_handler closed take taken sent
  step-IsBalanced (register_step id now) w n b = b
  step-IsBalanced (unregister_step id) w n b = b
  step-IsBalanced (send_step m now) w n b = omega (arith, b, send-held m now w.router)
  step-IsBalanced (store_step i wall) w n b = stored-IsBalanced wall (take_out i w.storing) w b
  step-IsBalanced (take_step now) w n b =
      let es = w.router.queue in
      omega (arith, b, take_found-Moves (get es) now w.router (get-Shorter es) w.delivering)
  step-IsBalanced (drain_step now) w n b = ground (arith, n)
  step-IsBalanced (finish_step i outcome now) w n b =
      finished-IsBalanced outcome now (take_out i w.delivering) w (take_out-Shorter i w.delivering)
        b
  step-IsBalanced (wake_step i now) w n b = sent_again-IsBalanced now (take_out i w.resting) w b
  step-IsBalanced close_step w n b = b

  -- In a run of the routing loop without draining, with sends, writes of rows, outcomes and retries
  -- in any order, every call of `send`, also of a response and of a retry, is at every moment exactly
  -- one of: a message in the queue, a message at a handler, or one count of the metrics delivered,
  -- delivery_timeout, delivery_error, delivery_failed, expired and no_handler, where it was so at the
  -- start.
  pub run-IsBalanced :
      (ss : List (Step F)) (w : Working F)
      → All (λ s. is_drain s ≡ false) ss
      → IsBalanced w
      → IsBalanced (run ss w)
  unfolding run
  run-IsBalanced [] w n b = b
  run-IsBalanced (s ∷ ss) w n b = run-IsBalanced ss (step s w) n.1 (step-IsBalanced s w n.0 b)
