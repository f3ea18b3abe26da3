-- ===== src/Routing/Router/Order.antt =====
-- agent/core/router.py: the steps of the router are those that the lanes allow.
use agent_life_space.Prelude.{
  ℕ, ◌+◌, ◌<◌, ltb, String, Bool, true, false, Option, none, some, List, [], ◌∷◌, ◌++◌, ◌≡◌, refl,
  sym, subst, inl, inr, if_cases, Bool-cases, if◌then◌else◌, elem, All, All-append, All-implies,
  arith,
}
use agent_life_space.Prelude.Waiting.{take_out}
use agent_life_space.Routing.Message.{pending, Message, module_value, is_expired}
use agent_life_space.Routing.Queue.{Entry, get}
use agent_life_space.Routing.Queue.Lanes.{
  same, IsOrdered, Takes, Gets, get-Gets, Remains, get-Remains, lane-append, IsOrdered-append,
}
use agent_life_space.Routing.Router.{
  end_send, MessageRouter, Outcome, responded, timed_out, raised, register_handler,
  unregister_handler, send, begin_delivery, take_found, take, drain_found, take_draining, closed,
  maybe_retry, note_delivered, finish,
}
use agent_life_space.Routing.Router.Lanes.{
  rank, admits, Fits, IsQueue, Kept, Sent, First, Taken, Finished, Woken, Allowed, AllAllowed,
}
use agent_life_space.Routing.Router.Steps.{
  Working, Step, register_step, unregister_step, send_step, store_step, take_step, drain_step,
  finish_step, wake_step, close_step, with_option, taken, sent, stored, finished, sent_again, step,
}

module _ {F : Type 0} where
  abbrev Holds : MessageRouter F → Type 0
  Holds r = IsQueue r.queue r.seq

  weaker : (n : ℕ) (es : List (Entry F)) → All (Fits n) es → All (Fits (n + 1)) es
  weaker n es h = All-implies (Fits n) (Fits (n + 1)) (λ e f. (f.0, omega (arith, f.1))) es h

  below : (n : ℕ) (es : List (Entry F)) → All (Fits n) es → All (λ x. x.seq < n + 1) es
  below n es h = All-implies (Fits n) (λ x. x.seq < n + 1) (λ e f. omega (arith, f.1)) es h

  send-SendsTo :
      (m : Message F) (now : ℕ) (r : MessageRouter F)
      → Holds r
      → Holds (send m now r).0 × Sent m now r (send m now r).0
  unfolding send
  send-SendsTo m now r h =
      let e : Entry F = record { priority = rank m; seq = r.seq + 1; message = m } in
      elim (Bool-cases (is_expired now m)) [
        | inl late ↦ rw late (h, λ p. refl)
        | inr in_time ↦ elim (Bool-cases (elem (module_value m.target) r.handlers)) [
          | inl there ↦ rw in_time (
              rw there (
                (
                  IsOrdered-append e r.queue (below r.seq r.queue h.1) h.0,
                  All-append (Fits (r.seq + 1)) r.queue (e ∷ []) (weaker r.seq r.queue h.1)
                      ((refl, omega arith), tt),
                ),
                λ p. lane-append p e r.queue,
              ))
          | inr gone ↦ rw in_time (rw gone (h, λ p. refl))
        ]
      ]

  -- What a round of a loop does with what the queue gave.
  abbrev Took :
      ℕ
      → MessageRouter F
      → Option (Entry F × List (Entry F))
      → MessageRouter F × Option (Message F)
      → Type 0
  Took now r none q = q ≡ (r, none)
  Took now r (some (e, rest)) q =
      (q.0.queue ≡ rest)
      × (q.0.seq ≡ r.seq)
      × (q.1 ≡ (if admits now e.message r then some e.message else none))

  begin-Took :
      (now : ℕ) (r : MessageRouter F) (e : Entry F) (rest : List (Entry F))
      → is_expired now e.message ≡ false
      → Took now r (some (e, rest)) (begin_delivery e.message (record r { queue = rest }))
  unfolding begin_delivery
  begin-Took now r e rest in_time =
      elim (Bool-cases (elem (module_value e.message.target) r.handlers)) [
        | inl there ↦ rw in_time (rw there (refl, refl, refl))
        | inr gone ↦ rw in_time (rw gone (refl, refl, refl))
      ]

  take_found-Took :
      (o : Option (Entry F × List (Entry F))) (now : ℕ) (r : MessageRouter F)
      → Took now r o (take_found o now r)
  unfolding take_found
  take_found-Took none now r = refl
  take_found-Took (some (e, rest)) now r =
      if_cases {A = MessageRouter F × Option (Message F)} (Took now r (some (e, rest)))
        (is_expired now e.message) _ _ (λ late. rw late (refl, refl, refl))
        (begin-Took now r e rest)

  drain_found-Took :
      (o : Option (Entry F × List (Entry F))) (now : ℕ) (r : MessageRouter F)
      → Took now r o (drain_found o now r)
  unfolding drain_found
  drain_found-Took none now r = refl
  drain_found-Took (some (e, rest)) now r =
      if_cases {A = MessageRouter F × Option (Message F)} (Took now r (some (e, rest)))
        (is_expired now e.message) _ _ (λ late. rw late (refl, refl, refl))
        (begin-Took now r e rest)

  given-delivering :
      (b : Bool) (m : Message F) (ms : List (Message F))
      → with_option (if b then some m else none) ms ≡ (if b then ms ++ m ∷ [] else ms)
  given-delivering true m ms = refl
  given-delivering false m ms = refl

  Takes-First :
      (e : Entry F) (r r' : MessageRouter F)
      → e.priority ≡ rank e.message
      → Takes e r.queue r'.queue
      → First e.message r r'
  Takes-First e r r' eq t = (
    λ p lt. t.none_before p (subst (λ n. p < n) (sym eq) lt),
    λ p is. t.head p (subst (λ n. same p n ≡ true) (sym eq) is),
    λ p no. t.others p (subst (λ n. same p n ≡ false) (sym eq) no),
  )

  Took-Taken :
      (now : ℕ) (w : Working F) (o : Option (Entry F × List (Entry F)))
      (q : MessageRouter F × Option (Message F))
      → Holds w.router
      → Gets w.router.queue o
      → Remains (Fits w.router.seq) o
      → Took now w.router o q
      → Holds q.0 × Taken now w (taken q w)
  unfolding taken
  Took-Taken now w none q h g k t =
      subst (λ q. Holds q.0 × Taken now w (taken q w)) (sym t) (h, inl (g, λ p. refl))
  Took-Taken now w (some (e, rest)) (r', given) h g k t = (
    (subst IsOrdered (sym t.0) k.2, rw (t.0) (rw (t.1) k.1)),
    inr (
      e.message,
      Takes-First e w.router r' k.0.0 (subst (Takes e w.router.queue) (sym t.0) g),
      rw (t.2) (given-delivering (admits now e.message w.router) e.message w.delivering),
    ),
  )

  abbrev retry_of : Message F → Option (Message F)
  retry_of m =
      if ltb m.retry_count m.max_retries
      then some (record m { retry_count = m.retry_count + 1; status = pending })
      else none

  -- After an outcome of the handler for `m`.
  abbrev Answered :
      Outcome F
      → Message F
      → ℕ
      → MessageRouter F
      → MessageRouter F × Option (Message F) × Option (Entry F)
      → Type 0
  Answered (responded none) m now r q = Holds q.0 × Kept r q.0 × (q.1 ≡ none)
  Answered (responded (some a)) m now r q = Holds q.0 × Sent a now r q.0 × (q.1 ≡ none)
  Answered _ m now r q = Holds q.0 × Kept r q.0 × (q.1 ≡ retry_of m)

  abbrev Retried : Message F → MessageRouter F → MessageRouter F × Option (Message F) → Type 0
  Retried m r q = Holds q.0 × Kept r q.0 × (q.1 ≡ retry_of m)

  maybe_retry-Retried :
      (m : Message F) (reason : String) (r : MessageRouter F)
      → Holds r
      → Retried m r (maybe_retry m reason r)
  unfolding maybe_retry
  maybe_retry-Retried m reason r h = elim (Bool-cases (ltb m.retry_count m.max_retries)) [
    | inl again ↦ rw again (h, λ p. refl, refl)
    | inr enough ↦ rw enough (h, λ p. refl, refl)
  ]

  finish-Answered :
      (m : Message F) (outcome : Outcome F) (now : ℕ) (r : MessageRouter F)
      → Holds r
      → Answered outcome m now r (finish m outcome now r)
  unfolding finish note_delivered
  finish-Answered m (responded none) now r h = (h, λ p. refl, refl)
  finish-Answered m (responded (some a)) now r h =
      let (holds, sent) = send-SendsTo a now (note_delivered m now r) h in (holds, sent, refl)
  finish-Answered m timed_out now r h = maybe_retry-Retried m _ _ h
  finish-Answered m (raised e) now r h = maybe_retry-Retried m _ _ h

  rests :
      (m : Message F) (o : Option (Message F)) (ms : List (Message F))
      → o ≡ retry_of m
      → with_option o ms ≡ (
          if ltb m.retry_count m.max_retries
          then ms ++ record m { retry_count = m.retry_count + 1; status = pending } ∷ []
          else ms)
  rests m o ms e = rw e (given-delivering (ltb m.retry_count m.max_retries) _ ms)

  none_given : (o : Option (Message F)) (ms : List (Message F)) → o ≡ none → with_option o ms ≡ ms
  none_given o ms e = rw e refl

  finished-Finished :
      (o : Option (Message F × List (Message F))) (outcome : Outcome F) (now : ℕ) (w : Working F)
      → Holds w.router
      → Holds (finished outcome now o w).router
        × Finished o outcome now w (finished outcome now o w)
  unfolding finished
  finished-Finished none outcome now w h = (h, (λ p. refl, refl))
  finished-Finished (some (m, others)) (responded none) now w h =
      let (holds, kept, given) = finish-Answered m (responded none) now w.router h in
      (holds, (kept, none_given _ w.resting given))
  finished-Finished (some (m, others)) (responded (some a)) now w h =
      let (holds, sent, given) = finish-Answered m (responded (some a)) now w.router h in
      (holds, (sent, none_given _ w.resting given))
  finished-Finished (some (m, others)) timed_out now w h =
      let (holds, kept, given) = finish-Answered m timed_out now w.router h in
      (holds, (kept, rests m _ w.resting given))
  finished-Finished (some (m, others)) (raised e) now w h =
      let (holds, kept, given) = finish-Answered m (raised e) now w.router h in
      (holds, (kept, rests m _ w.resting given))

  sent_again-Woken :
      (o : Option (Message F × List (Message F))) (now : ℕ) (w : Working F)
      → Holds w.router
      → Holds (sent_again now o w).router × Woken o now w (sent_again now o w)
  unfolding sent_again sent
  sent_again-Woken none now w h = (h, (λ p. refl, refl))
  sent_again-Woken (some (m, others)) now w h =
      let (holds, sends) = send-SendsTo m now w.router h in (holds, (sends, refl))

  stored-Kept :
      (wall : ℕ) (o : Option (Entry F × List (Entry F))) (w : Working F)
      → Holds w.router
      → Holds (stored wall o w).router × Kept w.router (stored wall o w).router
  unfolding stored end_send
  stored-Kept wall none w h = (h, λ p. refl)
  stored-Kept wall (some (e, others)) w h = (h, λ p. refl)

  step-Allowed :
      (s : Step F) (w : Working F)
      → Holds w.router
      → Holds (step s w).router × Allowed s w (step s w)
  unfolding step register_handler unregister_handler closed take take_draining sent
  step-Allowed (register_step id now) w h = (h, λ p. refl)
  step-Allowed (unregister_step id) w h = (h, λ p. refl)
  step-Allowed (send_step m now) w h = send-SendsTo m now w.router h
  step-Allowed (store_step n wall) w h = stored-Kept wall (take_out n w.storing) w h
  step-Allowed (take_step now) w h =
      let es = w.router.queue in
      Took-Taken now w (get es) (take_found (get es) now w.router) h (get-Gets es h.0)
        (get-Remains (Fits w.router.seq) es h.0 h.1) (take_found-Took (get es) now w.router)
  step-Allowed (drain_step now) w h =
      let es = w.router.queue in
      Took-Taken now w (get es) (drain_found (get es) now w.router) h (get-Gets es h.0)
        (get-Remains (Fits w.router.seq) es h.0 h.1) (drain_found-Took (get es) now w.router)
  step-Allowed (finish_step n outcome now) w h =
      finished-Finished (take_out n w.delivering) outcome now w h
  step-Allowed (wake_step n now) w h = sent_again-Woken (take_out n w.resting) now w h
  step-Allowed close_step w h = (h, λ p. refl)

  -- The queue of priorities and sequence numbers refines lanes of messages, one for a priority. In a
  -- run of sends, takes, outcomes, retries, writes of rows and draining in any order, from a queue in
  -- order: a send puts the message at the end of its lane where it has time left and its target has a
  -- handler, and changes no lane otherwise; a take gets the first message of the first lane that is
  -- not empty, which goes to its handler under the same condition; the response of a handler is a
  -- send of this response; a delivery that fails leaves its message, with one more retry counted, to
  -- be sent again where it has retries left, and the end of a sleep is a send of the message that
  -- waited; no other step changes a lane.
  pub run-AllAllowed :
      (ss : List (Step F)) (w : Working F) → IsQueue w.router.queue w.router.seq → AllAllowed ss w
  run-AllAllowed [] w h = tt
  run-AllAllowed (s ∷ ss) w h =
      let (holds, allowed) = step-Allowed s w h in (allowed, run-AllAllowed ss (step s w) holds)
