-- ===== src/Settlement/Service/Consent.antt =====
-- agent/control/settlement.py: no top-up without the operator.
use agent_life_space.Prelude.{
  String, Bool, true, false, Option, All-append, All-implies, none, some, List, [], ◌∷◌, All, ◌≡◌,
  refl, inl, inr, Option-cases, Dict, lookup, insert, AllIn, AllIn-lookup, AllIn-insert,
  AllIn-weaken, ◌==◌, not, if_cases, arith,
}
use agent_life_space.Prelude.Float.{Float}
use agent_life_space.Prelude.Sorting.{Member, here, there}
use agent_life_space.Prelude.Waiting.{take_out, take_out-All, FoundAll}
use agent_life_space.Json.{get_field}
use agent_life_space.Settlement.Record.{SettlementRequest}
use agent_life_space.Settlement.Service.{
  Service, GatewayAnswer, replied, raised, Started, returned, asked, create_settlement_request,
  approve_settlement, deny_settlement, begin_topup, begin_found, end_topup, amount_of, put,
  resolve_found, set_status, status_after, is_ok, new_request,
}
use agent_life_space.Settlement.Service.Sessions.{
  Session, Op, create_op, approve_op, deny_op, topup_op, answer_op, note_approval, note_asked,
  answered, asks_again, note_retry, perform, perform_all, held_approved, before_calls,
}

module _ (ops : Float) where
  open ops use {Num}

  -- A request with the status approved was approved with the amount that it asks for.
  abbrev Approved : List (String × Num) → String → SettlementRequest Num → Type 0
  Approved l id r = (r.status == "approved") ≡ true → Member (id, amount_of ops r) l

  abbrev IsConsented : Dict (SettlementRequest Num) → List (String × Num) → Type 0
  IsConsented d l = AllIn (Approved l) d

  pub requests-put :
      (id : String) (r : SettlementRequest Num) (s : Service Num)
      → (put ops id r s).requests ≡ insert id r s.requests
  unfolding put
  requests-put id r s = elim (Option-cases s.control_plane) [
    | inl e ↦ rw e refl
    | inr (c, e) ↦ rw e refl
  ]

  put-IsConsented :
      (id : String) (r : SettlementRequest Num) (s : Service Num) (l : List (String × Num))
      → Approved l id r
      → IsConsented s.requests l
      → IsConsented (put ops id r s).requests l
  put-IsConsented id r s l a h =
      rw (requests-put id r s) (AllIn-insert (Approved l) id r s.requests a h)

  not-Approved :
      (l : List (String × Num)) (id : String) (r : SettlementRequest Num)
      → (r.status == "approved") ≡ false
      → Approved l id r
  not-Approved l id r f t = absurd (cc)

  longer-IsConsented :
      (e : String × Num) (d : Dict (SettlementRequest Num)) (l : List (String × Num))
      → IsConsented d l
      → IsConsented d (e ∷ l)
  longer-IsConsented e d l h =
      AllIn-weaken (Approved l) (Approved (e ∷ l)) d (λ id r a t. there (a t)) h

  -- `approve_settlement` notes the approval; `deny_settlement` sets another status.
  approve-IsConsented :
      (id now note : String) (o : Option (SettlementRequest Num)) (s : Service Num)
      (l : List (String × Num))
      → IsConsented s.requests l
      → let r = resolve_found ops "approved" id now note o s in
        IsConsented r.0.requests (note_approval ops id r.1 l)
  unfolding resolve_found
  approve-IsConsented id now note none s l h = h
  approve-IsConsented id now note (some r) s l h =
      let done = record r { status = "approved"; operator_note = note; resolved_at = now } in
      if_cases {A = Service Num × Option (SettlementRequest Num)}
        (λ p. IsConsented p.0.requests (note_approval ops id p.1 l)) (not (r.status == "pending")) _
        _ (λ other. h)
        (λ pending.
          put-IsConsented id done s ((id, amount_of ops done) ∷ l) (λ t. here)
            (longer-IsConsented (id, amount_of ops done) s.requests l h))

  deny-IsConsented :
      (id now note : String) (o : Option (SettlementRequest Num)) (s : Service Num)
      (l : List (String × Num))
      → IsConsented s.requests l
      → IsConsented (resolve_found ops "denied" id now note o s).0.requests l
  unfolding resolve_found ◌==◌
  deny-IsConsented id now note none s l h = h
  deny-IsConsented id now note (some r) s l h =
      let done = record r { status = "denied"; operator_note = note; resolved_at = now } in
      if_cases {A = Service Num × Option (SettlementRequest Num)} (λ p. IsConsented p.0.requests l)
        (not (r.status == "pending")) _ _ (λ other. h)
        (λ pending. put-IsConsented id done s l (not-Approved l id done refl) h)

  status_after-not_approved : (a : GatewayAnswer Num) → (status_after ops a == "approved") ≡ false
  unfolding status_after ◌==◌
  status_after-not_approved (replied r) =
      if_cases (λ t. (t == "approved") ≡ false) (is_ok ops (get_field "ok" r)) "executed" "failed"
        (λ x. refl) (λ x. refl)
  status_after-not_approved (raised e) = refl

  set_status-IsConsented :
      (status id : String) (o : Option (SettlementRequest Num)) (s : Service Num)
      (l : List (String × Num))
      → (status == "approved") ≡ false
      → IsConsented s.requests l
      → IsConsented (set_status ops status id o s).requests l
  unfolding set_status
  set_status-IsConsented status id none s l f h = h
  set_status-IsConsented status id (some r) s l f h =
      let done = record r { status = status } in
      put-IsConsented id done s l (not-Approved l id done f) h

  -- A request for an amount goes out only for an approved settlement and amount.
  abbrev AskedFor : List (String × Num) → String → Started Num → Type 0
  AskedFor l id (returned d) = Unit
  AskedFor l id (asked a) = Member (id, a) l

  begin_found-AskedFor :
      (id : String) (o : Option (SettlementRequest Num)) (s : Service Num) (l : List (String × Num))
      → lookup id s.requests ≡ o
      → IsConsented s.requests l
      → AskedFor l id (begin_found ops o s)
  unfolding begin_found
  begin_found-AskedFor id none s l e h = tt
  begin_found-AskedFor id (some r) s l e h =
      if_cases (AskedFor l id) (not (r.status == "approved")) _ _ (λ x. tt)
        (λ x.
          if_cases (AskedFor l id) (not s.gateway) _ _ (λ y. tt)
            (λ y. AllIn-lookup (Approved l) id r s.requests h e (ground arith)))

  -- A top-up of the settlement was sent.
  abbrev pub ToppedUp : List (String × Num) → String → Type 0
  ToppedUp l id = (a : Num) × Member (id, a) l

  -- What holds between the calls.
  abbrev IsSafe : Session Num → Type 0
  IsSafe s =
      IsConsented s.service.requests s.approved
      × All (λ e. Member e s.approved) s.sent
      × All (ToppedUp s.sent) s.waiting
      × All (ToppedUp s.sent) s.retried

  note_asked-IsSafe :
      (id : String) (a : Started Num) (s : Session Num)
      → AskedFor s.approved id a
      → IsSafe s
      → IsSafe (note_asked ops id a s)
  note_asked-IsSafe id (returned d) s m h = h
  note_asked-IsSafe id (asked a) s m h =
      let longer : (k : String) → ToppedUp s.sent k → ToppedUp ((id, a) ∷ s.sent) k =
        λ k t. (t.0, there t.1) in
      (
        h.0,
        (m, h.1),
        All-append (ToppedUp ((id, a) ∷ s.sent)) s.waiting (id ∷ [])
            (All-implies (ToppedUp s.sent) (ToppedUp ((id, a) ∷ s.sent)) longer s.waiting h.2)
            ((a, here), tt),
        All-implies (ToppedUp s.sent) (ToppedUp ((id, a) ∷ s.sent)) longer s.retried h.3,
      )

  note_retry-All :
      (again : Bool) (id : String) (l : List (String × Num)) (ids : List String)
      → ToppedUp l id
      → All (ToppedUp l) ids
      → All (ToppedUp l) (note_retry ops again id ids)
  note_retry-All true id l ids t h = (t, h)
  note_retry-All false id l ids t h = h

  answered-IsSafe :
      (a : GatewayAnswer Num) (o : Option (String × List String)) (s : Session Num)
      → FoundAll (ToppedUp s.sent) o
      → IsSafe s
      → IsSafe (answered ops a o s)
  unfolding end_topup
  answered-IsSafe a none s f h = h
  answered-IsSafe a (some (id, rest)) s f h = (
    set_status-IsConsented (status_after ops a) id (lookup id s.service.requests) s.service
        s.approved (status_after-not_approved a) h.0,
    h.1,
    f.1,
    note_retry-All (asks_again ops a s.service.gateway (lookup id s.service.requests)) id s.sent
        s.retried f.0 h.3,
  )

  longer-approved :
      (id : String) (o : Option (SettlementRequest Num)) (l sent : List (String × Num))
      → All (λ e. Member e l) sent
      → All (λ e. Member e (note_approval ops id o l)) sent
  longer-approved id none l sent h = h
  longer-approved id (some r) l [] h = tt
  longer-approved id (some r) l (e ∷ sent) h = (there h.0, longer-approved id (some r) l sent h.1)

  perform-IsSafe : (o : Op Num) (s : Session Num) → IsSafe s → IsSafe (perform ops o s)
  unfolding perform create_settlement_request approve_settlement deny_settlement begin_topup
  perform-IsSafe (create_op id now payment balance currency original) s h =
      let r = new_request ops id now payment balance currency original in
      (
        put-IsConsented id r s.service s.approved
            (not-Approved s.approved id r (unfold new_request in unfold ◌==◌ in refl)) h.0,
        h.1,
        h.2,
        h.3,
      )
  perform-IsSafe (approve_op id now note) s h =
      let o = lookup id s.service.requests in
      (
        approve-IsConsented id now note o s.service s.approved h.0,
        longer-approved id (resolve_found ops "approved" id now note o s.service).1 s.approved
            s.sent h.1,
        h.2,
        h.3,
      )
  perform-IsSafe (deny_op id now note) s h = (
    deny-IsConsented id now note (lookup id s.service.requests) s.service s.approved h.0,
    h.1,
    h.2,
    h.3,
  )
  perform-IsSafe (topup_op id) s h =
      note_asked-IsSafe id _ s
        (begin_found-AskedFor id (lookup id s.service.requests) s.service s.approved refl h.0) h
  perform-IsSafe (answer_op n a) s h =
      answered-IsSafe a (take_out n s.waiting) s (take_out-All (ToppedUp s.sent) n s.waiting h.2) h

  run-IsSafe : (os : List (Op Num)) (s : Session Num) → IsSafe s → IsSafe (perform_all ops os s)
  unfolding perform_all
  run-IsSafe [] s h = h
  run-IsSafe (o ∷ os) s h = run-IsSafe os (perform ops o s) (perform-IsSafe o s h)

  held_approved-IsConsented :
      (d : Dict (SettlementRequest Num)) → IsConsented d (held_approved ops d)
  held_approved-IsConsented [] = tt
  held_approved-IsConsented ((id, r) ∷ d) =
      if_cases (λ l. Approved l id r × IsConsented d l) (r.status == "approved") _ _
        (λ is.
          (λ t. here, longer-IsConsented (id, amount_of ops r) d _ (held_approved-IsConsented d)))
        (λ not. (not-Approved _ id r not, held_approved-IsConsented d))

  -- On any service, with any control plane and any requests that it loaded, however the calls overlap
  -- and whatever the gateway answers: each top-up that `execute_topup` itself sent to the gateway is
  -- one that the operator approved, or that was loaded as approved, with the amount that the request
  -- asked for then. The original call of a settlement, which may be a top-up as well, is sent again
  -- only where the top-up of that settlement was sent.
  pub perform_all-sent_approved :
      (service : Service Num) (os : List (Op Num))
      → let s = perform_all ops os (before_calls ops service) in
        All (λ e. Member e s.approved) s.sent × All (ToppedUp s.sent) s.retried
  perform_all-sent_approved service os =
      let safe =
        run-IsSafe os (before_calls ops service)
          (held_approved-IsConsented service.requests, tt, tt, tt) in
      (safe.1, safe.3)
