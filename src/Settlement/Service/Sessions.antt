-- ===== src/Settlement/Service/Sessions.antt =====
-- agent/control/settlement.py: sequences of calls in which top-ups may overlap: a call of
-- `execute_topup` waits for the gateway between `begin_topup` and `end_topup`. The session also notes
-- what the operator approved, what was sent to the gateway, and whose original call was sent again.
use agent_life_space.Prelude.{
  ℕ, String, Bool, false, Option, none, some, List, [], ◌∷◌, ◌++◌, Dict, lookup, ◌==◌, ◌&&◌, ◌||◌,
  not, if◌then◌else◌,
}
use agent_life_space.Prelude.Float.{Float}
use agent_life_space.Prelude.Waiting.{take_out}
use agent_life_space.Json.{Fields}
use agent_life_space.Settlement.Record.{PaymentRequired, SettlementRequest}
use agent_life_space.Settlement.Service.{
  Service, GatewayAnswer, Started, returned, asked, create_settlement_request, approve_settlement,
  deny_settlement, begin_topup, end_topup, amount_of, status_after, is_empty,
}

pub record Session (F : Type 0) : Type 0 where
  pub service : Service F
  -- The settlements whose top-up waits for the gateway.
  pub waiting : List String
  -- The calls of the gateway for a top-up, each with its settlement and its amount, newest first.
  pub sent : List (String × F)
  -- The settlements whose original call was sent to the gateway again.
  pub retried : List String
  -- What the operator approved: a settlement with the amount that its request asks for.
  pub approved : List (String × F)

pub data Op (F : Type 0) : Type 0 where
  create_op : String → String → PaymentRequired F → F → String → Fields F → Op F
  approve_op : String → String → String → Op F
  deny_op : String → String → String → Op F
  topup_op : String → Op F
  answer_op : ℕ → GatewayAnswer F → Op F

module _ (ops : Float) where
  open ops use {Num}

  -- What the operator sees approved.
  abbrev pub note_approval :
      String → Option (SettlementRequest Num) → List (String × Num) → List (String × Num)
  note_approval id none l = l
  note_approval id (some r) l = (id, amount_of ops r) ∷ l

  abbrev pub note_asked : String → Started Num → Session Num → Session Num
  note_asked id (returned d) s = s
  note_asked id (asked a) s = record s { waiting = s.waiting ++ id ∷ []; sent = (id, a) ∷ s.sent }

  -- `_retry_original` asks the gateway after a top-up that succeeded, where the request has an
  -- original call and there is a gateway.
  abbrev pub asks_again : GatewayAnswer Num → Bool → Option (SettlementRequest Num) → Bool
  asks_again answer gateway none = false
  asks_again answer gateway (some r) =
      status_after ops answer == "executed" && not (is_empty ops r.original_request || not gateway)

  abbrev pub note_retry : Bool → String → List String → List String
  note_retry again id l = if again then id ∷ l else l

  abbrev pub answered :
      GatewayAnswer Num → Option (String × List String) → Session Num → Session Num
  answered answer none s = s
  answered answer (some (id, rest)) s = record s {
    service = end_topup ops id answer s.service;
    waiting = rest;
    retried =
        note_retry (asks_again answer s.service.gateway (lookup id s.service.requests)) id
          s.retried;
  }

  unfoldable pub perform : Op Num → Session Num → Session Num
  unfolding create_settlement_request approve_settlement deny_settlement begin_topup take_out
      status_after lookup
  perform (create_op id now payment balance currency original) s = record s {
    service = (create_settlement_request ops id now payment balance currency original s.service).0;
  }
  perform (approve_op id now note) s =
      let (service, r) = approve_settlement ops id now note s.service in
      record s { service = service; approved = note_approval id r s.approved }
  perform (deny_op id now note) s = record s {
    service = (deny_settlement ops id now note s.service).0;
  }
  perform (topup_op id) s = note_asked id (begin_topup ops id s.service) s
  perform (answer_op n answer) s = answered answer (take_out n s.waiting) s

  unfoldable pub perform_all : List (Op Num) → Session Num → Session Num
  unfolding perform
  perform_all [] s = s
  perform_all (o ∷ os) s = perform_all os (perform o s)

  -- The requests that a service holds as approved, each with its amount.
  abbrev pub held_approved : Dict (SettlementRequest Num) → List (String × Num)
  held_approved [] = []
  held_approved ((id, r) ∷ d) =
      let rest = held_approved d in
      if r.status == "approved" then (id, amount_of ops r) ∷ rest else rest

  -- A service before any call: what it loaded as approved was approved.
  abbrev pub before_calls : Service Num → Session Num
  before_calls service = record {
    service = service;
    waiting = [];
    sent = [];
    retried = [];
    approved = held_approved service.requests;
  }
