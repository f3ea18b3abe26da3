-- ===== src/Settlement/Service/Calls.antt =====
-- agent/control/settlement.py: calls of a PaymentSettlementService one after the other.
use agent_life_space.Prelude.{String, List, [], ◌∷◌}
use agent_life_space.Prelude.Float.{Float}
use agent_life_space.Json.{Fields}
use agent_life_space.Settlement.Record.{PaymentRequired}
use agent_life_space.Settlement.Service.{
  Service, GatewayAnswer, Started, returned, asked, create_settlement_request, approve_settlement,
  deny_settlement, begin_topup, end_topup,
}

-- The calls one after the other: a top-up is answered before the next call.
pub data Call (F : Type 0) : Type 0 where
  create_call : String → String → PaymentRequired F → F → String → Fields F → Call F
  approve_call : String → String → String → Call F
  deny_call : String → String → String → Call F
  topup_call : String → GatewayAnswer F → Call F

-- The service, and the settlements for which a top-up was sent.
pub record History (F : Type 0) : Type 0 where
  pub service : Service F
  pub sent : List String

module _ (ops : Float) where
  open ops use {Num}

  abbrev pub serve : String → GatewayAnswer Num → Started Num → History Num → History Num
  serve id answer (returned d) h = h
  serve id answer (asked a) h = record {
    service = end_topup ops id answer h.service;
    sent = id ∷ h.sent;
  }

  unfoldable pub call : Call Num → History Num → History Num
  unfolding create_settlement_request approve_settlement deny_settlement begin_topup end_topup
  call (create_call id now payment balance currency original) h = record h {
    service = (create_settlement_request ops id now payment balance currency original h.service).0;
  }
  call (approve_call id now note) h = record h {
    service = (approve_settlement ops id now note h.service).0;
  }
  call (deny_call id now note) h = record h {
    service = (deny_settlement ops id now note h.service).0;
  }
  call (topup_call id answer) h = serve id answer (begin_topup ops id h.service) h

  unfoldable pub call_all : List (Call Num) → History Num → History Num
  unfolding call
  call_all [] h = h
  call_all (c ∷ cs) h = call_all cs (call c h)

  -- The ids that the calls draw.
  abbrev pub with_drawn_id : Call Num → List String → List String
  with_drawn_id (create_call id now payment balance currency original) ids = id ∷ ids
  with_drawn_id _ ids = ids

  abbrev pub drawn_ids : List (Call Num) → List String
  drawn_ids [] = []
  drawn_ids (c ∷ cs) = with_drawn_id c (drawn_ids cs)

  -- A service before any call.
  abbrev pub no_history : Service Num → History Num
  no_history service = record { service = service; sent = [] }
