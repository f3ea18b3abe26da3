-- ===== src/Settlement/Service.antt =====
-- agent/control/settlement.py: the class PaymentSettlementService. The gateway's calls are
-- coroutines, so `execute_topup` is in two parts: `begin_topup` runs to the call of the gateway, and
-- `end_topup` goes on from its answer; other calls run between the two. New ids, clock texts and the
-- gateway's answers are arguments. The trace records and log lines are left out.
pub mod Sessions
pub mod Consent
pub mod Calls
pub mod Counting
pub mod Fresh
pub mod Once
use agent_life_space.Prelude.{
  ℕ, String, Bool, true, false, Option, none, some, List, [], ◌∷◌, Dict, lookup, insert, values,
  filter, ◌==◌, ◌&&◌, ◌||◌, if◌then◌else◌, not,
}
use agent_life_space.Prelude.Float.{Float, max_float}
use agent_life_space.Prelude.Result.{Result, ok, err, ◌>>=◌}
use agent_life_space.Prelude.Sorting.{sort_desc}
use agent_life_space.Prelude.Text.{concat, before}
use agent_life_space.Json.{
  Json, Fields, end, field, str, bool, float, obj, Decoded, get_field, read_str, get_default,
}
use agent_life_space.Settlement.Record.{PaymentRequired, SettlementRequest, from_dict}
use agent_life_space.Settlement.Storage.{Store, save_settlement_request, list_settlement_requests}
use agent_life_space.Settlement.Denial.{is_truthy, is_zero}

-- `gateway` says whether there is one.
pub record Service (F : Type 0) : Type 0 where
  pub gateway : Bool
  pub control_plane : Option (Store F)
  pub requests : Dict (SettlementRequest F)

-- The answer of the gateway, a dict or an exception with its text.
pub data GatewayAnswer (F : Type 0) : Type 0 where
  replied : Fields F → GatewayAnswer F
  raised : String → GatewayAnswer F

-- Where `begin_topup` stops: `execute_topup` has returned, or the gateway is asked for an amount.
pub data Started (F : Type 0) : Type 0 where
  returned : Fields F → Started F
  asked : F → Started F

module _ (ops : Float) where
  open ops use {Num, decimal, sub, le}

  -- The loop of `_load_from_storage`; an exception ends it, and what was read so far stays.
  unfoldable pub load_rows :
      List (Fields Num) → Dict (SettlementRequest Num) → Dict (SettlementRequest Num)
  unfolding from_dict insert
  load_rows [] d = d
  load_rows (row ∷ rows) d = elim (from_dict ops row) [
    | err e ↦ d
    | ok r ↦ load_rows rows (insert r.settlement_id r d)
  ]

  -- `__init__`, with `_load_from_storage`.
  unfoldable pub new : Bool → Option (Store Num) → Service Num
  unfolding load_rows list_settlement_requests
  new gateway none = record { gateway = gateway; control_plane = none; requests = [] }
  new gateway (some s) = record {
    gateway = gateway;
    control_plane = some s;
    requests = load_rows (list_settlement_requests "" 200 s) [];
  }

  -- `_persist`; the request that changed is the object in the dictionary.
  unfoldable pub put : String → SettlementRequest Num → Service Num → Service Num
  unfolding save_settlement_request insert
  put id r s =
      let stored = record s { requests = insert id r s.requests } in
      elim s.control_plane [
        | none ↦ stored
        | some c ↦ record stored { control_plane = some (save_settlement_request r c) }
      ]

  unfoldable pub new_request :
      String → String → PaymentRequired Num → Num → String → Fields Num → SettlementRequest Num
  new_request id now payment balance currency original =
      let sufficient = le payment.amount_required balance in
      let needed = max_float ops (decimal 0 1) (sub payment.amount_required balance) in
      record {
        settlement_id = id;
        payment = payment;
        wallet_balance = balance;
        wallet_currency = currency;
        sufficient_balance = sufficient;
        topup_amount = if not sufficient then needed else decimal 0 1;
        status = "pending";
        operator_note = "";
        created_at = now;
        resolved_at = "";
        original_request = original;
      }

  unfoldable pub create_settlement_request :
      String
      → String
      → PaymentRequired Num
      → Num
      → String
      → Fields Num
      → Service Num
      → Service Num × SettlementRequest Num
  unfolding put new_request
  create_settlement_request id now payment balance currency original s =
      let r = new_request id now payment balance currency original in (put id r s, r)

  unfoldable pub get_pending_settlements : Service Num → List (SettlementRequest Num)
  get_pending_settlements s = filter (λ r. r.status == "pending") (values s.requests)

  unfoldable pub get_settlement : String → Service Num → Option (SettlementRequest Num)
  get_settlement id s = lookup id s.requests

  -- `sorted(…, reverse=True)` keeps the order of equal keys, as `sort_desc` does.
  unfoldable pub list_settlements : String → Service Num → List (SettlementRequest Num)
  unfolding sort_desc ◌==◌
  list_settlements status s =
      sort_desc (λ x y. before x.created_at y.created_at)
        (if status == ""
          then values s.requests
          else filter (λ (r : SettlementRequest Num). r.status == status) (values s.requests))

  -- `approve_settlement` and `deny_settlement`, by the status that they set.
  unfoldable pub resolve_found :
      String
      → String
      → String
      → String
      → Option (SettlementRequest Num)
      → Service Num
      → Service Num × Option (SettlementRequest Num)
  unfolding put
  resolve_found status id now note none s = (s, none)
  resolve_found status id now note (some r) s =
      let done = record r { status = status; operator_note = note; resolved_at = now } in
      if not (r.status == "pending") then (s, none) else (put id done s, some done)

  unfoldable pub approve_settlement :
      String → String → String → Service Num → Service Num × Option (SettlementRequest Num)
  unfolding resolve_found
  approve_settlement id now note s = resolve_found "approved" id now note (lookup id s.requests) s

  unfoldable pub deny_settlement :
      String → String → String → Service Num → Service Num × Option (SettlementRequest Num)
  unfolding resolve_found
  deny_settlement id now note s = resolve_found "denied" id now note (lookup id s.requests) s

  abbrev failure : String → Fields Num
  failure text = field "ok" (bool false) (field "error" (str text) end)

  -- `request.topup_amount or request.payment.amount_required`
  unfoldable pub amount_of : SettlementRequest Num → Num
  unfolding is_zero
  amount_of r = if is_zero ops r.topup_amount then r.payment.amount_required else r.topup_amount

  unfoldable pub begin_found : Option (SettlementRequest Num) → Service Num → Started Num
  unfolding amount_of concat
  begin_found none s = returned (failure "Settlement not found")
  begin_found (some r) s =
      if not (r.status == "approved")
      then returned
          (failure (concat ("Settlement status is '" ∷ r.status ∷ "', not 'approved'" ∷ [])))
      else if not s.gateway
      then returned (failure "No gateway configured")
      else asked (amount_of r)

  -- The part of `execute_topup` before the answer of the gateway changes nothing.
  unfoldable pub begin_topup : String → Service Num → Started Num
  unfolding begin_found
  begin_topup id s = begin_found (lookup id s.requests) s

  abbrev pub is_ok : Option (Json Num) → Bool
  is_ok none = false
  is_ok (some v) = is_truthy ops v

  -- The request is the object that the call found, so the dictionary has its new status.
  unfoldable pub set_status :
      String → String → Option (SettlementRequest Num) → Service Num → Service Num
  unfolding put
  set_status status id none s = s
  set_status status id (some r) s = put id (record r { status = status }) s

  -- `request.status` after the answer.
  unfoldable pub status_after : GatewayAnswer Num → String
  unfolding get_field is_truthy
  status_after (replied r) = if is_ok (get_field "ok" r) then "executed" else "failed"
  status_after (raised e) = "failed"

  -- From the gateway's answer to the retry of the original request, or to the end.
  unfoldable pub end_topup : String → GatewayAnswer Num → Service Num → Service Num
  unfolding status_after set_status
  end_topup id answer s = set_status (status_after answer) id (lookup id s.requests) s

  abbrev value_or : Option (Json Num) → Json Num → Json Num
  value_or none default = default
  value_or (some v) default = v

  -- `result.get("normalized_response") or result.get("response_json", {})`
  unfoldable pub response_of : Fields Num → Json Num
  unfolding get_field is_truthy
  response_of r =
      if is_ok (get_field "normalized_response" r)
      then value_or (get_field "normalized_response" r) (obj end)
      else value_or (get_field "response_json" r) (obj end)

  -- The dict that `execute_topup` returns, with that of the retry.
  unfoldable pub topup_answer : Num → GatewayAnswer Num → Fields Num → Fields Num
  unfolding response_of get_field
  topup_answer amount (replied r) retry =
      if is_ok (get_field "ok" r)
      then field "ok" (bool true) (
          field "amount" (float amount)
            (field "result" (response_of r) (field "retry" (obj retry) end)))
      else field "ok" (bool false)
          (field "error" (value_or (get_field "error" r) (str "Topup failed")) end)
  topup_answer amount (raised e) retry = failure e

  abbrev pub is_empty : Fields Num → Bool
  is_empty end = true
  is_empty (field k v d) = false

  -- `_retry_original`, with the answer that the gateway gives where it is asked.
  unfoldable pub retry_original : Fields Num → Bool → GatewayAnswer Num → Fields Num
  unfolding get_field
  retry_original original gateway answer =
      if is_empty original || not gateway
      then field "retried" (bool false)
          (field "reason" (str "No original request context or gateway") end)
      else elim answer [
        | replied r ↦
            field "retried" (bool true)
              (field "ok" (value_or (get_field "ok" r) (bool false)) (field "result" (obj r) end))
        | raised e ↦
            field "retried" (bool true) (field "ok" (bool false) (field "error" (str e) end))
      ]
