-- ===== src/Examples/SettlementRuns.antt =====
-- agent/control/settlement.py: one settlement of five dollars.
use agent_life_space.Prelude.{
  ℕ, ◌≤◌, true, false, some, List, [], ◌∷◌, All, ◌≡◌, refl, lookup, elem, ◌==◌,
}
use agent_life_space.Prelude.Sorting.{Member}
use agent_life_space.Json.{end, field, bool, str}
use agent_life_space.Prelude.Result.{ok}
use agent_life_space.Settlement.Record.{
  PaymentRequired, SettlementRequest, to_dict, from_dict, without_metadata,
  Settlement-from_dict-to_dict,
}
use agent_life_space.Settlement.Service.{Service, GatewayAnswer, replied, raised}
use agent_life_space.Settlement.Service.Sessions.{
  Op, create_op, approve_op, topup_op, answer_op, perform_all, before_calls,
}
use agent_life_space.Settlement.Service.Consent.{ToppedUp, perform_all-sent_approved}
use agent_life_space.Settlement.Service.Calls.{
  Call, create_call, approve_call, topup_call, call_all, no_history,
}
use agent_life_space.Settlement.Service.Counting.{count_for}
use agent_life_space.Settlement.Service.Once.{call_all-sent_once}
use agent_life_space.Examples.Data.{cents}

abbrev five : PaymentRequired ℕ
five = record {
  request_id = "q1";
  provider_id = "obolos.tech";
  capability_id = "search_v1";
  target_url = "https://obolos.tech";
  amount_required = 500;
  currency = "USD";
  payment_url = "";
  payment_address = "";
  retry_after_seconds = 0;
  raw_metadata = field "paid" (bool false) end;
  created_at = "10:00";
}

abbrev accepted : GatewayAnswer ℕ
accepted = replied (field "ok" (bool true) end)

abbrev approved : SettlementRequest ℕ
approved = record {
  settlement_id = "s1";
  payment = five;
  wallet_balance = 200;
  wallet_currency = "credits";
  sufficient_balance = false;
  topup_amount = 300;
  status = "approved";
  operator_note = "fine";
  created_at = "10:00";
  resolved_at = "10:01";
  original_request = end;
}

-- A service that has loaded an approved request of a former run.
abbrev loaded : Service ℕ
loaded = record {
  gateway = true;
  control_plane = some (record { db = some [] });
  requests = ("s0", record approved { settlement_id = "s0" }) ∷ [];
}

abbrev overlapping : List (Op ℕ)
overlapping =
    create_op "s1" "10:00" five 200 "credits" (field "capability_id" (str "search_v1") end)
    ∷ approve_op "s1" "10:01" "fine"
    ∷ topup_op "s0"
    ∷ topup_op "s1"
    ∷ topup_op "s1"
    ∷ answer_op 1 accepted
    ∷ answer_op 0 (raised "timeout")
    ∷ []

perform_all-sent_approved_example :
    let s = perform_all cents overlapping (before_calls cents loaded) in
    All (λ e. Member e s.approved) s.sent × All (ToppedUp cents s.sent) s.retried
perform_all-sent_approved_example = perform_all-sent_approved cents loaded overlapping

abbrev in_turn : List (Call ℕ)
in_turn =
    create_call "s1" "10:00" five 200 "credits" end
    ∷ approve_call "s1" "10:01" "fine"
    ∷ topup_call "s1" accepted
    ∷ topup_call "s1" accepted
    ∷ []

call_all-sent_once_example :
    count_for cents "s1" (call_all cents in_turn (no_history cents loaded)).sent ≤ 1
unfolding elem lookup ◌==◌
call_all-sent_once_example = call_all-sent_once cents loaded in_turn "s1" (refl, tt) (refl, tt)

Settlement-from_dict-to_dict_example :
    from_dict cents (to_dict approved) ≡ ok (without_metadata cents approved)
Settlement-from_dict-to_dict_example = Settlement-from_dict-to_dict cents approved
