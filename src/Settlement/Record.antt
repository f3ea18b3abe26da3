-- ===== src/Settlement/Record.antt =====
-- agent/control/settlement.py: PaymentRequired and SettlementRequest, with `to_dict` and
-- `from_dict`. `float(x)` and `int(x)` of a JSON number that has the type already are the number.
use agent_life_space.Prelude.{ℕ, String, Bool, false, ◌≡◌, refl, ◌==◌}
use agent_life_space.Prelude.Float.{Float}
use agent_life_space.Prelude.Result.{ok, err, ◌>>=◌}
use agent_life_space.Json.{
  Json, Fields, end, field, str, int, float, bool, obj, Decoded, untyped, read_str, read_int,
  read_bool, read_obj, get_default,
}

pub record PaymentRequired (F : Type 0) : Type 0 where
  pub request_id : String
  pub provider_id : String
  pub capability_id : String
  pub target_url : String
  pub amount_required : F
  pub currency : String
  pub payment_url : String
  pub payment_address : String
  pub retry_after_seconds : ℕ
  pub raw_metadata : Fields F
  pub created_at : String

-- The status is a text: pending, approved, denied, executed or failed.
pub record SettlementRequest (F : Type 0) : Type 0 where
  pub settlement_id : String
  pub payment : PaymentRequired F
  pub wallet_balance : F
  pub wallet_currency : String
  pub sufficient_balance : Bool
  pub topup_amount : F
  pub status : String
  pub operator_note : String
  pub created_at : String
  pub resolved_at : String
  pub original_request : Fields F

module _ {F : Type 0} where
  unfoldable pub payment_dict : PaymentRequired F → Fields F
  payment_dict p = field "request_id" (str p.request_id) (
      field "provider_id" (str p.provider_id) (
        field "capability_id" (str p.capability_id) (
          field "target_url" (str p.target_url) (
            field "amount_required" (float p.amount_required) (
              field "currency" (str p.currency) (
                field "payment_url" (str p.payment_url) (
                  field "payment_address" (str p.payment_address) (
                    field "retry_after_seconds" (int p.retry_after_seconds)
                      (field "created_at" (str p.created_at) end)))))))))

  unfoldable pub to_dict : SettlementRequest F → Fields F
  unfolding payment_dict
  to_dict r = field "settlement_id" (str r.settlement_id) (
      field "payment" (obj (payment_dict r.payment)) (
        field "wallet_balance" (float r.wallet_balance) (
          field "wallet_currency" (str r.wallet_currency) (
            field "sufficient_balance" (bool r.sufficient_balance) (
              field "topup_amount" (float r.topup_amount) (
                field "status" (str r.status) (
                  field "operator_note" (str r.operator_note) (
                    field "created_at" (str r.created_at) (
                      field "resolved_at" (str r.resolved_at)
                        (field "original_request" (obj r.original_request) end))))))))))

module _ (ops : Float) where
  open ops use {Num, decimal}

  -- `float(x)` of a JSON number.
  unfoldable pub read_number : String → Json Num → Decoded Num
  read_number k (float x) = ok x
  read_number k (int n) = ok (decimal n 0)
  read_number k _ = err (untyped k)

  unfoldable pub payment_from_dict : Fields Num → Decoded (PaymentRequired Num)
  unfolding get_default read_str read_int read_obj read_number
  payment_from_dict d = do
    request_id ← get_default read_str "request_id" "" d
    provider_id ← get_default read_str "provider_id" "" d
    capability_id ← get_default read_str "capability_id" "" d
    target_url ← get_default read_str "target_url" "" d
    amount_required ← get_default read_number "amount_required" (decimal 0 1) d
    currency ← get_default read_str "currency" "USD" d
    payment_url ← get_default read_str "payment_url" "" d
    payment_address ← get_default read_str "payment_address" "" d
    retry_after_seconds ← get_default read_int "retry_after_seconds" 0 d
    raw_metadata ← get_default read_obj "raw_metadata" end d
    created_at ← get_default read_str "created_at" "" d
    ok (record {
      request_id = request_id;
      provider_id = provider_id;
      capability_id = capability_id;
      target_url = target_url;
      amount_required = amount_required;
      currency = currency;
      payment_url = payment_url;
      payment_address = payment_address;
      retry_after_seconds = retry_after_seconds;
      raw_metadata = raw_metadata;
      created_at = created_at;
    })

  unfoldable pub from_dict : Fields Num → Decoded (SettlementRequest Num)
  unfolding get_default read_str read_bool read_obj read_number payment_from_dict
  from_dict d = do
    payment_data ← get_default read_obj "payment" end d
    settlement_id ← get_default read_str "settlement_id" "" d
    payment ← payment_from_dict payment_data
    wallet_balance ← get_default read_number "wallet_balance" (decimal 0 1) d
    wallet_currency ← get_default read_str "wallet_currency" "credits" d
    sufficient_balance ← get_default read_bool "sufficient_balance" false d
    topup_amount ← get_default read_number "topup_amount" (decimal 0 1) d
    status ← get_default read_str "status" "pending" d
    operator_note ← get_default read_str "operator_note" "" d
    created_at ← get_default read_str "created_at" "" d
    resolved_at ← get_default read_str "resolved_at" "" d
    original_request ← get_default read_obj "original_request" end d
    ok (record {
      settlement_id = settlement_id;
      payment = payment;
      wallet_balance = wallet_balance;
      wallet_currency = wallet_currency;
      sufficient_balance = sufficient_balance;
      topup_amount = topup_amount;
      status = status;
      operator_note = operator_note;
      created_at = created_at;
      resolved_at = resolved_at;
      original_request = original_request;
    })

  -- A request without what `to_dict` leaves out.
  abbrev pub without_metadata : SettlementRequest Num → SettlementRequest Num
  without_metadata r = record r { payment = record r.payment { raw_metadata = end } }

  -- A settlement request is read back from its dictionary but for the metadata of its payment, which
  -- is empty.
  pub Settlement-from_dict-to_dict :
      (r : SettlementRequest Num) → from_dict (to_dict r) ≡ ok (without_metadata r)
  unfolding from_dict to_dict ◌==◌
  Settlement-from_dict-to_dict r = refl
