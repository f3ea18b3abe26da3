-- ===== src/Finance/Transaction/Codec.antt =====
-- agent/finance/tracker.py: `Transaction.to_dict` and `from_dict`, and the values of the enums.
use agent_life_space.Prelude.{String, ◌≡◌, refl, none, ◌==◌, if◌then◌else◌}
use agent_life_space.Prelude.Result.{ok, err, ◌>>=◌}
use agent_life_space.Json.{
  Fields, end, field, float, str, obj, value_error, Decoded, opt_str, read_str, read_float,
  read_obj, read_opt_str, get_default, get_required, read_opt_str-opt_str,
}
use agent_life_space.Finance.Transaction.{
  TransactionType, income, expense, proposal, TransactionStatus, proposed, approved, rejected,
  completed, cancelled, RiskLevel, low, medium, high, critical, Transaction,
}

unfoldable pub type_value : TransactionType → String
type_value income = "income"
type_value expense = "expense"
type_value proposal = "proposal"

unfoldable pub status_value : TransactionStatus → String
status_value proposed = "proposed"
status_value approved = "approved"
status_value rejected = "rejected"
status_value completed = "completed"
status_value cancelled = "cancelled"

unfoldable pub risk_value : RiskLevel → String
risk_value low = "low"
risk_value medium = "medium"
risk_value high = "high"
risk_value critical = "critical"

unfoldable pub type_of : String → Decoded TransactionType
unfolding ◌==◌
type_of s =
    if s == "income"
    then ok income
    else if s == "expense"
    then ok expense
    else if s == "proposal"
    then ok proposal
    else err (value_error s)

unfoldable pub status_of : String → Decoded TransactionStatus
unfolding ◌==◌
status_of s =
    if s == "proposed"
    then ok proposed
    else if s == "approved"
    then ok approved
    else if s == "rejected"
    then ok rejected
    else if s == "completed"
    then ok completed
    else if s == "cancelled"
    then ok cancelled
    else err (value_error s)

unfoldable pub risk_of : String → Decoded RiskLevel
unfolding ◌==◌
risk_of s =
    if s == "low"
    then ok low
    else if s == "medium"
    then ok medium
    else if s == "high"
    then ok high
    else if s == "critical"
    then ok critical
    else err (value_error s)

module _ {F : Type 0} where
  unfoldable pub to_dict : Transaction F → Fields F
  to_dict t = field "id" (str t.id) (
      field "type" (str (type_value t.type)) (
        field "status" (str (status_value t.status)) (
          field "amount_usd" (float t.amount_usd) (
            field "currency" (str t.currency) (
              field "description" (str t.description) (
                field "category" (str t.category) (
                  field "risk_level" (str (risk_value t.risk_level)) (
                    field "rationale" (str t.rationale) (
                      field "source" (str t.source) (
                        field "created_at" (str t.created_at) (
                          field "approved_at" (opt_str t.approved_at) (
                            field "completed_at" (opt_str t.completed_at) (
                              field "approved_by" (str t.approved_by)
                                (field "metadata" (obj t.metadata) end))))))))))))))

  unfoldable pub from_dict : Fields F → Decoded (Transaction F)
  unfolding get_default get_required read_str read_float read_obj
  from_dict d = do
    id ← get_required read_str "id" d
    type_text ← get_required read_str "type" d
    type ← type_of type_text
    status_text ← get_required read_str "status" d
    status ← status_of status_text
    amount_usd ← get_required read_float "amount_usd" d
    currency ← get_default read_str "currency" "USD" d
    description ← get_default read_str "description" "" d
    category ← get_default read_str "category" "" d
    risk_text ← get_default read_str "risk_level" "low" d
    risk_level ← risk_of risk_text
    rationale ← get_default read_str "rationale" "" d
    source ← get_default read_str "source" "" d
    created_at ← get_default read_str "created_at" "" d
    approved_at ← get_default read_opt_str "approved_at" none d
    completed_at ← get_default read_opt_str "completed_at" none d
    approved_by ← get_default read_str "approved_by" "" d
    metadata ← get_default read_obj "metadata" end d
    ok (record {
      id = id;
      type = type;
      status = status;
      amount_usd = amount_usd;
      currency = currency;
      description = description;
      category = category;
      risk_level = risk_level;
      rationale = rationale;
      source = source;
      created_at = created_at;
      approved_at = approved_at;
      completed_at = completed_at;
      approved_by = approved_by;
      metadata = metadata;
    })

pub type_of-type_value : (t : TransactionType) → type_of (type_value t) ≡ ok t
unfolding type_of type_value
type_of-type_value income = refl
type_of-type_value _ = refl

pub status_of-status_value : (s : TransactionStatus) → status_of (status_value s) ≡ ok s
unfolding status_of status_value
status_of-status_value proposed = refl
status_of-status_value _ = refl

pub risk_of-risk_value : (r : RiskLevel) → risk_of (risk_value r) ≡ ok r
unfolding risk_of risk_value
risk_of-risk_value low = refl
risk_of-risk_value _ = refl

-- Reading back what `to_dict` wrote gives the transaction.
pub Transaction-from_dict-to_dict : (F : Type 0) (t : Transaction F) → from_dict (to_dict t) ≡ ok t
unfolding from_dict to_dict
Transaction-from_dict-to_dict F t = rw (type_of-type_value t.type) (
    rw (status_of-status_value t.status) (
      rw (risk_of-risk_value t.risk_level)
        (rw (read_opt_str-opt_str F "approved_at") (rw (read_opt_str-opt_str F "completed_at")))))
