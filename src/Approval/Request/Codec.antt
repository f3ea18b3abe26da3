-- ===== src/Approval/Request/Codec.antt =====
-- agent/core/approval.py: `ApprovalRequest.to_dict` and `from_dict`, and the values of the enums.
use agent_life_space.Prelude.{ℕ, String, ◌≡◌, refl, [], ◌==◌, if◌then◌else◌}
use agent_life_space.Prelude.Result.{ok, err, ◌>>=◌}
use agent_life_space.Json.{
  Fields, end, field, int, str, arr, obj, value_error, Decoded, strings, read_str, read_int,
  read_obj, read_strings, get_default, read_strings-strings,
}
use agent_life_space.Approval.Request.{
  Status, pending, partially_approved, approved, denied, expired, executed, Category, finance, tool,
  external, host, Request,
}

unfoldable pub status_value : Status → String
status_value pending = "pending"
status_value partially_approved = "partially_approved"
status_value approved = "approved"
status_value denied = "denied"
status_value expired = "expired"
status_value executed = "executed"

unfoldable pub category_value : Category → String
category_value finance = "finance"
category_value tool = "tool"
category_value external = "external"
category_value host = "host"

-- `ApprovalStatus(s)`, which raises ValueError for any other text.
unfoldable pub status_of : String → Decoded Status
unfolding ◌==◌
status_of s =
    if s == "pending"
    then ok pending
    else if s == "partially_approved"
    then ok partially_approved
    else if s == "approved"
    then ok approved
    else if s == "denied"
    then ok denied
    else if s == "expired"
    then ok expired
    else if s == "executed"
    then ok executed
    else err (value_error s)

unfoldable pub category_of : String → Decoded Category
unfolding ◌==◌
category_of s =
    if s == "finance"
    then ok finance
    else if s == "tool"
    then ok tool
    else if s == "external"
    then ok external
    else if s == "host"
    then ok host
    else err (value_error s)

module _ {F : Type 0} where
  unfoldable pub to_dict : Request F → Fields F
  to_dict r = field "id" (str r.id) (
      field "category" (str (category_value r.category)) (
        field "description" (str r.description) (
          field "risk_level" (str r.risk_level) (
            field "reason" (str r.reason) (
              field "proposed_by" (str r.proposed_by) (
                field "context" (obj r.context) (
                  field "status" (str (status_value r.status)) (
                    field "created_at" (int r.created_at) (
                      field "decided_at" (int r.decided_at) (
                        field "decided_by" (str r.decided_by) (
                          field "denial_reason" (str r.denial_reason) (
                            field "ttl_seconds" (int r.ttl_seconds) (
                              field "executed_at" (int r.executed_at) (
                                field "required_approvals" (int r.required_approvals) (
                                  field "approvals_received" (arr (strings r.approvals_received))
                                    end)))))))))))))))

  -- `now` is the `time.time()` that stands for a missing "created_at".
  unfoldable pub from_dict : ℕ → Fields F → Decoded (Request F)
  unfolding get_default read_str read_int read_obj
  from_dict now d = do
    id ← get_default read_str "id" "" d
    category_text ← get_default read_str "category" "tool" d
    category ← category_of category_text
    description ← get_default read_str "description" "" d
    risk_level ← get_default read_str "risk_level" "medium" d
    reason ← get_default read_str "reason" "" d
    proposed_by ← get_default read_str "proposed_by" "agent" d
    context ← get_default read_obj "context" end d
    status_text ← get_default read_str "status" "pending" d
    status ← status_of status_text
    created_at ← get_default read_int "created_at" now d
    decided_at ← get_default read_int "decided_at" 0 d
    decided_by ← get_default read_str "decided_by" "" d
    denial_reason ← get_default read_str "denial_reason" "" d
    ttl_seconds ← get_default read_int "ttl_seconds" 3600 d
    executed_at ← get_default read_int "executed_at" 0 d
    required_approvals ← get_default read_int "required_approvals" 1 d
    approvals_received ← get_default read_strings "approvals_received" [] d
    ok (record {
      id = id;
      category = category;
      description = description;
      risk_level = risk_level;
      reason = reason;
      proposed_by = proposed_by;
      context = context;
      status = status;
      created_at = created_at;
      decided_at = decided_at;
      decided_by = decided_by;
      denial_reason = denial_reason;
      ttl_seconds = ttl_seconds;
      executed_at = executed_at;
      required_approvals = required_approvals;
      approvals_received = approvals_received;
    })

pub status_of-status_value : (s : Status) → status_of (status_value s) ≡ ok s
unfolding status_of status_value
status_of-status_value pending = refl
status_of-status_value _ = refl

pub category_of-category_value : (c : Category) → category_of (category_value c) ≡ ok c
unfolding category_of category_value
category_of-category_value finance = refl
category_of-category_value _ = refl

-- Reading back what `to_dict` wrote gives the request, whatever the clock reads.
pub Request-from_dict-to_dict :
    (F : Type 0) (now : ℕ) (r : Request F) → from_dict now (to_dict r) ≡ ok r
unfolding from_dict to_dict
Request-from_dict-to_dict F now r =
    rw (category_of-category_value r.category)
      (rw (status_of-status_value r.status) (rw (read_strings-strings F)))
