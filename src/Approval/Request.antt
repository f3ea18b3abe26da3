-- ===== src/Approval/Request.antt =====
-- agent/core/approval.py: ApprovalStatus, ApprovalCategory and ApprovalRequest. Instants and
-- durations are whole seconds. `F` is the type of Python's floats, which occur in `context`.
pub mod Codec
use agent_life_space.Prelude.{
  ℕ, ◌+◌, String, Bool, true, false, ◌≡◌, refl, List, [], length, leb, not, ◌||◌, if◌then◌else◌,
}
use agent_life_space.Json.{Fields}

pub data Status : Type 0 where
  pending partially_approved approved denied expired executed : Status

pub data Category : Type 0 where
  finance tool external host : Category

pub record Request (F : Type 0) : Type 0 where
  pub id : String
  pub category : Category
  pub description : String
  pub risk_level : String
  pub reason : String
  pub proposed_by : String
  pub context : Fields F
  pub status : Status
  pub created_at : ℕ
  pub decided_at : ℕ
  pub decided_by : String
  pub denial_reason : String
  pub ttl_seconds : ℕ
  pub executed_at : ℕ
  pub required_approvals : ℕ
  pub approvals_received : List String

-- The two statuses of a request that still waits.
unfoldable pub is_waiting : Status → Bool
is_waiting pending = true
is_waiting partially_approved = true
is_waiting _ = false

unfoldable pub is_approved : Status → Bool
is_approved approved = true
is_approved _ = false

module _ {F : Type 0} where
  -- The property `is_expired`, with `time.time()` as `now`; `now - created_at >= ttl_seconds` is
  -- written without a subtraction, since a clock that was set back makes it negative.
  unfoldable pub is_expired : ℕ → Request F → Bool
  unfolding is_waiting
  is_expired now r =
      if not (is_waiting r.status) then false else leb (r.created_at + r.ttl_seconds) now

  unfoldable pub is_fully_approved : Request F → Bool
  is_fully_approved r = leb r.required_approvals (length r.approvals_received)
