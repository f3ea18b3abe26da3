-- ===== src/Finance/Transaction.antt =====
-- agent/finance/tracker.py: the enums and the dataclass Transaction. `F` is the type of floats.
pub mod Codec
use agent_life_space.Prelude.{String, Bool, true, false, Option}
use agent_life_space.Json.{Fields}

pub data TransactionType : Type 0 where
  income expense proposal : TransactionType

pub data TransactionStatus : Type 0 where
  proposed approved rejected completed cancelled : TransactionStatus

pub data RiskLevel : Type 0 where
  low medium high critical : RiskLevel

pub record Transaction (F : Type 0) : Type 0 where
  pub id : String
  pub type : TransactionType
  pub status : TransactionStatus
  pub amount_usd : F
  pub currency : String
  pub description : String
  pub category : String
  pub risk_level : RiskLevel
  pub rationale : String
  pub source : String
  pub created_at : String
  pub approved_at : Option String
  pub completed_at : Option String
  pub approved_by : String
  pub metadata : Fields F

-- The tests on the enums that the tracker makes.
unfoldable pub is_expense : TransactionType → Bool
is_expense expense = true
is_expense _ = false

unfoldable pub is_income : TransactionType → Bool
is_income income = true
is_income _ = false

unfoldable pub is_proposed : TransactionStatus → Bool
is_proposed proposed = true
is_proposed _ = false

unfoldable pub is_approved : TransactionStatus → Bool
is_approved approved = true
is_approved _ = false

unfoldable pub is_completed : TransactionStatus → Bool
is_completed completed = true
is_completed _ = false
