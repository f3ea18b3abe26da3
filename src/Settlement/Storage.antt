-- ===== src/Settlement/Storage.antt =====
-- agent/control/storage.py: `save_settlement_request` and `list_settlement_requests`, to which
-- agent/control/state.py passes on. The column `data` holds the dict that `orjson.dumps` was given,
-- since `orjson.loads` gives it back. Rows of one instant keep the order of the table.
use agent_life_space.Prelude.{
  ℕ, String, Option, none, some, List, [], map, Dict, values, take, filter, ◌==◌, if◌then◌else◌,
}
use agent_life_space.Prelude.Rows.{replace}
use agent_life_space.Prelude.Sorting.{sort_desc}
use agent_life_space.Prelude.Text.{before}
use agent_life_space.Json.{Fields}
use agent_life_space.Settlement.Record.{SettlementRequest, to_dict}

pub record SettlementRow (F : Type 0) : Type 0 where
  pub payload : Fields F
  pub status : String
  pub provider_id : String
  pub created_at : String
  pub updated_at : String

-- The connection, `None` before `initialize`.
pub record Store (F : Type 0) : Type 0 where
  pub db : Option (Dict (SettlementRow F))

-- `a or b` of texts.
abbrev or_text : String → String → String
or_text a b = if a == "" then b else a

module _ {F : Type 0} where
  unfoldable pub row_of : SettlementRequest F → SettlementRow F
  unfolding to_dict
  row_of r = record {
    payload = to_dict r;
    status = r.status;
    provider_id = r.payment.provider_id;
    created_at = r.created_at;
    updated_at = or_text r.resolved_at r.created_at;
  }

  unfoldable pub save_settlement_request : SettlementRequest F → Store F → Store F
  unfolding row_of replace
  save_settlement_request r s = elim s.db [
    | none ↦ s
    | some rows ↦ record { db = some (replace r.settlement_id (row_of r) rows) }
  ]

  unfoldable pub list_settlement_requests : String → ℕ → Store F → List (Fields F)
  unfolding sort_desc ◌==◌
  list_settlement_requests status limit s = elim s.db [
    | none ↦ []
    | some rows ↦
        let chosen =
          if status == ""
          then values rows
          else filter (λ (row : SettlementRow F). row.status == status) (values rows) in
        map (λ row. row.payload)
          (take limit (sort_desc (λ x y. before x.created_at y.created_at) chosen))
  ]
