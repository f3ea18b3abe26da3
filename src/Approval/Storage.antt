-- ===== src/Approval/Storage.antt =====
-- agent/core/approval_storage.py. The SQLite table is a dictionary from ids to rows: the primary
-- key makes `INSERT OR REPLACE` an assignment. The column `data` holds the dict that
-- `orjson.dumps` was given, since `orjson.loads` gives it back.
use agent_life_space.Prelude.{
  ℕ, String, Option, none, some, List, [], ◌∷◌, map, Dict, lookup, insert, values, take, filter,
  leb, ◌==◌, if◌then◌else◌,
}
use agent_life_space.Json.{Fields}
use agent_life_space.Approval.Request.{Request}
use agent_life_space.Approval.Request.Codec.{status_value, category_value, to_dict}

pub record Row (F : Type 0) : Type 0 where
  pub payload : Fields F
  pub status : String
  pub category : String
  pub created_at : ℕ

-- `db` is `None` before `initialize` and after `close`.
pub record Storage (F : Type 0) : Type 0 where
  pub db : Option (Dict (Row F))

module _ {F : Type 0} where
  unfoldable pub row_of : Request F → Row F
  row_of r = record {
    payload = to_dict r;
    status = status_value r.status;
    category = category_value r.category;
    created_at = r.created_at;
  }

  unfoldable pub save_request : Request F → Storage F → Storage F
  unfolding row_of
  save_request r s = elim s.db [
    | none ↦ s
    | some rows ↦ record { db = some (insert r.id (row_of r) rows) }
  ]

  unfoldable pub load_request : String → Storage F → Option (Fields F)
  load_request id s = elim s.db [
    | none ↦ none
    | some rows ↦ elim (lookup id rows) [ none ↦ none | some row ↦ some row.payload ]
  ]

  -- `ORDER BY created_at DESC`; rows of one instant keep the order of the table.
  insert_desc : Row F → List (Row F) → List (Row F)
  insert_desc row [] = row ∷ []
  insert_desc row (x ∷ rows) =
      if leb row.created_at x.created_at then x ∷ insert_desc row rows else row ∷ x ∷ rows

  newest_first : List (Row F) → List (Row F) → List (Row F)
  newest_first done [] = done
  newest_first done (x ∷ rows) = newest_first (insert_desc x done) rows

  -- An empty `status` selects every row.
  unfoldable pub list_requests : String → ℕ → Storage F → List (Fields F)
  unfolding newest_first insert_desc ◌==◌
  list_requests status limit s = elim s.db [
    | none ↦ []
    | some rows ↦
        let chosen =
          if status == ""
          then values rows
          else filter (λ (row : Row F). row.status == status) (values rows) in
        map (λ row. row.payload) (take limit (newest_first [] chosen))
  ]
