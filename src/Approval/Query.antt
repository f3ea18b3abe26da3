-- ===== src/Approval/Query.antt =====
-- agent/core/approval.py: the methods of ApprovalQueue that report on the queue. Each of them but
-- `get_history` expires what is stale first, so it returns the queue too.
pub mod Reports
use agent_life_space.Prelude.{
  ℕ, suc, String, Bool, true, false, Option, none, some, List, [], ◌∷◌, ◌++◌, map, Dict, lookup,
  values, length, take, drop, filter, max, count_from, reverse, zero, ◌-◌, ◌==◌, ◌||◌, ◌&&◌,
  if◌then◌else◌,
}
use agent_life_space.Prelude.Result.{ok, ◌>>=◌}
use agent_life_space.Json.{Json, Items, Fields, str, arr, nil, cons, Decoded, get_field}
use agent_life_space.Approval.Request.{Category, Request}
use agent_life_space.Approval.Request.Codec.{status_value, category_value, to_dict, from_dict}
use agent_life_space.Approval.Storage
use agent_life_space.Approval.Storage.{load_request}
use agent_life_space.Approval.Queue.{Queue, expire_stale}

-- The keyword arguments of `list_requests`; a missing `status` or `category` is the empty text.
pub record Filters : Type 0 where
  pub status : String
  pub category : String
  pub job_id : String
  pub artifact_id : String
  pub workspace_id : String
  pub bundle_id : String

pub record Stats : Type 0 where
  pub pending : ℕ
  pub history_total : ℕ
  pub by_status : Dict ℕ
  pub storage_enabled : Bool

-- An empty filter selects everything.
abbrev unset_or : String → Bool → Bool
unset_or filter_text test = filter_text == "" || test

module _ {F : Type 0} where
  abbrev is_text : String → Option (Json F) → Bool
  is_text s (some (str t)) = t == s
  is_text s _ = false

  -- `artifact_id in context.get("artifact_ids", [])`, where the entry is a list.
  has_text : String → Items F → Bool
  has_text s nil = false
  has_text s (cons (str t) l) = t == s || has_text s l
  has_text s (cons _ l) = has_text s l

  abbrev has_artifact : String → Option (Json F) → Bool
  has_artifact s (some (arr l)) = has_text s l
  has_artifact s _ = false

  unfoldable pub matches_filters : Filters → Request F → Bool
  unfolding has_text
  matches_filters f r =
      unset_or f.status (status_value r.status == f.status)
      && unset_or f.category (category_value r.category == f.category)
      && unset_or f.job_id (is_text f.job_id (get_field "job_id" r.context))
      && unset_or f.workspace_id (is_text f.workspace_id (get_field "workspace_id" r.context))
      && unset_or f.bundle_id (is_text f.bundle_id (get_field "bundle_id" r.context))
      && unset_or f.artifact_id (has_artifact f.artifact_id (get_field "artifact_ids" r.context))

  unfoldable pub get_pending : ℕ → Queue F → Queue F × List (Fields F)
  get_pending now q = let q' = (expire_stale now q).0 in (q', map to_dict (values q'.waiting))

  -- `self._history[-limit:]`, where `-0` selects everything.
  unfoldable pub get_history : ℕ → Queue F → List (Fields F)
  get_history limit q =
      map to_dict
        (elim limit [ zero ↦ q.history | suc n ↦ drop (length q.history - suc n) q.history ])

  newest_with_id : String → List (Request F) → Option (Request F)
  newest_with_id id [] = none
  newest_with_id id (r ∷ h) = if r.id == id then some r else newest_with_id id h

  abbrev stored : String → Option (Storage.Storage F) → Option (Fields F)
  stored id none = none
  stored id (some s) = load_request id s

  -- The parts of `get_request` behind the expiry: pending, history from its end, storage.
  unfoldable pub find_request : String → Queue F → Option (Fields F)
  unfolding newest_with_id
  find_request id q = elim (lookup id q.waiting) [
    | some r ↦ some (to_dict r)
    | none ↦ elim (newest_with_id id (reverse q.history)) [
      | some r ↦ some (to_dict r)
      | none ↦ stored id q.storage
    ]
  ]

  unfoldable pub get_request : ℕ → String → Queue F → Queue F × Option (Fields F)
  unfolding find_request
  get_request now id q = let q' = (expire_stale now q).0 in (q', find_request id q')

  unfoldable pub get_by_category : ℕ → Category → Queue F → Queue F × List (Fields F)
  get_by_category now c q =
      let q' = (expire_stale now q).0 in
      (
        q',
        map to_dict (
            filter (λ (r : Request F). category_value r.category == category_value c)
              (values q'.waiting)),
      )

  -- `[ApprovalRequest.from_dict(data) for data in rows]`
  decode_all : ℕ → List (Fields F) → Decoded (List (Request F))
  decode_all now [] = ok []
  decode_all now (d ∷ rows) = do r ← from_dict now d; rest ← decode_all now rows; ok (r ∷ rest)

  -- With a storage the answer is made of its rows alone.
  abbrev candidates :
      ℕ → Filters → ℕ → Queue F → Option (Storage.Storage F) → Decoded (List (Request F))
  candidates now f limit q none = ok (values q.waiting ++ reverse q.history)
  candidates now f limit q (some s) =
      decode_all now (Storage.list_requests f.status (max limit 5000) s)

  unfoldable pub list_requests : ℕ → Filters → ℕ → Queue F → Queue F × Decoded (List (Fields F))
  unfolding decode_all matches_filters
  list_requests now f limit q =
      let q' = (expire_stale now q).0 in
      (
        q',
        candidates now f limit q' q'.storage >>= λ rs.
            ok (take limit (map to_dict (filter (matches_filters f) rs))),
      )

  abbrev is_set : Option (Storage.Storage F) → Bool
  is_set none = false
  is_set (some s) = true

  unfoldable pub get_stats : ℕ → Queue F → Queue F × Stats
  unfolding count_from
  get_stats now q =
      let q' = (expire_stale now q).0 in
      (
        q',
        record {
          pending = length q'.waiting;
          history_total = length q'.history;
          by_status = count_from (λ (r : Request F). status_value r.status) q'.history [];
          storage_enabled = is_set q'.storage;
        },
      )
