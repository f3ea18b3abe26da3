-- ===== src/Settlement/Service/Once.antt =====
-- agent/control/settlement.py: a settlement is topped up at most once where no calls overlap.
use agent_life_space.Prelude.{◌≤◌, String, List, [], ◌∷◌, refl, lookup, Distinct, ◌==◌, arith}
use agent_life_space.Prelude.Float.{Float}
use agent_life_space.Settlement.Service.{
  Service, create_settlement_request, approve_settlement, deny_settlement, begin_topup, begin_found,
  new_request,
}
use agent_life_space.Settlement.Service.Consent.{requests-put}
use agent_life_space.Settlement.Service.Calls.{
  Call, create_call, approve_call, deny_call, topup_call, History, call, call_all, with_drawn_id,
  drawn_ids, no_history,
}
use agent_life_space.Settlement.Service.Counting.{
  count_for, potential-le, AtMostOnce, AtMostOnce-insert, resolve-AtMostOnce, serve-AtMostOnce,
}
use agent_life_space.Settlement.Service.Fresh.{
  AllFree, resolve-IsFree, serve-IsFree, created-IsFree, map_free,
}

module _ (ops : Float) where
  open ops use {Num}

  call-AtMostOnce :
      (c : Call Num) (ids : List String) (h : History Num)
      → Distinct (with_drawn_id ops c ids)
      → AllFree ops (with_drawn_id ops c ids) h
      → AtMostOnce ops h.service.requests h.sent
      → Distinct ids
        × AllFree ops ids (call ops c h)
        × AtMostOnce ops (call ops c h).service.requests (call ops c h).sent
  unfolding call create_settlement_request approve_settlement deny_settlement begin_topup
  call-AtMostOnce (create_call id now payment balance currency original) ids h d f j =
      let r = new_request ops id now payment balance currency original in
      (
        d.1,
        created-IsFree ops id r h ids d.0 f.1,
        rw (requests-put ops id r h.service) (
            AtMostOnce-insert ops id r h.service.requests h.sent
              (rw f.0 (unfold new_request in unfold ◌==◌ in omega arith)) j),
      )
  call-AtMostOnce (approve_call id now note) ids h d f j = (
    d,
    map_free ops (call ops (approve_call id now note)) h ids
        (λ k.
          resolve-IsFree ops k "approved" id now note (lookup id h.service.requests) h.service refl)
        f,
    resolve-AtMostOnce ops id h j "approved" now note (lookup id h.service.requests) refl,
  )
  call-AtMostOnce (deny_call id now note) ids h d f j = (
    d,
    map_free ops (call ops (deny_call id now note)) h ids
        (λ k.
          resolve-IsFree ops k "denied" id now note (lookup id h.service.requests) h.service refl)
        f,
    resolve-AtMostOnce ops id h j "denied" now note (lookup id h.service.requests) refl,
  )
  call-AtMostOnce (topup_call id answer) ids h d f j = (
    d,
    map_free ops (call ops (topup_call id answer)) h ids
        (λ k.
          serve-IsFree ops k id answer (begin_found ops (lookup id h.service.requests) h.service) h)
        f,
    serve-AtMostOnce ops id h j answer (lookup id h.service.requests) refl,
  )

  run-AtMostOnce :
      (cs : List (Call Num)) (h : History Num)
      → Distinct (drawn_ids ops cs)
      → AllFree ops (drawn_ids ops cs) h
      → AtMostOnce ops h.service.requests h.sent
      → AtMostOnce ops (call_all ops cs h).service.requests (call_all ops cs h).sent
  unfolding call_all
  run-AtMostOnce [] h d f j = j
  run-AtMostOnce (c ∷ cs) h d f j =
      let n = call-AtMostOnce c (drawn_ids ops cs) h d f j in
      run-AtMostOnce cs (call ops c h) n.0 n.1 n.2

  -- On any service, with any control plane and any requests that it loaded, where each top-up is
  -- answered before the next call starts, the ids that are drawn differ, and none of them is the id
  -- of a request that was loaded: `execute_topup` tops a settlement up at most once, whatever the
  -- gateway answers. The call that is retried after a top-up is not counted.
  pub call_all-sent_once :
      (service : Service Num) (cs : List (Call Num)) (id : String)
      → Distinct (drawn_ids ops cs)
      → AllFree ops (drawn_ids ops cs) (no_history ops service)
      → count_for ops id (call_all ops cs (no_history ops service)).sent ≤ 1
  call_all-sent_once service cs id d free =
      omega (arith, run-AtMostOnce cs (no_history ops service) d free start id)
    where
      start : AtMostOnce ops (no_history ops service).service.requests []
      start k = omega (arith, potential-le ops (lookup k service.requests))
