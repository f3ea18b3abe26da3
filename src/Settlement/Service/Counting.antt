-- ===== src/Settlement/Service/Counting.antt =====
-- agent/control/settlement.py: how often a settlement was topped up, and still can be.
use agent_life_space.Prelude.{
  ℕ, suc, ◌+◌, ◌≤◌, String, Bool, true, false, Option, none, some, List, ◌∷◌, ◌≡◌, refl, sym, inl,
  inr, Bool-cases, Dict, lookup, insert, lookup-insert, ◌==◌, eq_of_==, not, ◌||◌, if_cases, arith,
  subst, if◌then◌else◌, length, filter,
}
use agent_life_space.Prelude.Float.{Float}
use agent_life_space.Json.{get_field}
use agent_life_space.Settlement.Record.{SettlementRequest}
use agent_life_space.Settlement.Service.{
  Service, GatewayAnswer, replied, raised, Started, begin_found, end_topup, resolve_found,
  set_status, status_after, is_ok,
}
use agent_life_space.Settlement.Service.Consent.{requests-put}
use agent_life_space.Settlement.Service.Calls.{History, serve}

module _ (ops : Float) where
  open ops use {Num}

  -- How often a settlement was topped up, and how often it still can be.
  abbrev pub count_for : String → List String → ℕ
  count_for id l = length (filter (λ j. j == id) l)

  abbrev pub can_send : String → Bool
  can_send status = (status == "pending") || (status == "approved")

  abbrev pub potential : Option (SettlementRequest Num) → ℕ
  potential none = 1
  potential (some r) = if can_send r.status then 1 else 0

  pub potential-le : (o : Option (SettlementRequest Num)) → potential o ≤ 1
  potential-le none = omega arith
  potential-le (some r) = ground arith

  abbrev pub AtMostOnce : Dict (SettlementRequest Num) → List String → Type 0
  AtMostOnce d sent = (k : String) → count_for k sent + potential (lookup k d) ≤ 1

  pub AtMostOnce-insert :
      (id : String) (r : SettlementRequest Num) (d : Dict (SettlementRequest Num))
      (sent : List String)
      → potential (some r) ≤ potential (lookup id d)
      → AtMostOnce d sent
      → AtMostOnce (insert id r d) sent
  AtMostOnce-insert id r d sent le h k = rw (lookup-insert id k r d) (elim (Bool-cases (id == k)) [
    | inl e ↦ rw e (
        omega (
          arith,
          h k,
          subst (λ i. potential (some r) ≤ potential (lookup i d)) (eq_of_== id k e) le,
        ))
    | inr e ↦ rw e (h k)
  ])

  pub AtMostOnce-send :
      (id : String) (r old : SettlementRequest Num) (d : Dict (SettlementRequest Num))
      (sent : List String)
      → lookup id d ≡ some old
      → can_send old.status ≡ true
      → can_send r.status ≡ false
      → AtMostOnce d sent
      → AtMostOnce (insert id r d) (id ∷ sent)
  AtMostOnce-send id r old d sent found could no_more h k =
      rw (lookup-insert id k r d) (elim (Bool-cases (id == k)) [
        | inl e ↦
            let at_k : lookup k d ≡ some old =
              subst (λ i. lookup i d ≡ some old) (eq_of_== id k e) found in
            let before_send : count_for k sent + potential (some old) ≤ 1 =
              subst (λ o. count_for k sent + potential o ≤ 1) at_k (h k) in
            let none_sent : count_for k sent + 1 ≤ 1 =
              subst (λ b. count_for k sent + (if b then 1 else 0) ≤ 1) could before_send in
            rw e (
              subst (λ b. suc (count_for k sent) + (if b then 1 else 0) ≤ 1) (sym no_more)
                (omega (arith, none_sent)))
        | inr e ↦ rw e (h k)
      ])

  status_after-sent : (a : GatewayAnswer Num) → can_send (status_after ops a) ≡ false
  unfolding status_after ◌==◌
  status_after-sent (replied r) =
      if_cases (λ t. can_send t ≡ false) (is_ok ops (get_field "ok" r)) "executed" "failed"
        (λ x. refl) (λ x. refl)
  status_after-sent (raised e) = refl

  module _ (id : String) (h : History Num) (j : AtMostOnce h.service.requests h.sent) where
    pub resolve-AtMostOnce :
        (status now note : String) (o : Option (SettlementRequest Num))
        → lookup id h.service.requests ≡ o
        → AtMostOnce (resolve_found ops status id now note o h.service).0.requests h.sent
    unfolding resolve_found
    resolve-AtMostOnce status now note none e = j
    resolve-AtMostOnce status now note (some r) e =
        let done = record r { status = status; operator_note = note; resolved_at = now } in
        if_cases {A = Service Num × Option (SettlementRequest Num)}
          (λ p. AtMostOnce p.0.requests h.sent) (not (r.status == "pending")) _ _ (λ other. j)
          (λ pending.
            rw (requests-put ops id done h.service)
              (AtMostOnce-insert id done h.service.requests h.sent (rw e (ground arith)) j))

    pub serve-AtMostOnce :
        (answer : GatewayAnswer Num) (o : Option (SettlementRequest Num))
        → lookup id h.service.requests ≡ o
        → let h' = serve ops id answer (begin_found ops o h.service) h in
          AtMostOnce h'.service.requests h'.sent
    unfolding begin_found end_topup
    serve-AtMostOnce answer none e = j
    serve-AtMostOnce answer (some r) e =
        let Keeps = λ (a : Started Num).
          AtMostOnce (serve ops id answer a h).service.requests (serve ops id answer a h).sent in
        let done = record r { status = status_after ops answer } in
        if_cases Keeps (not (r.status == "approved")) _ _ (λ other. j)
          (λ approved.
            if_cases Keeps (not h.service.gateway) _ _ (λ away. j)
              (λ there. rw e (
                unfold set_status in
                rw (requests-put ops id done h.service) (
                  AtMostOnce-send id done r h.service.requests h.sent e (ground arith)
                    (status_after-sent answer) j))))
