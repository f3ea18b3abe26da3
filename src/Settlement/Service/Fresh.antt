-- ===== src/Settlement/Service/Fresh.antt =====
-- agent/control/settlement.py: a call uses no other new id than the one that it draws.
use agent_life_space.Prelude.{
  String, false, Option, none, some, List, [], ◌∷◌, All, ◌≡◌, refl, ◌∙◌, lookup, lookup-insert,
  elem, ◌==◌, not, if_cases, arith,
}
use agent_life_space.Prelude.Float.{Float}
use agent_life_space.Prelude.Rows.{not_found}
use agent_life_space.Settlement.Record.{SettlementRequest}
use agent_life_space.Settlement.Service.{
  Service, GatewayAnswer, Started, returned, asked, end_topup, put, resolve_found, set_status,
  status_after,
}
use agent_life_space.Settlement.Service.Consent.{requests-put}
use agent_life_space.Settlement.Service.Calls.{History, serve}

module _ (ops : Float) where
  open ops use {Num}

  -- Ids that are not used yet.
  abbrev pub IsFree : String → Service Num → Type 0
  IsFree j s = lookup j s.requests ≡ none

  put-IsFree :
      (j id : String) (r old : SettlementRequest Num) (s : Service Num)
      → lookup id s.requests ≡ some old
      → IsFree j s
      → IsFree j (put ops id r s)
  put-IsFree j id r old s found f =
      rw (requests-put ops id r s)
        (lookup-insert id j r s.requests ∙ rw (not_found id j old s.requests found f) f)

  pub resolve-IsFree :
      (j status id now note : String) (o : Option (SettlementRequest Num)) (s : Service Num)
      → lookup id s.requests ≡ o
      → IsFree j s
      → IsFree j (resolve_found ops status id now note o s).0
  unfolding resolve_found
  resolve-IsFree j status id now note none s e f = f
  resolve-IsFree j status id now note (some r) s e f =
      if_cases {A = Service Num × Option (SettlementRequest Num)} (λ p. IsFree j p.0)
        (not (r.status == "pending")) _ _ (λ other. f)
        (λ pending.
          put-IsFree j id (record r { status = status; operator_note = note; resolved_at = now }) r
            s e f)

  end-IsFree :
      (j status id : String) (o : Option (SettlementRequest Num)) (s : Service Num)
      → lookup id s.requests ≡ o
      → IsFree j s
      → IsFree j (set_status ops status id o s)
  unfolding set_status
  end-IsFree j status id none s e f = f
  end-IsFree j status id (some r) s e f = put-IsFree j id (record r { status = status }) r s e f

  pub serve-IsFree :
      (j id : String) (answer : GatewayAnswer Num) (a : Started Num) (h : History Num)
      → IsFree j h.service
      → IsFree j (serve ops id answer a h).service
  unfolding end_topup
  serve-IsFree j id answer (returned d) h f = f
  serve-IsFree j id answer (asked a) h f =
      end-IsFree j (status_after ops answer) id (lookup id h.service.requests) h.service refl f

  abbrev pub AllFree : List String → History Num → Type 0
  AllFree ids h = All (λ j. IsFree j h.service) ids

  pub created-IsFree :
      (id : String) (r : SettlementRequest Num) (h : History Num) (ids : List String)
      → elem id ids ≡ false
      → AllFree ids h
      → All (λ j. IsFree j (put ops id r h.service)) ids
  unfolding elem
  created-IsFree id r h [] e f = tt
  created-IsFree id r h (j ∷ ids) e f = (
    rw (requests-put ops id r h.service)
        (lookup-insert id j r h.service.requests ∙ ground (arith, f.0)),
    created-IsFree id r h ids (ground arith) f.1,
  )

  pub map_free :
      (g : History Num → History Num) (h : History Num) (ids : List String)
      → ((j : String) → IsFree j h.service → IsFree j (g h).service)
      → AllFree ids h
      → AllFree ids (g h)
  map_free g h [] k f = tt
  map_free g h (j ∷ ids) k f = (k j f.0, map_free g h ids k f.1)
