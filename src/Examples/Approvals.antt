-- ===== src/Examples/Approvals.antt =====
-- agent/core/approval.py: two approvers of one request.
use agent_life_space.Prelude.{
  ℕ, ◌+◌, String, true, false, ◌≡◌, ◌≢◌, refl, subst, ==_refl, none, some, List, [], ◌∷◌, arith,
  lookup, elem, insert, ◌==◌,
}
use agent_life_space.Prelude.Sorting.{here}
use agent_life_space.Prelude.Result.{ok}
use agent_life_space.Json.{end}
use agent_life_space.Approval.Request.{
  Request, tool, pending, approved, partially_approved, is_waiting, is_expired,
}
use agent_life_space.Approval.Request.Codec.{to_dict}
use agent_life_space.Approval.Queue.{
  Queue, Proposal, is_executable, propose, approve, mark_executed, expire_stale, load_rows,
}
use agent_life_space.Approval.Queue.Invariant.{IsValid}
use agent_life_space.Approval.Queue.Execution.{success_count, consents, mark_executed-consents}
use agent_life_space.Approval.Queue.Quorum.{approve_each, quorum_reached}
use agent_life_space.Approval.Queue.Expiry.{lookup-expire_stale}
use agent_life_space.Approval.Queue.Restart.{enter_waiting, load_rows-to_dict}
use agent_life_space.Approval.Queue.Consent.{
  Op, propose_op, approve_op, perform, perform_all, perform_all-IsValid, IsConsented,
  granted-IsConsented, no_requests, no_requests-IsValid,
}

abbrev deploy : Proposal ℕ
deploy = record {
  category = tool;
  description = "deploy";
  risk_level = "high";
  reason = "release";
  proposed_by = "agent";
  context = end;
  ttl_seconds = 60;
  required_approvals = 2;
}

abbrev empty : Queue ℕ
empty = no_requests 1000 none

abbrev two_votes : List (Op ℕ)
two_votes = propose_op "a1" 100 deploy ∷ approve_op 110 "a1" "ann" ∷ approve_op 120 "a1" "bob" ∷ []

perform_all-IsValid_example : IsValid (perform_all two_votes empty)
perform_all-IsValid_example = perform_all-IsValid two_votes empty (no_requests-IsValid 1000 none)

abbrev proposed : Request ℕ
proposed = record {
  id = "a1";
  category = tool;
  description = "deploy";
  risk_level = "high";
  reason = "release";
  proposed_by = "agent";
  context = end;
  status = pending;
  created_at = 100;
  decided_at = 0;
  decided_by = "";
  denial_reason = "";
  ttl_seconds = 60;
  executed_at = 0;
  required_approvals = 2;
  approvals_received = [];
}

abbrev half : Request ℕ
half = record proposed { status = partially_approved; approvals_received = "ann" ∷ [] }

abbrev deployed : Request ℕ
deployed = record proposed {
  status = approved;
  decided_at = 120;
  decided_by = "bob";
  approvals_received = "ann" ∷ "bob" ∷ [];
}

granted-IsConsented_example : IsConsented deployed
unfolding perform perform_all propose approve ◌==◌ lookup insert elem
granted-IsConsented_example = granted-IsConsented 1000 none two_votes deployed here refl

abbrev holding : Request ℕ → List (Request ℕ) → Queue ℕ
holding r h = record { waiting = ("a1", r) ∷ []; history = h; max_history = 1000; storage = none }

abbrev decided : Queue ℕ
decided = record { waiting = []; history = deployed ∷ []; max_history = 1000; storage = none }

differ : (s : String) → ("a1" == s) ≡ false → "a1" ≢ s
differ s other same =
    let h : true ≡ false = subst (λ x. x ≡ false) (==_refl "a1") (rw (← same) at other) in
    absurd (cc)

mark_executed-consents_example :
    let (q', done) = mark_executed 130 "a1" decided in
    (success_count done ≡ 1)
    × (consents "a1" q'.history + success_count done ≡ 1)
    × (consents "a2" q'.history ≡ 0)
    × (q'.waiting ≡ [])
unfolding consents is_executable ◌==◌
mark_executed-consents_example = mark_executed-consents 130 "a1" "a2" decided (differ "a2" refl)

quorum_reached_example :
    (done : Request ℕ) × ((approve_each 110 "a1" "ann" ("bob" ∷ []) (holding proposed [])).1
      ≡ some done)
    × (done.status ≡ approved)
    × (done.approvals_received ≡ "ann" ∷ "bob" ∷ [])
    × (lookup "a1" (approve_each 110 "a1" "ann" ("bob" ∷ []) (holding proposed [])).0.waiting
        ≡ none)
unfolding lookup elem is_waiting is_expired ◌==◌
quorum_reached_example =
    quorum_reached 110 "a1" "ann" ("bob" ∷ []) proposed (holding proposed []) refl refl refl
      ((refl, (refl, tt)), (refl, (refl, tt))) refl

half-IsValid : IsValid (holding half [])
unfolding elem is_waiting
half-IsValid = record {
  waits = (
    record {
      at_its_id = refl;
      undecided = refl;
      needs_some = omega arith;
      lacks_some = omega arith;
      each_once = (refl, tt);
    },
    tt,
  );
  decided = tt;
  bounded = omega arith;
}

lookup-expire_stale_example : lookup "a1" (expire_stale 160 (holding half [])).0.waiting ≡ none
unfolding lookup is_expired ◌==◌
lookup-expire_stale_example = lookup-expire_stale 160 "a1" (holding half [])

load_rows-to_dict_example :
    load_rows 200 (to_dict deployed ∷ to_dict half ∷ []) empty ≡ ok (holding half (deployed ∷ []))
unfolding enter_waiting insert is_waiting ◌==◌
load_rows-to_dict_example = load_rows-to_dict 200 (deployed ∷ half ∷ []) empty
