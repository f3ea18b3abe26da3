-- ===== src/Finance/Tracker/Staleness.antt =====
-- agent/finance/tracker.py: `check_stale_proposals` as a function of each transaction alone.
use agent_life_space.Prelude.{
  ℕ, String, ◌≡◌, refl, Option, none, some, [], ◌∷◌, arith, true, Dict, lookup, if◌then◌else◌, leb,
}
use agent_life_space.Prelude.Text.{concat, show_nat}
use agent_life_space.Json.{str, bool, set_field}
use agent_life_space.Finance.Clock.{Clock}
use agent_life_space.Finance.Transaction.{cancelled, Transaction, is_proposed}
use agent_life_space.Finance.Tracker.{
  Tracker, cancel, visit_aged, visit, persist_cancelled, stale_loop, check_stale_proposals,
}

module _ {F : Type 0} where
  -- The status, and the two entries of the metadata, of a proposal that went stale.
  abbrev pub stale_cancelled : ℕ → Transaction F → Transaction F
  stale_cancelled age t = record t {
    status = cancelled;
    metadata =
        set_field "cancel_reason"
          (str (concat ("Stale proposal (" ∷ show_nat age ∷ " dní bez odpovede)" ∷ [])))
          (set_field "auto_cancelled" (bool true) t.metadata);
  }

  -- A proposal of 14 days or more is cancelled; one whose date cannot be read has no age.
  abbrev pub cancel_old : Option ℕ → Transaction F → Transaction F
  cancel_old none t = t
  cancel_old (some age) t = if leb 14 age then stale_cancelled age t else t

  abbrev pub aged : Clock → Transaction F → Transaction F
  aged clock t = if is_proposed t.status then cancel_old (clock.age_days t.created_at) t else t

  abbrev pub aged_entry : Clock → Option (Transaction F) → Option (Transaction F)
  aged_entry clock none = none
  aged_entry clock (some t) = some (aged clock t)

  visit-aged :
      (clock : Clock) (max_age : ℕ) (t : Transaction F) → (visit clock max_age t).0 ≡ aged clock t
  unfolding visit visit_aged cancel
  visit-aged clock max_age t = ground arith

  lookup-stale_loop :
      (clock : Clock) (max_age : ℕ) (k : String) (txs : Dict (Transaction F)) (s : Tracker F)
      → lookup k (stale_loop clock max_age txs s).0 ≡ aged_entry clock (lookup k txs)
  unfolding stale_loop lookup
  lookup-stale_loop clock max_age k [] s = refl
  lookup-stale_loop clock max_age k ((j, t) ∷ txs) s =
      let (t', said) = visit clock max_age t in
      ground (
        arith,
        visit-aged clock max_age t,
        lookup-stale_loop clock max_age k txs (persist_cancelled said t' s),
      )

  -- The check sets the status cancelled, with the reason and the mark of an automatic cancellation in
  -- the metadata, of exactly the proposals of 14 days or more, whatever limit it is given for its
  -- warnings. It approves none, and leaves every other transaction as it was.
  pub lookup-check_stale_proposals :
      (clock : Clock) (max_age : ℕ) (k : String) (s : Tracker F)
      → lookup k (check_stale_proposals clock max_age s).1.transactions
        ≡ aged_entry clock (lookup k s.transactions)
  unfolding check_stale_proposals
  lookup-check_stale_proposals clock max_age k s =
      lookup-stale_loop clock max_age k s.transactions s
