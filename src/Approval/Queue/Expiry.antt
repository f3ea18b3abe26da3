-- ===== src/Approval/Queue/Expiry.antt =====
-- agent/core/approval.py: what `expire_stale` leaves, as a function of the entry alone.
use agent_life_space.Prelude.{
  ℕ, String, false, ◌≡◌, refl, Option, none, some, List, [], ◌∷◌, arith, Dict, lookup, erase, keys,
  lookup-erase, elem, ◌==◌, eq_of_==, ==_refl, if◌then◌else◌,
}
use agent_life_space.Approval.Request.{expired, Request, is_expired}
use agent_life_space.Approval.Queue.{
  Queue, persist, archive, expire_found, expire_keys, expire_stale,
}

module _ {F : Type 0} where
  -- The entry that is left of an entry.
  abbrev pub unexpired : ℕ → Option (Request F) → Option (Request F)
  unexpired now none = none
  unexpired now (some r) = if is_expired now r then none else some r

  unexpired_idem :
      (now : ℕ) (o : Option (Request F)) → unexpired now (unexpired now o) ≡ unexpired now o
  unexpired_idem now o = ground arith

  waiting-archive : (r : Request F) (q : Queue F) → (archive r q).waiting ≡ q.waiting
  unfolding archive persist
  waiting-archive r q = ground arith

  lookup-expire_found :
      (now : ℕ) (id k : String) (o : Option (Request F)) (acc : Queue F × ℕ)
      → lookup id acc.0.waiting ≡ o
      → lookup k (expire_found now id o acc).0.waiting
        ≡ (if id == k then unexpired now (lookup k acc.0.waiting) else lookup k acc.0.waiting)
  lookup-expire_found now id k none acc e = ground (arith, eq_of_== id k)
  lookup-expire_found now id k (some r) acc e = ground (
    arith,
    eq_of_== id k,
    lookup-erase id k acc.0.waiting,
    waiting-archive (record r { status = expired })
        (record acc.0 { waiting = erase id acc.0.waiting }),
  )

  lookup-expire_keys :
      (now : ℕ) (k : String) (ids : List String) (acc : Queue F × ℕ)
      → lookup k (expire_keys now ids acc).0.waiting
        ≡ (if elem k ids then unexpired now (lookup k acc.0.waiting) else lookup k acc.0.waiting)
  unfolding expire_keys elem
  lookup-expire_keys now k [] acc = refl
  lookup-expire_keys now k (id ∷ ids) acc =
      let o = lookup id acc.0.waiting in
      ground (
        arith,
        lookup-expire_keys now k ids (expire_found now id o acc),
        lookup-expire_found now id k o acc refl,
        unexpired_idem now (lookup k acc.0.waiting),
        eq_of_== id k,
        eq_of_== k id,
        ==_refl k,
      )

  lookup_absent : (k : String) (d : Dict (Request F)) → elem k (keys d) ≡ false → lookup k d ≡ none
  unfolding lookup elem
  lookup_absent k [] h = refl
  lookup_absent k ((j, r) ∷ d) h = ground (arith, lookup_absent k d, eq_of_== j k, ==_refl k)

  -- After `expire_stale` a key has its former request where that has not expired, and nothing
  -- where it has: no request that waits is expired, and no other one is lost or changed.
  pub lookup-expire_stale :
      (now : ℕ) (k : String) (q : Queue F)
      → lookup k (expire_stale now q).0.waiting ≡ unexpired now (lookup k q.waiting)
  unfolding expire_stale
  lookup-expire_stale now k q =
      ground (arith, lookup-expire_keys now k (keys q.waiting) (q, 0), lookup_absent k q.waiting)
