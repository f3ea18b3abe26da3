-- ===== src/Routing/Queue/Lanes.antt =====
-- agent/core/router.py: the queue of the router as lanes, one for a priority, with its messages in
-- the order in which they came; an entry's sequence number is forgotten.
use agent_life_space.Prelude.{
  ℕ, ◌<◌, Bool, true, false, Option, none, some, List, [], ◌∷◌, ◌++◌, ◌≡◌, refl, if_cases, leb,
  ◌&&◌, if◌then◌else◌, All, All-append, arith,
}
use agent_life_space.Prelude.Waiting.{FoundAll}
use agent_life_space.Routing.Message.{Message}
use agent_life_space.Routing.Queue.{Entry, precedes, take_least, get}

abbrev pub same : ℕ → ℕ → Bool
same a b = leb a b && leb b a

module _ {F : Type 0} where
  -- The messages of a priority.
  abbrev pub lane : ℕ → List (Entry F) → List (Message F)
  lane p [] = []
  lane p (e ∷ es) = let rest = lane p es in if same p e.priority then e.message ∷ rest else rest

  -- Among entries of one priority, the earlier has the smaller sequence number.
  abbrev pub Before : Entry F → Entry F → Type 0
  Before e x = e.priority ≡ x.priority → e.seq < x.seq

  abbrev pub IsOrdered : List (Entry F) → Type 0
  IsOrdered [] = Unit
  IsOrdered (e ∷ es) = All (Before e) es × IsOrdered es

  -- `m` is at the head of its lane, the lanes before it are empty, and it is taken out.
  pub record Takes (m : Entry F) (es rest : List (Entry F)) : Type 0 where
    pub none_before : (p : ℕ) → p < m.priority → lane p es ≡ []
    pub head : (p : ℕ) → same p m.priority ≡ true → lane p es ≡ m.message ∷ lane p rest
    pub others : (p : ℕ) → same p m.priority ≡ false → lane p es ≡ lane p rest

  take_least-All :
      (P : Entry F → Type 0) (e : Entry F) (xs : List (Entry F))
      → P e
      → All P xs
      → P (take_least e xs).0 × All P (take_least e xs).1
  unfolding take_least
  take_least-All P e [] h k = (h, tt)
  take_least-All P e (x ∷ xs) h k =
      let (m, rest) = take_least-All P x xs k.0 k.1 in
      if_cases (λ (q : Entry F × List (Entry F)). P q.0 × All P q.1)
        (precedes (take_least x xs).0 e) _ _ (λ sooner. (m, (h, rest))) (λ later. (h, k))

  take_least-IsOrdered :
      (e : Entry F) (xs : List (Entry F)) → IsOrdered (e ∷ xs) → IsOrdered (take_least e xs).1
  unfolding take_least
  take_least-IsOrdered e [] h = tt
  take_least-IsOrdered e (x ∷ xs) h =
      let (m, rest) = take_least-All (Before e) x xs h.0.0 h.0.1 in
      if_cases (λ (q : Entry F × List (Entry F)). IsOrdered q.1) (precedes (take_least x xs).0 e) _
        _ (λ sooner. (rest, take_least-IsOrdered x xs h.1)) (λ later. h.1)

  Takes-skip :
      (e m : Entry F) (xs rest : List (Entry F))
      → Before e m
      → precedes m e ≡ true
      → Takes m xs rest
      → Takes m (e ∷ xs) (e ∷ rest)
  Takes-skip e m xs rest before sooner t = record {
    none_before = λ p lt. ground (arith, before, t.none_before p lt);
    head = λ p is. ground (arith, before, t.head p is);
    others = λ p not. ground (arith, before, t.others p not);
  }

  Takes-here :
      (e m : Entry F) (xs rest : List (Entry F))
      → precedes m e ≡ false
      → Takes m xs rest
      → Takes e (e ∷ xs) xs
  Takes-here e m xs rest later t = record {
    none_before = λ p lt. ground (arith, t.none_before p (ground arith));
    head = λ p is. ground arith;
    others = λ p not. ground arith;
  }

  take_least-Takes :
      (e : Entry F) (xs : List (Entry F))
      → IsOrdered (e ∷ xs)
      → Takes (take_least e xs).0 (e ∷ xs) (take_least e xs).1
  unfolding take_least
  take_least-Takes e [] h = record {
    none_before = λ p lt. ground arith;
    head = λ p is. ground arith;
    others = λ p not. ground arith;
  }
  take_least-Takes e (x ∷ xs) h =
      let (m, rest) = take_least x xs in
      let before : Before e m = (take_least-All (Before e) x xs h.0.0 h.0.1).0 in
      let takes : Takes m (x ∷ xs) rest = take_least-Takes x xs h.1 in
      if_cases (λ (q : Entry F × List (Entry F)). Takes q.0 (e ∷ x ∷ xs) q.1) (precedes m e) _ _
        (λ sooner. Takes-skip e m (x ∷ xs) rest before sooner takes)
        (λ later. Takes-here e m (x ∷ xs) rest later takes)

  -- What `get` gives of an ordered queue.
  abbrev pub Gets : List (Entry F) → Option (Entry F × List (Entry F)) → Type 0
  Gets es none = (p : ℕ) → lane p es ≡ []
  Gets es (some (m, rest)) = Takes m es rest

  pub get-Gets : (es : List (Entry F)) → IsOrdered es → Gets es (get es)
  unfolding get
  get-Gets [] h = λ p. refl
  get-Gets (e ∷ es) h = take_least-Takes e es h

  abbrev pub Remains : (Entry F → Type 0) → Option (Entry F × List (Entry F)) → Type 0
  Remains P none = Unit
  Remains P (some (m, rest)) = P m × All P rest × IsOrdered rest

  pub get-Remains :
      (P : Entry F → Type 0) (es : List (Entry F)) → IsOrdered es → All P es → Remains P (get es)
  unfolding get
  get-Remains P [] h k = tt
  get-Remains P (e ∷ es) h k =
      let (m, rest) = take_least-All P e es k.0 k.1 in (m, rest, take_least-IsOrdered e es h)

  pub lane-append :
      (p : ℕ) (e : Entry F) (es : List (Entry F))
      → lane p (es ++ e ∷ [])
        ≡ (if same p e.priority then lane p es ++ e.message ∷ [] else lane p es)
  lane-append p e [] = refl
  lane-append p e (x ∷ xs) = ground (arith, lane-append p e xs)

  pub IsOrdered-append :
      (e : Entry F) (es : List (Entry F))
      → All (λ x. x.seq < e.seq) es
      → IsOrdered es
      → IsOrdered (es ++ e ∷ [])
  IsOrdered-append e [] h k = (tt, tt)
  IsOrdered-append e (x ∷ xs) h k =
      (All-append (Before x) xs (e ∷ []) k.0 (λ eq. h.0, tt), IsOrdered-append e xs h.1 k.1)

  pub get-FoundAll : (P : Entry F → Type 0) (es : List (Entry F)) → All P es → FoundAll P (get es)
  unfolding get
  get-FoundAll P [] k = tt
  get-FoundAll P (e ∷ es) k = take_least-All P e es k.0 k.1
