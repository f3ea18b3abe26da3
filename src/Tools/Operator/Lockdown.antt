-- ===== src/Tools/Operator/Lockdown.antt =====
-- agent/core/operator.py: what a lockdown closes, and that an unlock opens it again.
use agent_life_space.Prelude.{
  ℕ, String, false, none, List, [], ◌∷◌, ◌≡◌, refl, inl, inr, Bool-cases, lookup, keys, elem, ◌==◌,
  eq_of_==, ==_refl, filter, lookup-insert, lookup-erase, arith, ◌||◌, if◌then◌else◌, Dict,
}
use agent_life_space.Tools.Capabilities.{ToolCapability, is_external, tool_capabilities}
use agent_life_space.Tools.Operator.{
  Controls, CapabilityOverride, disable, enable, is_disabled, lock_tools, lockdown, enable_each,
  unlock, record_toggle,
}

-- The tools of a table that reach outside.
abbrev pub outside_names : Dict ToolCapability → List String
outside_names d = keys (filter (λ e. is_external e.1.side_effect) d)

lookup-absent {ℓ} :
    {V : Type ℓ} (k : String) (d : Dict V) → elem k (keys d) ≡ false → lookup k d ≡ none
unfolding elem lookup
lookup-absent k [] h = refl
lookup-absent k ((j, v) ∷ d) h = ground (arith, lookup-absent k d, eq_of_== j k, ==_refl j)

module _ (reason by : String) (now : ℕ) where
  is_disabled-disable :
      (j k : String) (c : Controls)
      → is_disabled j (disable k reason by now c) ≡ ((j == k) || is_disabled j c)
  unfolding is_disabled disable record_toggle
  is_disabled-disable j k c =
      let o : CapabilityOverride = record {
        tool_name = k;
        enabled = false;
        reason = reason;
        set_by = by;
        set_at = now;
      } in
      ground (arith, lookup-insert k j o c.overrides, eq_of_== j k, eq_of_== k j, ==_refl j)

  is_disabled-lock_tools :
      (j : String) (d : Dict ToolCapability) (c : Controls)
      → is_disabled j (lock_tools reason by now d c) ≡ (elem j (outside_names d) || is_disabled j c)
  unfolding lock_tools elem
  is_disabled-lock_tools j [] c = refl
  is_disabled-lock_tools j ((k, cap) ∷ d) c = elim (Bool-cases (is_external cap.side_effect)) [
    | inl e ↦ rw e (
        ground (
          arith,
          is_disabled-lock_tools j d (disable k reason by now c),
          is_disabled-disable j k c,
        ))
    | inr e ↦ rw e (is_disabled-lock_tools j d c)
  ]

  lookup-enable_each :
      (j : String) (ks : List String) (c : Controls)
      → lookup j (enable_each reason by now ks c).overrides
        ≡ (if elem j ks then none else lookup j c.overrides)
  unfolding enable_each enable record_toggle elem
  lookup-enable_each j [] c = refl
  lookup-enable_each j (k ∷ ks) c = ground (
    arith,
    lookup-enable_each j ks (enable k reason by now c),
    lookup-erase k j c.overrides,
    eq_of_== j k,
    eq_of_== k j,
    ==_refl j,
  )

  is_disabled-unlock : (j : String) (c : Controls) → is_disabled j (unlock reason by now c) ≡ false
  unfolding is_disabled unlock
  is_disabled-unlock j c = elim (Bool-cases (elem j (keys c.overrides))) [
    | inl e ↦ rw (lookup-enable_each j (keys c.overrides) c) (rw e refl)
    | inr e ↦
        rw (lookup-enable_each j (keys c.overrides) c)
          (rw e (rw (lookup-absent j c.overrides e) refl))
  ]

-- A lockdown disables exactly the tools whose side effect is external or destructive, besides
-- those that were disabled before; a later unlock, at any time and for any reason, leaves no tool
-- disabled.
pub is_disabled-lockdown :
    (reason by : String) (now : ℕ) (reason' by' : String) (later : ℕ) (j : String) (c : Controls)
    → (is_disabled j (lockdown reason by now c)
        ≡ (elem j (outside_names tool_capabilities) || is_disabled j c))
      × (is_disabled j (unlock reason' by' later (lockdown reason by now c)) ≡ false)
unfolding lockdown
is_disabled-lockdown reason by now reason' by' later j c = (
  is_disabled-lock_tools reason by now j tool_capabilities c,
  is_disabled-unlock reason' by' later j (lockdown reason by now c),
)
