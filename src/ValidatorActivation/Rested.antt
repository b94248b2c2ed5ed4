-- ===== src/ValidatorActivation/Rested.antt =====
-- The cooldown between a deactivation and the next activation in src/validator_activation.rs.
use silver_consensus.Base.{
  ℕ, ◌+◌, ◌≤◌, ◌<◌, ◌≡◌, refl, ◌⊎◌, inl, inr, false, none, some, arith, after_test, after_guard, ap,
}
use silver_consensus.Base.Word.{add64_exact, u64_mod}
use silver_consensus.ValidatorActivation.{
  ValidatorStatus, is_active, is_suspended, ValidatorActivationRecord, new_record, activate,
  deactivate, set_active, is_cooling, suspend, withdraw,
}

-- A record that was deactivated at `d` is out of service until `d` and the cooldown, or was activated
-- after that.
unfoldable pub IsRestedSince : ℕ → ℕ → ℕ → ValidatorActivationRecord → Type 0
IsRestedSince cooldown t d r =
    ((e : ℕ) × (r.can_reactivate_at ≡ some e) × (d + cooldown ≤ e) × (is_active r.status ≡ false))
    ⊎ ((r.can_reactivate_at ≡ none)
        × ((a : ℕ) × (r.activated_at ≡ some a) × (d + cooldown ≤ a) × (a ≤ t)))

unfoldable pub IsRested : ℕ → ℕ → ValidatorActivationRecord → Type 0
IsRested cooldown t r =
    ((r.deactivated_at ≡ none) × (r.can_reactivate_at ≡ none))
    ⊎ ((d : ℕ) × (r.deactivated_at ≡ some d) × IsRestedSince cooldown t d r)

module _ (cooldown t now : ℕ) (r : ValidatorActivationRecord) (l : t ≤ now) where
  pub wait-IsRested : IsRested cooldown t r → IsRested cooldown now r
  unfolding IsRested IsRestedSince
  wait-IsRested (inl x) = inl x
  wait-IsRested (inr (d, e, inl x)) = inr (d, e, inl x)
  wait-IsRested (inr (d, e, inr (n, (a, at, after, before)))) =
      inr (d, e, inr (n, (a, at, after, omega (arith, before, l))))

  set_active-IsRested :
      is_cooling now r ≡ false → IsRested cooldown t r → IsRested cooldown now (set_active now r)
  unfolding IsRested IsRestedSince set_active is_cooling
  set_active-IsRested k (inl x) = inl (x.0, refl)
  set_active-IsRested k (inr (d, e, inl x)) =
      inr (d, e, inr (refl, (now, refl, ground (arith, k, x.1, x.2), omega arith)))
  set_active-IsRested k (inr (d, e, inr (n, (a, at, after, before)))) =
      inr (d, e, inr (refl, (now, refl, omega (arith, after, before, l), omega arith)))

  pub activate-IsRested : IsRested cooldown t r → IsRested cooldown now (activate now r).1
  unfolding activate
  activate-IsRested s =
      after_guard (IsRested cooldown now) (is_active r.status) _ _ (wait-IsRested s) (λ a.
        after_guard (IsRested cooldown now) (is_cooling now r) _ _ (wait-IsRested s)
          (λ k. set_active-IsRested k s))

  stopped-IsRested :
      (end : ℕ) (q : ValidatorActivationRecord)
      → q.can_reactivate_at ≡ some end
      → now + cooldown ≤ end
      → q.deactivated_at ≡ some now
      → is_active q.status ≡ false
      → IsRested cooldown now q
  unfolding IsRested IsRestedSince
  stopped-IsRested end q e l d i = inr (now, d, inl (end, e, l, i))

  pub deactivate-IsRested :
      (secs : ℕ)
      → cooldown ≤ secs
      → now + secs < u64_mod
      → IsRested cooldown t r
      → IsRested cooldown now (deactivate secs now r).1
  unfolding deactivate
  deactivate-IsRested secs long fits s =
      after_test (IsRested cooldown now) (is_active r.status) _ _
        (λ a.
          stopped-IsRested (now + secs) _ (ap some (add64_exact now secs fits))
            (omega (arith, long)) refl refl)
        (λ a. wait-IsRested s)

-- a status other than active
idle-IsRested :
    (cooldown t : ℕ) (status : ValidatorStatus) (r : ValidatorActivationRecord)
    → is_active status ≡ false
    → IsRested cooldown t r
    → IsRested cooldown t (record r { status = status })
unfolding IsRested IsRestedSince
idle-IsRested cooldown t status r i (inl x) = inl x
idle-IsRested cooldown t status r i (inr (d, e, inl x)) = inr (d, e, inl (x.0, x.1, x.2, i))
idle-IsRested cooldown t status r i (inr (d, e, inr x)) = inr (d, e, inr x)

pub suspend-IsRested :
    (cooldown t : ℕ) (r : ValidatorActivationRecord)
    → IsRested cooldown t r
    → IsRested cooldown t (suspend r).1
unfolding suspend
suspend-IsRested cooldown t r s =
    after_guard (IsRested cooldown t) (is_suspended r.status) _ _ s
      (λ a. idle-IsRested cooldown t _ r refl s)

pub withdraw-IsRested :
    (cooldown t : ℕ) (r : ValidatorActivationRecord)
    → IsRested cooldown t r
    → IsRested cooldown t (withdraw r).1
unfolding withdraw
withdraw-IsRested cooldown t r s = idle-IsRested cooldown t _ r refl s

pub new_record-IsRested : (cooldown t v : ℕ) → IsRested cooldown t (new_record v)
unfolding IsRested new_record
new_record-IsRested cooldown t v = inl (refl, refl)
