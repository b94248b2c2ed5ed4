-- ===== src/ValidatorActivation/Service.antt =====
-- The time out of service that the activation manager of src/validator_activation.rs enforces.
use silver_consensus.Base.{
  ℕ, ◌+◌, ◌≤◌, ◌<◌, ◌≡◌, refl, inl, inr, some, List, [], ◌∷◌, ltb, arith, Option-cases, after_guard,
  after_test,
}
use silver_consensus.Base.Word.{u64_mod}
use silver_consensus.Base.Dict.{lookup, AllValues-lookup}
use silver_consensus.Core.{FloatApi}
use silver_consensus.ValidatorActivation.{
  is_active, ValidatorActivationRecord, activate, deactivate, suspend, withdraw,
}
use silver_consensus.ValidatorActivation.Manager.{
  ValidatorActivationManager, ActivationConfig, new, request_activation, request_deactivation,
  vote_on_request, advance_cycle, get_status,
}
use silver_consensus.ValidatorActivation.Calls.{
  Call, ask, ask_off, vote, finalize, tick, configure, start, stop, suspension, removal, change,
  apply, run, time, IsRegular, IsTimed,
}
use silver_consensus.ValidatorActivation.Rested.{
  IsRested, IsRestedSince, activate-IsRested, deactivate-IsRested, suspend-IsRested,
  withdraw-IsRested,
}
use silver_consensus.ValidatorActivation.Cooldown.{
  AreRested, same-AreRested, finalize-AreRested, with_record-AreRested,
}

module _ (fl : FloatApi) (cooldown : ℕ) where
  apply-AreRested :
      (c : Call fl) (t : ℕ) (m : ValidatorActivationManager fl)
      → t ≤ time t c
      → time t c + cooldown < u64_mod
      → IsRegular cooldown c
      → AreRested fl cooldown t m
      → AreRested fl cooldown (time t c) (apply fl c m)
  unfolding apply time IsRegular request_activation request_deactivation vote_on_request
      advance_cycle
  apply-AreRested (ask v stake power now) t m l fits g s =
      after_guard (AreRested fl cooldown t) (ltb stake m.config.min_stake_for_activation) _ _ s
        (λ a.
          after_guard (AreRested fl cooldown t) (ltb power m.config.min_voting_power) _ _ s (λ b.
            after_guard (AreRested fl cooldown t) (is_active (get_status fl v m)) _ _ s
              (λ c. same-AreRested fl cooldown t m _ refl refl s)))
  apply-AreRested (ask_off v now) t m l fits g s = elim (Option-cases (lookup v m.records)) [
    | inl e ↦ rw (e, apply, request_deactivation) s
    | inr (r, e) ↦
        rw (e, apply, request_deactivation)
          (after_test (AreRested fl cooldown t) (is_active r.status) _ _
            (λ a. same-AreRested fl cooldown t m _ refl refl s) (λ a. s))
  ]
  apply-AreRested (vote v in_favor power) t m l fits g s =
      elim (Option-cases (lookup v m.pending_requests)) [
        | inl e ↦ rw (e, apply, vote_on_request) s
        | inr (q, e) ↦ rw (e, apply, vote_on_request) (same-AreRested fl cooldown t m _ refl refl s)
      ]
  apply-AreRested (finalize v total now) t m l fits g s =
      finalize-AreRested fl cooldown v total t now m l fits s
  apply-AreRested (suspension v) t m l fits g s =
      with_record-AreRested fl cooldown v t t suspend m l (suspend-IsRested cooldown t) s
  apply-AreRested (removal v) t m l fits g s =
      with_record-AreRested fl cooldown v t t withdraw m l (withdraw-IsRested cooldown t) s
  apply-AreRested (start v now) t m l fits g s =
      with_record-AreRested fl cooldown v t now (activate now) m l
        (λ r x. activate-IsRested cooldown t now r l x) s
  apply-AreRested (stop v secs now) t m l fits g s =
      with_record-AreRested fl cooldown v t now (deactivate secs now) m l
        (λ r x. deactivate-IsRested cooldown t now r l secs g.0 g.1 x) s
  apply-AreRested (configure c) t m l fits g s = elim g [ ]
  apply-AreRested (change v f) t m l fits g s = elim g [ ]
  apply-AreRested tick t m l fits g s = same-AreRested fl cooldown t m _ refl refl s

  -- the time after the calls, with what holds then
  run-AreRested :
      (cs : List (Call fl)) (t : ℕ) (m : ValidatorActivationManager fl)
      → IsTimed cooldown t cs
      → AreRested fl cooldown t m
      → (now : ℕ) × AreRested fl cooldown now (run fl cs m)
  unfolding run IsTimed
  run-AreRested [] t m timed s = (t, s)
  run-AreRested (c ∷ cs) t m timed s =
      let (later, fits, regular, rest) = timed in
      run-AreRested cs (time t c) (apply fl c m) rest (apply-AreRested c t m later fits regular s)

  cooldown_left :
      (now d : ℕ) (r : ValidatorActivationRecord)
      → r.deactivated_at ≡ some d
      → IsRested cooldown now r
      → IsRestedSince cooldown now d r
  unfolding IsRested
  cooldown_left now d r e (inl x) = ground (arith, x.0, e)
  cooldown_left now d r e (inr (d', e', x)) =
      let same : d' ≡ d = ground (arith, e, e') in rw⁻¹ same x

-- After calls on a new activation manager in the order of their times, whose cooldowns end within u64,
-- that leave the configuration, change records by their methods only, and deactivate none through
-- `get_record_mut` with a shorter cooldown: a validator that was last deactivated at `d` is not active
-- and may not be activated before `d` and the cooldown, or was last activated no sooner than that.
pub cooldown_respected :
    (fl : FloatApi) (config : ActivationConfig fl) (cs : List (Call fl)) (v d : ℕ)
    (r : ValidatorActivationRecord)
    → IsTimed config.deactivation_cooldown_secs 0 cs
    → lookup v (run fl cs (new fl config)).records ≡ some r
    → r.deactivated_at ≡ some d
    → (now : ℕ) × IsRestedSince config.deactivation_cooldown_secs now d r
unfolding new
cooldown_respected fl config cs v d r timed found e =
    let cooldown = config.deactivation_cooldown_secs in
    let start : AreRested fl cooldown 0 (new fl config) = record {
      configured = refl;
      rested = tt;
    } in
    let (now, s) = run-AreRested fl cooldown cs 0 (new fl config) timed start in
    let m = run fl cs (new fl config) in
    let rested = AllValues-lookup (IsRested cooldown now) v r m.records s.rested found in
    (now, cooldown_left fl cooldown now d r e rested)
