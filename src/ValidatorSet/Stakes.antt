-- ===== src/ValidatorSet/Stakes.antt =====
-- The total of `ValidatorSet` of src/validator.rs against the stakes of its validators, over any
-- history of calls.
use silver_consensus.Base.{
  ℕ, ◌+◌, ◌≤◌, ◌<◌, ◌≡◌, refl, sym, ap, ◌∙◌, inl, inr, Bool, List, [], ◌∷◌, arith, IsDistinct,
  is_empty, after_guard, Option-cases,
}
use silver_consensus.Base.Word.{u64_mod, add64_exact, sub64_exact}
use silver_consensus.Base.Dict.{
  Dict, lookup, keys, sum_values, IsDistinct-insert, IsDistinct-remove, sum_values-insert_new,
  sum_values-insert_old, sum_values-remove,
}
use silver_consensus.Core.{MetadataApi}
use silver_consensus.ValidatorSet.{
  ValidatorSet, with_min_stake, add_validator, remove_validator, record_participation,
  advance_cycle, set_min_stake, clear, reset_all,
}
use silver_consensus.Staking.Manager.{StakingManager, get_staked_validators}
use silver_consensus.Delegation.Manager.{DelegationManager}
use silver_consensus.ValidatorSet.Cycle.{
  reconfigure_at_cycle_end, managed, remaining, reconfigure_totals,
}
use silver_consensus.ValidatorSet.Info.{ValidatorInfo, new_info, record_one, reset_cycle_stats}

module _ (api : MetadataApi) where
  abbrev pub stake_in : ValidatorInfo api → ℕ
  stake_in v = v.stake

  -- a validator has taken part in no more snapshots than there were
  abbrev pub IsCounted : ValidatorInfo api → Type 0
  IsCounted v = v.snapshots_participated ≤ v.total_snapshots

  pub record IsSummed (s : ValidatorSet api) : Type 0 where
    pub distinct : IsDistinct (keys s.validators)
    pub summed : s.total_stake ≡ sum_values stake_in s.validators
    pub fits : s.total_stake < u64_mod

  pub data Op : Type 0 where
    add : api.Metadata → Op
    remove_one : ℕ → Op
    participate : ℕ → Bool → Op
    advance : Op
    set_min : ℕ → Op
    clear_all : Op
    reconfigure : StakingManager → DelegationManager → ℕ → Op

  unfoldable pub apply : Op → ValidatorSet api → ValidatorSet api
  apply (add metadata) s = (add_validator api metadata s).1
  apply (remove_one v) s = (remove_validator api v s).1
  apply (participate v took) s = record_participation api v took s
  apply advance s = (advance_cycle api s).1
  apply (set_min n) s = set_min_stake api n s
  apply clear_all s = clear api s
  apply (reconfigure staking delegation now) s =
      (reconfigure_at_cycle_end api staking delegation now s).1

  unfoldable pub run : List Op → ValidatorSet api → ValidatorSet api
  run [] s = s
  run (op ∷ ops) s = run ops (apply op s)

  -- the stake that the call brings to the set fits 64 bits with what is left of it
  unfoldable pub Fits : Op → ValidatorSet api → Type 0
  Fits (add metadata) s = s.total_stake + api.stake_amount metadata < u64_mod
  Fits (reconfigure staking delegation now) s =
      managed api staking delegation (remaining api staking delegation s.validators) < u64_mod
  Fits _ s = Unit

  -- each call does, where it comes
  unfoldable pub AllFit : List Op → ValidatorSet api → Type 0
  AllFit [] s = Unit
  AllFit (op ∷ ops) s = Fits op s × AllFit ops (apply op s)

  sum_values-reset :
      (d : Dict (ValidatorInfo api)) → sum_values stake_in (reset_all api d) ≡ sum_values stake_in d
  unfolding reset_all reset_cycle_stats
  sum_values-reset [] = refl
  sum_values-reset (e ∷ d) = omega (arith, sum_values-reset d)

  keys-reset : (d : Dict (ValidatorInfo api)) → keys (reset_all api d) ≡ keys d
  unfolding reset_all
  keys-reset [] = refl
  keys-reset (e ∷ d) = ap (λ ks. e.0 ∷ ks) (keys-reset d)

  add-IsSummed :
      (x : api.Metadata) (s : ValidatorSet api)
      → s.total_stake + api.stake_amount x < u64_mod
      → IsSummed s
      → IsSummed (add_validator api x s).1
  unfolding add_validator new_info
  add-IsSummed x s fits h = elim (Option-cases (lookup (api.id x) s.validators)) [
    | inr (old, found) ↦ ground arith
    | inl missing ↦ ground (
      arith,
      add64_exact s.total_stake (api.stake_amount x) fits,
      IsDistinct-insert (api.id x) (new_info api x) s.validators h.distinct,
      sum_values-insert_new stake_in (api.id x) (new_info api x) s.validators missing,
    )
  ]

  remove-IsSummed :
      (v : ℕ) (s : ValidatorSet api) → IsSummed s → IsSummed (remove_validator api v s).1
  unfolding remove_validator
  remove-IsSummed v s h = elim (Option-cases (lookup v s.validators)) [
    | inl missing ↦ ground arith
    | inr (info, found) ↦ ground (
      arith,
      sum_values-remove stake_in v info s.validators found,
      sub64_exact s.total_stake info.stake,
      IsDistinct-remove v s.validators h.distinct,
    )
  ]

  participate-IsSummed :
      (v : ℕ) (took : Bool) (s : ValidatorSet api)
      → IsSummed s
      → IsSummed (record_participation api v took s)
  unfolding record_participation record_one
  participate-IsSummed v took s h = elim (Option-cases (lookup v s.validators)) [
    | inl missing ↦ ground arith
    | inr (info, found) ↦ ground (
      arith,
      sum_values-insert_old stake_in v (record_one api took info) info s.validators found,
      IsDistinct-insert v (record_one api took info) s.validators h.distinct,
    )
  ]

  advance-IsSummed : (s : ValidatorSet api) → IsSummed s → IsSummed (advance_cycle api s).1
  unfolding advance_cycle
  advance-IsSummed s h = record {
    distinct = rw (keys-reset s.validators) h.distinct;
    summed = h.summed ∙ sym (sum_values-reset s.validators);
    fits = h.fits;
  }

  reconfigure-IsSummed :
      (staking : StakingManager) (delegation : DelegationManager) (now : ℕ) (s : ValidatorSet api)
      → managed api staking delegation (remaining api staking delegation s.validators) < u64_mod
      → IsSummed s
      → IsSummed (reconfigure_at_cycle_end api staking delegation now s).1
  unfolding reconfigure_at_cycle_end
  reconfigure-IsSummed staking delegation now s fits h =
      let (distinct, summed, small) = reconfigure_totals api staking delegation s h.distinct fits in
      after_guard IsSummed (is_empty (get_staked_validators staking)) _ _ h
        (λ some_staked. record { distinct = distinct; summed = summed; fits = small })

  apply-IsSummed : (op : Op) (s : ValidatorSet api) → Fits op s → IsSummed s → IsSummed (apply op s)
  unfolding apply Fits
  apply-IsSummed (add metadata) s fits h = add-IsSummed metadata s fits h
  apply-IsSummed (remove_one v) s fits h = remove-IsSummed v s h
  apply-IsSummed (participate v took) s fits h = participate-IsSummed v took s h
  apply-IsSummed advance s fits h = advance-IsSummed s h
  apply-IsSummed (set_min n) s fits h =
      unfold set_min_stake in (record { distinct = h.distinct; summed = h.summed; fits = h.fits })
  apply-IsSummed clear_all s fits h =
      unfold clear in (record { distinct = tt; summed = refl; fits = omega arith })
  apply-IsSummed (reconfigure staking delegation now) s fits h =
      reconfigure-IsSummed staking delegation now s fits h

  run-IsSummed :
      (ops : List Op) (s : ValidatorSet api) → AllFit ops s → IsSummed s → IsSummed (run ops s)
  unfolding run AllFit
  run-IsSummed [] s fits h = h
  run-IsSummed (op ∷ ops) s fits h =
      run-IsSummed ops (apply op s) fits.1 (apply-IsSummed op s fits.0 h)

  -- After any calls on an empty set, changes of cycle by the staking and delegation managers included,
  -- no validator stands twice in the set and the set's total is the sum of its validators' stakes;
  -- where the total with the stake that `add_validator` adds, and the stake that the managers hold for
  -- the validators that a change of cycle leaves, fit 64 bits.
  pub run_total :
      (min_stake : ℕ) (ops : List Op)
      → AllFit ops (with_min_stake api min_stake)
      → let s = run ops (with_min_stake api min_stake) in
        IsDistinct (keys s.validators) × (s.total_stake ≡ sum_values stake_in s.validators)
  run_total min_stake ops fits =
      let h =
        run-IsSummed ops (with_min_stake api min_stake) fits (
          unfold with_min_stake in (record { distinct = tt; summed = refl; fits = omega arith })) in
      (h.distinct, h.summed)
