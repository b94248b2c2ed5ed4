-- ===== src/ValidatorSet/Cycle.antt =====
-- `reconfigure_at_cycle_end` of src/validator.rs, which reads the stakes of src/staking.rs and
-- src/delegation.rs. The clock is an argument.
use silver_consensus.Base.{
  ℕ, ◌+◌, ◌≡◌, ◌<◌, refl, false, List, [], ◌∷◌, ◌++◌, is_empty, length, if◌then◌else◌, arith,
  member, IsDistinct,
}
use silver_consensus.Base.Word.{add64, add64_exact, u64_mod}
use silver_consensus.Base.Dict.{Dict, keys, contains_key, sum_values}
use silver_consensus.Base.Outcome.{Result, ok, err}
use silver_consensus.Core.{MetadataApi}
use silver_consensus.Staking.Manager.{
  StakingManager, get_active_stake, meets_minimum_stake, get_staked_validators,
}
use silver_consensus.Delegation.Manager.{DelegationManager, get_validator_delegated_stake}
use silver_consensus.ValidatorSet.{
  ValidatorSet, ValidatorSetChangeEvent, ValidatorError, no_stake_found,
}
use silver_consensus.ValidatorSet.Info.{ValidatorInfo}

module _ (api : MetadataApi) (staking : StakingManager) (delegation : DelegationManager) where
  -- steps 2 and 3: the validators to remove, and the others
  unfoldable pub to_remove : Dict (ValidatorInfo api) → List ℕ
  to_remove [] = []
  to_remove ((v, info) ∷ d) =
      let rest = to_remove d in if meets_minimum_stake v staking then rest else v ∷ rest

  unfoldable pub remaining : Dict (ValidatorInfo api) → Dict (ValidatorInfo api)
  remaining [] = []
  remaining ((v, info) ∷ d) =
      let rest = remaining d in if meets_minimum_stake v staking then (v, info) ∷ rest else rest

  -- step 4: what is reported as added. The insertion is under a test that fails, so none is added.
  unfoldable pub reported : Dict (ValidatorInfo api) → List ℕ → List ℕ
  reported d [] = []
  reported d (v ∷ vs) = let rest = reported d vs in if contains_key v d then rest else v ∷ rest

  abbrev pub new_total_stake : ℕ → ℕ
  new_total_stake v =
      add64 (get_active_stake v staking) (get_validator_delegated_stake v delegation)

  -- step 5: the stakes of the validators, and their total
  unfoldable pub update_stakes : Dict (ValidatorInfo api) → Dict (ValidatorInfo api) × ℕ
  update_stakes [] = ([], 0)
  update_stakes ((v, info) ∷ d) =
      let (rest, total) = update_stakes d in
      let stake = new_total_stake v in
      ((v, record info { stake = stake }) ∷ rest, add64 stake total)

  unfoldable pub reconfigure_at_cycle_end :
      ℕ → ValidatorSet api → Result ValidatorError ValidatorSetChangeEvent × ValidatorSet api
  reconfigure_at_cycle_end now s =
      let staked = get_staked_validators staking in
      let kept = remaining s.validators in
      let (validators, total) = update_stakes kept in
      let event : ValidatorSetChangeEvent = record {
        cycle = s.current_cycle;
        added = reported kept staked;
        removed = to_remove s.validators;
        total_validators = length validators;
        total_stake = total;
        timestamp = now;
      } in
      if is_empty staked then (err no_stake_found, s) else (
        ok event,
        record s {
          validators = validators;
          total_stake = total;
          change_history = s.change_history ++ event ∷ [];
        },
      )

  -- the stake that the managers hold for validators, with no wrap-around
  unfoldable pub managed : Dict (ValidatorInfo api) → ℕ
  managed [] = 0
  managed ((v, info) ∷ d) =
      get_active_stake v staking + get_validator_delegated_stake v delegation + managed d

  member-remaining :
      (k : ℕ) (d : Dict (ValidatorInfo api))
      → member k (keys d) ≡ false
      → member k (keys (remaining d)) ≡ false
  unfolding remaining
  member-remaining k [] h = refl
  member-remaining k ((v, info) ∷ d) h = ground (arith, member-remaining k d, h)

  remaining-IsDistinct :
      (d : Dict (ValidatorInfo api)) → IsDistinct (keys d) → IsDistinct (keys (remaining d))
  unfolding remaining
  remaining-IsDistinct [] h = tt
  remaining-IsDistinct ((v, info) ∷ d) h =
      ground (arith, remaining-IsDistinct d h.1, member-remaining v d h.0)

  keys-update_stakes : (d : Dict (ValidatorInfo api)) → keys (update_stakes d).0 ≡ keys d
  unfolding update_stakes
  keys-update_stakes [] = refl
  keys-update_stakes ((v, info) ∷ d) = rw (keys-update_stakes d) refl

  update_stakes_total :
      (d : Dict (ValidatorInfo api))
      → managed d < u64_mod
      → ((update_stakes d).1 ≡ managed d)
        × (sum_values (λ (i : ValidatorInfo api). i.stake) (update_stakes d).0 ≡ managed d)
  unfolding update_stakes managed
  update_stakes_total [] fits = (refl, refl)
  update_stakes_total ((v, info) ∷ d) fits =
      let (total, summed) = update_stakes_total d (omega arith) in
      let a = get_active_stake v staking in
      let b = get_validator_delegated_stake v delegation in
      let own = add64_exact a b (omega arith) in
      let all = add64_exact (a + b) (managed d) (omega arith) in
      (rw (own, total) all, omega (arith, own, summed))

  -- the keys are distinct and the total is the sum, where that fits
  pub reconfigure_totals :
      (s : ValidatorSet api)
      → IsDistinct (keys s.validators)
      → managed (remaining s.validators) < u64_mod
      → let (validators, total) = update_stakes (remaining s.validators) in
        IsDistinct (keys validators)
        × (total ≡ sum_values (λ (i : ValidatorInfo api). i.stake) validators)
        × (total < u64_mod)
  reconfigure_totals s distinct fits =
      let kept = remaining s.validators in
      let (total, summed) = update_stakes_total kept fits in
      (
        rw (keys-update_stakes kept) (remaining-IsDistinct s.validators distinct),
        omega (arith, total, summed),
        omega (arith, total, fits),
      )
