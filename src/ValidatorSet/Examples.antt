-- ===== src/ValidatorSet/Examples.antt =====
-- Runs of src/validator.rs, and the theorems at concrete inputs.
use silver_consensus.Base.{
  ℕ, ◌*◌, ◌<◌, ◌≡◌, refl, ◌↔◌, Bool, true, false, List, [], ◌∷◌, arith, ◌==◌, member, replicate,
  IsDistinct,
}
use silver_consensus.Base.Word.{add64, mul64}
use silver_consensus.Base.Dict.{keys, sum_values}
use silver_consensus.Core.Plain.{PlainMetadata, plain_metadata}
use silver_consensus.Snapshot.Weight.{weight}
use silver_consensus.ValidatorSet.{
  ValidatorSet, with_min_stake, add_validator, remove_validator, record_participation,
  advance_cycle, has_quorum, calculate_stake_weight,
}
use silver_consensus.ValidatorSet.Info.{new_info, record_one, reset_cycle_stats}
use silver_consensus.ValidatorSet.Stakes.{
  Op, run, apply, stake_in, IsSummed, Fits, AllFit, run_total,
}
use silver_consensus.ValidatorSet.Cycle.{
  reconfigure_at_cycle_end, to_remove, remaining, reported, update_stakes, managed,
}
use silver_consensus.Staking.Stake
use silver_consensus.Staking.Manager.{
  StakingManager, empty, deposit_stake, book_deposit, stake_or_new, get_active_stake,
  meets_minimum_stake, get_staked_validators,
}
use silver_consensus.Tiers.{from_stake}
use silver_consensus.Tiers.Info.{tier_eq}
use silver_consensus.Delegation as Delegated
use silver_consensus.Delegation.{new_delegation, add_delegation}
use silver_consensus.Delegation.Manager as Delegations
use silver_consensus.Delegation.Manager.{DelegationManager, delegate, get_validator_delegated_stake}
use silver_consensus.ValidatorSet.Quorum.{stake_at, has_quorum_iff, quorums_meet}

abbrev validator : ℕ → PlainMetadata
validator n = record { number = n; stake = 100 }

-- validators 1 and 5 have stake, and 1 has more delegated to it
abbrev staking : StakingManager
staking =
    (deposit_stake 5 40000 (replicate 64 0) 3
      ((deposit_stake 1 20000 (replicate 64 0) 2 empty).1)).1

abbrev delegation : DelegationManager
delegation = (delegate 8 1 5000 4 Delegations.new).1

abbrev joining : List (Op plain_metadata)
joining =
    Op.add (validator 1)
    ∷ Op.add (validator 2)
    ∷ Op.add (validator 2)
    ∷ Op.participate 2 true
    ∷ Op.add (validator 3)
    ∷ Op.advance
    ∷ Op.add (validator 4)
    ∷ Op.remove_one 9
    ∷ Op.reconfigure staking delegation 7
    ∷ []

-- one line for the calls of this run
abbrev runs : Unit {0}
unfolding run apply with_min_stake add_validator new_info remove_validator record_participation
    record_one advance_cycle reset_cycle_stats reconfigure_at_cycle_end to_remove remaining reported
    update_stakes get_active_stake meets_minimum_stake Stake.meets_minimum_stake
    get_staked_validators get_validator_delegated_stake deposit_stake delegate add64
    Stake.new_deposit book_deposit Stake.add_deposit Stake.update_tier tier_eq from_stake
    stake_or_new Stake.new_stake new_delegation Delegations.add_to add_delegation Delegations.entry
    Delegations.new Delegated.new_info
runs = tt

joining-AllFit : AllFit plain_metadata joining (with_min_stake plain_metadata 10)
joining-AllFit =
    unfold runs in
    unfold AllFit in
    unfold Fits in
    unfold managed in
    (
      omega arith,
      (
        omega arith,
        (omega arith, (tt, (omega arith, (tt, (omega arith, (tt, (omega arith, tt))))))),
      ),
    )

run_total_example :
    let s = run plain_metadata joining (with_min_stake plain_metadata 10) in
    IsDistinct (keys s.validators)
    × (s.total_stake ≡ sum_values (stake_in plain_metadata) s.validators)
run_total_example = run_total plain_metadata 10 joining joining-AllFit

abbrev four : ValidatorSet plain_metadata
four = record {
  validators =
      (1, new_info plain_metadata (validator 1))
      ∷ (2, new_info plain_metadata (validator 2))
      ∷ (3, new_info plain_metadata (validator 3))
      ∷ (4, new_info plain_metadata (validator 4))
      ∷ [];
  total_stake = 400;
  current_cycle = 0;
  change_history = [];
  min_stake = 10;
}

four-IsSummed : IsSummed plain_metadata four
unfolding new_info
four-IsSummed = record {
  distinct = (refl, (refl, (refl, (refl, tt))));
  summed = refl;
  fits = omega arith;
}

abbrev two_is_faulty : ℕ → Bool
two_is_faulty v = v == 2

has_quorum_iff_example :
    (has_quorum plain_metadata (3 ∷ 1 ∷ []) four ≡ true)
    ↔ (800 < 3 * weight (stake_at plain_metadata four.validators) (3 ∷ 1 ∷ []))
has_quorum_iff_example =
    has_quorum_iff plain_metadata four (3 ∷ 1 ∷ []) four-IsSummed (omega arith) (refl, (refl, tt))
      (refl, (refl, tt))

quorums_meet_example :
    (v : ℕ) × (member v (1 ∷ 2 ∷ 3 ∷ []) ≡ true)
    × (member v (4 ∷ 3 ∷ 2 ∷ []) ≡ true)
    × (two_is_faulty v ≡ false)
unfolding has_quorum calculate_stake_weight new_info add64 mul64
quorums_meet_example =
    quorums_meet plain_metadata four two_is_faulty (1 ∷ 2 ∷ 3 ∷ []) (4 ∷ 3 ∷ 2 ∷ []) four-IsSummed
      (omega arith) (omega arith) (refl, (refl, (refl, tt))) (refl, (refl, (refl, tt)))
      (refl, (refl, (refl, tt))) (refl, (refl, (refl, tt))) refl refl
