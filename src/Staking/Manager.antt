-- ===== src/Staking/Manager.antt =====
-- `StakingManager` of src/staking.rs.
use silver_consensus.Base.{
  ℕ, Bool, false, Option, none, some, List, [], ◌∷◌, ltb, ◌||◌, if◌then◌else◌, ◌==◌, is_empty, keep,
}
use silver_consensus.Base.Word.{add64, sub64}
use silver_consensus.Base.Dict.{Dict, lookup, insert, remove}
use silver_consensus.Base.Outcome.{Result, ok, err}
use silver_consensus.Tiers.Info.{TierChangeEvent}
use silver_consensus.Tiers.Manager.{push_event}
use silver_consensus.Staking.Stake.{
  StakingError, below_minimum, no_stake, still_staked, StakeDeposit, UnstakingRequest,
  ValidatorStake, min_stake_amount, new_deposit, new_stake, add_deposit,
}
use silver_consensus.Staking.Stake

pub record StakingManager : Type 0 where
  pub stakes : Dict ValidatorStake
  pub total_staked : ℕ
  pub current_cycle : ℕ
  pub all_tier_changes : List TierChangeEvent

abbrev pub empty : StakingManager
empty = record { stakes = []; total_staked = 0; current_cycle = 0; all_tier_changes = [] }

-- `entry(..).or_insert_with(..)`
unfoldable pub stake_or_new : ℕ → StakingManager → ValidatorStake
stake_or_new validator_id m = elim (lookup validator_id m.stakes) [
  | none ↦ new_stake validator_id
  | some s ↦ s
]

-- the last part of `deposit_stake`
unfoldable pub book_deposit :
    ℕ
    → ℕ
    → StakeDeposit
    → ℕ
    → StakingManager
    → Result StakingError (Option TierChangeEvent) × StakingManager
book_deposit validator_id amount deposit now m =
    let (event, s) = add_deposit deposit m.current_cycle now (stake_or_new validator_id m) in
    (
      ok event,
      record m {
        stakes = insert validator_id s m.stakes;
        total_staked = add64 m.total_staked amount;
        all_tier_changes = push_event event m.all_tier_changes;
      },
    )

unfoldable pub deposit_stake :
    ℕ
    → ℕ
    → List ℕ
    → ℕ
    → StakingManager
    → Result StakingError (Option TierChangeEvent) × StakingManager
deposit_stake validator_id amount deposit_tx now m =
    if ltb amount min_stake_amount
    then (err below_minimum, m)
    else elim (new_deposit validator_id amount deposit_tx now) [
      | err e ↦ (err e, m)
      | ok deposit ↦ book_deposit validator_id amount deposit now m
    ]

-- the stake is changed in place, inside the map
unfoldable pub request_unstake :
    ℕ
    → ℕ
    → ℕ
    → StakingManager
    → Result StakingError (UnstakingRequest × Option TierChangeEvent) × StakingManager
request_unstake validator_id amount now m = elim (lookup validator_id m.stakes) [
  | none ↦ (err no_stake, m)
  | some s ↦
      let (r, s') = Stake.request_unstake amount m.current_cycle now s in
      elim r [
        | err e ↦ (err e, record m { stakes = insert validator_id s' m.stakes })
        | ok (request, event) ↦ (
          ok (request, event),
          record m {
            stakes = insert validator_id s' m.stakes;
            all_tier_changes = push_event event m.all_tier_changes;
          },
        )
      ]
]

-- the inner loop of `process_unbonding`
abbrev pub pay_out : List UnstakingRequest → ℕ → ℕ
pay_out [] total = total
pay_out (r ∷ rs) total = pay_out rs (sub64 total r.amount)

-- The loop of `process_unbonding` over the stakes: those completed by validator, the stakes, and the
-- total.
unfoldable pub unbond_all :
    ℕ → Dict ValidatorStake → ℕ → Dict (List UnstakingRequest) × Dict ValidatorStake × ℕ
unbond_all now [] total = ([], [], total)
unbond_all now ((k, s) ∷ d) total =
    let (completed, s') = Stake.process_unbonding now s in
    let (by_validator, d', total') = unbond_all now d (pay_out completed total) in
    (
      (if is_empty completed then by_validator else (k, completed) ∷ by_validator),
      (k, s') ∷ d',
      total',
    )

unfoldable pub process_unbonding :
    ℕ → StakingManager → Dict (List UnstakingRequest) × StakingManager
process_unbonding now m =
    let (by_validator, stakes, total) = unbond_all now m.stakes m.total_staked in
    (by_validator, record m { stakes = stakes; total_staked = total })

unfoldable pub get_active_stake : ℕ → StakingManager → ℕ
get_active_stake validator_id m = elim (lookup validator_id m.stakes) [
  | none ↦ 0
  | some s ↦ s.active_stake
]

unfoldable pub meets_minimum_stake : ℕ → StakingManager → Bool
meets_minimum_stake validator_id m = elim (lookup validator_id m.stakes) [
  | none ↦ false
  | some s ↦ Stake.meets_minimum_stake s
]

staked : Dict ValidatorStake → List ℕ
staked [] = []
staked (e ∷ d) = let rest = staked d in if ltb 0 e.1.active_stake then e.0 ∷ rest else rest

unfoldable pub get_staked_validators : StakingManager → List ℕ
unfolding staked
get_staked_validators m = staked m.stakes

unfoldable pub remove_validator :
    ℕ → StakingManager → Result StakingError (Unit {0}) × StakingManager
remove_validator validator_id m =
    let gone : Result StakingError (Unit {0}) × StakingManager =
      (ok tt, record m { stakes = remove validator_id m.stakes }) in
    elim (lookup validator_id m.stakes) [
      | none ↦ gone
      | some s ↦
          if ltb 0 s.active_stake || ltb 0 s.unbonding_stake then (err still_staked, m) else gone
    ]

sum_power : Dict ValidatorStake → ℕ
sum_power [] = 0
sum_power (e ∷ d) = add64 (Stake.effective_voting_power e.1) (sum_power d)

unfoldable pub total_voting_power : StakingManager → ℕ
unfolding sum_power
total_voting_power m = sum_power m.stakes

unfoldable pub get_validator_tier_changes : ℕ → StakingManager → List TierChangeEvent
get_validator_tier_changes validator_id m =
    keep (λ e. e.validator_id == validator_id) m.all_tier_changes

unfoldable pub advance_cycle : StakingManager → StakingManager
advance_cycle m = record m { current_cycle = add64 m.current_cycle 1 }
