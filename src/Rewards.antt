-- ===== src/Rewards.antt =====
-- `FuelFeeCollector`, `RewardDistributor` and `CycleRewardsManager` of src/rewards.rs.
mod Shares
mod Examples
use silver_consensus.Base.{
  ℕ, ◌+◌, ◌/◌, ◌-◌, Bool, List, [], ◌∷◌, ◌++◌, length, is_empty, ◌==◌, ◌||◌, ltb, if◌then◌else◌,
}
use silver_consensus.Base.Word.{add64, sat_add64, sat_mul64}
use silver_consensus.Base.Dict.{Dict, insert}
use silver_consensus.Core.{FloatApi}

pub record TransactionFee : Type 0 where
  pub digest : ℕ
  pub fuel_consumed : ℕ
  pub fuel_price : ℕ
  pub total_fee : ℕ

pub record FuelFeeCollector : Type 0 where
  pub total_fees : ℕ
  pub transaction_fees : List TransactionFee

-- `FuelFeeCollector::new`
unfoldable pub new_collector : FuelFeeCollector
new_collector = record { total_fees = 0; transaction_fees = [] }

unfoldable pub collect_fee : ℕ → ℕ → ℕ → FuelFeeCollector → FuelFeeCollector
collect_fee digest fuel_consumed fuel_price c =
    let total_fee = sat_mul64 fuel_consumed fuel_price in
    let fee : TransactionFee = record {
      digest = digest;
      fuel_consumed = fuel_consumed;
      fuel_price = fuel_price;
      total_fee = total_fee;
    } in
    record c {
      transaction_fees = c.transaction_fees ++ fee ∷ [];
      total_fees = sat_add64 c.total_fees total_fee;
    }

unfoldable pub average_fee : FuelFeeCollector → ℕ
average_fee c = if is_empty c.transaction_fees then 0 else c.total_fees / length c.transaction_fees

unfoldable pub reset : FuelFeeCollector → FuelFeeCollector
reset c = record c { total_fees = 0; transaction_fees = [] }

module _ (fl : FloatApi) where
  -- a validator's stake and participation rate
  abbrev pub Standing : Type 0
  Standing = ℕ × fl.F64

  pub record ValidatorReward : Type 0 where
    pub validator_id : ℕ
    pub stake : ℕ
    pub stake_weight : fl.F64
    pub participation_rate : fl.F64
    pub base_reward : ℕ
    pub penalty : ℕ
    pub final_reward : ℕ

  pub record RewardDistributor : Type 0 where
    pub min_participation_rate : fl.F64
    pub penalty_rate : fl.F64

  -- `validators.values().map(|(stake, _)| stake).sum()`
  unfoldable pub total_stake : Dict Standing → ℕ
  total_stake [] = 0
  total_stake ((v, s) ∷ d) = add64 s.0 (total_stake d)

  -- the reward of one validator
  unfoldable pub reward_of : ℕ → ℕ → ℕ → Standing → RewardDistributor → ValidatorReward
  reward_of total_fees total validator_id (stake, rate) b =
      let stake_weight = fl.div (fl.of_u64 stake) (fl.of_u64 total) in
      let base_reward = fl.to_u64 (fl.mul (fl.of_u64 total_fees) stake_weight) in
      let penalty =
        if fl.lt rate b.min_participation_rate
        then fl.to_u64 (fl.mul (fl.of_u64 base_reward) b.penalty_rate)
        else 0 in
      record {
        validator_id = validator_id;
        stake = stake;
        stake_weight = stake_weight;
        participation_rate = rate;
        base_reward = base_reward;
        penalty = penalty;
        final_reward = base_reward - penalty;
      }

  -- the loop over the validators
  unfoldable pub rewards_from :
      ℕ → ℕ → Dict Standing → RewardDistributor → Dict ValidatorReward → Dict ValidatorReward
  rewards_from total_fees total [] b rewards = rewards
  rewards_from total_fees total ((v, s) ∷ d) b rewards =
      rewards_from total_fees total d b (insert v (reward_of total_fees total v s b) rewards)

  unfoldable pub calculate_rewards : ℕ → Dict Standing → RewardDistributor → Dict ValidatorReward
  calculate_rewards total_fees validators b =
      if is_empty validators || (total_fees == 0)
      then []
      else if total_stake validators == 0
      then []
      else rewards_from total_fees (total_stake validators) validators b []

  unfoldable pub distribute_cycle_rewards :
      FuelFeeCollector → Dict Standing → RewardDistributor → Dict ValidatorReward
  distribute_cycle_rewards c validators b = calculate_rewards c.total_fees validators b

  pub record CycleRewardsManager : Type 0 where
    pub collector : FuelFeeCollector
    pub distributor : RewardDistributor
    pub current_cycle : ℕ

  unfoldable pub new : RewardDistributor → CycleRewardsManager
  new distributor = record {
    collector = new_collector;
    distributor = distributor;
    current_cycle = 0;
  }

  unfoldable pub collect_transaction_fee : ℕ → ℕ → ℕ → CycleRewardsManager → CycleRewardsManager
  collect_transaction_fee digest fuel_consumed fuel_price m = record m {
    collector = collect_fee digest fuel_consumed fuel_price m.collector;
  }

  unfoldable pub end_cycle :
      Dict Standing → CycleRewardsManager → Dict ValidatorReward × CycleRewardsManager
  end_cycle validators m = (
    distribute_cycle_rewards m.collector validators m.distributor,
    record m { collector = reset m.collector; current_cycle = add64 m.current_cycle 1 },
  )
