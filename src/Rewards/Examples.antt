-- ===== src/Rewards/Examples.antt =====
-- A run of the rewards manager of src/rewards.rs, and an instance of its theorem.
use silver_consensus.Base.{◌≡◌, ◌≤◌, refl, List, [], ◌∷◌, arith}
use silver_consensus.Base.Word.{add64, sat_add64, sat_mul64}
use silver_consensus.Base.Dict.{Dict}
use silver_consensus.Core.Plain.{plain_floats, plain_float_laws}
use silver_consensus.Rewards.{
  new_collector, collect_fee, reset, Standing, ValidatorReward, RewardDistributor, total_stake,
  reward_of, rewards_from, calculate_rewards, distribute_cycle_rewards, CycleRewardsManager, new,
  collect_transaction_fee, end_cycle,
}
use silver_consensus.Rewards.Shares.{Fuel, collect, IsFairShare, end_cycle_lem}

-- nine tenths of the snapshots, and half of the reward, in thousandths
abbrev distributor : RewardDistributor plain_floats
distributor = record { min_participation_rate = 900; penalty_rate = 500 }

abbrev fees : List Fuel
fees =
    record { digest = 1; consumed = 100; price = 5 }
    ∷ record { digest = 2; consumed = 50; price = 10 }
    ∷ []

-- validator 8 has taken part in half of the snapshots
abbrev standings : Dict (Standing plain_floats)
standings = (7, (60, 1000)) ∷ (8, (40, 500)) ∷ []

abbrev runs : Unit {0}
unfolding collect collect_transaction_fee collect_fee new new_collector reset total_stake reward_of
    rewards_from calculate_rewards distribute_cycle_rewards end_cycle add64 sat_add64 sat_mul64
runs = tt

abbrev reward_7 : ValidatorReward plain_floats
reward_7 = record {
  validator_id = 7;
  stake = 60;
  stake_weight = 600;
  participation_rate = 1000;
  base_reward = 600;
  penalty = 0;
  final_reward = 600;
}

abbrev reward_8 : ValidatorReward plain_floats
reward_8 = record {
  validator_id = 8;
  stake = 40;
  stake_weight = 400;
  participation_rate = 500;
  base_reward = 400;
  penalty = 200;
  final_reward = 200;
}

abbrev ready : CycleRewardsManager plain_floats
ready = collect plain_floats fees (new plain_floats distributor)

end_cycle_lem_example :
    IsFairShare plain_floats 1000 distributor reward_8
    × (400 ≤ 600)
    × ((end_cycle plain_floats standings ready).1.collector.total_fees ≡ 0)
end_cycle_lem_example =
    end_cycle_lem plain_floats plain_float_laws distributor fees standings 8 7 reward_8 reward_7
      (omega arith) (omega arith) (unfold runs in refl) (unfold runs in refl) (omega arith)
