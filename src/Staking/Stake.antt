-- ===== src/Staking/Stake.antt =====
-- `StakeDeposit`, `UnstakingRequest` and `ValidatorStake` of src/staking.rs.
use silver_consensus.Base.{
  ℕ, Bool, true, false, not, Option, none, some, List, [], ◌∷◌, ◌++◌, ltb, leb, ◌==◌, ◌&&◌,
  if◌then◌else◌, length, keep,
}
use silver_consensus.Base.Word.{add64, sub64}
use silver_consensus.Base.Outcome.{Result, ok, err}
use silver_consensus.Tiers.{ValidatorTier, bronze, from_stake, voting_power}
use silver_consensus.Tiers.Info.{TierChangeEvent, tier_eq}

abbrev pub min_stake_amount : ℕ
min_stake_amount = 10000

-- `7 * 24 * 60 * 60`
abbrev pub unbonding_period_secs : ℕ
unbonding_period_secs = 604800

pub data StakingError : Type 0 where
  below_minimum bad_digest not_enough no_stake still_staked : StakingError

pub record StakeDeposit : Type 0 where
  pub validator_id : ℕ
  pub amount : ℕ
  pub tier : ValidatorTier
  pub deposited_at : ℕ
  pub deposit_tx : List ℕ

-- `StakeDeposit::new`, which wants a transaction digest of 64 bytes
unfoldable pub new_deposit : ℕ → ℕ → List ℕ → ℕ → Result StakingError StakeDeposit
new_deposit validator_id amount deposit_tx now =
    if ltb amount min_stake_amount
    then err below_minimum
    else if length deposit_tx == 64
    then ok (record {
      validator_id = validator_id;
      amount = amount;
      tier = from_stake amount;
      deposited_at = now;
      deposit_tx = deposit_tx;
    })
    else err bad_digest

pub record UnstakingRequest : Type 0 where
  pub validator_id : ℕ
  pub amount : ℕ
  pub requested_at : ℕ
  pub unbonds_at : ℕ
  pub completed : Bool

unfoldable pub new_request : ℕ → ℕ → ℕ → UnstakingRequest
new_request validator_id amount now = record {
  validator_id = validator_id;
  amount = amount;
  requested_at = now;
  unbonds_at = add64 now unbonding_period_secs;
  completed = false;
}

unfoldable pub is_unbonded : ℕ → UnstakingRequest → Bool
is_unbonded now r = leb r.unbonds_at now

unfoldable pub remaining_unbonding_time : ℕ → UnstakingRequest → ℕ
remaining_unbonding_time now r = if leb r.unbonds_at now then 0 else sub64 r.unbonds_at now

pub record ValidatorStake : Type 0 where
  pub validator_id : ℕ
  pub total_stake : ℕ
  pub active_stake : ℕ
  pub unbonding_stake : ℕ
  pub current_tier : ValidatorTier
  pub deposits : List StakeDeposit
  pub unstaking_requests : List UnstakingRequest
  pub tier_history : List TierChangeEvent

unfoldable pub new_stake : ℕ → ValidatorStake
new_stake validator_id = record {
  validator_id = validator_id;
  total_stake = 0;
  active_stake = 0;
  unbonding_stake = 0;
  current_tier = bronze;
  deposits = [];
  unstaking_requests = [];
  tier_history = [];
}

-- the event of a move to the tier of the active stake
abbrev pub change_of : ℕ → ℕ → ValidatorTier → ValidatorStake → TierChangeEvent
change_of cycle now old_tier s = record {
  validator_id = s.validator_id;
  from_tier = old_tier;
  to_tier = from_stake s.active_stake;
  stake_amount = s.active_stake;
  timestamp = now;
  cycle = cycle;
}

-- the last part of `add_deposit` and of `request_unstake`
unfoldable pub update_tier : ℕ → ℕ → ValidatorStake → Option TierChangeEvent × ValidatorStake
update_tier cycle now s =
    let event = change_of cycle now s.current_tier s in
    if tier_eq (from_stake s.active_stake) s.current_tier then (none, s) else (
      some event,
      record s {
        current_tier = from_stake s.active_stake;
        tier_history = s.tier_history ++ event ∷ [];
      },
    )

unfoldable pub add_deposit :
    StakeDeposit → ℕ → ℕ → ValidatorStake → Option TierChangeEvent × ValidatorStake
add_deposit deposit cycle now s = update_tier cycle now (record s {
  total_stake = add64 s.total_stake deposit.amount;
  active_stake = add64 s.active_stake deposit.amount;
  deposits = s.deposits ++ deposit ∷ [];
})

unfoldable pub request_unstake :
    ℕ
    → ℕ
    → ℕ
    → ValidatorStake
    → Result StakingError (UnstakingRequest × Option TierChangeEvent) × ValidatorStake
request_unstake amount cycle now s =
    let request = new_request s.validator_id amount now in
    if ltb s.active_stake amount
    then (err not_enough, s)
    else (let (event, s') = update_tier cycle now (record s {
      active_stake = sub64 s.active_stake amount;
      unbonding_stake = add64 s.unbonding_stake amount;
      unstaking_requests = s.unstaking_requests ++ request ∷ [];
    }) in
        (ok (request, event), s'))

-- one round of the loop of `process_unbonding`
abbrev pub complete : UnstakingRequest → ValidatorStake → ValidatorStake
complete r s = record s {
  unbonding_stake = sub64 s.unbonding_stake r.amount;
  total_stake = sub64 s.total_stake r.amount;
}

-- The loop of `process_unbonding` over the requests: those completed, the requests as they are left,
-- and the stake.
unfoldable pub unbond :
    ℕ
    → List UnstakingRequest
    → ValidatorStake
    → List UnstakingRequest × List UnstakingRequest × ValidatorStake
unbond now [] s = ([], [], s)
unbond now (r ∷ rs) s =
    let due = not r.completed && is_unbonded now r in
    let r' : UnstakingRequest = record r { completed = true } in
    let rest = unbond now rs (if due then complete r s else s) in
    if due then (r' ∷ rest.0, r' ∷ rest.1, rest.2) else (rest.0, r ∷ rest.1, rest.2)

unfoldable pub process_unbonding : ℕ → ValidatorStake → List UnstakingRequest × ValidatorStake
process_unbonding now s =
    let (completed, requests, s') = unbond now s.unstaking_requests s in
    (
      completed,
      record s' { unstaking_requests = keep (λ (r : UnstakingRequest). not r.completed) requests },
    )

unfoldable pub meets_minimum_stake : ValidatorStake → Bool
meets_minimum_stake s = leb min_stake_amount s.active_stake

unfoldable pub effective_voting_power : ValidatorStake → ℕ
effective_voting_power s = voting_power s.current_tier s.active_stake
