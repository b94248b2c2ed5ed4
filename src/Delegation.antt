-- ===== src/Delegation.antt =====
-- `Delegation`, `UndelegationRequest` and `ValidatorDelegationInfo` of src/delegation.rs. A share
-- `(a as f64 * b as f64 / c as f64) as u64` is `a * b / c`, which it equals for products below
-- `2 ^ 53`. The receipt token, a hash, is left out. `now` is in seconds.
pub mod Manager
mod Info
mod Totals
mod Ledger
mod Runs
mod Examples
use silver_consensus.Base.{
  ℕ, ◌*◌, ◌/◌, Bool, true, false, Option, none, some, List, [], ◌∷◌, ◌++◌, not, ◌&&◌, ◌==◌, ltb,
  leb, if◌then◌else◌, keep, length,
}
use silver_consensus.Base.Word.{add64, sub64}
use silver_consensus.Base.Dict.{Dict, lookup, insert, remove}
use silver_consensus.Base.Outcome.{Result, ok, err}
use silver_consensus.Staking.Stake.{unbonding_period_secs}

abbrev pub min_delegation_amount : ℕ
min_delegation_amount = 10

abbrev pub max_delegated_stake_per_validator : ℕ
max_delegated_stake_per_validator = 10000000

pub data DelegationError : Type 0 where
  below_minimum inactive jailed over_maximum : DelegationError
  no_delegation too_much no_validator : DelegationError

pub record Delegation : Type 0 where
  pub delegator : ℕ
  pub validator_id : ℕ
  pub amount : ℕ
  pub accumulated_rewards : ℕ
  pub delegated_at : ℕ

pub record UndelegationRequest : Type 0 where
  pub delegator : ℕ
  pub validator_id : ℕ
  pub amount : ℕ
  pub rewards : ℕ
  pub requested_at : ℕ
  pub unbonds_at : ℕ
  pub completed : Bool

pub record ValidatorDelegationInfo : Type 0 where
  pub validator_id : ℕ
  pub total_delegated : ℕ
  pub delegations : Dict Delegation
  pub undelegation_requests : List UndelegationRequest
  pub is_active : Bool
  pub is_jailed : Bool

-- `Delegation::new`
unfoldable pub new_delegation : ℕ → ℕ → ℕ → ℕ → Result DelegationError Delegation
new_delegation delegator validator_id amount now =
    if ltb amount min_delegation_amount
    then err below_minimum
    else ok (record {
      delegator = delegator;
      validator_id = validator_id;
      amount = amount;
      accumulated_rewards = 0;
      delegated_at = now;
    })

unfoldable pub add_rewards : ℕ → Delegation → Delegation
add_rewards rewards d = record d { accumulated_rewards = add64 d.accumulated_rewards rewards }

unfoldable pub total_value : Delegation → ℕ
total_value d = add64 d.amount d.accumulated_rewards

-- `UndelegationRequest::new`
unfoldable pub new_request : ℕ → ℕ → ℕ → ℕ → ℕ → UndelegationRequest
new_request delegator validator_id amount rewards now = record {
  delegator = delegator;
  validator_id = validator_id;
  amount = amount;
  rewards = rewards;
  requested_at = now;
  unbonds_at = add64 now unbonding_period_secs;
  completed = false;
}

unfoldable pub is_unbonded : ℕ → UndelegationRequest → Bool
is_unbonded now r = leb r.unbonds_at now

unfoldable pub remaining_unbonding_time : ℕ → UndelegationRequest → ℕ
remaining_unbonding_time now r = if leb r.unbonds_at now then 0 else sub64 r.unbonds_at now

unfoldable pub total_return : UndelegationRequest → ℕ
total_return r = add64 r.amount r.rewards

-- `ValidatorDelegationInfo::new`
unfoldable pub new_info : ℕ → ValidatorDelegationInfo
new_info validator_id = record {
  validator_id = validator_id;
  total_delegated = 0;
  delegations = [];
  undelegation_requests = [];
  is_active = true;
  is_jailed = false;
}

-- the delegation that is stored: the delegator's own with more, or the new one
unfoldable pub merged : Delegation → ValidatorDelegationInfo → Delegation
merged d i = elim (lookup d.delegator i.delegations) [
  | none ↦ d
  | some existing ↦ record existing { amount = add64 existing.amount d.amount }
]

unfoldable pub add_delegation :
    Delegation
    → ValidatorDelegationInfo
    → Result DelegationError (Unit {0}) × ValidatorDelegationInfo
add_delegation d i =
    if not i.is_active
    then (err inactive, i)
    else if i.is_jailed
    then (err jailed, i)
    else if ltb max_delegated_stake_per_validator (add64 i.total_delegated d.amount)
    then (err over_maximum, i)
    else (
      ok tt,
      record i {
        delegations = insert d.delegator (merged d i) i.delegations;
        total_delegated = add64 i.total_delegated d.amount;
      },
    )

-- the rewards that go with an amount taken off a delegation
unfoldable pub reward_share : ℕ → Delegation → ℕ
reward_share amount d =
    if amount == d.amount then d.accumulated_rewards else d.accumulated_rewards * amount / d.amount

-- the delegation with the amount and its rewards taken off, removed where nothing is left
unfoldable pub take_off : ℕ → ℕ → Delegation → ValidatorDelegationInfo → ValidatorDelegationInfo
take_off delegator amount d i =
    let left = record d {
      amount = sub64 d.amount amount;
      accumulated_rewards = sub64 d.accumulated_rewards (reward_share amount d);
    } in
    record i {
      total_delegated = sub64 i.total_delegated amount;
      delegations =
          if left.amount == 0
          then remove delegator i.delegations
          else insert delegator left i.delegations;
    }

unfoldable pub request_undelegation :
    ℕ
    → ℕ
    → ℕ
    → ValidatorDelegationInfo
    → Result DelegationError UndelegationRequest × ValidatorDelegationInfo
request_undelegation delegator amount now i = elim (lookup delegator i.delegations) [
  | none ↦ (err no_delegation, i)
  | some d ↦
      let request = new_request delegator i.validator_id amount (reward_share amount d) now in
      let i' = take_off delegator amount d i in
      if ltb d.amount amount then (err too_much, i) else (
        ok request,
        record i' { undelegation_requests = i'.undelegation_requests ++ request ∷ [] },
      )
]

unfoldable pub redelegate :
    ℕ → ℕ → ValidatorDelegationInfo → Result DelegationError (ℕ × ℕ) × ValidatorDelegationInfo
redelegate delegator amount i = elim (lookup delegator i.delegations) [
  | none ↦ (err no_delegation, i)
  | some d ↦
      if ltb d.amount amount
      then (err too_much, i)
      else (ok (amount, reward_share amount d), take_off delegator amount d i)
]

-- the loop of `process_undelegations`: the requests completed, and the requests as they are left
unfoldable pub unbond :
    ℕ → List UndelegationRequest → List UndelegationRequest × List UndelegationRequest
unbond now [] = ([], [])
unbond now (r ∷ rs) =
    let rest = unbond now rs in
    let r' : UndelegationRequest = record r { completed = true } in
    if not r.completed && is_unbonded now r
    then (r' ∷ rest.0, r' ∷ rest.1)
    else (rest.0, r ∷ rest.1)

unfoldable pub process_undelegations :
    ℕ → ValidatorDelegationInfo → List UndelegationRequest × ValidatorDelegationInfo
process_undelegations now i =
    let (completed, requests) = unbond now i.undelegation_requests in
    (
      completed,
      record i {
        undelegation_requests = keep (λ (r : UndelegationRequest). not r.completed) requests;
      },
    )

-- the loop of `distribute_rewards`
unfoldable pub share_out : ℕ → ℕ → Dict Delegation → Dict Delegation
share_out rewards total [] = []
share_out rewards total ((k, d) ∷ ds) =
    (k, add_rewards (rewards * d.amount / total) d) ∷ share_out rewards total ds

unfoldable pub distribute_rewards : ℕ → ValidatorDelegationInfo → ValidatorDelegationInfo
distribute_rewards rewards i =
    if i.total_delegated == 0
    then i
    else record i { delegations = share_out rewards i.total_delegated i.delegations }
