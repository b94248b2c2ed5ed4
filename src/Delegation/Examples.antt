-- ===== src/Delegation/Examples.antt =====
-- Runs of the delegation manager of src/delegation.rs, and instances of its theorems.
use silver_consensus.Base.{◌+◌, ◌≡◌, refl, true, some, List, [], ◌∷◌, arith, sum_by}
use silver_consensus.Base.Word.{add64, sub64}
use silver_consensus.Base.Dict.{lookup, sum_values}
use silver_consensus.Base.Outcome.{ok, err}
use silver_consensus.Delegation.{
  ValidatorDelegationInfo, jailed, new_delegation, add_rewards, new_request, is_unbonded, new_info,
  merged, add_delegation, reward_share, take_off, request_undelegation, redelegate, unbond,
  process_undelegations, share_out, distribute_rewards,
}
use silver_consensus.Delegation.Manager.{
  DelegationManager, new, entry, add_to, delegate, undelegate, redelegate_to, process_all,
  process_undelegations_all, update, distribute_validator_rewards, set_validator_active,
  set_validator_jailed, get_validator_delegated_stake,
}
use silver_consensus.Delegation.Totals.{IsLedger, total_of}
use silver_consensus.Delegation.Runs.{
  Call, give, withdraw, reward, imprison, apply, run, offered, run-IsLedger, redelegate_refused,
}

-- delegators 1 and 2 of validator 8, with rewards, and delegator 1 of validator 9, in jail later
abbrev calls : List Call
calls =
    give 1 8 300 0
    ∷ give 2 8 100 1
    ∷ give 1 9 50 2
    ∷ reward 8 40
    ∷ withdraw 2 8 60 3
    ∷ imprison 9 true
    ∷ []

abbrev books : DelegationManager
books = run calls new

abbrev runs : Unit {0}
unfolding run apply new entry add_to delegate undelegate redelegate_to process_all
    process_undelegations_all update distribute_validator_rewards set_validator_active
    set_validator_jailed new_delegation add_rewards new_request is_unbonded new_info merged
    add_delegation reward_share take_off request_undelegation redelegate unbond
    process_undelegations share_out distribute_rewards add64 sub64 offered
    get_validator_delegated_stake
runs = tt

totals : books.total_delegated ≡ 390
totals = unfold runs in refl

calls_fit : sum_by offered calls + 10000000 ≡ 10000450
calls_fit = unfold runs in refl

run-IsLedger_example : IsLedger (run calls new)
run-IsLedger_example = run-IsLedger calls (omega (arith, calls_fit))

abbrev source : ValidatorDelegationInfo
source = entry 8 books

source_found : lookup 8 books.validator_delegations ≡ some source
source_found = unfold runs in refl

source_gives : (redelegate 1 200 source).0 ≡ ok (200, 20)
source_gives = unfold runs in refl

target_refuses : (redelegate_to 1 8 9 200 5 books).0 ≡ err jailed
target_refuses = unfold runs in refl

redelegate_refused_example :
    (sum_values total_of (redelegate_to 1 8 9 200 5 books).1.validator_delegations + 200
      ≡ books.total_delegated)
    × ((redelegate_to 1 8 9 200 5 books).1.total_delegated ≡ books.total_delegated)
redelegate_refused_example =
    redelegate_refused 1 8 9 200 200 20 5 books source jailed
      (run-IsLedger calls (omega (arith, calls_fit))) source_found source_gives target_refuses
