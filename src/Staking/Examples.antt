-- ===== src/Staking/Examples.antt =====
-- Runs of src/staking.rs, and the theorems at concrete inputs.
use silver_consensus.Base.{ℕ, zero, suc, ◌+◌, ◌≡◌, refl, List, [], ◌∷◌, arith, map, keep}
use silver_consensus.Base.Dict.{AllValues, sum_values}
use silver_consensus.Tiers.{from_stake}
use silver_consensus.Staking.Stake.{ValidatorStake, new_stake, new_request, process_unbonding}
use silver_consensus.Staking.Balance.{
  IsBalanced, owed, finish, is_due, is_waiting, process_unbonding_lem,
}
use silver_consensus.Staking.Manager.{empty}
use silver_consensus.Staking.Books.{total_of}
use silver_consensus.Staking.Calls.{Op}
use silver_consensus.Staking.Ledger.{run, run_books}

-- 120000 staked; 30000 asked back at second 100, and 40000 at second 5000
abbrev leaving : ValidatorStake
leaving = record (new_stake 3) {
  total_stake = 120000;
  active_stake = 50000;
  unbonding_stake = 70000;
  current_tier = from_stake 50000;
  unstaking_requests = new_request 3 30000 100 ∷ new_request 3 40000 5000 ∷ [];
}

leaving-IsBalanced : IsBalanced leaving
unfolding new_request
leaving-IsBalanced = record {
  whole = refl;
  requested = refl;
  open_requests = (refl, (refl, tt));
  tiered = refl;
  fits = omega arith;
}

process_unbonding_lem_example :
    let (completed, s') = process_unbonding 604800 leaving in
    (completed ≡ map finish (keep (is_due 604800) leaving.unstaking_requests))
    × (s'.unstaking_requests ≡ keep (is_waiting 604800) leaving.unstaking_requests)
    × (s'.total_stake + owed completed ≡ 120000)
    × (s'.unbonding_stake + owed completed ≡ 70000)
    × (s'.active_stake ≡ 50000)
    × (s'.current_tier ≡ from_stake 50000)
process_unbonding_lem_example = process_unbonding_lem 604800 leaving leaving-IsBalanced

abbrev bytes : ℕ → List ℕ
bytes zero = []
bytes (suc n) = 7 ∷ bytes n

abbrev history : List Op
history =
    Op.deposit 3 120000 (bytes 64) 10
    ∷ Op.deposit 4 9999 (bytes 64) 11
    ∷ Op.unstake 3 30000 100
    ∷ Op.unbond 604900
    ∷ Op.remove_one 3
    ∷ Op.advance
    ∷ []

run_books_example :
    let (cash_in, cash_out, m) = run history empty in
    (m.total_staked + cash_out ≡ cash_in)
    × (m.total_staked ≡ sum_values total_of m.stakes)
    × AllValues IsBalanced m.stakes
run_books_example = run_books history (omega arith)
