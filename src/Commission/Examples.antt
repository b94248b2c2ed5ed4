-- ===== src/Commission/Examples.antt =====
-- Runs of the commission entries of src/commission.rs, and an instance of their theorem.
use silver_consensus.Base.{ℕ, ◌*◌, ◌/◌, ◌≡◌, refl, List, [], ◌∷◌, arith}
use silver_consensus.Base.Word.{add64}
use silver_consensus.Base.Outcome.{err}
use silver_consensus.Commission.{
  ValidatorCommissionInfo, below_minimum, new_rate, new_change, new_info, is_effective,
  request_rate_change, apply_pending_change, cancel_pending_change, earn,
}
use silver_consensus.Commission.Notice.{
  Call, ask, process, cancel, collect, apply, run, time, IsTimed, IsChain, run-IsChain,
}

-- a commission in whole units
abbrev commission_of : ℕ → ℕ → ℕ
commission_of rate rewards = rewards * rate / 10000

-- one change comes into force, and one is withdrawn
abbrev calls : List Call
calls =
    ask 700 10 ∷ process 20 ∷ collect 1000 30 ∷ process 700000 ∷ ask 900 700001 ∷ cancel 700002 ∷ []

abbrev entry : ValidatorCommissionInfo
entry = run commission_of calls (new_info 3 500)

abbrev runs : Unit {0}
unfolding run apply new_info new_change is_effective request_rate_change apply_pending_change
    cancel_pending_change earn add64 new_rate time
runs = tt

rate_after : entry.current_rate ≡ 700
rate_after = unfold runs in refl

earned : entry.total_commission_earned ≡ 50
earned = unfold runs in refl

refused_rate : new_rate 499 ≡ err below_minimum
refused_rate = unfold runs in refl

calls-IsTimed : IsTimed 0 calls
unfolding IsTimed time
calls-IsTimed = (
  omega arith,
  omega arith,
  (
    omega arith,
    omega arith,
    (
      omega arith,
      omega arith,
      (omega arith, omega arith, (omega arith, omega arith, (omega arith, omega arith, tt))),
    ),
  ),
)

run-IsChain_example : (until : ℕ) × IsChain 500 0 entry.rate_history entry.current_rate until
run-IsChain_example = run-IsChain commission_of 3 500 calls calls-IsTimed
