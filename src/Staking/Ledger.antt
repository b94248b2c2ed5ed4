-- ===== src/Staking/Ledger.antt =====
-- The books of `StakingManager` of src/staking.rs over any history of calls.
use silver_consensus.Base.{ℕ, ◌+◌, ◌≤◌, ◌<◌, ◌≡◌, refl, List, [], ◌∷◌, arith}
use silver_consensus.Base.Word.{u64_mod}
use silver_consensus.Base.Dict.{sum_values, AllValues}
use silver_consensus.Staking.Balance.{IsBalanced}
use silver_consensus.Staking.Manager.{StakingManager, empty, advance_cycle}
use silver_consensus.Staking.Books.{total_of, IsBooked}
use silver_consensus.Staking.Calls.{
  Op, deposit, unstake, unbond, remove_one, advance, apply, IsStep, deposit-IsStep, unstake-IsStep,
  unbond-IsStep, remove-IsStep,
}

-- what all deposits ask for
abbrev pub asked : List Op → ℕ
asked [] = 0
asked (deposit v amount tx now ∷ ops) = amount + asked ops
asked (op ∷ ops) = asked ops

unfoldable pub run : List Op → StakingManager → ℕ × ℕ × StakingManager
run [] m = (0, 0, m)
run (op ∷ ops) m =
    let (in_now, out_now, m') = apply op m in
    let (in_later, out_later, last) = run ops m' in (in_now + in_later, out_now + out_later, last)

-- a call with no condition on the state but that its deposit fits
apply-IsStep :
    (op : Op) (m : StakingManager)
    → m.total_staked + asked (op ∷ []) < u64_mod
    → IsBooked m
    → IsStep m (apply op m)
apply-IsStep (deposit v amount tx now) m fits b = deposit-IsStep v amount tx now m (omega arith) b
apply-IsStep (unstake v amount now) m fits b = unstake-IsStep v amount now m b
apply-IsStep (unbond now) m fits b = unbond-IsStep now m b
apply-IsStep (remove_one v) m fits b = remove-IsStep v m b
apply-IsStep advance m fits b =
    unfold apply advance_cycle in
    (
      record { distinct = b.distinct; balanced = b.balanced; booked = b.booked; fits = b.fits },
      refl,
    )

apply_cash : (op : Op) (m : StakingManager) → (apply op m).0 ≤ asked (op ∷ [])
unfolding apply
apply_cash (deposit v amount tx now) m = ground arith
apply_cash (unstake v amount now) m = omega arith
apply_cash (unbond now) m = omega arith
apply_cash (remove_one v) m = omega arith
apply_cash advance m = omega arith

asked-cons : (op : Op) (ops : List Op) → asked (op ∷ ops) ≡ asked (op ∷ []) + asked ops
asked-cons (deposit v amount tx now) ops = omega arith
asked-cons (unstake v amount now) ops = omega arith
asked-cons (unbond now) ops = omega arith
asked-cons (remove_one v) ops = omega arith
asked-cons advance ops = omega arith

run-IsStep :
    (ops : List Op) (m : StakingManager)
    → m.total_staked + asked ops < u64_mod
    → IsBooked m
    → IsStep m (run ops m)
unfolding run
run-IsStep [] m fits b = (b, omega arith)
run-IsStep (op ∷ ops) m fits b =
    let (now_in, now_out, m') = apply op m in
    let step = apply-IsStep op m (omega (arith, asked-cons op ops)) b in
    let cash = apply_cash op m in
    let rest = run-IsStep ops m' (omega (arith, asked-cons op ops, step.1)) step.0 in
    (rest.0, omega (arith, step.1, rest.1))

-- After any calls on an empty manager, whose deposits ask for less than `2 ^ 64` together: the total
-- is the stake brought in by accepted deposits less the stake paid out, and the sum of the
-- validators' totals; and for each validator the total is the active and the
-- unbonding stake, the unbonding stake is the sum of the requests left, and the tier is that of the
-- active stake.
pub run_books :
    (ops : List Op)
    → asked ops < u64_mod
    → let (cash_in, cash_out, m) = run ops empty in
      (m.total_staked + cash_out ≡ cash_in)
      × (m.total_staked ≡ sum_values total_of m.stakes)
      × AllValues IsBalanced m.stakes
run_books ops fits =
    let step =
      run-IsStep ops empty (omega arith)
        (record { distinct = tt; balanced = tt; booked = refl; fits = omega arith }) in
    (omega (arith, step.1), step.0.booked, step.0.balanced)
