-- ===== src/Staking/Calls.antt =====
-- The calls of `StakingManager` of src/staking.rs, with the stake that each brings in or pays out.
use silver_consensus.Base.{
  ℕ, ◌+◌, ◌<◌, ◌≡◌, refl, sym, ap, ◌∙◌, inl, inr, false, List, arith, ltb, ◌||◌, Bool-cases,
  Option-cases,
}
use silver_consensus.Base.Word.{add64, u64_mod, add64_exact}
use silver_consensus.Base.Dict.{
  lookup, remove, sum_values, AllValues-lookup, AllValues-remove, IsDistinct-remove,
  sum_values-remove, remove_absent,
}
use silver_consensus.Base.Outcome.{Result, ok, err, Result-cases}
use silver_consensus.Staking.Stake.{
  StakingError, StakeDeposit, UnstakingRequest, ValidatorStake, new_deposit, new_stake, add_deposit,
  update_tier, min_stake_amount,
}
use silver_consensus.Staking.Stake
use silver_consensus.Staking.Balance.{
  IsBalanced, add_deposit-IsBalanced, request_unstake-IsBalanced,
}
use silver_consensus.Staking.Manager.{
  StakingManager, stake_or_new, deposit_stake, book_deposit, request_unstake, process_unbonding,
  remove_validator, advance_cycle,
}
use silver_consensus.Staking.Books.{
  total_of, IsBooked, paid_out, unbond_all_lem, stake_or_new-IsBalanced, stake_or_new-le,
  stake_or_new-found, insert-IsBooked,
}

-- A call, with its arguments.
pub data Op : Type 0 where
  deposit : ℕ → ℕ → List ℕ → ℕ → Op
  unstake : ℕ → ℕ → ℕ → Op
  unbond : ℕ → Op
  remove_one : ℕ → Op
  advance : Op

-- the stake that a deposit brought in, if it was accepted
abbrev pub accepted : {A : Type 0} → ℕ → Result StakingError A → ℕ
accepted amount (ok _) = amount
accepted amount (err _) = 0

-- The stake brought in, the stake paid out, and the manager after a call.
unfoldable pub apply : Op → StakingManager → ℕ × ℕ × StakingManager
apply (deposit v amount tx now) m =
    let (r, m') = deposit_stake v amount tx now m in (accepted amount r, 0, m')
apply (unstake v amount now) m = (0, 0, (request_unstake v amount now m).1)
apply (unbond now) m = let (paid, m') = process_unbonding now m in (0, paid_out paid, m')
apply (remove_one v) m = (0, 0, (remove_validator v m).1)
apply advance m = (0, 0, advance_cycle m)

-- the books after a call that began at `m`
abbrev pub IsStep : StakingManager → ℕ × ℕ × StakingManager → Type 0
IsStep m (cash_in, cash_out, m') =
    IsBooked m' × (m'.total_staked + cash_out ≡ m.total_staked + cash_in)

new_deposit-amount :
    (v amount now : ℕ) (tx : List ℕ) {d : StakeDeposit}
    → new_deposit v amount tx now ≡ ok d
    → d.amount ≡ amount
unfolding new_deposit
new_deposit-amount v amount now tx h = ground arith

add_deposit_total :
    (d : StakeDeposit) (cycle now : ℕ) (s : ValidatorStake)
    → (add_deposit d cycle now s).1.total_stake ≡ add64 s.total_stake d.amount
unfolding add_deposit update_tier
add_deposit_total d cycle now s = ground arith

book_deposit-IsStep :
    (v amount : ℕ) (d : StakeDeposit) (now : ℕ) (m : StakingManager)
    → d.amount ≡ amount
    → m.total_staked + amount < u64_mod
    → IsBooked m
    → let (r, m') = book_deposit v amount d now m in IsStep m (accepted amount r, 0, m')
unfolding book_deposit
book_deposit-IsStep v amount d now m e fits b =
    let old = stake_or_new v m in
    let part = stake_or_new-le v m in
    let s = (add_deposit d m.current_cycle now old).1 in
    let grown =
      add_deposit_total d m.current_cycle now old
      ∙ add64_exact old.total_stake d.amount (omega (arith, b.booked))
      ∙ ap (λ t. old.total_stake + t) e in
    let total = add64_exact m.total_staked amount fits in
    (
      insert-IsBooked v amount s m (book_deposit v amount d now m).1 grown fits
          (add_deposit-IsBalanced d m.current_cycle now old (omega (arith, b.booked))
            (stake_or_new-IsBalanced v m b))
          b refl total,
      omega (arith, total),
    )

pub deposit-IsStep :
    (v amount : ℕ) (tx : List ℕ) (now : ℕ) (m : StakingManager)
    → m.total_staked + amount < u64_mod
    → IsBooked m
    → IsStep m (apply (deposit v amount tx now) m)
unfolding apply deposit_stake
deposit-IsStep v amount tx now m fits b = elim (Bool-cases (ltb amount min_stake_amount)) [
  | inl low ↦ rw (low, deposit_stake) (b, refl)
  | inr high ↦
      rw (high, deposit_stake)
        (elim (Result-cases (new_deposit v amount tx now)) [
          | inl (e, refused) ↦ rw refused (b, refl)
          | inr (d, taken) ↦ rw taken (
              book_deposit-IsStep v amount d now m (new_deposit-amount v amount now tx taken) fits
                b)
        ])
]

request_unstake_total :
    (amount cycle now : ℕ) (s : ValidatorStake)
    → (Stake.request_unstake amount cycle now s).1.total_stake ≡ s.total_stake
unfolding Stake.request_unstake update_tier
request_unstake_total amount cycle now s = ground arith

pub unstake-IsStep :
    (v amount now : ℕ) (m : StakingManager) → IsBooked m → IsStep m (apply (unstake v amount now) m)
unfolding apply request_unstake
unstake-IsStep v amount now m b = elim (Option-cases (lookup v m.stakes)) [
  | inl missing ↦ rw (missing, request_unstake) (b, refl)
  | inr (s, found) ↦
      let s' = (Stake.request_unstake amount m.current_cycle now s).1 in
      let same =
        request_unstake_total amount m.current_cycle now s ∙ sym (stake_or_new-found v s m found) in
      let kept =
        request_unstake-IsBalanced amount m.current_cycle now s
          (AllValues-lookup IsBalanced v s m.stakes b.balanced found) in
      rw (found, request_unstake)
        (elim (Result-cases (Stake.request_unstake amount m.current_cycle now s).0) [
          | inl (e, refused) ↦ rw refused (
            insert-IsBooked v 0 s' m _ (omega (arith, same)) (omega (arith, b.fits)) kept b refl
                (omega arith),
            refl,
          )
          | inr (x, taken) ↦ rw taken (
            insert-IsBooked v 0 s' m _ (omega (arith, same)) (omega (arith, b.fits)) kept b refl
                (omega arith),
            refl,
          )
        ])
]

pub unbond-IsStep : (now : ℕ) (m : StakingManager) → IsBooked m → IsStep m (apply (unbond now) m)
unfolding apply process_unbonding
unbond-IsStep now m b =
    let (total, stakes, balanced, same) =
      unbond_all_lem now m.stakes m.total_staked b.balanced (omega (arith, b.booked)) b.fits in
    (
      record {
        distinct = rw same b.distinct;
        balanced = balanced;
        booked = omega (arith, total, stakes, b.booked);
        fits = omega (arith, total, b.fits);
      },
      omega (arith, total),
    )

idle_stake :
    (s : ValidatorStake)
    → (ltb 0 s.active_stake || ltb 0 s.unbonding_stake) ≡ false
    → (s.active_stake ≡ 0) × (s.unbonding_stake ≡ 0)
idle_stake s h = ground arith

-- an entry taken out that holds nothing
pub drop-IsBooked :
    (v : ℕ) (m : StakingManager)
    → sum_values total_of (remove v m.stakes) ≡ sum_values total_of m.stakes
    → IsBooked m
    → IsBooked (record m { stakes = remove v m.stakes })
drop-IsBooked v m e b = record {
  distinct = IsDistinct-remove v m.stakes b.distinct;
  balanced = AllValues-remove IsBalanced v m.stakes b.balanced;
  booked = b.booked ∙ sym e;
  fits = b.fits;
}

pub remove-IsStep : (v : ℕ) (m : StakingManager) → IsBooked m → IsStep m (apply (remove_one v) m)
unfolding apply remove_validator
remove-IsStep v m b = elim (Option-cases (lookup v m.stakes)) [
  | inl missing ↦
      rw (missing, remove_validator)
        (drop-IsBooked v m (ap (sum_values total_of) (remove_absent v m.stakes missing)) b, refl)
  | inr (s, found) ↦
      let whole = (AllValues-lookup IsBalanced v s m.stakes b.balanced found).whole in
      let parts = sum_values-remove total_of v s m.stakes found in
      rw (found, remove_validator)
        (elim (Bool-cases (ltb 0 s.active_stake || ltb 0 s.unbonding_stake)) [
          | inl busy ↦ rw busy (b, refl)
          | inr idle ↦
              rw idle (drop-IsBooked v m (omega (arith, parts, whole, idle_stake s idle)) b, refl)
        ])
]
