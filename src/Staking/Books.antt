-- ===== src/Staking/Books.antt =====
-- The books of `StakingManager` of src/staking.rs: the total against the validators' stakes.
use silver_consensus.Base.{
  ℕ, ◌+◌, ◌≤◌, ◌<◌, ◌≡◌, refl, sym, ap, ◌∙◌, inl, inr, some, List, [], ◌∷◌, arith, if◌then◌else◌,
  is_empty, IsDistinct, Option-cases,
}
use silver_consensus.Base.Word.{sub64, u64_mod, sub64_exact}
use silver_consensus.Base.Dict.{
  Dict, lookup, insert, keys, sum_values, AllValues, AllValues-insert, AllValues-lookup,
  IsDistinct-insert, sum_values-insert_new, sum_values-insert_old, sum_values-remove,
}
use silver_consensus.Staking.Stake.{
  StakingError, StakeDeposit, UnstakingRequest, ValidatorStake, new_deposit, new_stake, add_deposit,
  update_tier, min_stake_amount,
}
use silver_consensus.Staking.Stake
use silver_consensus.Staking.Balance.{
  owed, IsBalanced, new_stake-IsBalanced, process_unbonding-IsBalanced, process_unbonding_lem,
}
use silver_consensus.Staking.Manager.{StakingManager, stake_or_new, pay_out, unbond_all}

abbrev pub total_of : ValidatorStake → ℕ
total_of s = s.total_stake

pub record IsBooked (m : StakingManager) : Type 0 where
  pub distinct : IsDistinct (keys m.stakes)
  pub balanced : AllValues IsBalanced m.stakes
  pub booked : m.total_staked ≡ sum_values total_of m.stakes
  pub fits : m.total_staked < u64_mod

-- what a call of `process_unbonding` has paid out
abbrev pub paid_out : Dict (List UnstakingRequest) → ℕ
paid_out d = sum_values owed d

pay_out-exact :
    (rs : List UnstakingRequest) (total : ℕ)
    → owed rs ≤ total
    → total < u64_mod
    → pay_out rs total + owed rs ≡ total
pay_out-exact [] total h f = omega arith
pay_out-exact (r ∷ rs) total h f = omega (
  arith,
  sub64_exact total r.amount (omega arith) f,
  pay_out-exact rs (sub64 total r.amount)
      (omega (arith, sub64_exact total r.amount (omega arith) f))
      (omega (arith, sub64_exact total r.amount (omega arith) f)),
)

paid_out-entry :
    (k : ℕ) (rs : List UnstakingRequest) (d : Dict (List UnstakingRequest))
    → paid_out (if is_empty rs then d else (k, rs) ∷ d) ≡ owed rs + paid_out d
paid_out-entry k [] d = omega arith
paid_out-entry k (r ∷ rs) d = omega arith

pub unbond_all_lem :
    (now : ℕ) (d : Dict ValidatorStake) (total : ℕ)
    → AllValues IsBalanced d
    → sum_values total_of d ≤ total
    → total < u64_mod
    → let (by_validator, d', total') = unbond_all now d total in
      (total' + paid_out by_validator ≡ total)
      × (sum_values total_of d' + paid_out by_validator ≡ sum_values total_of d)
      × AllValues IsBalanced d'
      × (keys d' ≡ keys d)
unfolding unbond_all
unbond_all_lem now [] total a h f = (omega arith, refl, tt, refl)
unbond_all_lem now ((k, s) ∷ d) total a h f =
    let (completed, s') = Stake.process_unbonding now s in
    let out = process_unbonding_lem now s a.0 in
    let paid = pay_out-exact completed total (omega (arith, out.2)) f in
    let left = pay_out completed total in
    let rest = unbond_all_lem now d left a.1 (omega (arith, out.2)) (omega arith) in
    let entry = paid_out-entry k completed (unbond_all now d left).0 in
    (
      omega (arith, rest.0, entry),
      omega (arith, rest.1, entry, out.2),
      (process_unbonding-IsBalanced now s a.0, rest.2),
      ap (λ ks. k ∷ ks) rest.3,
    )

-- the stake of a validator, known or new, is balanced and part of the total
pub stake_or_new-IsBalanced :
    (v : ℕ) (m : StakingManager) → IsBooked m → IsBalanced (stake_or_new v m)
unfolding stake_or_new
stake_or_new-IsBalanced v m b = elim (Option-cases (lookup v m.stakes)) [
  | inl missing ↦ rw (missing, stake_or_new) (new_stake-IsBalanced v)
  | inr (s, found) ↦
      rw (found, stake_or_new) (AllValues-lookup IsBalanced v s m.stakes b.balanced found)
]

pub stake_or_new-le :
    (v : ℕ) (m : StakingManager) → total_of (stake_or_new v m) ≤ sum_values total_of m.stakes
unfolding stake_or_new new_stake
stake_or_new-le v m = elim (Option-cases (lookup v m.stakes)) [
  | inl missing ↦ ground arith
  | inr (s, found) ↦ ground (arith, sum_values-remove total_of v s m.stakes found)
]

pub sum_values-replace :
    (v amount : ℕ) (s : ValidatorStake) (m : StakingManager)
    → s.total_stake ≡ total_of (stake_or_new v m) + amount
    → sum_values total_of (insert v s m.stakes) ≡ sum_values total_of m.stakes + amount
unfolding stake_or_new new_stake
sum_values-replace v amount s m e = elim (Option-cases (lookup v m.stakes)) [
  | inl missing ↦ ground (arith, sum_values-insert_new total_of v s m.stakes missing)
  | inr (old, found) ↦ ground (arith, sum_values-insert_old total_of v s old m.stakes found)
]

pub stake_or_new-found :
    (v : ℕ) (s : ValidatorStake) (m : StakingManager)
    → lookup v m.stakes ≡ some s
    → total_of (stake_or_new v m) ≡ total_of s
unfolding stake_or_new
stake_or_new-found v s m found = rw (found, stake_or_new)

-- a stake written back, with so much more in it
pub insert-IsBooked :
    (v amount : ℕ) (s : ValidatorStake) (m m' : StakingManager)
    → s.total_stake ≡ total_of (stake_or_new v m) + amount
    → m.total_staked + amount < u64_mod
    → IsBalanced s
    → IsBooked m
    → m'.stakes ≡ insert v s m.stakes
    → m'.total_staked ≡ m.total_staked + amount
    → IsBooked m'
insert-IsBooked v amount s m m' e fits bs b stakes total = record {
  distinct = rw stakes (IsDistinct-insert v s m.stakes b.distinct);
  balanced = rw stakes (AllValues-insert IsBalanced v s m.stakes b.balanced bs);
  booked =
      total
      ∙ ap (λ t. t + amount) b.booked
      ∙ sym (sum_values-replace v amount s m e)
      ∙ ap (sum_values total_of) (sym stakes);
  fits = omega arith;
}
