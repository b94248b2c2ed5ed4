-- ===== src/Staking/Balance.antt =====
-- The balance of one `ValidatorStake` of src/staking.rs: what is active, what is unbonding, and the
-- requests that say so.
use silver_consensus.Base.{
  ℕ, ◌+◌, ◌≤◌, ◌<◌, ◌≡◌, refl, sym, ap, ◌∙◌, inl, inr, Bool, true, false, not, List, [], ◌∷◌, arith,
  ltb, map, keep, sum_by, sum_by-append, All, All-append, Bool-cases,
}
use silver_consensus.Base.Word.{u64_mod, add64_exact, sub64_exact}
use silver_consensus.Tiers.{from_stake}
use silver_consensus.Tiers.Info.{tier_eq}
use silver_consensus.Tiers.Order.{tier_eq-eq}
use silver_consensus.Staking.Stake.{
  StakeDeposit, UnstakingRequest, ValidatorStake, new_request, is_unbonded, new_stake, update_tier,
  add_deposit, request_unstake, unbond, process_unbonding, complete,
}

abbrev pub amount_of : UnstakingRequest → ℕ
amount_of r = r.amount

-- what a list of requests asks for
abbrev pub owed : List UnstakingRequest → ℕ
owed rs = sum_by amount_of rs

abbrev pub IsOpen : UnstakingRequest → Type 0
IsOpen r = r.completed ≡ false

abbrev pub finish : UnstakingRequest → UnstakingRequest
finish r = record r { completed = true }

abbrev pub is_due : ℕ → UnstakingRequest → Bool
is_due now r = is_unbonded now r

abbrev pub is_waiting : ℕ → UnstakingRequest → Bool
is_waiting now r = not (is_unbonded now r)

pub record IsBalanced (s : ValidatorStake) : Type 0 where
  pub whole : s.total_stake ≡ s.active_stake + s.unbonding_stake
  pub requested : s.unbonding_stake ≡ owed s.unstaking_requests
  pub open_requests : All IsOpen s.unstaking_requests
  pub tiered : s.current_tier ≡ from_stake s.active_stake
  pub fits : s.total_stake < u64_mod

owed-split :
    (now : ℕ) (rs : List UnstakingRequest)
    → owed (keep (is_due now) rs) + owed (keep (is_waiting now) rs) ≡ owed rs
owed-split now [] = refl
owed-split now (r ∷ rs) = ground (arith, owed-split now rs)

owed-finish : (rs : List UnstakingRequest) → owed (map finish rs) ≡ owed rs
owed-finish [] = refl
owed-finish (r ∷ rs) = omega (arith, owed-finish rs)

All-keep :
    (p : UnstakingRequest → Bool) (rs : List UnstakingRequest)
    → All IsOpen rs
    → All IsOpen (keep p rs)
All-keep p [] a = a
All-keep p (r ∷ rs) a = ground (arith, All-keep p rs a.1)

unbond_completed :
    (now : ℕ) (rs : List UnstakingRequest) (s : ValidatorStake)
    → All IsOpen rs
    → (unbond now rs s).0 ≡ map finish (keep (is_due now) rs)
unfolding unbond
unbond_completed now [] s a = refl
unbond_completed now (r ∷ rs) s a = elim (Bool-cases (is_unbonded now r)) [
  | inl due ↦ ground (arith, a.0, unbond_completed now rs (complete r s) a.1)
  | inr early ↦ ground (arith, a.0, unbond_completed now rs s a.1)
]

unbond_kept :
    (now : ℕ) (rs : List UnstakingRequest) (s : ValidatorStake)
    → All IsOpen rs
    → keep (λ (r : UnstakingRequest). not r.completed) (unbond now rs s).1
      ≡ keep (is_waiting now) rs
unfolding unbond
unbond_kept now [] s a = refl
unbond_kept now (r ∷ rs) s a = elim (Bool-cases (is_unbonded now r)) [
  | inl due ↦ ground (arith, a.0, unbond_kept now rs (complete r s) a.1)
  | inr early ↦ ground (arith, a.0, unbond_kept now rs s a.1)
]

-- the loop takes what is due off the total and off the unbonding stake, and changes nothing else
abbrev IsPaid : ℕ → ValidatorStake → ValidatorStake → Type 0
IsPaid paid s s' =
    (s'.total_stake + paid ≡ s.total_stake)
    × (s'.unbonding_stake + paid ≡ s.unbonding_stake)
    × (s'.active_stake ≡ s.active_stake)
    × (s'.current_tier ≡ s.current_tier)

unbond-IsPaid :
    (now : ℕ) (rs : List UnstakingRequest) (s : ValidatorStake)
    → All IsOpen rs
    → owed rs ≤ s.unbonding_stake
    → s.unbonding_stake ≤ s.total_stake
    → s.total_stake < u64_mod
    → IsPaid (owed (keep (is_due now) rs)) s (unbond now rs s).2
unfolding unbond
unbond-IsPaid now [] s a covered part fits = (omega arith, omega arith, refl, refl)
unbond-IsPaid now (r ∷ rs) s a covered part fits = elim (Bool-cases (is_unbonded now r)) [
  | inl due ↦ ground (
    arith,
    a.0,
    sub64_exact s.unbonding_stake r.amount,
    sub64_exact s.total_stake r.amount,
    unbond-IsPaid now rs (complete r s) a.1,
  )
  | inr early ↦ ground (arith, a.0, unbond-IsPaid now rs s a.1)
]

-- after `update_tier` the tier is that of the active stake, and the amounts are as before
update_tier-IsBalanced :
    (cycle now : ℕ) (s : ValidatorStake)
    → s.total_stake ≡ s.active_stake + s.unbonding_stake
    → s.unbonding_stake ≡ owed s.unstaking_requests
    → All IsOpen s.unstaking_requests
    → s.total_stake < u64_mod
    → IsBalanced (update_tier cycle now s).1
unfolding update_tier
update_tier-IsBalanced cycle now s w r o f =
    elim (Bool-cases (tier_eq (from_stake s.active_stake) s.current_tier)) [
      | inl same ↦
          rw (same, update_tier)
            (record {
              whole = w;
              requested = r;
              open_requests = o;
              tiered = sym (tier_eq-eq (from_stake s.active_stake) s.current_tier same);
              fits = f;
            })
      | inr other ↦
          rw (other, update_tier)
            (record { whole = w; requested = r; open_requests = o; tiered = refl; fits = f })
    ]

pub new_stake-IsBalanced : (v : ℕ) → IsBalanced (new_stake v)
unfolding new_stake from_stake
new_stake-IsBalanced v = record {
  whole = refl;
  requested = refl;
  open_requests = tt;
  tiered = refl;
  fits = omega arith;
}

pub add_deposit-IsBalanced :
    (d : StakeDeposit) (cycle now : ℕ) (s : ValidatorStake)
    → s.total_stake + d.amount < u64_mod
    → IsBalanced s
    → IsBalanced (add_deposit d cycle now s).1
unfolding add_deposit
add_deposit-IsBalanced d cycle now s fits b =
    update_tier-IsBalanced cycle now _
      (omega
        (arith, b.whole, add64_exact s.total_stake d.amount, add64_exact s.active_stake d.amount))
      b.requested b.open_requests (omega (arith, add64_exact s.total_stake d.amount))

owed-new : (v amount now : ℕ) → owed (new_request v amount now ∷ []) ≡ amount
unfolding new_request
owed-new v amount now = omega arith

new_request-IsOpen : (v amount now : ℕ) → IsOpen (new_request v amount now)
unfolding new_request
new_request-IsOpen v amount now = refl

test_false : (a b : ℕ) → ltb a b ≡ false → b ≤ a
test_false a b h = ground arith

pub request_unstake-IsBalanced :
    (amount cycle now : ℕ) (s : ValidatorStake)
    → IsBalanced s
    → IsBalanced (request_unstake amount cycle now s).1
unfolding request_unstake
request_unstake-IsBalanced amount cycle now s b = elim (Bool-cases (ltb s.active_stake amount)) [
  | inl short ↦ rw (short, request_unstake) b
  | inr enough ↦
      rw (enough, request_unstake)
        (let h = test_false s.active_stake amount enough in
          let less = sub64_exact s.active_stake amount h (omega (arith, b.whole, b.fits)) in
          let more = add64_exact s.unbonding_stake amount (omega (arith, b.whole, b.fits)) in
          let request = new_request s.validator_id amount now in
          update_tier-IsBalanced cycle now _ (omega (arith, b.whole))
            (omega (
              arith,
              b.requested,
              sum_by-append amount_of s.unstaking_requests (request ∷ []),
              owed-new s.validator_id amount now,
            ))
            (All-append IsOpen s.unstaking_requests (request ∷ []) b.open_requests
              (new_request-IsOpen s.validator_id amount now, tt))
            b.fits)
]

-- What `process_unbonding` does to a balanced stake, at any time: it returns the requests that are
-- due, marked as completed, and keeps the others; the total and the unbonding stake fall by what is
-- due, and the active stake and the tier stay.
pub process_unbonding_lem :
    (now : ℕ) (s : ValidatorStake)
    → IsBalanced s
    → let (completed, s') = process_unbonding now s in
      (completed ≡ map finish (keep (is_due now) s.unstaking_requests))
      × (s'.unstaking_requests ≡ keep (is_waiting now) s.unstaking_requests)
      × (s'.total_stake + owed completed ≡ s.total_stake)
      × (s'.unbonding_stake + owed completed ≡ s.unbonding_stake)
      × (s'.active_stake ≡ s.active_stake)
      × (s'.current_tier ≡ s.current_tier)
unfolding process_unbonding
process_unbonding_lem now s b =
    let rs = s.unstaking_requests in
    let done = unbond_completed now rs s b.open_requests in
    let paid =
      unbond-IsPaid now rs s b.open_requests (omega (arith, b.requested)) (omega (arith, b.whole))
        b.fits in
    let same = ap owed done ∙ owed-finish (keep (is_due now) rs) in
    (
      done,
      unbond_kept now rs s b.open_requests,
      omega (arith, paid.0, same),
      omega (arith, paid.1, same),
      paid.2,
      paid.3,
    )

pub process_unbonding-IsBalanced :
    (now : ℕ) (s : ValidatorStake) → IsBalanced s → IsBalanced (process_unbonding now s).1
process_unbonding-IsBalanced now s b =
    let (done, kept, total, unbonding, active, tier) = process_unbonding_lem now s b in
    let rs = s.unstaking_requests in
    let same = ap owed done ∙ owed-finish (keep (is_due now) rs) in
    record {
      whole = omega (arith, total, unbonding, active, b.whole);
      requested = omega (arith, unbonding, b.requested, owed-split now rs, same, ap owed kept);
      open_requests = rw kept (All-keep (is_waiting now) rs b.open_requests);
      tiered = tier ∙ b.tiered ∙ ap from_stake (sym active);
      fits = omega (arith, total, b.fits);
    }
