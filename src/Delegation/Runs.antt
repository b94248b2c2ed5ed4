-- ===== src/Delegation/Runs.antt =====
-- Histories of calls on the delegation manager of src/delegation.rs without redelegation, and what a
-- refused redelegation does to the totals.
use silver_consensus.Base.{
  ℕ, ◌+◌, ◌<◌, ◌≡◌, refl, sym, ap, ◌∙◌, Bool, some, List, [], ◌∷◌, sum_by, arith, inl, inr,
}
use silver_consensus.Base.Word.{add64, u64_mod}
use silver_consensus.Base.Dict.{Dict, lookup, keys, sum_values, AllValues}
use silver_consensus.Base.Outcome.{ok, err, Result-cases}
use silver_consensus.Delegation.{
  Delegation, ValidatorDelegationInfo, DelegationError, max_delegated_stake_per_validator,
  new_delegation, add_delegation, redelegate, process_undelegations, distribute_rewards,
}
use silver_consensus.Delegation.Manager.{
  DelegationManager, new, entry, put, add_to, delegate, undelegate, redelegate_to, process_all,
  process_undelegations_all, distribute_validator_rewards, set_validator_active,
  set_validator_jailed,
}
use silver_consensus.Delegation.Info.{IsBooked, same-IsBooked, distribute_rewards-IsBooked}
use silver_consensus.Delegation.Totals.{
  IsLedger, total_of, redelegate_total, entry-IsBooked, put_sum,
}
use silver_consensus.Delegation.Ledger.{
  IsWithin, delegate-IsWithin, undelegate-IsWithin, update-IsWithin, entry_found,
}

pub data Call : Type 0 where
  give : ℕ → ℕ → ℕ → ℕ → Call
  withdraw : ℕ → ℕ → ℕ → ℕ → Call
  settle : ℕ → Call
  reward : ℕ → ℕ → Call
  activate : ℕ → Bool → Call
  imprison : ℕ → Bool → Call

unfoldable pub apply : Call → DelegationManager → DelegationManager
apply (give delegator v amount now) m = (delegate delegator v amount now m).1
apply (withdraw delegator v amount now) m = (undelegate delegator v amount now m).1
apply (settle now) m = (process_undelegations_all now m).1
apply (reward v amount) m = distribute_validator_rewards v amount m
apply (activate v active) m = set_validator_active v active m
apply (imprison v jailed) m = set_validator_jailed v jailed m

unfoldable pub run : List Call → DelegationManager → DelegationManager
run [] m = m
run (c ∷ cs) m = run cs (apply c m)

-- the stake that a call offers
unfoldable pub offered : Call → ℕ
offered (give delegator v amount now) = amount
offered _ = 0

keys-process_all :
    (now : ℕ) (d : Dict ValidatorDelegationInfo) → keys (process_all now d).1 ≡ keys d
unfolding process_all
keys-process_all now [] = refl
keys-process_all now (e ∷ d) = rw (keys-process_all now d) refl

sum-process_all :
    (now : ℕ) (d : Dict ValidatorDelegationInfo)
    → sum_values total_of (process_all now d).1 ≡ sum_values total_of d
unfolding process_all process_undelegations
sum-process_all now [] = refl
sum-process_all now (e ∷ d) = omega (arith, sum-process_all now d)

books-process_all :
    (now : ℕ) (d : Dict ValidatorDelegationInfo)
    → AllValues IsBooked d
    → AllValues IsBooked (process_all now d).1
unfolding process_all process_undelegations
books-process_all now [] a = a
books-process_all now (e ∷ d) a = (same-IsBooked e.1 _ refl refl a.0, books-process_all now d a.1)

process_undelegations_all-IsWithin :
    (now most : ℕ) (m : DelegationManager)
    → IsWithin m most
    → IsWithin (process_undelegations_all now m).1 most
unfolding process_undelegations_all
process_undelegations_all-IsWithin now most m s = record {
  ledger = record {
    once = rw (keys-process_all now m.validator_delegations) s.ledger.once;
    booked = books-process_all now m.validator_delegations s.ledger.booked;
    total = s.ledger.total ∙ sym (sum-process_all now m.validator_delegations);
  };
  bounded = s.bounded;
}

rewards_keep_total :
    (amount : ℕ) (i : ValidatorDelegationInfo)
    → (distribute_rewards amount i).total_delegated ≡ i.total_delegated
unfolding distribute_rewards
rewards_keep_total amount i = ground arith

at_most : (most : ℕ) (m : DelegationManager) → IsWithin m most → IsWithin m (most + 0)
at_most most m s = record { ledger = s.ledger; bounded = omega (arith, s.bounded) }

apply-IsWithin :
    (c : Call) (most : ℕ) (m : DelegationManager)
    → most + offered c + max_delegated_stake_per_validator < u64_mod
    → IsWithin m most
    → IsWithin (apply c m) (most + offered c)
unfolding apply offered distribute_validator_rewards set_validator_active set_validator_jailed
apply-IsWithin (give delegator v amount now) most m fits s =
    delegate-IsWithin delegator v amount now most m fits s
apply-IsWithin (withdraw delegator v amount now) most m fits s =
    at_most most _ (undelegate-IsWithin delegator v amount now most m (omega (arith, fits)) s)
apply-IsWithin (settle now) most m fits s =
    at_most most _ (process_undelegations_all-IsWithin now most m s)
apply-IsWithin (reward v amount) most m fits s = at_most most _ (
    update-IsWithin v most (distribute_rewards amount) m (distribute_rewards-IsBooked amount)
      (rewards_keep_total amount) s)
apply-IsWithin (activate v active) most m fits s =
    at_most most _ (update-IsWithin v most _ m (λ i b. same-IsBooked i _ refl refl b) (λ i. refl) s)
apply-IsWithin (imprison v jailed) most m fits s =
    at_most most _ (update-IsWithin v most _ m (λ i b. same-IsBooked i _ refl refl b) (λ i. refl) s)

run-IsWithin :
    (cs : List Call) (most : ℕ) (m : DelegationManager)
    → most + sum_by offered cs + max_delegated_stake_per_validator < u64_mod
    → IsWithin m most
    → IsWithin (run cs m) (most + sum_by offered cs)
unfolding run
run-IsWithin [] most m fits s = record { ledger = s.ledger; bounded = omega (arith, s.bounded) }
run-IsWithin (c ∷ cs) most m fits s =
    let rest =
      run-IsWithin cs (most + offered c) (apply c m) (omega (arith, fits))
        (apply-IsWithin c most m (omega (arith, fits)) s) in
    record { ledger = rest.ledger; bounded = omega (arith, rest.bounded) }

new-IsWithin : IsWithin new 0
unfolding new
new-IsWithin = record {
  ledger = record { once = tt; booked = tt; total = refl };
  bounded = omega arith;
}

-- After any calls on a new delegation manager but redelegations, which offer in all less than 2^64
-- less the maximum of one validator, no validator stands twice, the total of each is the sum of its
-- delegations and at most the maximum, and the manager's total is the sum of the validators'.
pub run-IsLedger :
    (cs : List Call)
    → sum_by offered cs + max_delegated_stake_per_validator < u64_mod
    → IsLedger (run cs new)
run-IsLedger cs fits = (run-IsWithin cs 0 new (omega (arith, fits)) new-IsWithin).ledger

add_delegation_refused :
    (d : Delegation) (i : ValidatorDelegationInfo) (e : DelegationError)
    → (add_delegation d i).0 ≡ err e
    → (add_delegation d i).1 ≡ i
unfolding add_delegation
add_delegation_refused d i e h = ground (arith, h)

-- a refused addition leaves the sum of the totals, and the manager's
add_to_kept :
    (v : ℕ) (d : Delegation) (m : DelegationManager) (e : DelegationError)
    → (add_to v d m).0 ≡ err e
    → let m' = (add_to v d m).1 in
      (sum_values total_of m'.validator_delegations ≡ sum_values total_of m.validator_delegations)
      × (m'.total_delegated ≡ m.total_delegated)
unfolding add_to
add_to_kept v d m e h = elim (Result-cases (add_delegation d (entry v m)).0) [
  | inl (x, q) ↦
      let same = add_delegation_refused d (entry v m) x q in
      rw (q, same, add_to) (omega (arith, put_sum v (entry v m) m), refl)
  | inr (u, q) ↦ ground (arith, h, q)
]

-- A redelegation that takes stake off a validator of a ledger and that is then refused, because what
-- is moved is below the minimum or the target is inactive, jailed or full, gives nothing back: the
-- validators' totals lose the amount, and the manager's total still counts it.
pub redelegate_refused :
    (delegator source target amount moved rewards now : ℕ) (m : DelegationManager)
    (i : ValidatorDelegationInfo) (e : DelegationError)
    → IsLedger m
    → lookup source m.validator_delegations ≡ some i
    → (redelegate delegator amount i).0 ≡ ok (moved, rewards)
    → (redelegate_to delegator source target amount now m).0 ≡ err e
    → let m' = (redelegate_to delegator source target amount now m).1 in
      (sum_values total_of m'.validator_delegations + amount ≡ m.total_delegated)
      × (m'.total_delegated ≡ m.total_delegated)
unfolding redelegate_to
redelegate_refused delegator source target amount moved rewards now m i e s found ok_source
      refused =
    let i' = (redelegate delegator amount i).1 in
    let m1 = put source i' m in
    let b : IsBooked i = rw (sym (entry_found source i m found)) (entry-IsBooked source m s) in
    let less = redelegate_total delegator amount moved rewards i ok_source b in
    let taken : sum_values total_of m1.validator_delegations + amount ≡ m.total_delegated =
      omega
        (arith, put_sum source i' m, ap total_of (entry_found source i m found), less, s.total) in
    elim (Result-cases (new_delegation delegator target (add64 moved rewards) now)) [
      | inl (x, q) ↦ rw (found, ok_source, q, redelegate_to) (taken, refl)
      | inr (d, q) ↦
          let same : (redelegate_to delegator source target amount now m) ≡ add_to target d m1 =
            rw (found, ok_source, q, redelegate_to) refl in
          let kept = add_to_kept target d m1 e (ap (λ r. r.0) (sym same) ∙ refused) in
          rw same (omega (arith, kept.0, taken), kept.1)
    ]
