-- ===== src/Delegation/Totals.antt =====
-- How the calls on one validator of src/delegation.rs change its total, and what the manager's total
-- is then.
use silver_consensus.Base.{
  ℕ, ◌+◌, ◌≤◌, ◌<◌, ◌≡◌, ◌⊎◌, inl, inr, some, ltb, not, IsDistinct, arith, Bool-cases, Option-cases,
}
use silver_consensus.Base.Word.{add64, add64_exact, sub64_exact, u64_mod}
use silver_consensus.Base.Dict.{
  lookup, keys, sum_values, IsDistinct-insert, sum_values-insert_new, sum_values-insert_old,
  sum_values-remove, AllValues, AllValues-insert, AllValues-lookup,
}
use silver_consensus.Base.Outcome.{ok, err}
use silver_consensus.Delegation.{
  Delegation, UndelegationRequest, ValidatorDelegationInfo, DelegationError,
  max_delegated_stake_per_validator, new_info, add_delegation, take_off, reward_share,
  request_undelegation, redelegate, over_maximum, inactive, jailed, too_much, no_delegation,
  new_request,
}
use silver_consensus.Delegation.Manager.{DelegationManager, entry, put}
use silver_consensus.Delegation.Info.{IsBooked, amount_of, new_info-IsBooked}

abbrev pub total_of : ValidatorDelegationInfo → ℕ
total_of i = i.total_delegated

-- a refused delegation changes nothing, and an accepted one adds its amount to the total
pub add_delegation-cases :
    (d : Delegation) (i : ValidatorDelegationInfo)
    → d.amount + max_delegated_stake_per_validator < u64_mod
    → IsBooked i
    → ((e : DelegationError) × ((add_delegation d i).0 ≡ err e) × ((add_delegation d i).1 ≡ i))
      ⊎ (((add_delegation d i).0 ≡ ok tt)
          × ((add_delegation d i).1.total_delegated ≡ i.total_delegated + d.amount))
unfolding add_delegation
add_delegation-cases d i fits b =
    let exact = add64_exact i.total_delegated d.amount (omega (arith, fits, b.most)) in
    let over = ltb max_delegated_stake_per_validator (add64 i.total_delegated d.amount) in
    elim (Bool-cases (not i.is_active)) [
      | inl a ↦ inl (inactive, ground (arith, a), ground (arith, a))
      | inr a ↦ elim (Bool-cases i.is_jailed) [
        | inl j ↦ inl (jailed, ground (arith, a, j), ground (arith, a, j))
        | inr j ↦ elim (Bool-cases over) [
          | inl o ↦ inl (over_maximum, ground (arith, a, j, o), ground (arith, a, j, o))
          | inr o ↦ inr (ground (arith, a, j, o), ground (arith, a, j, o, exact))
        ]
      ]
    ]

take_off_total :
    (delegator amount : ℕ) (d : Delegation) (i : ValidatorDelegationInfo)
    → lookup delegator i.delegations ≡ some d
    → amount ≤ d.amount
    → IsBooked i
    → (take_off delegator amount d i).total_delegated + amount ≡ i.total_delegated
unfolding take_off
take_off_total delegator amount d i e l b =
    let part = sum_values-remove amount_of delegator d i.delegations e in
    omega (
      arith,
      part,
      b.total,
      l,
      sub64_exact i.total_delegated amount (omega (arith, part, b.total, l))
          (omega (arith, b.most)),
    )

-- a refused request changes nothing, and an accepted one takes its amount off the total
pub request_undelegation-cases :
    (delegator amount now : ℕ) (i : ValidatorDelegationInfo)
    → IsBooked i
    → ((e : DelegationError) × ((request_undelegation delegator amount now i).0 ≡ err e)
        × ((request_undelegation delegator amount now i).1 ≡ i))
      ⊎ ((r : UndelegationRequest) × ((request_undelegation delegator amount now i).0 ≡ ok r)
          × ((request_undelegation delegator amount now i).1.total_delegated + amount
              ≡ i.total_delegated))
unfolding request_undelegation
request_undelegation-cases delegator amount now i b =
    elim (Option-cases (lookup delegator i.delegations)) [
      | inl e ↦ inl (no_delegation, ground (arith, e), ground (arith, e))
      | inr (d, e) ↦ elim (Bool-cases (ltb d.amount amount)) [
        | inl t ↦ inl (too_much, ground (arith, e, t), ground (arith, e, t))
        | inr t ↦
            let less = take_off_total delegator amount d i e (ground (arith, t)) b in
            let request = new_request delegator i.validator_id amount (reward_share amount d) now in
            inr (request, ground (arith, e, t), ground (arith, e, t, less))
      ]
    ]

-- the same for a redelegation
pub redelegate_total :
    (delegator amount moved rewards : ℕ) (i : ValidatorDelegationInfo)
    → (redelegate delegator amount i).0 ≡ ok (moved, rewards)
    → IsBooked i
    → (redelegate delegator amount i).1.total_delegated + amount ≡ i.total_delegated
unfolding redelegate
redelegate_total delegator amount moved rewards i h b =
    elim (Option-cases (lookup delegator i.delegations)) [
      | inl e ↦ ground (arith, e, h)
      | inr (d, e) ↦ elim (Bool-cases (ltb d.amount amount)) [
        | inl t ↦ ground (arith, e, t, h)
        | inr t ↦ ground (arith, e, t, take_off_total delegator amount d i e (ground (arith, t)) b)
      ]
    ]

-- No validator stands twice, each is booked, and the manager's total is the sum of theirs.
pub record IsLedger (m : DelegationManager) : Type 0 where
  pub once : IsDistinct (keys m.validator_delegations)
  pub booked : AllValues IsBooked m.validator_delegations
  pub total : m.total_delegated ≡ sum_values total_of m.validator_delegations

pub entry-IsBooked : (v : ℕ) (m : DelegationManager) → IsLedger m → IsBooked (entry v m)
unfolding entry
entry-IsBooked v m s = elim (Option-cases (lookup v m.validator_delegations)) [
  | inl e ↦ rw (e, entry) (new_info-IsBooked v)
  | inr (i, e) ↦ rw (e, entry) (AllValues-lookup IsBooked v i m.validator_delegations s.booked e)
]

-- the sum of the totals, once an entry is changed
pub put_sum :
    (v : ℕ) (i : ValidatorDelegationInfo) (m : DelegationManager)
    → sum_values total_of (put v i m).validator_delegations + (entry v m).total_delegated
      ≡ sum_values total_of m.validator_delegations + i.total_delegated
unfolding entry new_info
put_sum v i m = elim (Option-cases (lookup v m.validator_delegations)) [
  | inl e ↦ ground (arith, e, sum_values-insert_new total_of v i m.validator_delegations e)
  | inr (old, e) ↦
      ground (arith, e, sum_values-insert_old total_of v i old m.validator_delegations e)
]

-- an entry is put back, with the manager's total moved as the entry's
pub put-IsLedger :
    (v total' : ℕ) (i : ValidatorDelegationInfo) (m : DelegationManager)
    → total' + (entry v m).total_delegated ≡ m.total_delegated + i.total_delegated
    → IsBooked i
    → IsLedger m
    → IsLedger (record (put v i m) { total_delegated = total' })
put-IsLedger v total' i m moved b s = record {
  once = IsDistinct-insert v i m.validator_delegations s.once;
  booked = AllValues-insert IsBooked v i m.validator_delegations s.booked b;
  total = omega (arith, moved, s.total, put_sum v i m);
}
