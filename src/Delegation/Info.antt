-- ===== src/Delegation/Info.antt =====
-- The books of one validator of src/delegation.rs, over the operations of `ValidatorDelegationInfo`.
use silver_consensus.Base.{
  ℕ, ◌+◌, ◌≤◌, ◌<◌, ◌≡◌, refl, sym, ◌∙◌, inl, inr, Bool, true, false, some, [], ◌∷◌, ◌==◌, ltb, not,
  if◌then◌else◌, IsDistinct, arith, Bool-cases, Option-cases,
}
use silver_consensus.Base.Word.{add64, sub64, add64_exact, sub64_exact, u64_mod}
use silver_consensus.Base.Dict.{
  Dict, lookup, insert, keys, sum_values, IsDistinct-insert, IsDistinct-remove,
  sum_values-insert_new, sum_values-insert_old, sum_values-remove,
}
use silver_consensus.Delegation.{
  Delegation, ValidatorDelegationInfo, max_delegated_stake_per_validator, new_info, merged,
  add_delegation, reward_share, take_off, request_undelegation, redelegate, share_out,
  distribute_rewards, add_rewards,
}

abbrev pub amount_of : Delegation → ℕ
amount_of d = d.amount

-- no delegator stands twice, and the total is the sum of the delegations and at most the maximum
pub record IsBooked (i : ValidatorDelegationInfo) : Type 0 where
  pub once : IsDistinct (keys i.delegations)
  pub total : i.total_delegated ≡ sum_values amount_of i.delegations
  pub most : i.total_delegated ≤ max_delegated_stake_per_validator

pub new_info-IsBooked : (v : ℕ) → IsBooked (new_info v)
unfolding new_info
new_info-IsBooked v = record { once = tt; total = refl; most = omega arith }

-- what the sum of the delegations is with one more
merged_sum :
    (d : Delegation) (i : ValidatorDelegationInfo)
    → sum_values amount_of i.delegations + d.amount < u64_mod
    → sum_values amount_of (insert d.delegator (merged d i) i.delegations)
      ≡ sum_values amount_of i.delegations + d.amount
unfolding merged
merged_sum d i fits = elim (Option-cases (lookup d.delegator i.delegations)) [
  | inl e ↦ rw (e, merged) (sum_values-insert_new amount_of d.delegator d i.delegations e)
  | inr (old, e) ↦
      let more = record old { amount = add64 old.amount d.amount } in
      let change = sum_values-insert_old amount_of d.delegator more old i.delegations e in
      let part = sum_values-remove amount_of d.delegator old i.delegations e in
      rw (e, merged) (omega (arith, change, part, add64_exact old.amount d.amount, fits))
]

added :
    (d : Delegation) (i : ValidatorDelegationInfo)
    → d.amount + max_delegated_stake_per_validator < u64_mod
    → IsBooked i
    → ltb max_delegated_stake_per_validator (add64 i.total_delegated d.amount) ≡ false
    → IsBooked (record i {
      delegations = insert d.delegator (merged d i) i.delegations;
      total_delegated = add64 i.total_delegated d.amount;
    })
added d i fits b o =
    let exact = add64_exact i.total_delegated d.amount (omega (arith, fits, b.most)) in
    record {
      once = IsDistinct-insert d.delegator (merged d i) i.delegations b.once;
      total = omega (arith, exact, b.total, merged_sum d i (omega (arith, fits, b.most, b.total)));
      most = ground (arith, o);
    }

-- the books only read the delegations and the total
pub same-IsBooked :
    (i j : ValidatorDelegationInfo)
    → j.delegations ≡ i.delegations
    → j.total_delegated ≡ i.total_delegated
    → IsBooked i
    → IsBooked j
same-IsBooked i j p q b = record {
  once = rw p b.once;
  total = rw (p, q) b.total;
  most = rw q b.most;
}

-- a guard: the one outcome, or the other where the test fails
if-IsBooked :
    {R : Type 0} (t : Bool) (x y : R × ValidatorDelegationInfo)
    → IsBooked x.1
    → (t ≡ false → IsBooked y.1)
    → IsBooked (if t then x else y).1
if-IsBooked true x y b f = b
if-IsBooked false x y b f = f refl

pub add_delegation-IsBooked :
    (d : Delegation) (i : ValidatorDelegationInfo)
    → d.amount + max_delegated_stake_per_validator < u64_mod
    → IsBooked i
    → IsBooked (add_delegation d i).1
unfolding add_delegation
add_delegation-IsBooked d i fits b = if-IsBooked (not i.is_active) _ _ b (λ a.
    if-IsBooked i.is_jailed _ _ b (λ j.
      if-IsBooked (ltb max_delegated_stake_per_validator (add64 i.total_delegated d.amount)) _ _ b
        (λ o. added d i fits b o)))

pub take_off-IsBooked :
    (delegator amount : ℕ) (d : Delegation) (i : ValidatorDelegationInfo)
    → lookup delegator i.delegations ≡ some d
    → amount ≤ d.amount
    → IsBooked i
    → IsBooked (take_off delegator amount d i)
unfolding take_off
take_off-IsBooked delegator amount d i e l b =
    let ds = i.delegations in
    let left : Delegation = record d {
      amount = sub64 d.amount amount;
      accumulated_rewards = sub64 d.accumulated_rewards (reward_share amount d);
    } in
    let part = sum_values-remove amount_of delegator d ds e in
    let change = sum_values-insert_old amount_of delegator left d ds e in
    let amount_left = sub64_exact d.amount amount l (omega (arith, part, b.total, b.most)) in
    let total_left =
      sub64_exact i.total_delegated amount (omega (arith, part, b.total, l))
        (omega (arith, b.most)) in
    elim (Bool-cases (sub64 d.amount amount == 0)) [
      | inl z ↦
          rw (z, take_off)
            record {
              once = IsDistinct-remove delegator ds b.once;
              total = ground (arith, total_left, b.total, part, amount_left, l, z);
              most = omega (arith, total_left, b.most);
            }
      | inr z ↦
          rw (z, take_off)
            record {
              once = IsDistinct-insert delegator left ds b.once;
              total = omega (arith, total_left, b.total, part, change, amount_left, l);
              most = omega (arith, total_left, b.most);
            }
    ]

pub request_undelegation-IsBooked :
    (delegator amount now : ℕ) (i : ValidatorDelegationInfo)
    → IsBooked i
    → IsBooked (request_undelegation delegator amount now i).1
unfolding request_undelegation
request_undelegation-IsBooked delegator amount now i b =
    elim (Option-cases (lookup delegator i.delegations)) [
      | inl e ↦ rw (e, request_undelegation) b
      | inr (d, e) ↦
          rw (e, request_undelegation)
            (if-IsBooked (ltb d.amount amount) _ _ b (λ t.
              same-IsBooked (take_off delegator amount d i) _ refl refl
                (take_off-IsBooked delegator amount d i e (ground (arith, t)) b)))
    ]

pub redelegate-IsBooked :
    (delegator amount : ℕ) (i : ValidatorDelegationInfo)
    → IsBooked i
    → IsBooked (redelegate delegator amount i).1
unfolding redelegate
redelegate-IsBooked delegator amount i b = elim (Option-cases (lookup delegator i.delegations)) [
  | inl e ↦ rw (e, redelegate) b
  | inr (d, e) ↦
      rw (e, redelegate)
        (if-IsBooked (ltb d.amount amount) _ _ b
          (λ t. take_off-IsBooked delegator amount d i e (ground (arith, t)) b))
]

keys-share_out : (r t : ℕ) (ds : Dict Delegation) → keys (share_out r t ds) ≡ keys ds
unfolding share_out
keys-share_out r t [] = refl
keys-share_out r t (e ∷ ds) = rw (keys-share_out r t ds) refl

sum-share_out :
    (r t : ℕ) (ds : Dict Delegation)
    → sum_values amount_of (share_out r t ds) ≡ sum_values amount_of ds
unfolding share_out add_rewards
sum-share_out r t [] = refl
sum-share_out r t (e ∷ ds) = omega (arith, sum-share_out r t ds)

pub distribute_rewards-IsBooked :
    (r : ℕ) (i : ValidatorDelegationInfo) → IsBooked i → IsBooked (distribute_rewards r i)
unfolding distribute_rewards
distribute_rewards-IsBooked r i b = elim (Bool-cases (i.total_delegated == 0)) [
  | inl z ↦ rw (z, distribute_rewards) b
  | inr z ↦
      rw (z, distribute_rewards)
        record {
          once = rw (keys-share_out r i.total_delegated i.delegations) b.once;
          total = b.total ∙ sym (sum-share_out r i.total_delegated i.delegations);
          most = b.most;
        }
]
