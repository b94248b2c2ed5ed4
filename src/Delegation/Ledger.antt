-- ===== src/Delegation/Ledger.antt =====
-- The totals of the delegation manager of src/delegation.rs over a delegation, an undelegation and a
-- change that moves no stake.
use silver_consensus.Base.{
  ℕ, ◌+◌, ◌≤◌, ◌<◌, ◌≡◌, refl, sym, ap, inl, inr, some, ltb, arith, Bool-cases, Option-cases,
}
use silver_consensus.Base.Word.{add64, sub64, add64_exact, sub64_exact, u64_mod}
use silver_consensus.Base.Dict.{lookup, sum_values-remove}
use silver_consensus.Base.Outcome.{ok, err}
use silver_consensus.Delegation.{
  Delegation, ValidatorDelegationInfo, DelegationError, max_delegated_stake_per_validator,
  min_delegation_amount, new_delegation, add_delegation, request_undelegation,
}
use silver_consensus.Delegation.Manager.{
  DelegationManager, entry, put, add_to, delegate, undelegate, update,
}
use silver_consensus.Delegation.Info.{
  IsBooked, add_delegation-IsBooked, request_undelegation-IsBooked,
}
use silver_consensus.Delegation.Totals.{
  IsLedger, total_of, add_delegation-cases, request_undelegation-cases, entry-IsBooked,
  put-IsLedger,
}

-- a ledger whose total is at most the number
pub record IsWithin (m : DelegationManager) (most : ℕ) : Type 0 where
  pub ledger : IsLedger m
  pub bounded : m.total_delegated ≤ most

pub entry_found :
    (v : ℕ) (i : ValidatorDelegationInfo) (m : DelegationManager)
    → lookup v m.validator_delegations ≡ some i
    → entry v m ≡ i
unfolding entry
entry_found v i m e = rw (e, entry) refl

pub add_to_refused :
    (v : ℕ) (d : Delegation) (m : DelegationManager) (e : DelegationError)
    → (add_delegation d (entry v m)).0 ≡ err e
    → ((add_to v d m).0 ≡ err e) × ((add_to v d m).1 ≡ put v (add_delegation d (entry v m)).1 m)
unfolding add_to
add_to_refused v d m e q = (rw (q, add_to) refl, rw (q, add_to) refl)

add_to_accepted :
    (v : ℕ) (d : Delegation) (m : DelegationManager)
    → (add_delegation d (entry v m)).0 ≡ ok tt
    → ((add_to v d m).0 ≡ ok d) × ((add_to v d m).1 ≡ put v (add_delegation d (entry v m)).1 m)
unfolding add_to
add_to_accepted v d m q = (rw (q, add_to) refl, rw (q, add_to) refl)

pub delegate-IsWithin :
    (delegator v amount now most : ℕ) (m : DelegationManager)
    → most + amount + max_delegated_stake_per_validator < u64_mod
    → IsWithin m most
    → IsWithin (delegate delegator v amount now m).1 (most + amount)
unfolding delegate new_delegation
delegate-IsWithin delegator v amount now most m fits s =
    elim (Bool-cases (ltb amount min_delegation_amount)) [
      | inl t ↦
          rw (t, delegate, new_delegation)
            record { ledger = s.ledger; bounded = omega (arith, s.bounded) }
      | inr t ↦
          let d : Delegation = record {
            delegator = delegator;
            validator_id = v;
            amount = amount;
            accumulated_rewards = 0;
            delegated_at = now;
          } in
          let i = entry v m in
          let b = entry-IsBooked v m s.ledger in
          let small : amount + max_delegated_stake_per_validator < u64_mod = omega (arith, fits) in
          elim (add_delegation-cases d i small b) [
            | inl (e, q, kept) ↦
                let (q', put') = add_to_refused v d m e q in
                rw (t, q', put', kept, delegate, new_delegation)
                  record {
                    ledger = put-IsLedger v m.total_delegated i m refl b s.ledger;
                    bounded = omega (arith, s.bounded);
                  }
            | inr (q, more) ↦
                let exact = add64_exact m.total_delegated amount (omega (arith, s.bounded, fits)) in
                let (q', put') = add_to_accepted v d m q in
                rw (t, q', put', delegate, new_delegation)
                  record {
                    ledger =
                        put-IsLedger v (add64 m.total_delegated amount) (add_delegation d i).1 m
                          (omega (arith, exact, more)) (add_delegation-IsBooked d i small b)
                          s.ledger;
                    bounded = omega (arith, exact, s.bounded);
                  }
          ]
    ]

pub undelegate-IsWithin :
    (delegator v amount now most : ℕ) (m : DelegationManager)
    → most < u64_mod
    → IsWithin m most
    → IsWithin (undelegate delegator v amount now m).1 most
unfolding undelegate
undelegate-IsWithin delegator v amount now most m fits s =
    elim (Option-cases (lookup v m.validator_delegations)) [
      | inl e ↦ rw (e, undelegate) s
      | inr (i, e) ↦
          let found = entry_found v i m e in
          let b : IsBooked i = rw (sym found) (entry-IsBooked v m s.ledger) in
          let i' = (request_undelegation delegator amount now i).1 in
          let part = sum_values-remove total_of v i m.validator_delegations e in
          elim (request_undelegation-cases delegator amount now i b) [
            | inl (x, q, kept) ↦
                rw (e, q, kept, undelegate)
                  record {
                    ledger =
                        put-IsLedger v m.total_delegated i m (omega (arith, ap total_of found)) b
                          s.ledger;
                    bounded = s.bounded;
                  }
            | inr (r, q, less) ↦
                let exact =
                  sub64_exact m.total_delegated amount (omega (arith, s.ledger.total, part, less))
                    (omega (arith, s.bounded, fits)) in
                rw (e, q, undelegate)
                  record {
                    ledger =
                        put-IsLedger v (sub64 m.total_delegated amount) i' m
                          (omega (arith, exact, less, ap total_of found, s.ledger.total, part))
                          (request_undelegation-IsBooked delegator amount now i b) s.ledger;
                    bounded = omega (arith, exact, s.bounded);
                  }
          ]
    ]

-- a change of an entry that leaves its total
pub update-IsWithin :
    (v most : ℕ) (f : ValidatorDelegationInfo → ValidatorDelegationInfo) (m : DelegationManager)
    → ((i : ValidatorDelegationInfo) → IsBooked i → IsBooked (f i))
    → ((i : ValidatorDelegationInfo) → (f i).total_delegated ≡ i.total_delegated)
    → IsWithin m most
    → IsWithin (update v f m) most
unfolding update
update-IsWithin v most f m books same s = elim (Option-cases (lookup v m.validator_delegations)) [
  | inl e ↦ rw (e, update) s
  | inr (i, e) ↦
      let found = entry_found v i m e in
      let b : IsBooked i = rw (sym found) (entry-IsBooked v m s.ledger) in
      rw (e, update)
        record {
          ledger =
              put-IsLedger v m.total_delegated (f i) m (omega (arith, ap total_of found, same i))
                (books i b) s.ledger;
          bounded = s.bounded;
        }
]
