-- ===== src/Delegation/Manager.antt =====
-- `DelegationManager` of src/delegation.rs.
use silver_consensus.Base.{
  ℕ, Bool, Option, none, some, List, [], ◌∷◌, if◌then◌else◌, is_empty, length,
}
use silver_consensus.Base.Word.{add64, sub64}
use silver_consensus.Base.Dict.{Dict, lookup, insert, keys}
use silver_consensus.Base.Outcome.{Result, ok, err}
use silver_consensus.Delegation.{
  Delegation, UndelegationRequest, ValidatorDelegationInfo, DelegationError, no_validator,
  new_delegation, new_info, add_delegation, request_undelegation, redelegate, process_undelegations,
  distribute_rewards,
}

pub record DelegationManager : Type 0 where
  pub validator_delegations : Dict ValidatorDelegationInfo
  pub total_delegated : ℕ

unfoldable pub new : DelegationManager
new = record { validator_delegations = []; total_delegated = 0 }

-- `entry(validator_id).or_insert_with(..)`
unfoldable pub entry : ℕ → DelegationManager → ValidatorDelegationInfo
entry validator_id m = elim (lookup validator_id m.validator_delegations) [
  | none ↦ new_info validator_id
  | some i ↦ i
]

abbrev pub put : ℕ → ValidatorDelegationInfo → DelegationManager → DelegationManager
put validator_id i m = record m {
  validator_delegations = insert validator_id i m.validator_delegations;
}

-- `add_delegation` to the validator's entry, which is there afterwards also where it fails
unfoldable pub add_to :
    ℕ → Delegation → DelegationManager → Result DelegationError Delegation × DelegationManager
add_to validator_id d m =
    let (outcome, i) = add_delegation d (entry validator_id m) in
    elim outcome [ err e ↦ (err e, put validator_id i m) | ok _ ↦ (ok d, put validator_id i m) ]

unfoldable pub delegate :
    ℕ → ℕ → ℕ → ℕ → DelegationManager → Result DelegationError Delegation × DelegationManager
delegate delegator validator_id amount now m =
    elim (new_delegation delegator validator_id amount now) [
      | err e ↦ (err e, m)
      | ok d ↦
          let (outcome, m') = add_to validator_id d m in
          elim outcome [
            | err e ↦ (err e, m')
            | ok d' ↦ (ok d', record m' { total_delegated = add64 m'.total_delegated amount })
          ]
    ]

unfoldable pub undelegate :
    ℕ
    → ℕ
    → ℕ
    → ℕ
    → DelegationManager
    → Result DelegationError UndelegationRequest × DelegationManager
undelegate delegator validator_id amount now m =
    elim (lookup validator_id m.validator_delegations) [
      | none ↦ (err no_validator, m)
      | some i ↦
          let (outcome, i') = request_undelegation delegator amount now i in
          elim outcome [
            | err e ↦ (err e, put validator_id i' m)
            | ok request ↦ (
              ok request,
              record (put validator_id i' m) { total_delegated = sub64 m.total_delegated amount },
            )
          ]
    ]

unfoldable pub redelegate_to :
    ℕ → ℕ → ℕ → ℕ → ℕ → DelegationManager → Result DelegationError Delegation × DelegationManager
redelegate_to delegator from_validator to_validator amount now m =
    elim (lookup from_validator m.validator_delegations) [
      | none ↦ (err no_validator, m)
      | some i ↦
          let (outcome, i') = redelegate delegator amount i in
          let m' = put from_validator i' m in
          elim outcome [
            | err e ↦ (err e, m')
            | ok (moved, rewards) ↦
                elim (new_delegation delegator to_validator (add64 moved rewards) now) [
                  | err e ↦ (err e, m')
                  | ok d ↦ add_to to_validator d m'
                ]
          ]
    ]

unfoldable pub process_all :
    ℕ
    → Dict ValidatorDelegationInfo
    → Dict (List UndelegationRequest) × Dict ValidatorDelegationInfo
process_all now [] = ([], [])
process_all now ((k, i) ∷ d) =
    let (completed, i') = process_undelegations now i in
    let rest = process_all now d in
    (if is_empty completed then rest.0 else (k, completed) ∷ rest.0, (k, i') ∷ rest.1)

unfoldable pub process_undelegations_all :
    ℕ → DelegationManager → Dict (List UndelegationRequest) × DelegationManager
process_undelegations_all now m =
    let (completed, infos) = process_all now m.validator_delegations in
    (completed, record m { validator_delegations = infos })

-- `get_mut(validator_id)` and a change of the validator's entry
unfoldable pub update :
    ℕ → (ValidatorDelegationInfo → ValidatorDelegationInfo) → DelegationManager → DelegationManager
update validator_id f m = elim (lookup validator_id m.validator_delegations) [
  | none ↦ m
  | some i ↦ put validator_id (f i) m
]

unfoldable pub distribute_validator_rewards : ℕ → ℕ → DelegationManager → DelegationManager
distribute_validator_rewards validator_id rewards m =
    update validator_id (distribute_rewards rewards) m

unfoldable pub set_validator_active : ℕ → Bool → DelegationManager → DelegationManager
set_validator_active validator_id active m =
    update validator_id (λ (i : ValidatorDelegationInfo). record i { is_active = active }) m

unfoldable pub set_validator_jailed : ℕ → Bool → DelegationManager → DelegationManager
set_validator_jailed validator_id jailed m =
    update validator_id (λ (i : ValidatorDelegationInfo). record i { is_jailed = jailed }) m

unfoldable pub get_delegation : ℕ → ℕ → DelegationManager → Option Delegation
get_delegation delegator validator_id m = elim (lookup validator_id m.validator_delegations) [
  | none ↦ none
  | some i ↦ lookup delegator i.delegations
]

unfoldable pub get_validator_delegated_stake : ℕ → DelegationManager → ℕ
get_validator_delegated_stake validator_id m = elim (lookup validator_id m.validator_delegations) [
  | none ↦ 0
  | some i ↦ i.total_delegated
]

unfoldable pub get_validator_delegators : ℕ → DelegationManager → List ℕ
get_validator_delegators validator_id m = elim (lookup validator_id m.validator_delegations) [
  | none ↦ []
  | some i ↦ keys i.delegations
]

unfoldable pub get_validator_delegator_count : ℕ → DelegationManager → ℕ
get_validator_delegator_count validator_id m = elim (lookup validator_id m.validator_delegations) [
  | none ↦ 0
  | some i ↦ length i.delegations
]
