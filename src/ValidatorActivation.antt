-- ===== src/ValidatorActivation.antt =====
-- `ActivationRequest`, `ValidatorActivationRecord` and `ActivationEvent` of
-- src/validator_activation.rs, and what changes a record. `now` is in seconds.
mod Manager
mod Calls
mod Rested
mod Cooldown
mod Service
mod Edges
mod Diagram
mod Votes
mod Examples
use silver_consensus.Base.{ℕ, Bool, true, false, Option, none, some, leb, ltb, if◌then◌else◌}
use silver_consensus.Base.Word.{add64, sub64}
use silver_consensus.Base.Outcome.{Result, ok, err}

pub data ValidatorStatus : Type 0 where
  pending active deactivated suspended removed : ValidatorStatus

abbrev pub is_active : ValidatorStatus → Bool
is_active active = true
is_active _ = false

abbrev pub is_suspended : ValidatorStatus → Bool
is_suspended suspended = true
is_suspended _ = false

pub data ActivationRequestType : Type 0 where
  activation deactivation : ActivationRequestType

pub data ActivationRequestStatus : Type 0 where
  voting approved rejected expired : ActivationRequestStatus

pub record ActivationRequest : Type 0 where
  pub validator_id : ℕ
  pub request_type : ActivationRequestType
  pub requested_at : ℕ
  pub votes_in_favor : ℕ
  pub total_votes : ℕ
  pub status : ActivationRequestStatus

pub record ValidatorActivationRecord : Type 0 where
  pub validator_id : ℕ
  pub status : ValidatorStatus
  pub activated_at : Option ℕ
  pub deactivated_at : Option ℕ
  pub can_reactivate_at : Option ℕ
  pub activation_count : ℕ
  pub deactivation_count : ℕ

pub data ActivationEventType : Type 0 where
  was_activated was_deactivated was_suspended was_removed : ActivationEventType

pub record ActivationEvent : Type 0 where
  pub validator_id : ℕ
  pub event_type : ActivationEventType
  pub timestamp : ℕ
  pub cycle : ℕ

pub data ActivationError : Type 0 where
  already_active cooling_down not_active already_suspended : ActivationError
  low_stake low_power not_found no_request : ActivationError

-- `ValidatorActivationRecord::new`
unfoldable pub new_record : ℕ → ValidatorActivationRecord
new_record validator_id = record {
  validator_id = validator_id;
  status = pending;
  activated_at = none;
  deactivated_at = none;
  can_reactivate_at = none;
  activation_count = 0;
  deactivation_count = 0;
}

-- whether the cooldown forbids an activation
unfoldable pub is_cooling : ℕ → ValidatorActivationRecord → Bool
is_cooling now r = elim r.can_reactivate_at [ none ↦ false | some at ↦ ltb now at ]

-- `ValidatorActivationRecord::activate`, past its guards
unfoldable pub set_active : ℕ → ValidatorActivationRecord → ValidatorActivationRecord
set_active now r = record r {
  status = active;
  activated_at = some now;
  can_reactivate_at = none;
  activation_count = add64 r.activation_count 1;
}

unfoldable pub activate :
    ℕ → ValidatorActivationRecord → Result ActivationError (Unit {0}) × ValidatorActivationRecord
activate now r =
    if is_active r.status
    then (err already_active, r)
    else if is_cooling now r
    then (err cooling_down, r)
    else (ok tt, set_active now r)

unfoldable pub deactivate :
    ℕ
    → ℕ
    → ValidatorActivationRecord
    → Result ActivationError (Unit {0}) × ValidatorActivationRecord
deactivate cooldown_secs now r =
    if is_active r.status
    then (
      ok tt,
      record r {
        status = deactivated;
        deactivated_at = some now;
        can_reactivate_at = some (add64 now cooldown_secs);
        deactivation_count = add64 r.deactivation_count 1;
      },
    )
    else (err not_active, r)

unfoldable pub suspend :
    ValidatorActivationRecord → Result ActivationError (Unit {0}) × ValidatorActivationRecord
suspend r =
    if is_suspended r.status
    then (err already_suspended, r)
    else (ok tt, record r { status = suspended })

-- `ValidatorActivationRecord::remove`
unfoldable pub withdraw :
    ValidatorActivationRecord → Result ActivationError (Unit {0}) × ValidatorActivationRecord
withdraw r = (ok tt, record r { status = removed })

unfoldable pub can_reactivate : ℕ → ValidatorActivationRecord → Bool
can_reactivate now r = elim r.can_reactivate_at [ none ↦ false | some at ↦ leb at now ]

unfoldable pub remaining_cooldown : ℕ → ValidatorActivationRecord → ℕ
remaining_cooldown now r = elim r.can_reactivate_at [
  | none ↦ 0
  | some at ↦ if leb at now then 0 else sub64 at now
]
