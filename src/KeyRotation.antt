-- ===== src/KeyRotation.antt =====
-- `KeyRecord`, `KeyRotationRequest` and `KeyRotationEvent` of src/key_rotation.rs, and what changes
-- the record of a key. `now` is in seconds; a key and its identifier are numbers.
mod Manager
mod Calls
mod Transitions
mod Growth
mod Kept
mod Rotation
mod Completion
mod Examples
use silver_consensus.Base.{ℕ, Bool, true, false, Option, none, some, leb, ltb, if◌then◌else◌}
use silver_consensus.Base.Word.{add64, sub64}
use silver_consensus.Base.Outcome.{Result, ok, err}

pub data KeyStatus : Type 0 where
  active pending transitioning revoked expired : KeyStatus

abbrev pub is_pending : KeyStatus → Bool
is_pending pending = true
is_pending _ = false

abbrev pub is_transitioning : KeyStatus → Bool
is_transitioning transitioning = true
is_transitioning _ = false

abbrev pub is_revoked : KeyStatus → Bool
is_revoked revoked = true
is_revoked _ = false

-- the test of `KeyRecord::is_valid`
abbrev pub is_accepted : KeyStatus → Bool
is_accepted active = true
is_accepted transitioning = true
is_accepted _ = false

pub record KeyRecord : Type 0 where
  pub key_id : ℕ
  pub public_key : ℕ
  pub status : KeyStatus
  pub created_at : ℕ
  pub activated_at : Option ℕ
  pub transition_starts_at : Option ℕ
  pub transition_ends_at : Option ℕ
  pub revoked_at : Option ℕ
  pub expires_at : Option ℕ

pub data KeyError : Type 0 where
  not_pending not_transitioning in_transition already_revoked : KeyError
  has_key no_key has_request no_request : KeyError

-- `KeyRecord::new`
unfoldable pub new_key : ℕ → ℕ → ℕ → KeyRecord
new_key key_id public_key now = record {
  key_id = key_id;
  public_key = public_key;
  status = pending;
  created_at = now;
  activated_at = none;
  transition_starts_at = none;
  transition_ends_at = none;
  revoked_at = none;
  expires_at = none;
}

unfoldable pub activate : ℕ → ℕ → KeyRecord → Result KeyError (Unit {0}) × KeyRecord
activate transition_period_secs now k =
    if is_pending k.status
    then (
      ok tt,
      record k {
        status = transitioning;
        activated_at = some now;
        transition_starts_at = some now;
        transition_ends_at = some (add64 now transition_period_secs);
      },
    )
    else (err not_pending, k)

-- whether the period of transition has an end that is to come
unfoldable pub is_before_end : ℕ → KeyRecord → Bool
is_before_end now k = elim k.transition_ends_at [ none ↦ false | some at ↦ ltb now at ]

unfoldable pub complete_transition : ℕ → KeyRecord → Result KeyError (Unit {0}) × KeyRecord
complete_transition now k =
    if is_transitioning k.status
    then if is_before_end now k
      then (err in_transition, k)
      else (ok tt, record k { status = active })
    else (err not_transitioning, k)

unfoldable pub revoke : ℕ → KeyRecord → Result KeyError (Unit {0}) × KeyRecord
revoke now k =
    if is_revoked k.status
    then (err already_revoked, k)
    else (ok tt, record k { status = revoked; revoked_at = some now })

unfoldable pub is_valid : KeyRecord → Bool
is_valid k = is_accepted k.status

unfoldable pub is_transition_complete : ℕ → KeyRecord → Bool
is_transition_complete now k = elim k.transition_ends_at [ none ↦ false | some at ↦ leb at now ]

unfoldable pub remaining_transition_time : ℕ → KeyRecord → ℕ
remaining_transition_time now k = elim k.transition_ends_at [
  | none ↦ 0
  | some at ↦ if leb at now then 0 else sub64 at now
]

pub data RequestStatus : Type 0 where
  voting approved rejected lapsed : RequestStatus

pub record KeyRotationRequest : Type 0 where
  pub validator_id : ℕ
  pub new_key_id : ℕ
  pub new_public_key : ℕ
  pub requested_at : ℕ
  pub votes_in_favor : ℕ
  pub total_votes : ℕ
  pub status : RequestStatus

pub data KeyRotationEventType : Type 0 where
  rotation_requested rotation_approved rotation_rejected : KeyRotationEventType
  transition_started transition_completed key_revoked : KeyRotationEventType

pub record KeyRotationEvent : Type 0 where
  pub validator_id : ℕ
  pub event_type : KeyRotationEventType
  pub key_id : ℕ
  pub timestamp : ℕ
  pub cycle : ℕ
