-- ===== src/ValidatorActivation/Manager.antt =====
-- `ActivationConfig` and `ValidatorActivationManager` of src/validator_activation.rs.
use silver_consensus.Base.{
  ℕ, Bool, none, some, List, [], ◌∷◌, ◌++◌, leb, ltb, ◌==◌, if◌then◌else◌, keep, length,
}
use silver_consensus.Base.Word.{add64}
use silver_consensus.Base.Dict.{Dict, lookup, insert, remove}
use silver_consensus.Base.Outcome.{Result, ok, err}
use silver_consensus.Core.{FloatApi}
use silver_consensus.ValidatorActivation.{
  ValidatorStatus, pending, is_active, ActivationRequestType, activation, deactivation,
  ActivationRequestStatus, voting, approved, rejected, ActivationRequest, ValidatorActivationRecord,
  ActivationEventType, was_activated, was_deactivated, ActivationEvent, ActivationError, low_stake,
  low_power, already_active, not_active, not_found, no_request, new_record, activate, deactivate,
}

module _ (fl : FloatApi) where
  pub record ActivationConfig : Type 0 where
    pub min_stake_for_activation : ℕ
    pub min_voting_power : ℕ
    pub deactivation_cooldown_secs : ℕ
    pub reactivation_cooldown_secs : ℕ
    pub activation_votes_required : fl.F64
    pub deactivation_votes_required : fl.F64

  pub record ValidatorActivationManager : Type 0 where
    pub config : ActivationConfig
    pub records : Dict ValidatorActivationRecord
    pub pending_requests : Dict ActivationRequest
    pub events : List ActivationEvent
    pub current_cycle : ℕ

  unfoldable pub new : ActivationConfig → ValidatorActivationManager
  new config = record {
    config = config;
    records = [];
    pending_requests = [];
    events = [];
    current_cycle = 0;
  }

  -- the request that both kinds make
  unfoldable pub new_request : ℕ → ActivationRequestType → ℕ → ActivationRequest
  new_request validator_id request_type now = record {
    validator_id = validator_id;
    request_type = request_type;
    requested_at = now;
    votes_in_favor = 0;
    total_votes = 0;
    status = voting;
  }

  unfoldable pub get_status : ℕ → ValidatorActivationManager → ValidatorStatus
  get_status validator_id m = elim (lookup validator_id m.records) [
    | none ↦ pending
    | some r ↦ r.status
  ]

  unfoldable pub request_activation :
      ℕ
      → ℕ
      → ℕ
      → ℕ
      → ValidatorActivationManager
      → Result ActivationError ActivationRequest × ValidatorActivationManager
  request_activation validator_id stake voting_power now m =
      let request = new_request validator_id activation now in
      if ltb stake m.config.min_stake_for_activation
      then (err low_stake, m)
      else if ltb voting_power m.config.min_voting_power
      then (err low_power, m)
      else if is_active (get_status validator_id m)
      then (err already_active, m)
      else (
        ok request,
        record m { pending_requests = insert validator_id request m.pending_requests },
      )

  unfoldable pub request_deactivation :
      ℕ
      → ℕ
      → ValidatorActivationManager
      → Result ActivationError ActivationRequest × ValidatorActivationManager
  request_deactivation validator_id now m = elim (lookup validator_id m.records) [
    | none ↦ (err not_found, m)
    | some r ↦
        let request = new_request validator_id deactivation now in
        if is_active r.status
        then (
          ok request,
          record m { pending_requests = insert validator_id request m.pending_requests },
        )
        else (err not_active, m)
  ]

  unfoldable pub vote_on_request :
      ℕ
      → Bool
      → ℕ
      → ValidatorActivationManager
      → Result ActivationError (Unit {0}) × ValidatorActivationManager
  vote_on_request validator_id in_favor power m = elim (lookup validator_id m.pending_requests) [
    | none ↦ (err no_request, m)
    | some q ↦
        let voted = record q {
          total_votes = add64 q.total_votes power;
          votes_in_favor = if in_favor then add64 q.votes_in_favor power else q.votes_in_favor;
        } in
        (ok tt, record m { pending_requests = insert validator_id voted m.pending_requests })
  ]

  -- `(total_stake as f64 * votes_required) as u64`
  unfoldable pub required_votes : ActivationRequestType → ℕ → ActivationConfig → ℕ
  required_votes activation total_stake c =
      fl.to_u64 (fl.mul (fl.of_u64 total_stake) c.activation_votes_required)
  required_votes deactivation total_stake c =
      fl.to_u64 (fl.mul (fl.of_u64 total_stake) c.deactivation_votes_required)

  -- the record of the validator, a new one where there is none
  unfoldable pub entry : ℕ → ValidatorActivationManager → ValidatorActivationRecord
  entry validator_id m = elim (lookup validator_id m.records) [
    | none ↦ new_record validator_id
    | some r ↦ r
  ]

  -- the record and the event of an approved request that its record accepted
  unfoldable pub carry_out :
      ℕ
      → ValidatorActivationRecord
      → ActivationEventType
      → ℕ
      → ValidatorActivationManager
      → ValidatorActivationManager
  carry_out validator_id r event_type now m = record m {
    records = insert validator_id r m.records;
    events =
        m.events
        ++ record {
          validator_id = validator_id;
          event_type = event_type;
          timestamp = now;
          cycle = m.current_cycle;
        }
          ∷ [];
    pending_requests = remove validator_id m.pending_requests;
  }

  -- the approved request, with its status written before it is carried out
  unfoldable pub approve :
      ℕ
      → ActivationRequestType
      → ℕ
      → ValidatorActivationManager
      → Result ActivationError ActivationRequestStatus × ValidatorActivationManager
  approve validator_id activation now m =
      let (outcome, r) = activate now (entry validator_id m) in
      elim outcome [
        | err e ↦ (err e, record m { records = insert validator_id r m.records })
        | ok _ ↦ (ok approved, carry_out validator_id r was_activated now m)
      ]
  approve validator_id deactivation now m = elim (lookup validator_id m.records) [
    | none ↦ (ok approved, record m { pending_requests = remove validator_id m.pending_requests })
    | some r ↦
        let (outcome, r') = deactivate m.config.deactivation_cooldown_secs now r in
        elim outcome [
          | err e ↦ (err e, record m { records = insert validator_id r' m.records })
          | ok _ ↦ (ok approved, carry_out validator_id r' was_deactivated now m)
        ]
  ]

  unfoldable pub finalize_request :
      ℕ
      → ℕ
      → ℕ
      → ValidatorActivationManager
      → Result ActivationError ActivationRequestStatus × ValidatorActivationManager
  finalize_request validator_id total_stake now m = elim (lookup validator_id m.pending_requests) [
    | none ↦ (err no_request, m)
    | some q ↦
        let is_approved =
          leb (required_votes q.request_type total_stake m.config) q.votes_in_favor in
        let decided = record q { status = if is_approved then approved else rejected } in
        let m' = record m { pending_requests = insert validator_id decided m.pending_requests } in
        if is_approved
        then approve validator_id q.request_type now m'
        else (ok rejected, record m' { pending_requests = remove validator_id m'.pending_requests })
  ]

  -- `get_record_mut` and a change of the record
  unfoldable pub with_record :
      (ValidatorActivationRecord → Result ActivationError (Unit {0}) × ValidatorActivationRecord)
      → ℕ
      → ValidatorActivationManager
      → ValidatorActivationManager
  with_record f validator_id m = elim (lookup validator_id m.records) [
    | none ↦ m
    | some r ↦ record m { records = insert validator_id (f r).1 m.records }
  ]

  unfoldable pub active_in : Dict ValidatorActivationRecord → List ℕ
  active_in [] = []
  active_in ((k, r) ∷ d) = let rest = active_in d in if is_active r.status then k ∷ rest else rest

  unfoldable pub get_active_validators : ValidatorActivationManager → List ℕ
  get_active_validators m = active_in m.records

  unfoldable pub get_validator_events : ℕ → ValidatorActivationManager → List ActivationEvent
  get_validator_events validator_id m =
      keep (λ (e : ActivationEvent). e.validator_id == validator_id) m.events

  unfoldable pub advance_cycle : ValidatorActivationManager → ValidatorActivationManager
  advance_cycle m = record m { current_cycle = add64 m.current_cycle 1 }

  unfoldable pub set_config :
      ActivationConfig → ValidatorActivationManager → ValidatorActivationManager
  set_config config m = record m { config = config }

  unfoldable pub active_count : ValidatorActivationManager → ℕ
  active_count m = length (active_in m.records)

  unfoldable pub pending_request_count : ValidatorActivationManager → ℕ
  pending_request_count m = length m.pending_requests
