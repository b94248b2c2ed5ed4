-- ===== src/KeyRotation/Manager.antt =====
-- `KeyRotationConfig` and `KeyRotationManager` of src/key_rotation.rs.
use silver_consensus.Base.{
  ℕ, Bool, Option, none, some, List, [], ◌∷◌, ◌++◌, map, length, keep, leb, ◌==◌, ◌&&◌,
  if◌then◌else◌,
}
use silver_consensus.Base.Word.{add64}
use silver_consensus.Base.Dict.{Dict, lookup, contains_key, insert, remove}
use silver_consensus.Base.Outcome.{Result, ok, err}
use silver_consensus.Core.{FloatApi}
use silver_consensus.KeyRotation.{
  active, is_transitioning, is_revoked, KeyRecord, KeyError, has_key, no_key, has_request,
  no_request, new_key, activate, complete_transition, is_valid, is_transition_complete,
  RequestStatus, voting, approved, rejected, KeyRotationRequest, KeyRotationEventType,
  rotation_requested, rotation_approved, rotation_rejected, transition_completed, KeyRotationEvent,
}

-- the revoked key with the earliest `revoked_at`, and that time
unfoldable pub oldest_revoked_from : Dict KeyRecord → Option (ℕ × ℕ)
oldest_revoked_from [] = none
oldest_revoked_from ((id, k) ∷ d) =
    let rest = oldest_revoked_from d in
    let at : ℕ = elim k.revoked_at [ none ↦ 0 | some t ↦ t ] in
    if is_revoked k.status
    then elim rest [ none ↦ some (id, at) | some e ↦ if leb at e.1 then some (id, at) else some e ]
    else rest

-- the keys, less the oldest revoked one where there are as many as the limit
unfoldable pub make_room : ℕ → Dict KeyRecord → Dict KeyRecord
make_room max_keys d =
    if leb max_keys (length d)
    then elim (oldest_revoked_from d) [ none ↦ d | some e ↦ remove e.0 d ]
    else d

-- the keys of one validator after the transitions that are over, and which these are
unfoldable pub process_keys : ℕ → Dict KeyRecord → Dict KeyRecord × List ℕ
process_keys now [] = ([], [])
process_keys now ((id, k) ∷ d) =
    let rest = process_keys now d in
    let (outcome, k') = complete_transition now k in
    if is_transitioning k.status && is_transition_complete now k
    then elim outcome [
      | err e ↦ ((id, k') ∷ rest.0, rest.1)
      | ok _ ↦ ((id, k') ∷ rest.0, id ∷ rest.1)
    ]
    else ((id, k) ∷ rest.0, rest.1)

-- the same for each validator
unfoldable pub process_all : ℕ → Dict (Dict KeyRecord) → Dict (Dict KeyRecord) × List (ℕ × ℕ)
process_all now [] = ([], [])
process_all now ((v, keys) ∷ d) =
    let rest = process_all now d in
    let (keys', ids) = process_keys now keys in
    ((v, keys') ∷ rest.0, map (λ (id : ℕ). (v, id)) ids ++ rest.1)

-- the active keys after the transitions, in their order
unfoldable pub set_active : List (ℕ × ℕ) → Dict ℕ → Dict ℕ
set_active [] d = d
set_active (e ∷ es) d = set_active es (insert e.0 e.1 d)

module _ (fl : FloatApi) where
  pub record KeyRotationConfig : Type 0 where
    pub transition_period_secs : ℕ
    pub votes_required : fl.F64
    pub max_keys_per_validator : ℕ
    pub key_expiration_secs : ℕ

  pub record KeyRotationManager : Type 0 where
    pub config : KeyRotationConfig
    pub validator_keys : Dict (Dict KeyRecord)
    pub active_keys : Dict ℕ
    pub pending_requests : Dict KeyRotationRequest
    pub events : List KeyRotationEvent
    pub current_cycle : ℕ

  unfoldable pub new : KeyRotationConfig → KeyRotationManager
  new config = record {
    config = config;
    validator_keys = [];
    active_keys = [];
    pending_requests = [];
    events = [];
    current_cycle = 0;
  }

  -- the keys of a validator, or none
  abbrev pub keys_of : ℕ → KeyRotationManager → Dict KeyRecord
  keys_of v m = elim (lookup v m.validator_keys) [ none ↦ [] | some d ↦ d ]

  unfoldable pub new_event :
      ℕ → KeyRotationEventType → ℕ → ℕ → KeyRotationManager → KeyRotationEvent
  new_event validator_id event_type key_id now m = record {
    validator_id = validator_id;
    event_type = event_type;
    key_id = key_id;
    timestamp = now;
    cycle = m.current_cycle;
  }

  unfoldable pub register_initial_key :
      ℕ → ℕ → ℕ → ℕ → KeyRotationManager → Result KeyError (Unit {0}) × KeyRotationManager
  register_initial_key validator_id key_id public_key now m =
      let k = record (new_key key_id public_key now) { status = active; activated_at = some now } in
      if contains_key validator_id m.active_keys then (err has_key, m) else (
        ok tt,
        record m {
          validator_keys =
              insert validator_id (insert key_id k (keys_of validator_id m)) m.validator_keys;
          active_keys = insert validator_id key_id m.active_keys;
        },
      )

  unfoldable pub request_key_rotation :
      ℕ → ℕ → ℕ → ℕ → KeyRotationManager → Result KeyError KeyRotationRequest × KeyRotationManager
  request_key_rotation validator_id new_key_id new_public_key now m =
      let request : KeyRotationRequest = record {
        validator_id = validator_id;
        new_key_id = new_key_id;
        new_public_key = new_public_key;
        requested_at = now;
        votes_in_favor = 0;
        total_votes = 0;
        status = voting;
      } in
      if contains_key validator_id m.active_keys
      then if contains_key validator_id m.pending_requests then (err has_request, m) else (
        ok request,
        record m {
          pending_requests = insert validator_id request m.pending_requests;
          events = m.events ++ new_event validator_id rotation_requested new_key_id now m ∷ [];
        },
      )
      else (err no_key, m)

  unfoldable pub vote_on_rotation :
      ℕ → Bool → ℕ → KeyRotationManager → Result KeyError (Unit {0}) × KeyRotationManager
  vote_on_rotation validator_id in_favor power m = elim (lookup validator_id m.pending_requests) [
    | none ↦ (err no_request, m)
    | some q ↦
        let voted = record q {
          total_votes = add64 q.total_votes power;
          votes_in_favor = if in_favor then add64 q.votes_in_favor power else q.votes_in_favor;
        } in
        (ok tt, record m { pending_requests = insert validator_id voted m.pending_requests })
  ]

  -- `(total_stake as f64 * votes_required) as u64`
  unfoldable pub required_votes : ℕ → KeyRotationConfig → ℕ
  required_votes total_stake c = fl.to_u64 (fl.mul (fl.of_u64 total_stake) c.votes_required)

  -- the new key of an approved request, in transition, among the keys of the validator
  unfoldable pub add_key :
      ℕ → KeyRotationRequest → KeyRecord → ℕ → KeyRotationManager → KeyRotationManager
  add_key validator_id q k now m =
      let keys = make_room m.config.max_keys_per_validator (keys_of validator_id m) in
      record m {
        validator_keys = insert validator_id (insert q.new_key_id k keys) m.validator_keys;
        events = m.events ++ new_event validator_id rotation_approved q.new_key_id now m ∷ [];
        pending_requests = remove validator_id m.pending_requests;
      }

  unfoldable pub finalize_rotation :
      ℕ → ℕ → ℕ → KeyRotationManager → Result KeyError RequestStatus × KeyRotationManager
  finalize_rotation validator_id total_stake now m = elim (lookup validator_id m.pending_requests) [
    | none ↦ (err no_request, m)
    | some q ↦
        let is_approved = leb (required_votes total_stake m.config) q.votes_in_favor in
        let decided = record q { status = if is_approved then approved else rejected } in
        let m' = record m { pending_requests = insert validator_id decided m.pending_requests } in
        let fresh = new_key q.new_key_id q.new_public_key now in
        let (outcome, k) = activate m.config.transition_period_secs now fresh in
        if is_approved
        then elim outcome [
          | err e ↦ (err e, m')
          | ok _ ↦ (ok approved, add_key validator_id q k now m')
        ]
        else (
          ok rejected,
          record m' {
            events = m.events ++ new_event validator_id rotation_rejected q.new_key_id now m ∷ [];
            pending_requests = remove validator_id m'.pending_requests;
          },
        )
  ]

  unfoldable pub process_transitions : ℕ → KeyRotationManager → List ℕ × KeyRotationManager
  process_transitions now m =
      let (validator_keys, completed) = process_all now m.validator_keys in
      (
        map (λ (e : ℕ × ℕ). e.0) completed,
        record m {
          validator_keys = validator_keys;
          active_keys = set_active completed m.active_keys;
          events =
              m.events
              ++ map (λ (e : ℕ × ℕ). new_event e.0 transition_completed e.1 now m) completed;
        },
      )

  unfoldable pub get_active_key : ℕ → KeyRotationManager → Option KeyRecord
  get_active_key validator_id m = elim (lookup validator_id m.active_keys) [
    | none ↦ none
    | some key_id ↦ lookup key_id (keys_of validator_id m)
  ]

  unfoldable pub get_valid_keys : ℕ → KeyRotationManager → List KeyRecord
  get_valid_keys validator_id m =
      keep is_valid (map (λ (e : ℕ × KeyRecord). e.1) (keys_of validator_id m))

  unfoldable pub get_validator_events : ℕ → KeyRotationManager → List KeyRotationEvent
  get_validator_events validator_id m =
      keep (λ (e : KeyRotationEvent). e.validator_id == validator_id) m.events

  unfoldable pub advance_cycle : KeyRotationManager → KeyRotationManager
  advance_cycle m = record m { current_cycle = add64 m.current_cycle 1 }

  unfoldable pub validator_count : KeyRotationManager → ℕ
  validator_count m = length m.validator_keys

  unfoldable pub pending_request_count : KeyRotationManager → ℕ
  pending_request_count m = length m.pending_requests
