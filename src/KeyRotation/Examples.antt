-- ===== src/KeyRotation/Examples.antt =====
-- Runs of the key rotation manager of src/key_rotation.rs, and instances of its theorems.
use silver_consensus.Base.{◌≡◌, refl, inr, true, some, List, [], ◌∷◌, arith}
use silver_consensus.Base.Word.{add64}
use silver_consensus.Base.Dict.{lookup, AllEntries}
use silver_consensus.Core.Plain.{plain_floats}
use silver_consensus.KeyRotation.{
  KeyRecord, active, KeyRotationRequest, voting, new_key, activate, complete_transition,
  is_before_end, is_transition_complete, is_valid,
}
use silver_consensus.KeyRotation.Manager.{
  KeyRotationConfig, KeyRotationManager, new, keys_of, new_event, register_initial_key,
  request_key_rotation, vote_on_rotation, required_votes, add_key, make_room, oldest_revoked_from,
  finalize_rotation, process_keys, process_all, set_active, process_transitions, get_active_key,
  advance_cycle,
}
use silver_consensus.KeyRotation.Calls.{
  Call, register, request, vote, finalize, process, apply, run,
}
use silver_consensus.KeyRotation.Kept.{active_key_valid, keys_stay}
use silver_consensus.KeyRotation.Rotation.{OnlyEnds}
use silver_consensus.KeyRotation.Completion.{rotation_completes}

abbrev config : KeyRotationConfig plain_floats
config = record {
  transition_period_secs = 604800;
  votes_required = 660;
  max_keys_per_validator = 3;
  key_expiration_secs = 2592000;
}

abbrev fresh : KeyRotationManager plain_floats
fresh = new plain_floats config

-- validator 5 asks for key 72 in place of key 71, and gets the votes
abbrev calls : List Call
calls = register 5 71 171 1 ∷ request 5 72 172 10 ∷ vote 5 true 800 ∷ []

abbrev ready : KeyRotationManager plain_floats
ready = run plain_floats calls fresh

abbrev rotation : List Call
rotation = finalize 5 1000 20 ∷ process 700000 ∷ []

abbrev runs : Unit {0}
unfolding run apply new new_key activate complete_transition is_before_end is_transition_complete
    is_valid new_event register_initial_key request_key_rotation vote_on_rotation required_votes
    add_key make_room oldest_revoked_from finalize_rotation process_keys process_all set_active
    process_transitions get_active_key advance_cycle add64
runs = tt

active_before : lookup 5 ready.active_keys ≡ some 71
active_before = unfold runs in refl

active_after : lookup 5 (run plain_floats rotation ready).active_keys ≡ some 72
active_after = unfold runs in refl

active_key_valid_example :
    (k : KeyRecord) × (get_active_key plain_floats 5 ready ≡ some k) × (is_valid k ≡ true)
active_key_valid_example = active_key_valid plain_floats config calls 5 71 active_before

keys_stay_example :
    (k : KeyRecord) × (lookup 71 (keys_of plain_floats 5 (run plain_floats rotation ready))
      ≡ some k)
    × (is_valid k ≡ true)
keys_stay_example = keys_stay plain_floats config calls rotation 5 71 (unfold runs in refl)

abbrev asked : KeyRotationRequest
asked = record {
  validator_id = 5;
  new_key_id = 72;
  new_public_key = 172;
  requested_at = 10;
  votes_in_favor = 800;
  total_votes = 800;
  status = voting;
}

request_of_5 : lookup 5 ready.pending_requests ≡ some asked
request_of_5 = unfold runs in refl

settled_keys : AllEntries (OnlyEnds 72) (keys_of plain_floats 5 ready)
settled_keys = unfold runs in (inr refl, tt)

rotation_completes_example :
    (k : KeyRecord) × (get_active_key plain_floats 5 (run plain_floats rotation ready) ≡ some k)
    × (k.status ≡ active)
    × (k.public_key ≡ 172)
rotation_completes_example =
    rotation_completes plain_floats config calls 5 1000 20 700000 asked request_of_5
      (unfold runs in omega arith) settled_keys (unfold runs in omega arith)
      (unfold runs in omega arith)
