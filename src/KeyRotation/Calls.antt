-- ===== src/KeyRotation/Calls.antt =====
-- Histories of calls on the key rotation manager of src/key_rotation.rs.
use silver_consensus.Base.{ℕ, Bool, List, [], ◌∷◌}
use silver_consensus.Core.{FloatApi}
use silver_consensus.KeyRotation.Manager.{
  KeyRotationManager, register_initial_key, request_key_rotation, vote_on_rotation,
  finalize_rotation, process_transitions, advance_cycle,
}

-- a call, with the time that it reads last
pub data Call : Type 0 where
  register : ℕ → ℕ → ℕ → ℕ → Call
  request : ℕ → ℕ → ℕ → ℕ → Call
  vote : ℕ → Bool → ℕ → Call
  finalize : ℕ → ℕ → ℕ → Call
  process : ℕ → Call
  tick : Call

module _ (fl : FloatApi) where
  unfoldable pub apply : Call → KeyRotationManager fl → KeyRotationManager fl
  apply (register v id key now) m = (register_initial_key fl v id key now m).1
  apply (request v id key now) m = (request_key_rotation fl v id key now m).1
  apply (vote v in_favor power) m = (vote_on_rotation fl v in_favor power m).1
  apply (finalize v total now) m = (finalize_rotation fl v total now m).1
  apply (process now) m = (process_transitions fl now m).1
  apply tick m = advance_cycle fl m

  unfoldable pub run : List Call → KeyRotationManager fl → KeyRotationManager fl
  run [] m = m
  run (c ∷ cs) m = run cs (apply c m)
