-- ===== src/ValidatorActivation/Calls.antt =====
-- Histories of calls on the activation manager of src/validator_activation.rs, those on a record that
-- `get_record_mut` gives out included.
use silver_consensus.Base.{ℕ, ◌+◌, ◌≤◌, ◌<◌, Bool, List, [], ◌∷◌}
use silver_consensus.Base.Word.{u64_mod}
use silver_consensus.Core.{FloatApi}
use silver_consensus.Base.Outcome.{Result, ok}
use silver_consensus.ValidatorActivation.{
  ValidatorActivationRecord, ActivationError, activate, deactivate, suspend, withdraw,
}
use silver_consensus.ValidatorActivation.Manager.{
  ValidatorActivationManager, ActivationConfig, set_config, request_activation,
  request_deactivation, vote_on_request, finalize_request, with_record, advance_cycle,
}

-- a call, with the time that it reads last; `start` to `change` go through `get_record_mut`
pub data Call (fl : FloatApi) : Type 0 where
  ask : ℕ → ℕ → ℕ → ℕ → Call fl
  ask_off : ℕ → ℕ → Call fl
  vote : ℕ → Bool → ℕ → Call fl
  finalize : ℕ → ℕ → ℕ → Call fl
  tick : Call fl
  configure : ActivationConfig fl → Call fl
  start : ℕ → ℕ → Call fl
  stop : ℕ → ℕ → ℕ → Call fl
  suspension : ℕ → Call fl
  removal : ℕ → Call fl
  change : ℕ → (ValidatorActivationRecord → ValidatorActivationRecord) → Call fl

-- any writes to the fields of a record
abbrev pub written :
    (ValidatorActivationRecord → ValidatorActivationRecord)
    → ValidatorActivationRecord
    → Result ActivationError (Unit {0}) × ValidatorActivationRecord
written f r = (ok tt, f r)

module _ (fl : FloatApi) where
  unfoldable pub apply : Call fl → ValidatorActivationManager fl → ValidatorActivationManager fl
  apply (ask v stake power now) m = (request_activation fl v stake power now m).1
  apply (ask_off v now) m = (request_deactivation fl v now m).1
  apply (vote v in_favor power) m = (vote_on_request fl v in_favor power m).1
  apply (finalize v total now) m = (finalize_request fl v total now m).1
  apply tick m = advance_cycle fl m
  apply (configure c) m = set_config fl c m
  apply (start v now) m = with_record fl (activate now) v m
  apply (stop v secs now) m = with_record fl (deactivate secs now) v m
  apply (suspension v) m = with_record fl suspend v m
  apply (removal v) m = with_record fl withdraw v m
  apply (change v f) m = with_record fl (written f) v m

  unfoldable pub run :
      List (Call fl) → ValidatorActivationManager fl → ValidatorActivationManager fl
  run [] m = m
  run (c ∷ cs) m = run cs (apply c m)

-- the time after the call, from the time before it
unfoldable pub time : {fl : FloatApi} → ℕ → Call fl → ℕ
time t (finalize v total now) = now
time t (start v now) = now
time t (stop v secs now) = now
time t _ = t

-- the call leaves the configuration and changes records by their methods only, and deactivates none
-- with a shorter cooldown
unfoldable pub IsRegular : {fl : FloatApi} → ℕ → Call fl → Type 0
IsRegular cooldown (stop v secs now) = (cooldown ≤ secs) × (now + secs < u64_mod)
IsRegular cooldown (configure c) = ⊥
IsRegular cooldown (change v f) = ⊥
IsRegular cooldown _ = Unit

-- such calls from the time on, in order, whose cooldowns end within `u64`
unfoldable pub IsTimed : {fl : FloatApi} → ℕ → ℕ → List (Call fl) → Type 0
IsTimed cooldown t [] = Unit
IsTimed cooldown t (c ∷ cs) =
    (t ≤ time t c)
    × (time t c + cooldown < u64_mod)
    × IsRegular cooldown c
    × IsTimed cooldown (time t c) cs
