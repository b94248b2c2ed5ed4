-- ===== src/ValidatorActivation/Examples.antt =====
-- Runs of the activation manager of src/validator_activation.rs, and instances of its theorems.
use silver_consensus.Base.{ℕ, ◌≡◌, refl, ◌⊎◌, true, false, some, List, [], ◌∷◌, arith}
use silver_consensus.Base.Word.{add64}
use silver_consensus.Base.Dict.{lookup}
use silver_consensus.Base.Outcome.{err}
use silver_consensus.Core.Plain.{plain_floats}
use silver_consensus.ValidatorActivation.{
  deactivated, is_active, ValidatorActivationRecord, new_record, activate, deactivate, set_active,
  is_cooling, suspend, withdraw, cooling_down,
}
use silver_consensus.ValidatorActivation.Manager.{
  ActivationConfig, ValidatorActivationManager, new, new_request, entry, approve, carry_out,
  finalize_request, request_activation, request_deactivation, vote_on_request, with_record,
  advance_cycle, get_status, required_votes,
}
use silver_consensus.ValidatorActivation.Calls.{
  Call, ask, ask_off, vote, finalize, change, apply, run, time, IsTimed, IsRegular,
}
use silver_consensus.ValidatorActivation.Rested.{IsRestedSince}
use silver_consensus.ValidatorActivation.Service.{cooldown_respected}
use silver_consensus.ValidatorActivation.Votes.{IsVotedIn, IsStarted, becomes_active}
use silver_consensus.ValidatorActivation.Diagram.{run_follows}
use silver_consensus.ValidatorActivation.Edges.{IsTrace}

-- two thirds of the stake, in thousandths
abbrev config : ActivationConfig plain_floats
config = record {
  min_stake_for_activation = 10000;
  min_voting_power = 5000;
  deactivation_cooldown_secs = 86400;
  reactivation_cooldown_secs = 604800;
  activation_votes_required = 660;
  deactivation_votes_required = 660;
}

abbrev fresh : ValidatorActivationManager plain_floats
fresh = new plain_floats config

-- validator 6 is voted in, voted out, and voted for again
abbrev calls : List (Call plain_floats)
calls =
    ask 6 20000 8000 1
    ∷ vote 6 true 700
    ∷ finalize 6 1000 10
    ∷ ask_off 6 20
    ∷ vote 6 true 800
    ∷ finalize 6 1000 30
    ∷ ask 6 20000 8000 40
    ∷ vote 6 true 900
    ∷ []

abbrev ready : ValidatorActivationManager plain_floats
ready = run plain_floats calls fresh

abbrev runs : Unit {0}
unfolding run apply new new_record new_request activate deactivate set_active is_cooling suspend
    withdraw entry approve carry_out finalize_request request_activation request_deactivation
    vote_on_request with_record advance_cycle get_status required_votes add64 time
runs = tt

too_soon : (finalize_request plain_floats 6 1000 50 ready).0 ≡ err cooling_down
too_soon = unfold runs in refl

abbrev out_of_service : ValidatorActivationRecord
out_of_service = record {
  validator_id = 6;
  status = deactivated;
  activated_at = some 10;
  deactivated_at = some 30;
  can_reactivate_at = some 86430;
  activation_count = 1;
  deactivation_count = 1;
}

calls-IsTimed : IsTimed 86400 0 calls
unfolding IsTimed IsRegular time
calls-IsTimed = (
  omega arith,
  omega arith,
  tt,
  (
    omega arith,
    omega arith,
    tt,
    (
      omega arith,
      omega arith,
      tt,
      (
        omega arith,
        omega arith,
        tt,
        (
          omega arith,
          omega arith,
          tt,
          (
            omega arith,
            omega arith,
            tt,
            (omega arith, omega arith, tt, (omega arith, omega arith, tt, tt)),
          ),
        ),
      ),
    ),
  ),
)

record_of_6 : lookup 6 ready.records ≡ some out_of_service
record_of_6 = unfold runs in refl

cooldown_respected_example : (now : ℕ) × IsRestedSince 86400 now 30 out_of_service
cooldown_respected_example =
    cooldown_respected plain_floats config calls 6 30 out_of_service calls-IsTimed record_of_6 refl

idle_before : is_active (get_status plain_floats 6 ready) ≡ false
idle_before = unfold runs in refl

active_after :
    is_active (get_status plain_floats 6 (apply plain_floats (finalize 6 1000 90000) ready)) ≡ true
active_after = unfold runs in refl

-- the call that counts the votes once the cooldown is over
abbrev last_call : Call plain_floats
last_call = finalize 6 1000 90000

becomes_active_example :
    (IsVotedIn plain_floats 6 last_call ready)
    ⊎ (IsStarted plain_floats 6 last_call ready)
    ⊎ ((f : ValidatorActivationRecord → ValidatorActivationRecord) × (last_call ≡ change 6 f))
becomes_active_example = becomes_active plain_floats 6 last_call ready idle_before active_after

run_follows_example :
    IsTrace 6 calls
      (get_status plain_floats 6 fresh)
      (get_status plain_floats 6 (run plain_floats calls fresh))
run_follows_example = run_follows plain_floats 6 calls fresh
