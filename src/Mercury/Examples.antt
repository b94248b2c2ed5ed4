-- ===== src/Mercury/Examples.antt =====
-- Runs of src/mercury.rs, and the theorems at concrete inputs.
use silver_consensus.Base.{
  ℕ, ◌+◌, ◌*◌, ◌≡◌, refl, true, false, is_empty, none, some, List, [], ◌∷◌, replicate,
}
use silver_consensus.Base.Word.{add64}
use silver_consensus.Base.Clock.{Clock}
use silver_consensus.Base.Outcome.{err}
use silver_consensus.Core.{ValidatorSignature}
use silver_consensus.Core.Plain.{PlainSnapshot, plain_api, plain_metadata}
use silver_consensus.ValidatorSet.{ValidatorSet, calculate_stake_weight}
use silver_consensus.ValidatorSet.Info.{ValidatorInfo}
use silver_consensus.Mercury.Defs.{Protocol, new, not_pending, panicked}
use silver_consensus.Mercury.Votes.{add_snapshot_signature, count_vote, with_vote}
use silver_consensus.Mercury.Creation.{Inputs, create_snapshot_internal, limit_to}
use silver_consensus.Mercury.Execution.{HashApi, HashLaws, copy_from_slice, compute_state_root}
use silver_consensus.Mercury.Absence.{Op, IsIdle, run, apply, no_snapshot}

abbrev at_time : ℕ → Clock
at_time n = record { instant = 1000 * n; unix_secs = n; unix_millis = 1000 * n }

abbrev info_of : ℕ → ValidatorInfo plain_metadata
info_of v = record {
  metadata = record { number = v; stake = 100 };
  stake = 100;
  active = true;
  snapshots_participated = 0;
  total_snapshots = 0;
}

abbrev four : ValidatorSet plain_metadata
four = record {
  validators = (1, info_of 1) ∷ (2, info_of 2) ∷ (3, info_of 3) ∷ (4, info_of 4) ∷ [];
  total_stake = 400;
  current_cycle = 0;
  change_history = [];
  min_stake = 10;
}

-- a run of a node that does not sign, with three transactions in two batches
abbrev given : Inputs
given = record {
  batches = some ((11 ∷ 12 ∷ []) ∷ (13 ∷ []) ∷ []);
  executed = true;
  signer = none;
  stored = true;
  clock = at_time 1;
}

abbrev vote_of : ℕ → ValidatorSignature
vote_of v = record { validator = v; signature = 70 + v }

abbrev empty_snapshot : PlainSnapshot
empty_snapshot = record {
  sequence = 1;
  timestamp = 1000;
  previous = 0;
  root = 9;
  digests = 11 ∷ 12 ∷ 13 ∷ [];
  cycle = 0;
  signatures = [];
  stake = 0;
}

-- a hash of 32 zeros, and a node that has tried to make a snapshot
abbrev zeros : HashApi
zeros = record { finalize = λ bytes. replicate 32 0; state_digest = λ bytes. 9 }

abbrev zeros_laws : HashLaws zeros
zeros_laws = record { has_32_bytes = λ bytes. refl }

abbrev calls : List (Op plain_metadata plain_api zeros zeros_laws)
calls = Op.create 1000 given ∷ Op.vote 1 (vote_of 1) true ∷ Op.reconfigure four 1 ∷ []

-- one line for the calls of these runs
abbrev runs : Unit {0}
unfolding new run apply create_snapshot_internal compute_state_root copy_from_slice limit_to
    add_snapshot_signature count_vote with_vote calculate_stake_weight add64
runs = tt

something_left : is_empty (limit_to 2 (11 ∷ 12 ∷ 13 ∷ [])) ≡ false
unfolding limit_to
something_left = refl

no_snapshot_example :
    let m =
      run plain_metadata plain_api zeros zeros_laws calls (new plain_metadata plain_api four) in
    IsIdle plain_metadata plain_api zeros zeros_laws m
    × (add_snapshot_signature plain_metadata plain_api 1 (vote_of 2) true m ≡ (err not_pending, m))
    × (create_snapshot_internal plain_metadata plain_api zeros 2 given m ≡ (err panicked, m))
no_snapshot_example =
    no_snapshot plain_metadata plain_api zeros zeros_laws four calls 1 (vote_of 2) true 2 given
      ((11 ∷ 12 ∷ []) ∷ (13 ∷ []) ∷ []) refl something_left refl

-- a state in which a snapshot is pending, and no one has signed it
abbrev waiting : Protocol plain_metadata plain_api
waiting = record {
  validator_set = four;
  current_snapshot = 0;
  current_cycle = 0;
  pending_snapshots = (1, empty_snapshot) ∷ [];
  finalized_snapshots = [];
  snapshots_created = 1;
  transactions_finalized = 3;
  current_snapshot_height = 1;
  pending_count = 1;
}
