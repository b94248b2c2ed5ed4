-- ===== src/Downtime/Examples.antt =====
-- Runs of the tracker of src/downtime_tracker.rs, and an instance of its theorem.
use silver_consensus.Base.{◌≡◌, refl, true, false, none, some, List, [], ◌∷◌, All, member, arith}
use silver_consensus.Base.Word.{add64}
use silver_consensus.Base.Dict.{lookup}
use silver_consensus.Core.Plain.{plain_floats}
use silver_consensus.Downtime.{
  DowntimeConfig, ValidatorDowntimeRecord, DowntimeTracker, new, new_record, count_participation,
  exceeds_threshold, enter_recovery, exit_recovery, record_recovery_snapshot, record_participation,
  violates, checked, check_events, check_from, check_downtime_violations, is_last, recovering,
  recover_from, new_event, process_recovery, reset_all, reset_period, advance_cycle, set_config,
}
use silver_consensus.Downtime.Calls.{
  Call, participate, check, recover, advance, rewrite, apply, run, Spares, recoveries,
}
use silver_consensus.Downtime.Recovering.{IsRecovering}
use silver_consensus.Downtime.Recovery.{IsRecovered, recovery_ends}

-- two missed snapshots are too many, and three recovery snapshots lead out
abbrev config : DowntimeConfig plain_floats
config = record {
  downtime_threshold = 2;
  recovery_period = 3;
  min_participation_rate = 900;
  penalty_reduction_per_snapshot = 10;
}

abbrev missed : DowntimeTracker plain_floats
missed =
    run (participate 4 true ∷ participate 4 false ∷ participate 4 false ∷ [])
      (new plain_floats config)

abbrev record_4 : ValidatorDowntimeRecord plain_floats
record_4 = record {
  validator_id = 4;
  total_snapshots = 3;
  snapshots_participated = 1;
  snapshots_missed = 2;
  participation_rate = 333;
  in_recovery = false;
  recovery_snapshots_completed = 0;
  last_downtime_event = none;
}

abbrev runs : Unit {0}
unfolding run apply new new_record count_participation exceeds_threshold enter_recovery
    exit_recovery record_recovery_snapshot record_participation violates checked check_events
    check_from check_downtime_violations is_last recovering recover_from new_event process_recovery
    reset_all reset_period advance_cycle set_config add64
runs = tt

found_4 : lookup 4 missed.records ≡ some record_4
found_4 = unfold runs in refl

violation_4 : violates plain_floats missed.config record_4 ≡ true
violation_4 = unfold runs in refl

-- the rest of the way, with a cycle that ends in it
abbrev way : List (Call plain_floats)
way = participate 4 true ∷ recover 10 ∷ check 11 ∷ advance ∷ rewrite 5 (λ r. r) ∷ recover 12 ∷ []

way-Spares : All (Spares 4) way
unfolding Spares
way-Spares = (tt, (tt, (tt, (tt, (refl, (tt, tt))))))

recovery_ends_example :
    IsRecovering 4 (recoveries way) (run way (check_downtime_violations plain_floats 9 missed).1)
    × (member 4
          (process_recovery plain_floats 13
            (run way (check_downtime_violations plain_floats 9 missed).1)).0
        ≡ true)
    × IsRecovered 4
        (process_recovery plain_floats 13
          (run way (check_downtime_violations plain_floats 9 missed).1)).1
recovery_ends_example =
    recovery_ends 4 9 13 record_4 way missed found_4 violation_4 way-Spares
      (unfold runs in unfold recoveries in refl) (unfold runs in omega arith)
