-- ===== src/Downtime.antt =====
-- `DowntimeConfig`, `ValidatorDowntimeRecord`, `DowntimeEvent` and `DowntimeTracker` of
-- src/downtime_tracker.rs. `now` is in seconds.
mod Calls
mod Recovering
mod Recovery
mod Examples
use silver_consensus.Base.{
  ℕ, Bool, true, false, not, ◌&&◌, Option, none, some, List, [], ◌∷◌, ◌++◌, length, keep, leb, ltb,
  ◌==◌, if◌then◌else◌,
}
use silver_consensus.Base.Word.{add64}
use silver_consensus.Base.Dict.{Dict, lookup, insert}
use silver_consensus.Core.{FloatApi}

pub data DowntimeEventType : Type 0 where
  threshold_exceeded entered_recovery exited_recovery participation_warning : DowntimeEventType

module _ (fl : FloatApi) where
  pub record DowntimeConfig : Type 0 where
    pub downtime_threshold : ℕ
    pub recovery_period : ℕ
    pub min_participation_rate : fl.F64
    pub penalty_reduction_per_snapshot : fl.F64

  pub record DowntimeEvent : Type 0 where
    pub validator_id : ℕ
    pub event_type : DowntimeEventType
    pub snapshots_missed : ℕ
    pub participation_rate : fl.F64
    pub timestamp : ℕ
    pub cycle : ℕ

  pub record ValidatorDowntimeRecord : Type 0 where
    pub validator_id : ℕ
    pub total_snapshots : ℕ
    pub snapshots_participated : ℕ
    pub snapshots_missed : ℕ
    pub participation_rate : fl.F64
    pub in_recovery : Bool
    pub recovery_snapshots_completed : ℕ
    pub last_downtime_event : Option DowntimeEvent

  -- `ValidatorDowntimeRecord::new`
  unfoldable pub new_record : ℕ → ValidatorDowntimeRecord
  new_record validator_id = record {
    validator_id = validator_id;
    total_snapshots = 0;
    snapshots_participated = 0;
    snapshots_missed = 0;
    participation_rate = fl.of_u64 1;
    in_recovery = false;
    recovery_snapshots_completed = 0;
    last_downtime_event = none;
  }

  -- `ValidatorDowntimeRecord::record_participation`
  unfoldable pub count_participation : Bool → ValidatorDowntimeRecord → ValidatorDowntimeRecord
  count_participation participated r =
      let total = add64 r.total_snapshots 1 in
      let present =
        if participated then add64 r.snapshots_participated 1 else r.snapshots_participated in
      let missed = if participated then r.snapshots_missed else add64 r.snapshots_missed 1 in
      let rate =
        if ltb 0 total
        then fl.div (fl.of_u64 present) (fl.of_u64 total)
        else r.participation_rate in
      record r {
        total_snapshots = total;
        snapshots_participated = present;
        snapshots_missed = missed;
        participation_rate = rate;
      }

  unfoldable pub exceeds_threshold : ℕ → ValidatorDowntimeRecord → Bool
  exceeds_threshold threshold r = leb threshold r.snapshots_missed

  unfoldable pub enter_recovery : ValidatorDowntimeRecord → ValidatorDowntimeRecord
  enter_recovery r = record r { in_recovery = true; recovery_snapshots_completed = 0 }

  unfoldable pub record_recovery_snapshot : ValidatorDowntimeRecord → ValidatorDowntimeRecord
  record_recovery_snapshot r =
      if r.in_recovery
      then record r { recovery_snapshots_completed = add64 r.recovery_snapshots_completed 1 }
      else r

  unfoldable pub exit_recovery : ValidatorDowntimeRecord → ValidatorDowntimeRecord
  exit_recovery r = record r {
    in_recovery = false;
    snapshots_missed = 0;
    recovery_snapshots_completed = 0;
  }

  unfoldable pub reset_period : ValidatorDowntimeRecord → ValidatorDowntimeRecord
  reset_period r = record r {
    total_snapshots = 0;
    snapshots_participated = 0;
    snapshots_missed = 0;
    participation_rate = fl.of_u64 1;
    recovery_snapshots_completed = 0;
  }

  pub record DowntimeTracker : Type 0 where
    pub config : DowntimeConfig
    pub records : Dict ValidatorDowntimeRecord
    pub events : List DowntimeEvent
    pub current_cycle : ℕ

  unfoldable pub new : DowntimeConfig → DowntimeTracker
  new config = record { config = config; records = []; events = []; current_cycle = 0 }

  unfoldable pub record_participation : ℕ → Bool → DowntimeTracker → DowntimeTracker
  record_participation validator_id participated m =
      let r : ValidatorDowntimeRecord = elim (lookup validator_id m.records) [
        | none ↦ new_record validator_id
        | some r ↦ r
      ] in
      record m { records = insert validator_id (count_participation participated r) m.records }

  unfoldable pub new_event :
      ℕ → DowntimeEventType → ℕ → ValidatorDowntimeRecord → DowntimeTracker → DowntimeEvent
  new_event validator_id event_type now r m = record {
    validator_id = validator_id;
    event_type = event_type;
    snapshots_missed = r.snapshots_missed;
    participation_rate = r.participation_rate;
    timestamp = now;
    cycle = m.current_cycle;
  }

  -- whether the record is a violation
  unfoldable pub violates : DowntimeConfig → ValidatorDowntimeRecord → Bool
  violates c r = exceeds_threshold c.downtime_threshold r && not r.in_recovery

  -- the record after the check of violations
  unfoldable pub checked : DowntimeConfig → ValidatorDowntimeRecord → ValidatorDowntimeRecord
  checked c r = if violates c r then enter_recovery r else r

  -- the events of one record
  unfoldable pub check_events :
      ℕ → ℕ → ValidatorDowntimeRecord → DowntimeTracker → List DowntimeEvent
  check_events v now r m =
      let r' = checked m.config r in
      let low = fl.lt r'.participation_rate m.config.min_participation_rate && not r'.in_recovery in
      (if violates m.config r then new_event v threshold_exceeded now r' m ∷ [] else [])
      ++ (if low then new_event v participation_warning now r' m ∷ [] else [])

  -- the loop over the records: the violations, the records and the events
  unfoldable pub check_from :
      ℕ
      → DowntimeTracker
      → Dict ValidatorDowntimeRecord
      → List ℕ × Dict ValidatorDowntimeRecord × List DowntimeEvent
  check_from now m [] = ([], [], [])
  check_from now m ((v, r) ∷ d) =
      let rest = check_from now m d in
      (
        if violates m.config r then v ∷ rest.0 else rest.0,
        (v, checked m.config r) ∷ rest.1,
        check_events v now r m ++ rest.2,
      )

  unfoldable pub check_downtime_violations : ℕ → DowntimeTracker → List ℕ × DowntimeTracker
  check_downtime_violations now m =
      let (violations, records, events) = check_from now m m.records in
      (violations, record m { records = records; events = m.events ++ events })

  -- whether the next recovery snapshot of the record is the last one
  unfoldable pub is_last : DowntimeConfig → ValidatorDowntimeRecord → Bool
  is_last c r =
      r.in_recovery
      && leb c.recovery_period (record_recovery_snapshot r).recovery_snapshots_completed

  -- the record after a recovery snapshot
  unfoldable pub recovering : DowntimeConfig → ValidatorDowntimeRecord → ValidatorDowntimeRecord
  recovering c r =
      let r' = record_recovery_snapshot r in if is_last c r then exit_recovery r' else r'

  -- the loop over the records: the recovered validators, the records and the events
  unfoldable pub recover_from :
      ℕ
      → DowntimeTracker
      → Dict ValidatorDowntimeRecord
      → List ℕ × Dict ValidatorDowntimeRecord × List DowntimeEvent
  recover_from now m [] = ([], [], [])
  recover_from now m ((v, r) ∷ d) =
      let rest = recover_from now m d in
      let r' = recovering m.config r in
      (
        if is_last m.config r then v ∷ rest.0 else rest.0,
        (v, r') ∷ rest.1,
        (if is_last m.config r then new_event v exited_recovery now r' m ∷ rest.2 else rest.2),
      )

  unfoldable pub process_recovery : ℕ → DowntimeTracker → List ℕ × DowntimeTracker
  process_recovery now m =
      let (recovered, records, events) = recover_from now m m.records in
      (recovered, record m { records = records; events = m.events ++ events })

  -- the keys of the records that pass the test
  unfoldable pub ids_where :
      (ValidatorDowntimeRecord → Bool) → Dict ValidatorDowntimeRecord → List ℕ
  ids_where p [] = []
  ids_where p ((v, r) ∷ d) = let rest = ids_where p d in if p r then v ∷ rest else rest

  unfoldable pub get_validators_in_recovery : DowntimeTracker → List ℕ
  get_validators_in_recovery m = ids_where (λ r. r.in_recovery) m.records

  unfoldable pub get_low_participation_validators : DowntimeTracker → List ℕ
  get_low_participation_validators m =
      ids_where (λ r. fl.lt r.participation_rate m.config.min_participation_rate) m.records

  unfoldable pub get_validator_events : ℕ → DowntimeTracker → List DowntimeEvent
  get_validator_events validator_id m =
      keep (λ (e : DowntimeEvent). e.validator_id == validator_id) m.events

  unfoldable pub get_penalty_reduction : ℕ → DowntimeTracker → fl.F64
  get_penalty_reduction validator_id m = elim (lookup validator_id m.records) [
    | none ↦ fl.of_u64 0
    | some r ↦
        if r.in_recovery
        then fl.mul (fl.of_u64 r.recovery_snapshots_completed)
            m.config.penalty_reduction_per_snapshot
        else fl.of_u64 0
  ]

  -- the records after a change of cycle
  unfoldable pub reset_all : Dict ValidatorDowntimeRecord → Dict ValidatorDowntimeRecord
  reset_all [] = []
  reset_all ((v, r) ∷ d) = (v, if r.in_recovery then r else reset_period r) ∷ reset_all d

  unfoldable pub advance_cycle : DowntimeTracker → DowntimeTracker
  advance_cycle m = record m {
    current_cycle = add64 m.current_cycle 1;
    records = reset_all m.records;
  }

  -- any change of one record, through the reference that `get_record_mut` gives out
  unfoldable pub with_record :
      (ValidatorDowntimeRecord → ValidatorDowntimeRecord) → ℕ → DowntimeTracker → DowntimeTracker
  with_record f validator_id m = elim (lookup validator_id m.records) [
    | none ↦ m
    | some r ↦ record m { records = insert validator_id (f r) m.records }
  ]

  unfoldable pub set_config : DowntimeConfig → DowntimeTracker → DowntimeTracker
  set_config config m = record m { config = config }

  unfoldable pub validator_count : DowntimeTracker → ℕ
  validator_count m = length m.records

  unfoldable pub recovery_count : DowntimeTracker → ℕ
  recovery_count m = length (ids_where (λ r. r.in_recovery) m.records)
