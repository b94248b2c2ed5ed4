-- ===== src/Downtime/Calls.antt =====
-- Histories of calls on the tracker of src/downtime_tracker.rs. A record may be changed in any way
-- through the reference that `get_record_mut` gives out.
use silver_consensus.Base.{ℕ, suc, ◌≡◌, Bool, false, List, [], ◌∷◌, ◌==◌}
use silver_consensus.Core.{FloatApi}
use silver_consensus.Downtime.{
  DowntimeConfig, ValidatorDowntimeRecord, DowntimeTracker, record_participation,
  check_downtime_violations, process_recovery, advance_cycle, with_record, set_config,
}

pub data Call (fl : FloatApi) : Type 0 where
  participate : ℕ → Bool → Call fl
  check : ℕ → Call fl
  recover : ℕ → Call fl
  advance : Call fl
  configure : DowntimeConfig fl → Call fl
  rewrite : ℕ → (ValidatorDowntimeRecord fl → ValidatorDowntimeRecord fl) → Call fl

module _ {fl : FloatApi} where
  unfoldable pub apply : Call fl → DowntimeTracker fl → DowntimeTracker fl
  apply (participate v participated) m = record_participation fl v participated m
  apply (check now) m = (check_downtime_violations fl now m).1
  apply (recover now) m = (process_recovery fl now m).1
  apply advance m = advance_cycle fl m
  apply (configure c) m = set_config fl c m
  apply (rewrite v f) m = with_record fl f v m

  unfoldable pub run : List (Call fl) → DowntimeTracker fl → DowntimeTracker fl
  run [] m = m
  run (c ∷ cs) m = run cs (apply c m)

  -- the call leaves the configuration, and the validator's record to the tracker
  unfoldable pub Spares : ℕ → Call fl → Type 0
  Spares v (configure c) = ⊥
  Spares v (rewrite w f) = (v == w) ≡ false
  Spares v _ = Unit

  -- how many recovery snapshots the calls process
  unfoldable pub recoveries : List (Call fl) → ℕ
  recoveries [] = 0
  recoveries (recover now ∷ cs) = suc (recoveries cs)
  recoveries (_ ∷ cs) = recoveries cs
