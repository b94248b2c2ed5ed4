-- ===== src/Downtime/Recovery.antt =====
-- The way out of recovery in src/downtime_tracker.rs.
use silver_consensus.Base.{
  ℕ, suc, ◌+◌, ◌<◌, ◌≡◌, refl, ◌∙◌, ap, true, false, some, List, All, member, arith,
}
use silver_consensus.Base.Word.{u64_mod, add64}
use silver_consensus.Base.Dict.{lookup}
use silver_consensus.Core.{FloatApi}
use silver_consensus.Downtime.{
  DowntimeConfig, ValidatorDowntimeRecord, DowntimeTracker, enter_recovery, exit_recovery,
  record_recovery_snapshot, violates, checked, check_downtime_violations, is_last, recovering,
  process_recovery,
}
use silver_consensus.Downtime.Calls.{Call, run, Spares, recoveries}
use silver_consensus.Downtime.Recovering.{
  lookup-check_from, lookup-recover_from, member-recover_from, IsRecovering, renewed,
  run-IsRecovering,
}

module _ {fl : FloatApi} where
  -- the record of a validator that is out of recovery, with nothing missed
  pub record IsRecovered (v : ℕ) (m : DowntimeTracker fl) : Type 0 where
    pub r : ValidatorDowntimeRecord fl
    pub found : lookup v m.records ≡ some r
    pub is_out : r.in_recovery ≡ false
    pub none_missed : r.snapshots_missed ≡ 0

  last :
      (c : DowntimeConfig fl) (n period : ℕ) (r : ValidatorDowntimeRecord fl)
      → c.recovery_period ≡ period
      → r.in_recovery ≡ true
      → r.recovery_snapshots_completed ≡ n
      → suc n ≡ period
      → period < u64_mod
      → is_last fl c r ≡ true
  unfolding is_last record_recovery_snapshot add64
  last c n period r p h e small fits = ground (arith, p, h, e, small, fits)

  recovered :
      (v n period now : ℕ) (m : DowntimeTracker fl)
      → m.config.recovery_period ≡ period
      → suc n ≡ period
      → period < u64_mod
      → IsRecovering v n m
      → (member v (process_recovery fl now m).0 ≡ true)
        × IsRecovered v (process_recovery fl now m).1
  unfolding process_recovery
  recovered v n period now m p small fits s =
      let ends = last m.config n period s.r p s.recovering s.completed small fits in
      let out : recovering fl m.config s.r ≡ exit_recovery fl (record_recovery_snapshot fl s.r) =
        unfold recovering in rw ends refl in
      (
        member-recover_from now v s.r m m.records s.found ends,
        record {
          r = exit_recovery fl (record_recovery_snapshot fl s.r);
          found = lookup-recover_from now v m m.records ∙ rw s.found (ap some out);
          is_out = unfold exit_recovery in refl;
          none_missed = unfold exit_recovery in refl;
        },
      )

  entered :
      (v now : ℕ) (r : ValidatorDowntimeRecord fl) (m : DowntimeTracker fl)
      → lookup v m.records ≡ some r
      → violates fl m.config r ≡ true
      → IsRecovering v 0 (check_downtime_violations fl now m).1
  unfolding check_downtime_violations
  entered v now r m e h =
      let in_it : checked fl m.config r ≡ enter_recovery fl r = unfold checked in rw h refl in
      renewed v 0 (enter_recovery fl r) _
        (lookup-check_from now v m m.records ∙ rw e (ap some in_it)) (unfold enter_recovery in refl)
        (unfold enter_recovery in refl)

  -- A validator that a check of violations puts in recovery stays in it through any calls, changes of
  -- other records through `get_record_mut` included, that leave the configuration, do not change the
  -- validator's own record through `get_record_mut`, and process one recovery snapshot less than the
  -- recovery period, which is below 2^64; and the next recovery snapshot reports it as recovered and
  -- takes it out, with nothing missed.
  pub recovery_ends :
      (v now later : ℕ) (r : ValidatorDowntimeRecord fl) (cs : List (Call fl))
      (m : DowntimeTracker fl)
      → lookup v m.records ≡ some r
      → violates fl m.config r ≡ true
      → All (Spares v) cs
      → suc (recoveries cs) ≡ m.config.recovery_period
      → m.config.recovery_period < u64_mod
      → IsRecovering v (recoveries cs) (run cs (check_downtime_violations fl now m).1)
        × (member v (process_recovery fl later (run cs (check_downtime_violations fl now m).1)).0
            ≡ true)
        × IsRecovered v
            (process_recovery fl later (run cs (check_downtime_violations fl now m).1)).1
  recovery_ends v now later r cs m e h k small fits =
      let period = m.config.recovery_period in
      let n = (check_downtime_violations fl now m).1 in
      let same : n.config.recovery_period ≡ period = unfold check_downtime_violations in refl in
      let start = entered v now r m e h in
      let (s, p) = run-IsRecovering v 0 period cs n k same (omega (arith, small)) fits start in
      let zero_add : 0 + recoveries cs ≡ recoveries cs = omega arith in
      let s' : IsRecovering v (recoveries cs) (run cs n) = rw⁻¹ zero_add s in
      let (reported, out) = recovered v (recoveries cs) period later (run cs n) p small fits s' in
      (s', reported, out)
