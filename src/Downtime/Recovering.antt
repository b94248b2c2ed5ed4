-- ===== src/Downtime/Recovering.antt =====
-- The validators in recovery in src/downtime_tracker.rs, call by call.
use silver_consensus.Base.{
  ℕ, suc, ◌+◌, ◌<◌, ◌≡◌, refl, ◌∙◌, ap, inl, inr, Bool, true, false, none, some, List, [], ◌∷◌, All,
  member, ◌==◌, arith, Bool-cases, Option-cases, eq_of_test,
}
use silver_consensus.Base.Word.{u64_mod, add64}
use silver_consensus.Base.Dict.{Dict, lookup, lookup-insert}
use silver_consensus.Core.{FloatApi}
use silver_consensus.Downtime.{
  DowntimeConfig, ValidatorDowntimeRecord, DowntimeTracker, count_participation,
  record_recovery_snapshot, record_participation, violates, checked, check_from,
  check_downtime_violations, is_last, recovering, recover_from, process_recovery, reset_all,
  advance_cycle, with_record,
}
use silver_consensus.Downtime.Calls.{
  Call, participate, check, recover, advance, configure, rewrite, apply, run, Spares, recoveries,
}

module _ {fl : FloatApi} where
  -- each loop changes each record in its place
  pub lookup-check_from :
      (now v : ℕ) (m : DowntimeTracker fl) (d : Dict (ValidatorDowntimeRecord fl))
      → lookup v (check_from fl now m d).1
        ≡ elim (lookup v d) [ none ↦ none | some r ↦ some (checked fl m.config r) ]
  unfolding check_from
  lookup-check_from now v m [] = refl
  lookup-check_from now v m ((w, r) ∷ d) = ground (arith, lookup-check_from now v m d)

  pub lookup-recover_from :
      (now v : ℕ) (m : DowntimeTracker fl) (d : Dict (ValidatorDowntimeRecord fl))
      → lookup v (recover_from fl now m d).1
        ≡ elim (lookup v d) [ none ↦ none | some r ↦ some (recovering fl m.config r) ]
  unfolding recover_from
  lookup-recover_from now v m [] = refl
  lookup-recover_from now v m ((w, r) ∷ d) = ground (arith, lookup-recover_from now v m d)

  lookup-reset_all :
      (v : ℕ) (r : ValidatorDowntimeRecord fl) (d : Dict (ValidatorDowntimeRecord fl))
      → lookup v d ≡ some r
      → r.in_recovery ≡ true
      → lookup v (reset_all fl d) ≡ some r
  unfolding reset_all
  lookup-reset_all v r [] e h = cc
  lookup-reset_all v r ((w, s) ∷ d) e h = ground (arith, lookup-reset_all v r d, e, h)

  pub member-recover_from :
      (now v : ℕ) (r : ValidatorDowntimeRecord fl) (m : DowntimeTracker fl)
      (d : Dict (ValidatorDowntimeRecord fl))
      → lookup v d ≡ some r
      → is_last fl m.config r ≡ true
      → member v (recover_from fl now m d).0 ≡ true
  unfolding recover_from
  member-recover_from now v r m [] e h = cc
  member-recover_from now v r m ((w, s) ∷ d) e h =
      ground (arith, member-recover_from now v r m d, e, h)

  -- the validator is in recovery, with so many recovery snapshots
  pub record IsRecovering (v n : ℕ) (m : DowntimeTracker fl) : Type 0 where
    pub r : ValidatorDowntimeRecord fl
    pub found : lookup v m.records ≡ some r
    pub recovering : r.in_recovery ≡ true
    pub completed : r.recovery_snapshots_completed ≡ n

  not_last :
      (c : DowntimeConfig fl) (n : ℕ) (r : ValidatorDowntimeRecord fl)
      → r.in_recovery ≡ true
      → r.recovery_snapshots_completed ≡ n
      → suc n < c.recovery_period
      → c.recovery_period < u64_mod
      → recovering fl c r ≡ record r { recovery_snapshots_completed = suc n }
  unfolding recovering is_last record_recovery_snapshot add64
  not_last c n r h e small fits = ground (arith, h, e, small, fits)

  kept_by_check :
      (c : DowntimeConfig fl) (r : ValidatorDowntimeRecord fl)
      → r.in_recovery ≡ true
      → checked fl c r ≡ r
  unfolding checked violates
  kept_by_check c r h = ground (arith, h)

  participate-IsRecovering :
      (v w n : ℕ) (b : Bool) (m : DowntimeTracker fl)
      → IsRecovering v n m
      → IsRecovering v n (record_participation fl w b m)
  unfolding record_participation
  participate-IsRecovering v w n b m s = elim (Bool-cases (v == w)) [
    | inl y ↦ record {
      r = count_participation fl b s.r;
      found = ground (
        arith,
        y,
        s.found,
        eq_of_test v w,
        lookup-insert w v (count_participation fl b s.r) m.records,
      );
      recovering = unfold count_participation in s.recovering;
      completed = unfold count_participation in s.completed;
    }
    | inr n ↦ record {
      r = s.r;
      found = lookup-insert w v _ m.records ∙ rw n s.found;
      recovering = s.recovering;
      completed = s.completed;
    }
  ]

  -- the tracker whose record of the validator is the one given
  pub renewed :
      (v n : ℕ) (r : ValidatorDowntimeRecord fl) (m : DowntimeTracker fl)
      → lookup v m.records ≡ some r
      → r.in_recovery ≡ true
      → r.recovery_snapshots_completed ≡ n
      → IsRecovering v n m
  renewed v n r m e h c = record { r = r; found = e; recovering = h; completed = c }

  check-IsRecovering :
      (v n now : ℕ) (m : DowntimeTracker fl)
      → IsRecovering v n m
      → IsRecovering v n (check_downtime_violations fl now m).1
  unfolding check_downtime_violations
  check-IsRecovering v n now m s =
      renewed v n s.r _
        (lookup-check_from now v m m.records
          ∙ rw s.found (ap some (kept_by_check m.config s.r s.recovering)))
        s.recovering s.completed

  recover-IsRecovering :
      (v n now : ℕ) (m : DowntimeTracker fl)
      → suc n < m.config.recovery_period
      → m.config.recovery_period < u64_mod
      → IsRecovering v n m
      → IsRecovering v (suc n) (process_recovery fl now m).1
  unfolding process_recovery
  recover-IsRecovering v n now m small fits s =
      renewed v (suc n) (record s.r { recovery_snapshots_completed = suc n }) _
        (lookup-recover_from now v m m.records
          ∙ rw s.found (ap some (not_last m.config n s.r s.recovering s.completed small fits)))
        s.recovering refl

  advance-IsRecovering :
      (v n : ℕ) (m : DowntimeTracker fl)
      → IsRecovering v n m
      → IsRecovering v n (advance_cycle fl m)
  unfolding advance_cycle
  advance-IsRecovering v n m s =
      renewed v n s.r _ (lookup-reset_all v s.r m.records s.found s.recovering) s.recovering
        s.completed

  rewrite-IsRecovering :
      (v n w : ℕ) (f : ValidatorDowntimeRecord fl → ValidatorDowntimeRecord fl)
      (m : DowntimeTracker fl)
      → (v == w) ≡ false
      → IsRecovering v n m
      → IsRecovering v n (with_record fl f w m)
        × ((with_record fl f w m).config.recovery_period ≡ m.config.recovery_period)
  unfolding with_record
  rewrite-IsRecovering v n w f m other s = elim (Option-cases (lookup w m.records)) [
    | inl e ↦ rw (e, with_record) (s, refl)
    | inr (r, e) ↦
        let found = lookup-insert w v (f r) m.records ∙ rw other s.found in
        rw (e, with_record) (renewed v n s.r _ found s.recovering s.completed, refl)
  ]

  pub run-IsRecovering :
      (v n period : ℕ) (cs : List (Call fl)) (m : DowntimeTracker fl)
      → All (Spares v) cs
      → m.config.recovery_period ≡ period
      → n + recoveries cs < period
      → period < u64_mod
      → IsRecovering v n m
      → IsRecovering v (n + recoveries cs) (run cs m) × ((run cs m).config.recovery_period ≡ period)
  unfolding run apply Spares recoveries record_participation check_downtime_violations
      process_recovery advance_cycle
  run-IsRecovering v n period [] m k e small fits s =
      (renewed v (n + 0) s.r m s.found s.recovering (ground (arith, s.completed)), e)
  run-IsRecovering v n period (participate w b ∷ cs) m k e small fits s =
      run-IsRecovering v n period cs _ k.1 e small fits (participate-IsRecovering v w n b m s)
  run-IsRecovering v n period (check now ∷ cs) m k e small fits s =
      run-IsRecovering v n period cs _ k.1 e small fits (check-IsRecovering v n now m s)
  run-IsRecovering v n period (recover now ∷ cs) m k e small fits s =
      let sum : suc n + recoveries cs ≡ n + suc (recoveries cs) = omega arith in
      let next =
        recover-IsRecovering v n now m (omega (arith, small, e)) (omega (arith, fits, e)) s in
      rw⁻¹ sum (run-IsRecovering v (suc n) period cs _ k.1 e (omega (arith, small)) fits next)
  run-IsRecovering v n period (advance ∷ cs) m k e small fits s =
      run-IsRecovering v n period cs _ k.1 e small fits (advance-IsRecovering v n m s)
  run-IsRecovering v n period (configure c ∷ cs) m k e small fits s = elim k.0 [ ]
  run-IsRecovering v n period (rewrite w f ∷ cs) m k e small fits s =
      let (next, same) = rewrite-IsRecovering v n w f m k.0 s in
      run-IsRecovering v n period cs (with_record fl f w m) k.1 (same ∙ e) small fits next
