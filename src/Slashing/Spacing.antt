-- ===== src/Slashing/Spacing.antt =====
-- The times of the penalties of one validator, over the three penalties of src/slashing.rs.
use silver_consensus.Base.{
  ℕ, ◌+◌, ◌≤◌, ◌<◌, ◌≡◌, refl, sym, inl, inr, false, Option, [], ◌∷◌, ◌++◌, ◌==◌, keep, All-append,
  arith, Bool-cases, eq_of_test, eq_refl,
}
use silver_consensus.Base.Word.{add64, add64_exact, u64_mod}
use silver_consensus.Base.Dict.{IsDistinct-insert, lookup-insert}
use silver_consensus.Slashing.{
  SlashingManager, SlashEvent, JailReason, jail, is_jailed, penalize, get_validator_slash_history,
}
use silver_consensus.Slashing.History.{
  Over, IsServed, Over-mono, IsSpaced-snoc, keep-snoc, not_jailed-Over,
}

module _ (duration v : ℕ) where
  -- another validator's penalty
  penalize_other :
      (w : ℕ) (reason : JailReason) (amount : ℕ) (missed cycle : Option ℕ) (t now : ℕ)
      (m : SlashingManager)
      → (w == v) ≡ false
      → t ≤ now
      → IsServed duration v t m
      → IsServed duration v now (penalize w reason amount missed cycle now m).1
  unfolding penalize get_validator_slash_history
  penalize_other w reason amount missed cycle t now m n l s =
      let sentence = (penalize w reason amount missed cycle now m).0 in
      let event : SlashEvent = record {
        validator_id = w;
        reason = reason;
        slash_amount = amount;
        timestamp = now;
        cycle = cycle;
      } in
      let is_own = λ (e : SlashEvent). e.validator_id == v in
      let past = get_validator_slash_history v m in
      let kept : keep is_own (m.slash_history ++ event ∷ []) ≡ keep is_own m.slash_history =
        ground (arith, keep-snoc is_own m.slash_history event, n) in
      record {
        once = IsDistinct-insert w sentence m.jailed_validators s.once;
        same = s.same;
        spaced = rw kept s.spaced;
        served = rw kept (elim s.served [
          | inl o ↦ inl (Over-mono duration t now past l o)
          | inr (r, e, f, o) ↦ inr (
            r,
            ground (arith, lookup-insert w v sentence m.jailed_validators, n, e, eq_of_test v w),
            f,
            o,
          )
        ]);
      }

  -- the validator's own, which has served its jails
  penalize_own :
      (reason : JailReason) (amount : ℕ) (missed cycle : Option ℕ) (t now : ℕ) (m : SlashingManager)
      → now + duration < u64_mod
      → Over duration now (get_validator_slash_history v m)
      → IsServed duration v t m
      → IsServed duration v now (penalize v reason amount missed cycle now m).1
  unfolding penalize get_validator_slash_history jail
  penalize_own reason amount missed cycle t now m fits over s =
      let sentence = (penalize v reason amount missed cycle now m).0 in
      let event : SlashEvent = record {
        validator_id = v;
        reason = reason;
        slash_amount = amount;
        timestamp = now;
        cycle = cycle;
      } in
      let is_own = λ (e : SlashEvent). e.validator_id == v in
      let past = keep is_own m.slash_history in
      let kept : keep is_own (m.slash_history ++ event ∷ []) ≡ past ++ event ∷ [] =
        ground (arith, keep-snoc is_own m.slash_history event, eq_refl v) in
      let expires : add64 now m.config.jail_duration_secs ≡ now + duration =
        rw s.same (add64_exact now duration fits) in
      record {
        once = IsDistinct-insert v sentence m.jailed_validators s.once;
        same = s.same;
        spaced = rw kept (IsSpaced-snoc duration past event s.spaced over);
        served = inr (
          sentence,
          ground (arith, lookup-insert v v sentence m.jailed_validators, eq_refl v),
          refl,
          rw (kept, expires)
              (All-append (λ (e : SlashEvent). e.timestamp + duration ≤ now + duration) past
                (event ∷ []) (Over-mono duration now (now + duration) past (omega arith) over)
                (omega arith, tt)),
        );
      }

  pub penalize-IsServed :
      (w : ℕ) (reason : JailReason) (amount : ℕ) (missed cycle : Option ℕ) (t now : ℕ)
      (m : SlashingManager)
      → t ≤ now
      → now + duration < u64_mod
      → is_jailed now w m ≡ false
      → IsServed duration v t m
      → IsServed duration v now (penalize w reason amount missed cycle now m).1
  penalize-IsServed w reason amount missed cycle t now m l fits j s = elim (Bool-cases (w == v)) [
    | inl q ↦
        let same = eq_of_test w v q in
        rw same (
          penalize_own reason amount missed cycle t now m fits
            (not_jailed-Over duration v t now m l (rw (sym same) j) s) s)
    | inr q ↦ penalize_other w reason amount missed cycle t now m q l s
  ]

  -- time passes
  pub wait-IsServed :
      (t now : ℕ) (m : SlashingManager)
      → t ≤ now
      → IsServed duration v t m
      → IsServed duration v now m
  wait-IsServed t now m l s = record {
    once = s.once;
    same = s.same;
    spaced = s.spaced;
    served = elim s.served [
      | inl o ↦ inl (Over-mono duration t now (get_validator_slash_history v m) l o)
      | inr found ↦ inr found
    ];
  }
