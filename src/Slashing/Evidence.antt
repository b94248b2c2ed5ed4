-- ===== src/Slashing/Evidence.antt =====
-- The evidence that the slashing manager of src/slashing.rs keeps: the last of each validator.
use silver_consensus.Base.{
  ℕ, ◌≡◌, refl, ◌⊎◌, inl, inr, Bool, true, false, Option, none, some, List, [], ◌∷◌, not, ◌||◌,
  ◌==◌, if◌then◌else◌, All, arith, Bool-cases, eq_of_test, eq_refl,
}
use silver_consensus.Base.Dict.{lookup, insert, lookup-insert}
use silver_consensus.Base.Outcome.{ok, err}
use silver_consensus.Slashing.{
  SlashingManager, JailRecord, already_slashed, is_jailed, is_known, penalize, share,
  slash_for_double_signing, slash_for_downtime, jail_validator_manual, lift_jail,
  process_expired_jails, set_config, double_signing,
}
use silver_consensus.Slashing.History.{
  Call, sign_twice, be_down, by_hand, expire, lift, configure, apply, run,
}

-- the evidence that is stored against the validator
unfoldable pub stored : ℕ → SlashingManager → Option ℕ
stored v m = lookup v m.double_signing_evidence

-- the call brings no other evidence against the validator
unfoldable pub is_quiet : ℕ → ℕ → Call → Bool
is_quiet v e (sign_twice w stake evidence now) = not (w == v) || evidence == e
is_quiet v e _ = true

-- what a double-signing penalty stores
sign-stored :
    (w stake evidence now v : ℕ) (m : SlashingManager)
    → (stored v (slash_for_double_signing w stake evidence now m).1 ≡ stored v m)
      ⊎ (stored v (slash_for_double_signing w stake evidence now m).1
          ≡ (if v == w then some evidence else stored v m))
unfolding slash_for_double_signing penalize stored
sign-stored w stake evidence now v m =
    let amount = share stake m.config.slash_double_signing in
    elim (Bool-cases (is_known w evidence m)) [
      | inl k ↦ inl (rw (k, slash_for_double_signing) refl)
      | inr k ↦ elim (Bool-cases (is_jailed now w m)) [
        | inl j ↦ inl (rw (k, j, slash_for_double_signing) refl)
        | inr j ↦ elim (Bool-cases (amount == 0)) [
          | inl z ↦ inl (rw (k, j, z, slash_for_double_signing) refl)
          | inr z ↦ inr (
              rw (k, j, z, slash_for_double_signing)
                (lookup-insert w v evidence m.double_signing_evidence))
        ]
      ]
    ]

apply-stored :
    (c : Call) (v e : ℕ) (m : SlashingManager)
    → is_quiet v e c ≡ true
    → stored v m ≡ some e
    → stored v (apply c m) ≡ some e
unfolding apply is_quiet
apply-stored (sign_twice w stake evidence now) v e m q h =
    ground (arith, q, h, sign-stored w stake evidence now v m, eq_of_test evidence e)
apply-stored (be_down w stake missed cycle now) v e m q h =
    unfold slash_for_downtime in unfold penalize in unfold stored in ground (arith, h)
apply-stored (by_hand w now) v e m q h =
    unfold jail_validator_manual in unfold penalize in unfold stored in ground (arith, h)
apply-stored (expire now) v e m q h = unfold process_expired_jails in unfold stored in h
apply-stored (lift w) v e m q h = unfold lift_jail in unfold stored in ground (arith, h)
apply-stored (configure config) v e m q h = unfold set_config in unfold stored in h

run-stored :
    (cs : List Call) (v e : ℕ) (m : SlashingManager)
    → All (λ c. is_quiet v e c ≡ true) cs
    → stored v m ≡ some e
    → stored v (run cs m) ≡ some e
unfolding run
run-stored [] v e m q h = h
run-stored (c ∷ cs) v e m q h = run-stored cs v e (apply c m) q.1 (apply-stored c v e m q.0 h)

accepted-stored :
    (v stake e now : ℕ) (m : SlashingManager) (p : ℕ × JailRecord)
    → (slash_for_double_signing v stake e now m).0 ≡ ok p
    → stored v (slash_for_double_signing v stake e now m).1 ≡ some e
unfolding slash_for_double_signing penalize stored
accepted-stored v stake e now m p h =
    ground (arith, h, lookup-insert v v e m.double_signing_evidence, eq_refl v)

-- After evidence against a validator led to a penalty, it is refused as known, whatever calls came
-- in between, as long as none of them brought other evidence against the validator.
pub evidence_refused :
    (v e stake stake' now later : ℕ) (m : SlashingManager) (p : ℕ × JailRecord) (cs : List Call)
    → (slash_for_double_signing v stake e now m).0 ≡ ok p
    → All (λ c. is_quiet v e c ≡ true) cs
    → let m' = run cs (slash_for_double_signing v stake e now m).1 in
      slash_for_double_signing v stake' e later m' ≡ (err already_slashed, m')
unfolding slash_for_double_signing is_known stored
evidence_refused v e stake stake' now later m p cs h q =
    let m' = run cs (slash_for_double_signing v stake e now m).1 in
    let known =
      run-stored cs v e (slash_for_double_signing v stake e now m).1 q
        (accepted-stored v stake e now m p h) in
    let seen : is_known v e m' ≡ true = ground (arith, known, eq_refl e) in
    rw (seen, slash_for_double_signing) refl

-- Evidence that led to a penalty leads to another one after different evidence against the validator
-- did: once the validator is out of jail, the penalty is the same share of the stake again.
pub evidence_replayed :
    (v e other s1 s2 s3 t1 t2 t3 : ℕ) (m : SlashingManager) (p q : ℕ × JailRecord)
    → (other == e) ≡ false
    → (slash_for_double_signing v s1 e t1 m).0 ≡ ok p
    → let m1 = (slash_for_double_signing v s1 e t1 m).1 in
      (slash_for_double_signing v s2 other t2 m1).0 ≡ ok q
      → let m2 = (slash_for_double_signing v s2 other t2 m1).1 in
        is_jailed t3 v m2 ≡ false
        → (share s3 m2.config.slash_double_signing == 0) ≡ false
        → (r : JailRecord) × ((slash_for_double_signing v s3 e t3 m2).0
            ≡ ok (share s3 m2.config.slash_double_signing, r))
unfolding slash_for_double_signing is_known stored
evidence_replayed v e other s1 s2 s3 t1 t2 t3 m p q n h h' j z =
    let m1 = (slash_for_double_signing v s1 e t1 m).1 in
    let m2 = (slash_for_double_signing v s2 other t2 m1).1 in
    let forgotten : stored v m2 ≡ some other = accepted-stored v s2 other t2 m1 q h' in
    let fresh : is_known v e m2 ≡ false = ground (arith, forgotten, n) in
    let noted = record m2 { double_signing_evidence = insert v e m2.double_signing_evidence } in
    (
      (penalize v double_signing (share s3 m2.config.slash_double_signing) none none t3 noted).0,
      rw (fresh, j, z, slash_for_double_signing) refl,
    )
