-- ===== src/ValidatorActivation/Cooldown.antt =====
-- The cooldowns of all records over the calls on the activation manager of
-- src/validator_activation.rs.
use silver_consensus.Base.{
  ℕ, ◌+◌, ◌≤◌, ◌<◌, ◌≡◌, refl, inl, inr, leb, Option-cases, after_test, arith,
}
use silver_consensus.Base.Word.{u64_mod}
use silver_consensus.Base.Dict.{
  lookup, insert, AllValues, AllValues-mono, AllValues-insert, AllValues-lookup,
}
use silver_consensus.Base.Outcome.{Result, Result-cases}
use silver_consensus.Core.{FloatApi}
use silver_consensus.ValidatorActivation.{
  ActivationRequestType, activation, deactivation, ActivationError, ValidatorActivationRecord,
  activate, deactivate,
}
use silver_consensus.ValidatorActivation.Manager.{
  ValidatorActivationManager, entry, approve, carry_out, finalize_request, with_record,
  required_votes,
}
use silver_consensus.ValidatorActivation.Rested.{
  IsRested, wait-IsRested, activate-IsRested, deactivate-IsRested, new_record-IsRested,
}

module _ (fl : FloatApi) (cooldown : ℕ) where
  -- every record is rested, under the cooldown of the configuration
  pub record AreRested (t : ℕ) (m : ValidatorActivationManager fl) : Type 0 where
    pub configured : m.config.deactivation_cooldown_secs ≡ cooldown
    pub rested : AllValues (IsRested cooldown t) m.records

  pub wait-AreRested :
      (t now : ℕ) (m : ValidatorActivationManager fl) → t ≤ now → AreRested t m → AreRested now m
  wait-AreRested t now m l s = record {
    configured = s.configured;
    rested =
        AllValues-mono (IsRested cooldown t) (IsRested cooldown now) m.records
          (λ r. wait-IsRested cooldown t now r l) s.rested;
  }

  -- the manager with the same records and configuration
  pub same-AreRested :
      (t : ℕ) (m m' : ValidatorActivationManager fl)
      → m'.config ≡ m.config
      → m'.records ≡ m.records
      → AreRested t m
      → AreRested t m'
  same-AreRested t m m' p q s = record { configured = rw p s.configured; rested = rw q s.rested }

  -- the manager with one more record
  insert-AreRested :
      (t v : ℕ) (r : ValidatorActivationRecord) (m m' : ValidatorActivationManager fl)
      → m'.config ≡ m.config
      → m'.records ≡ insert v r m.records
      → IsRested cooldown t r
      → AreRested t m
      → AreRested t m'
  insert-AreRested t v r m m' p q i s = record {
    configured = rw p s.configured;
    rested = rw q (AllValues-insert (IsRested cooldown t) v r m.records s.rested i);
  }

  entry-IsRested :
      (t v : ℕ) (m : ValidatorActivationManager fl)
      → AreRested t m
      → IsRested cooldown t (entry fl v m)
  unfolding entry
  entry-IsRested t v m s = elim (Option-cases (lookup v m.records)) [
    | inl e ↦ rw (e, entry) (new_record-IsRested cooldown t v)
    | inr (r, e) ↦ rw (e, entry) (AllValues-lookup (IsRested cooldown t) v r m.records s.rested e)
  ]

  approve-AreRested :
      (v t now : ℕ) (kind : ActivationRequestType) (m : ValidatorActivationManager fl)
      → t ≤ now
      → now + cooldown < u64_mod
      → AreRested t m
      → AreRested now (approve fl v kind now m).1
  unfolding approve carry_out
  approve-AreRested v t now activation m l fits s =
      let later = wait-AreRested t now m l s in
      let r = (activate now (entry fl v m)).1 in
      let rested = activate-IsRested cooldown t now (entry fl v m) l (entry-IsRested t v m s) in
      elim (Result-cases (activate now (entry fl v m)).0) [
        | inl (e, q) ↦ rw (q, approve) (insert-AreRested now v r m _ refl refl rested later)
        | inr (u, q) ↦ rw (q, approve) (insert-AreRested now v r m _ refl refl rested later)
      ]
  approve-AreRested v t now deactivation m l fits s =
      let later = wait-AreRested t now m l s in
      elim (Option-cases (lookup v m.records)) [
        | inl e ↦ rw (e, approve) (same-AreRested now m _ refl refl later)
        | inr (r, e) ↦
            let c = m.config.deactivation_cooldown_secs in
            let r' = (deactivate c now r).1 in
            let before = AllValues-lookup (IsRested cooldown t) v r m.records s.rested e in
            let rested : IsRested cooldown now (deactivate c now r).1 =
              rw s.configured
                (deactivate-IsRested cooldown t now r l cooldown (omega arith) fits before) in
            elim (Result-cases (deactivate c now r).0) [
              | inl (x, q) ↦
                  rw (e, q, approve) (insert-AreRested now v r' m _ refl refl rested later)
              | inr (u, q) ↦
                  rw (e, q, approve) (insert-AreRested now v r' m _ refl refl rested later)
            ]
      ]

  pub finalize-AreRested :
      (v total t now : ℕ) (m : ValidatorActivationManager fl)
      → t ≤ now
      → now + cooldown < u64_mod
      → AreRested t m
      → AreRested now (finalize_request fl v total now m).1
  unfolding finalize_request
  finalize-AreRested v total t now m l fits s = elim (Option-cases (lookup v m.pending_requests)) [
    | inl e ↦ rw (e, finalize_request) (wait-AreRested t now m l s)
    | inr (q, e) ↦
        rw (e, finalize_request)
          (after_test (AreRested now)
            (leb (required_votes fl q.request_type total m.config) q.votes_in_favor) _ _
            (λ a.
              approve-AreRested v t now q.request_type _ l fits (same-AreRested t m _ refl refl s))
            (λ a. same-AreRested now m _ refl refl (wait-AreRested t now m l s)))
  ]

  pub with_record-AreRested :
      (v t now : ℕ)
      (f : ValidatorActivationRecord
        → Result ActivationError (Unit {0}) × ValidatorActivationRecord)
      (m : ValidatorActivationManager fl)
      → t ≤ now
      → ((r : ValidatorActivationRecord) → IsRested cooldown t r → IsRested cooldown now (f r).1)
      → AreRested t m
      → AreRested now (with_record fl f v m)
  unfolding with_record
  with_record-AreRested v t now f m l keeps s = elim (Option-cases (lookup v m.records)) [
    | inl e ↦ rw (e, with_record) (wait-AreRested t now m l s)
    | inr (r, e) ↦
        let before = AllValues-lookup (IsRested cooldown t) v r m.records s.rested e in
        rw (e, with_record)
          (insert-AreRested now v (f r).1 m _ refl refl (keeps r before)
            (wait-AreRested t now m l s))
  ]
