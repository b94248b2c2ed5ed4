-- ===== src/KeyRotation/Growth.antt =====
-- The keys that a validator has under the key rotation manager of src/key_rotation.rs, call by call.
use silver_consensus.Base.{
  ℕ, ◌≡◌, refl, ap, ◌⊎◌, inl, inr, true, some, List, [], ◌∷◌, IsDistinct, leb, arith, Option-cases,
  eq_of_test, after_test, after_guard, All-mono,
}
use silver_consensus.Base.Dict.{
  Dict, lookup, contains_key, insert, keys, AllValues, AllValues-lookup, AllValues-insert,
  AllEntries, AllEntries-insert, AllEntries-mono, IsDistinct-insert, lookup-insert,
  contains_key-insert,
}
use silver_consensus.Base.Outcome.{Result-cases}
use silver_consensus.Core.{FloatApi}
use silver_consensus.KeyRotation.{
  KeyRecord, KeyRotationRequest, is_valid, new_key, activate, active,
}
use silver_consensus.KeyRotation.Manager.{
  KeyRotationConfig, KeyRotationManager, new, keys_of, register_initial_key, request_key_rotation,
  vote_on_rotation, required_votes, add_key, finalize_rotation, process_transitions, process_all,
  advance_cycle,
}
use silver_consensus.KeyRotation.Calls.{
  Call, register, request, vote, finalize, process, tick, apply, run,
}
use silver_consensus.KeyRotation.Transitions.{
  AreValid, HasKey, keys-process_all, process_all-HasKey, process_all-AreValid,
  process_all-completed, set_active-entries, make_room_keeps,
}

module _ (fl : FloatApi) where
  -- every key is valid, and the active ones are among the keys
  pub record IsKept (m : KeyRotationManager fl) : Type 0 where
    pub distinct : IsDistinct (keys m.validator_keys)
    pub valid : AllValues AreValid m.validator_keys
    pub present : AllEntries (HasKey m.validator_keys) m.active_keys

  pub keys_of-AreValid :
      (v : ℕ) (m : KeyRotationManager fl)
      → AllValues AreValid m.validator_keys
      → AreValid (keys_of fl v m)
  keys_of-AreValid v m a = elim (Option-cases (lookup v m.validator_keys)) [
    | inl e ↦ rw (e, keys_of) tt
    | inr (ks, e) ↦ rw (e, keys_of) (AllValues-lookup AreValid v ks m.validator_keys a e)
  ]

  -- the keys with one more key of a validator
  abbrev with_key : ℕ → ℕ → KeyRecord → KeyRotationManager fl → Dict (Dict KeyRecord)
  with_key v id k m = insert v (insert id k (keys_of fl v m)) m.validator_keys

  with_key-HasKey :
      (v id w j : ℕ) (k : KeyRecord) (m : KeyRotationManager fl)
      → HasKey m.validator_keys w j
      → HasKey (with_key v id k m) w j
  with_key-HasKey v id w j k m h = ground (
    arith,
    h,
    lookup-insert v w (insert id k (keys_of fl v m)) m.validator_keys,
    eq_of_test w v,
    contains_key-insert j id k (keys_of fl v m),
  )

  with_key-present :
      (v id : ℕ) (k : KeyRecord) (m : KeyRotationManager fl) → HasKey (with_key v id k m) v id
  with_key-present v id k m = ground (
    arith,
    lookup-insert v v (insert id k (keys_of fl v m)) m.validator_keys,
    contains_key-insert id id k (keys_of fl v m),
  )

  -- a valid key more, with the active keys left or set to it
  with_key-IsKept :
      (v id : ℕ) (k : KeyRecord) (m m' : KeyRotationManager fl)
      → is_valid k ≡ true
      → m'.validator_keys ≡ with_key v id k m
      → (m'.active_keys ≡ m.active_keys) ⊎ (m'.active_keys ≡ insert v id m.active_keys)
      → IsKept m
      → IsKept m'
  with_key-IsKept v id k m m' good e a s =
      let P = HasKey (with_key v id k m) in
      let kept =
        AllEntries-mono (HasKey m.validator_keys) P m.active_keys
          (λ w j h. with_key-HasKey v id w j k m h) s.present in
      let valid =
        AllValues-insert AreValid v (insert id k (keys_of fl v m)) m.validator_keys s.valid (
          AllValues-insert (λ k. is_valid k ≡ true) id k (keys_of fl v m)
            (keys_of-AreValid v m s.valid) good) in
      record {
        distinct =
            rw e (IsDistinct-insert v (insert id k (keys_of fl v m)) m.validator_keys s.distinct);
        valid = rw e valid;
        present = elim a [
          | inl q ↦ rw (e, q) kept
          | inr q ↦
              rw (e, q) (AllEntries-insert P v id m.active_keys kept (with_key-present v id k m))
        ];
      }

  same-IsKept :
      (m m' : KeyRotationManager fl)
      → m'.validator_keys ≡ m.validator_keys
      → m'.active_keys ≡ m.active_keys
      → IsKept m
      → IsKept m'
  same-IsKept m m' e a s = record {
    distinct = rw e s.distinct;
    valid = rw e s.valid;
    present = rw (e, a) s.present;
  }

  -- the state with the keys of another one, and its own and their active keys
  abbrev pub Grows : KeyRotationManager fl → KeyRotationManager fl → Type 0
  Grows m m' =
      IsKept m' × ((v id : ℕ) → HasKey m.validator_keys v id → HasKey m'.validator_keys v id)

  same-Grows :
      (m m' : KeyRotationManager fl)
      → m'.validator_keys ≡ m.validator_keys
      → m'.active_keys ≡ m.active_keys
      → IsKept m
      → Grows m m'
  same-Grows m m' e a s = (same-IsKept m m' e a s, λ v id h. rw e h)

  with_key-Grows :
      (v id : ℕ) (k : KeyRecord) (m m' : KeyRotationManager fl)
      → is_valid k ≡ true
      → m'.validator_keys ≡ with_key v id k m
      → (m'.active_keys ≡ m.active_keys) ⊎ (m'.active_keys ≡ insert v id m.active_keys)
      → IsKept m
      → Grows m m'
  with_key-Grows v id k m m' good e a s =
      (with_key-IsKept v id k m m' good e a s, λ w j h. rw e (with_key-HasKey v id w j k m h))

  register-Grows :
      (v id key now : ℕ) (m : KeyRotationManager fl)
      → IsKept m
      → Grows m (register_initial_key fl v id key now m).1
  unfolding register_initial_key new_key is_valid
  register-Grows v id key now m s =
      after_guard (Grows m) (contains_key v m.active_keys) _ _ (same-Grows m m refl refl s) (λ a.
        with_key-Grows v id
          (record (new_key id key now) { status = active; activated_at = some now }) m _ refl refl
          (inr refl) s)

  add_key-Grows :
      (v now : ℕ) (q : KeyRotationRequest) (k : KeyRecord) (m : KeyRotationManager fl)
      → is_valid k ≡ true
      → IsKept m
      → Grows m (add_key fl v q k now m)
  unfolding add_key
  add_key-Grows v now q k m good s =
      let room =
        make_room_keeps m.config.max_keys_per_validator (keys_of fl v m)
          (keys_of-AreValid v m s.valid) in
      with_key-Grows v q.new_key_id k m _ good
        (ap (λ d. insert v (insert q.new_key_id k d) m.validator_keys) room) (inl refl) s

  activate-valid :
      (period now id key : ℕ) → is_valid (activate period now (new_key id key now)).1 ≡ true
  unfolding activate new_key is_valid
  activate-valid period now id key = refl

  finalize-Grows :
      (v total now : ℕ) (m : KeyRotationManager fl)
      → IsKept m
      → Grows m (finalize_rotation fl v total now m).1
  unfolding finalize_rotation
  finalize-Grows v total now m s = elim (Option-cases (lookup v m.pending_requests)) [
    | inl e ↦ rw (e, finalize_rotation) (same-Grows m m refl refl s)
    | inr (q, e) ↦
        let fresh = new_key q.new_key_id q.new_public_key now in
        let period = m.config.transition_period_secs in
        let good = activate-valid period now q.new_key_id q.new_public_key in
        rw (e, finalize_rotation)
          (after_test (Grows m) (leb (required_votes fl total m.config) q.votes_in_favor) _ _
            (λ b. elim (Result-cases (activate period now fresh).0) [
              | inl (x, r) ↦ rw r (same-Grows m _ refl refl s)
              | inr (u, r) ↦ rw r (
                  add_key-Grows v now q (activate period now fresh).1 _ good
                    (same-IsKept m _ refl refl s))
            ])
            (λ b. same-Grows m _ refl refl s))
  ]

  process-Grows :
      (now : ℕ) (m : KeyRotationManager fl) → IsKept m → Grows m (process_transitions fl now m).1
  unfolding process_transitions
  process-Grows now m s =
      let d = m.validator_keys in
      let d' = (process_all now d).0 in
      let old =
        AllEntries-mono (HasKey d) (HasKey d') m.active_keys
          (λ v id h. process_all-HasKey now v id d h) s.present in
      let done =
        All-mono (λ e. HasKey d e.0 e.1) (λ e. HasKey d' e.0 e.1) (process_all now d).1
          (λ e h. process_all-HasKey now e.0 e.1 d h) (process_all-completed now d s.distinct) in
      let kept : IsKept (process_transitions fl now m).1 = record {
        distinct = rw (keys-process_all now d) s.distinct;
        valid = process_all-AreValid now d s.valid;
        present = set_active-entries (HasKey d') (process_all now d).1 m.active_keys done old;
      } in
      (kept, λ v id h. process_all-HasKey now v id d h)

  pub apply-Grows : (c : Call) (m : KeyRotationManager fl) → IsKept m → Grows m (apply fl c m)
  unfolding apply request_key_rotation vote_on_rotation advance_cycle
  apply-Grows (register v id key now) m s = register-Grows v id key now m s
  apply-Grows (request v id key now) m s =
      after_test (Grows m) (contains_key v m.active_keys) _ _
        (λ a.
          after_guard (Grows m) (contains_key v m.pending_requests) _ _ (same-Grows m m refl refl s)
            (λ b. same-Grows m _ refl refl s))
        (λ a. same-Grows m m refl refl s)
  apply-Grows (vote v in_favor power) m s = elim (Option-cases (lookup v m.pending_requests)) [
    | inl e ↦ rw (e, apply, vote_on_rotation) (same-Grows m m refl refl s)
    | inr (q, e) ↦ rw (e, apply, vote_on_rotation) (same-Grows m _ refl refl s)
  ]
  apply-Grows (finalize v total now) m s = finalize-Grows v total now m s
  apply-Grows (process now) m s = process-Grows now m s
  apply-Grows tick m s = same-Grows m _ refl refl s

  pub run-Grows : (cs : List Call) (m : KeyRotationManager fl) → IsKept m → Grows m (run fl cs m)
  unfolding run
  run-Grows [] m s = (s, λ v id h. h)
  run-Grows (c ∷ cs) m s =
      let first = apply-Grows c m s in
      let rest = run-Grows cs (apply fl c m) first.0 in
      (rest.0, λ v id h. rest.1 v id (first.1 v id h))

  pub new-IsKept : (config : KeyRotationConfig fl) → IsKept (new fl config)
  unfolding new
  new-IsKept config = record { distinct = tt; valid = tt; present = tt }
