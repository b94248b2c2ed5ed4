-- ===== src/KeyRotation/Completion.antt =====
-- A rotation that is carried, from its vote to the active key, in src/key_rotation.rs.
use silver_consensus.Base.{
  ℕ, ◌+◌, ◌≤◌, ◌<◌, ◌≡◌, refl, ap, ◌∙◌, inl, true, some, List, [], ◌∷◌, arith, le→leb,
}
use silver_consensus.Base.Word.{u64_mod, add64}
use silver_consensus.Base.Dict.{lookup, insert, AllEntries, AllEntries-insert, lookup-insert_self}
use silver_consensus.Core.{FloatApi}
use silver_consensus.KeyRotation.{
  KeyRecord, KeyRotationRequest, active, is_transition_complete, is_before_end, new_key, activate,
  complete_transition,
}
use silver_consensus.KeyRotation.Manager.{
  KeyRotationConfig, KeyRotationManager, new, keys_of, required_votes, add_key, finalize_rotation,
  process_transitions, process_all, get_active_key,
}
use silver_consensus.KeyRotation.Calls.{Call, finalize, process, apply, run}
use silver_consensus.KeyRotation.Transitions.{
  make_room_keeps, settled, ends, lookup-process_all, lookup-process_keys,
}
use silver_consensus.KeyRotation.Growth.{
  IsKept, keys_of-AreValid, apply-Grows, run-Grows, new-IsKept,
}
use silver_consensus.KeyRotation.Rotation.{OnlyEnds, swept, new_is_set}

-- the new key of a request, from its approval on
abbrev approved_key : ℕ → ℕ → KeyRotationRequest → KeyRecord
approved_key period t q = (activate period t (new_key q.new_key_id q.new_public_key t)).1

module _ (period t now : ℕ) (q : KeyRotationRequest) where
  approved_key-ends :
      t + period < u64_mod → t + period ≤ now → ends now (approved_key period t q) ≡ true
  unfolding activate new_key is_transition_complete is_before_end add64
  approved_key-ends fits later = ground (arith, fits, later)

  approved_key-settled :
      ends now (approved_key period t q) ≡ true
      → ((settled now (approved_key period t q)).status ≡ active)
        × ((settled now (approved_key period t q)).public_key ≡ q.new_public_key)
  unfolding activate new_key complete_transition is_transition_complete is_before_end
  approved_key-settled h = ground (arith, h)

module _ (fl : FloatApi) where
  -- the keys after an approved request
  finalized_keys :
      (v total t : ℕ) (q : KeyRotationRequest) (m : KeyRotationManager fl)
      → IsKept fl m
      → lookup v m.pending_requests ≡ some q
      → required_votes fl total m.config ≤ q.votes_in_favor
      → (finalize_rotation fl v total t m).1.validator_keys
        ≡ insert v
            (insert q.new_key_id
              (approved_key m.config.transition_period_secs t q)
              (keys_of fl v m))
            m.validator_keys
  unfolding finalize_rotation add_key activate new_key
  finalized_keys v total t q m s e votes =
      let room =
        make_room_keeps m.config.max_keys_per_validator (keys_of fl v m)
          (keys_of-AreValid fl v m s.valid) in
      let carried = le→leb (required_votes fl total m.config) q.votes_in_favor votes in
      rw (e, carried, finalize_rotation) (rw room refl)

  -- the sweep after the end of the period makes the new key the active one
  processed :
      (v now new : ℕ) (k : KeyRecord) (m : KeyRotationManager fl) (n : KeyRotationManager fl)
      → IsKept fl n
      → n.validator_keys ≡ insert v (insert new k (keys_of fl v m)) m.validator_keys
      → AllEntries (OnlyEnds new) (keys_of fl v m)
      → ends now k ≡ true
      → get_active_key fl v (process_transitions fl now n).1 ≡ some (settled now k)
  unfolding process_transitions get_active_key
  processed v now new k m n s e only done =
      let ks = insert new k (keys_of fl v m) in
      let found : lookup v n.validator_keys ≡ some ks =
        ap (λ d. lookup v d) e ∙ lookup-insert_self v ks m.validator_keys in
      let there = lookup-insert_self new k (keys_of fl v m) in
      let all = AllEntries-insert (OnlyEnds new) new k (keys_of fl v m) only (inl refl) in
      let (fresh, named) = swept now new v k ks n.validator_keys s.distinct found all there done in
      let at =
        new_is_set now new v (process_all now n.validator_keys).1 n.active_keys fresh (inl named) in
      ground (
        arith,
        at,
        found,
        there,
        lookup-process_all now v n.validator_keys,
        lookup-process_keys now new ks,
      )

-- When the pending request of a validator for a new key has the votes that the configuration asks for,
-- after any calls on a new manager, and no other key of the validator is in transition, then
-- finalizing the vote at `t` followed by processing the transitions at or after the end of the
-- transition period, which is within u64, makes the new public key the validator's active one.
pub rotation_completes :
    (fl : FloatApi) (config : KeyRotationConfig fl) (cs : List Call) (v total t now : ℕ)
    (q : KeyRotationRequest)
    → lookup v (run fl cs (new fl config)).pending_requests ≡ some q
    → required_votes fl total (run fl cs (new fl config)).config ≤ q.votes_in_favor
    → AllEntries (OnlyEnds q.new_key_id) (keys_of fl v (run fl cs (new fl config)))
    → t + (run fl cs (new fl config)).config.transition_period_secs < u64_mod
    → t + (run fl cs (new fl config)).config.transition_period_secs ≤ now
    → (k : KeyRecord) × (get_active_key fl v
          (run fl (finalize v total t ∷ process now ∷ []) (run fl cs (new fl config)))
        ≡ some k)
      × (k.status ≡ active)
      × (k.public_key ≡ q.new_public_key)
unfolding apply run
rotation_completes fl config cs v total t now q e votes only fits later =
    let m = run fl cs (new fl config) in
    let s = (run-Grows fl cs (new fl config) (new-IsKept fl config)).0 in
    let period = m.config.transition_period_secs in
    let n = (finalize_rotation fl v total t m).1 in
    let s' = (apply-Grows fl (finalize v total t) m s).0 in
    let k = approved_key period t q in
    let done = approved_key-ends period t now q fits later in
    let (is, has) = approved_key-settled period t now q done in
    let at =
      processed fl v now q.new_key_id k m n s' (finalized_keys fl v total t q m s e votes) only
        done in
    (settled now k, at, is, has)
