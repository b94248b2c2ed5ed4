-- ===== src/KeyRotation/Kept.antt =====
-- The keys that a validator keeps under the key rotation manager of src/key_rotation.rs.
use silver_consensus.Base.{ℕ, ◌≡◌, inl, inr, true, some, List, arith, Option-cases}
use silver_consensus.Base.Dict.{lookup, contains_key, AllValues-lookup, AllEntries-lookup}
use silver_consensus.Core.{FloatApi}
use silver_consensus.KeyRotation.{KeyRecord, is_valid}
use silver_consensus.KeyRotation.Manager.{
  KeyRotationConfig, KeyRotationManager, new, keys_of, get_active_key,
}
use silver_consensus.KeyRotation.Calls.{Call, run}
use silver_consensus.KeyRotation.Transitions.{HasKey}
use silver_consensus.KeyRotation.Growth.{IsKept, keys_of-AreValid, run-Grows, new-IsKept}

module _ (fl : FloatApi) where
  -- a key that is present is found, and valid
  found_valid :
      (v id : ℕ) (m : KeyRotationManager fl)
      → IsKept fl m
      → HasKey m.validator_keys v id
      → (k : KeyRecord) × (lookup id (keys_of fl v m) ≡ some k) × (is_valid k ≡ true)
  found_valid v id m s h = elim (Option-cases (lookup id (keys_of fl v m))) [
    | inl e ↦ ground (arith, e, h)
    | inr (k, e) ↦ (
      k,
      e,
      AllValues-lookup (λ k. is_valid k ≡ true) id k (keys_of fl v m)
          (keys_of-AreValid fl v m s.valid) e,
    )
  ]

  -- After any calls on a new key rotation manager, the active key of a validator is one of its keys,
  -- and it is valid.
  pub active_key_valid :
      (config : KeyRotationConfig fl) (cs : List Call) (v id : ℕ)
      → lookup v (run fl cs (new fl config)).active_keys ≡ some id
      → (k : KeyRecord) × (get_active_key fl v (run fl cs (new fl config)) ≡ some k)
        × (is_valid k ≡ true)
  unfolding get_active_key
  active_key_valid config cs v id e =
      let m = run fl cs (new fl config) in
      let s = (run-Grows fl cs (new fl config) (new-IsKept fl config)).0 in
      let (k, found, good) =
        found_valid v id m s
          (AllEntries-lookup (HasKey m.validator_keys) v id m.active_keys s.present e) in
      (k, ground (arith, e, found), good)

  -- A key that a validator has after any calls on a new key rotation manager is still one of its keys
  -- after any further calls, and it is valid, whatever rotations they complete.
  pub keys_stay :
      (config : KeyRotationConfig fl) (cs ds : List Call) (v id : ℕ)
      → contains_key id (keys_of fl v (run fl cs (new fl config))) ≡ true
      → (k : KeyRecord) × (lookup id (keys_of fl v (run fl ds (run fl cs (new fl config))))
          ≡ some k)
        × (is_valid k ≡ true)
  keys_stay config cs ds v id h =
      let m = run fl cs (new fl config) in
      let s = (run-Grows fl cs (new fl config) (new-IsKept fl config)).0 in
      let later = run-Grows fl ds m s in found_valid v id (run fl ds m) later.0 (later.1 v id h)
