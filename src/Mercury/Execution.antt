-- ===== src/Mercury/Execution.antt =====
-- `compute_state_root` of src/mercury.rs.
use silver_consensus.Base.{ℕ, List, [], ◌==◌, ◌≡◌, length, if◌then◌else◌}
use silver_consensus.Base.Outcome.{Result, ok, err}
use silver_consensus.Mercury.Defs.{MercuryError, panicked}

-- Blake3, as a function from the bytes hashed to the bytes of the hash, and `StateDigest::new`
pub record HashApi : Type 0 where
  pub finalize : List ℕ → List ℕ
  pub state_digest : List ℕ → ℕ

-- a Blake3 hash has 32 bytes
pub record HashLaws (h : HashApi) : Type 0 where
  pub has_32_bytes : (bytes : List ℕ) → length (h.finalize bytes) ≡ 32

-- a slice copied into an array of that size, which panics where the lengths differ
unfoldable pub copy_from_slice : ℕ → List ℕ → Result MercuryError (List ℕ)
copy_from_slice size bytes = if length bytes == size then ok bytes else err panicked

-- the list of objects that is hashed is empty
unfoldable pub compute_state_root : HashApi → Result MercuryError ℕ
compute_state_root h = elim (copy_from_slice 64 (h.finalize [])) [
  | err e ↦ err e
  | ok digest_bytes ↦ ok (h.state_digest digest_bytes)
]
