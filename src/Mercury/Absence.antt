-- ===== src/Mercury/Absence.antt =====
-- The snapshots that src/mercury.rs makes, over any history of calls: `compute_state_root` copies the 32
-- bytes of a hash into 64.
use silver_consensus.Base.{
  ℕ, ◌≡◌, refl, ap, inl, inr, Bool, true, false, some, List, [], ◌∷◌, arith, is_empty, Bool-cases,
  Option-cases,
}
use silver_consensus.Base.Outcome.{Result, err}
use silver_consensus.Core.{MetadataApi, SnapshotApi, ValidatorSignature}
use silver_consensus.ValidatorSet.{ValidatorSet}
use silver_consensus.Mercury.Defs.{Protocol, MercuryError, new, panicked, not_pending}
use silver_consensus.Mercury.Execution.{HashApi, HashLaws, copy_from_slice, compute_state_root}
use silver_consensus.Mercury.Votes.{add_snapshot_signature}
use silver_consensus.Mercury.Creation.{Inputs, create_snapshot_internal, limit_to, extend_all}

module _ (md : MetadataApi) (sn : SnapshotApi) (h : HashApi) (laws : HashLaws h) where
  -- A call, with what its environment gives it. The validator set and the cycle may change between
  -- the calls that make snapshots and sign them.
  pub data Op : Type 0 where
    create : ℕ → Inputs → Op
    vote : ℕ → ValidatorSignature → Bool → Op
    reconfigure : ValidatorSet md → ℕ → Op

  unfoldable pub apply : Op → Protocol md sn → Protocol md sn
  apply (create limit given) m = (create_snapshot_internal md sn h limit given m).1
  apply (vote sequence v stored) m = (add_snapshot_signature md sn sequence v stored m).1
  apply (reconfigure s cycle) m = record m { validator_set = s; current_cycle = cycle }

  unfoldable pub run : List Op → Protocol md sn → Protocol md sn
  run [] m = m
  run (op ∷ ops) m = run ops (apply op m)

  root-panicked : compute_state_root h ≡ err panicked
  unfolding compute_state_root copy_from_slice
  root-panicked = ground (arith, laws.has_32_bytes [])

  -- a creation changes nothing, whatever it returns
  create-same :
      (limit : ℕ) (given : Inputs) (m : Protocol md sn)
      → (create_snapshot_internal md sn h limit given m).1 ≡ m
  unfolding create_snapshot_internal
  create-same limit given m = elim (Option-cases given.batches) [
    | inl none_left ↦ rw (none_left, create_snapshot_internal) refl
    | inr (batches, found) ↦
        rw (found, create_snapshot_internal)
          (elim (Bool-cases (is_empty (limit_to limit (extend_all batches)))) [
            | inl idle ↦ rw idle refl
            | inr busy ↦ rw busy (elim (Bool-cases given.executed) [
              | inr failed ↦ rw failed refl
              | inl executed ↦ rw (executed, root-panicked) refl
            ])
          ])
  ]

  -- no snapshot has been made
  pub record IsIdle (m : Protocol md sn) : Type 0 where
    pub none_pending : m.pending_snapshots ≡ []
    pub none_final : m.finalized_snapshots ≡ []
    pub at_start : m.current_snapshot ≡ 0
    pub none_created : m.snapshots_created ≡ 0

  vote-refused :
      (k : ℕ) (v : ValidatorSignature) (stored : Bool) (m : Protocol md sn)
      → IsIdle m
      → add_snapshot_signature md sn k v stored m ≡ (err not_pending, m)
  unfolding add_snapshot_signature
  vote-refused k v stored m idle = ground (arith, idle.none_pending, idle.none_final)

  apply-IsIdle : (op : Op) (m : Protocol md sn) → IsIdle m → IsIdle (apply op m)
  unfolding apply
  apply-IsIdle (create limit given) m idle = rw (create-same limit given m) idle
  apply-IsIdle (vote k v stored) m idle =
      let same : (add_snapshot_signature md sn k v stored m).1 ≡ m =
        ap (λ (p : Result MercuryError Bool × Protocol md sn). p.1)
          (vote-refused k v stored m idle) in
      rw same idle
  apply-IsIdle (reconfigure s cycle) m idle = record {
    none_pending = idle.none_pending;
    none_final = idle.none_final;
    at_start = idle.at_start;
    none_created = idle.none_created;
  }

  run-IsIdle : (ops : List Op) (m : Protocol md sn) → IsIdle m → IsIdle (run ops m)
  unfolding run
  run-IsIdle [] m idle = idle
  run-IsIdle (op ∷ ops) m idle = run-IsIdle ops (apply op m) (apply-IsIdle op m idle)

  -- No protocol ever makes a snapshot, since a Blake3 hash has 32 bytes: after any creations,
  -- signatures and changes of the validator set and the cycle on a new one, no snapshot is pending,
  -- final or counted, and the current one is 0; every signature is refused, since nothing waits for it;
  -- and a creation with transactions left after the limit, which execute, panics and changes nothing.
  pub no_snapshot :
      (set : ValidatorSet md) (ops : List Op) (k : ℕ) (v : ValidatorSignature) (stored : Bool)
      (limit : ℕ) (given : Inputs) (batches : List (List ℕ))
      → given.batches ≡ some batches
      → is_empty (limit_to limit (extend_all batches)) ≡ false
      → given.executed ≡ true
      → let m = run ops (new md sn set) in
        IsIdle m
        × (add_snapshot_signature md sn k v stored m ≡ (err not_pending, m))
        × (create_snapshot_internal md sn h limit given m ≡ (err panicked, m))
  unfolding create_snapshot_internal
  no_snapshot set ops k v stored limit given batches found busy executed =
      let m = run ops (new md sn set) in
      let idle = run-IsIdle ops (new md sn set) (
        unfold new in
        (record {
          none_pending = refl;
          none_final = refl;
          at_start = refl;
          none_created = refl;
        })) in
      (
        idle,
        vote-refused k v stored m idle,
        rw (found, create_snapshot_internal) (rw (busy, executed, root-panicked) refl),
      )
