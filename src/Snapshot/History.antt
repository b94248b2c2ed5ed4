-- ===== src/Snapshot/History.antt =====
-- Every history of calls of `SnapshotManager` of src/snapshot.rs.
use silver_consensus.Base.{
  ℕ, ◌+◌, ◌≤◌, ◌<◌, ◌≡◌, refl, inl, inr, some, List, [], ◌∷◌, ◌++◌, arith, length, Option-cases,
}
use silver_consensus.Base.Word.{u64_mod}
use silver_consensus.Base.Dict.{lookup, lookup-insert, AllEntries-lookup}
use silver_consensus.Base.Clock.{Clock}
use silver_consensus.Core.{SnapshotApi}
use silver_consensus.Snapshot.Certificate.{
  SnapshotCertificate, SnapshotError, backpressure, no_quorum,
}
use silver_consensus.Snapshot.Certificate as Certificate
use silver_consensus.Snapshot.Manager.{
  SnapshotManager, create_snapshot, add_signature, finalize_snapshot, finalize_removed,
  process_timeouts,
}
use silver_consensus.Snapshot.Lifecycle.{
  IsValid, IsFinal, IsSlot-found, create_snapshot-IsValid, add_signature-IsValid,
  finalize_snapshot-IsValid, process_timeouts-IsValid,
}

-- The calls that change a manager and prune nothing, with their arguments.
pub data Op : Type 0 where
  create : ℕ → List ℕ → ℕ → ℕ → Clock → Op
  sign : ℕ → ℕ → ℕ → ℕ → Clock → Op
  finalize : ℕ → Clock → Op
  timeouts : Clock → Op

module _ (api : SnapshotApi) where
  unfoldable pub apply : Op → SnapshotManager api → SnapshotManager api
  apply (create root digests cycle total t) m = (create_snapshot api root digests cycle total t m).1
  apply (sign sequence validator signature stake t) m =
      (add_signature api sequence validator signature stake t m).1
  apply (finalize sequence t) m = (finalize_snapshot api sequence t m).1
  apply (timeouts t) m = (process_timeouts api t m).1

  unfoldable pub run : List Op → SnapshotManager api → SnapshotManager api
  run [] m = m
  run (op ∷ ops) m = run ops (apply op m)

  apply-IsValid :
      (op : Op) (m : SnapshotManager api)
      → m.latest_sequence + 1 < u64_mod
      → IsValid api m
      → IsValid api (apply op m)
  unfolding apply
  apply-IsValid (create root digests cycle total t) m fits v =
      create_snapshot-IsValid api root digests cycle total t m fits v
  apply-IsValid (sign sequence validator signature stake t) m fits v =
      add_signature-IsValid api sequence validator signature stake t m v
  apply-IsValid (finalize sequence t) m fits v = finalize_snapshot-IsValid api sequence t m v
  apply-IsValid (timeouts t) m fits v = process_timeouts-IsValid api t m v

  finalize_latest :
      (sequence : ℕ) (t : Clock) (m : SnapshotManager api)
      → IsValid api m
      → (finalize_snapshot api sequence t m).1.latest_sequence ≤ m.latest_sequence + 1
  unfolding finalize_snapshot finalize_removed Certificate.finalize
  finalize_latest sequence t m v = elim (Option-cases (lookup sequence m.pending_snapshots)) [
    | inl missing ↦ ground arith
    | inr (p, found) ↦
        ground
          (arith, IsSlot-found (m.latest_sequence + 1) sequence p m.pending_snapshots v.slot found)
  ]

  apply_latest :
      (op : Op) (m : SnapshotManager api)
      → IsValid api m
      → (apply op m).latest_sequence ≤ m.latest_sequence + 1
  unfolding apply
  apply_latest (create root digests cycle total t) m v = unfold create_snapshot in ground arith
  apply_latest (sign sequence validator signature stake t) m v =
      unfold add_signature in ground arith
  apply_latest (finalize sequence t) m v = finalize_latest sequence t m v
  apply_latest (timeouts t) m v = unfold process_timeouts in omega arith

  pub run-IsValid :
      (ops : List Op) (m : SnapshotManager api)
      → m.latest_sequence + length ops < u64_mod
      → IsValid api m
      → IsValid api (run ops m)
  unfolding run
  run-IsValid [] m fits v = v
  run-IsValid (op ∷ ops) m fits v =
      run-IsValid ops (apply op m) (omega (arith, apply_latest op m v))
        (apply-IsValid op m (omega arith) v)

  finalize_keeps :
      (sequence : ℕ) (t : Clock) (m : SnapshotManager api) (k : ℕ)
      {x : api.Snapshot × SnapshotCertificate}
      → IsValid api m
      → lookup k m.finalized_snapshots ≡ some x
      → lookup k (finalize_snapshot api sequence t m).1.finalized_snapshots ≡ some x
  unfolding finalize_snapshot finalize_removed Certificate.finalize
  finalize_keeps sequence t m k {x} v h =
      elim (Option-cases (lookup sequence m.pending_snapshots)) [
        | inl missing ↦ ground arith
        | inr (p, found) ↦ ground (
          arith,
          IsSlot-found (m.latest_sequence + 1) sequence p m.pending_snapshots v.slot found,
          AllEntries-lookup (IsFinal api m.latest_sequence) k x m.finalized_snapshots v.final h,
          lookup-insert sequence k (p.snapshot, (Certificate.finalize t p.certificate).1)
              m.finalized_snapshots,
        )
      ]

  apply_keeps :
      (op : Op) (m : SnapshotManager api) (k : ℕ) {x : api.Snapshot × SnapshotCertificate}
      → IsValid api m
      → lookup k m.finalized_snapshots ≡ some x
      → lookup k (apply op m).finalized_snapshots ≡ some x
  unfolding apply
  apply_keeps (create root digests cycle total t) m k v h = unfold create_snapshot in ground arith
  apply_keeps (sign sequence validator signature stake t) m k v h =
      unfold add_signature in ground arith
  apply_keeps (finalize sequence t) m k v h = finalize_keeps sequence t m k v h
  apply_keeps (timeouts t) m k v h = unfold process_timeouts in h

  pub run_keeps :
      (ops : List Op) (m : SnapshotManager api) (k : ℕ) {x : api.Snapshot × SnapshotCertificate}
      → m.latest_sequence + length ops < u64_mod
      → IsValid api m
      → lookup k m.finalized_snapshots ≡ some x
      → lookup k (run ops m).finalized_snapshots ≡ some x
  unfolding run
  run_keeps [] m k fits v h = h
  run_keeps (op ∷ ops) m k fits v h =
      run_keeps ops (apply op m) k (omega (arith, apply_latest op m v))
        (apply-IsValid op m (omega arith) v) (apply_keeps op m k v h)

  pub run-append :
      (first later : List Op) (m : SnapshotManager api)
      → run (first ++ later) m ≡ run later (run first m)
  unfolding run
  run-append [] later m = refl
  run-append (op ∷ first) later m = run-append first later (apply op m)

  pub run_latest :
      (ops : List Op) (m : SnapshotManager api)
      → m.latest_sequence + length ops < u64_mod
      → IsValid api m
      → (run ops m).latest_sequence ≤ m.latest_sequence + length ops
  unfolding run
  run_latest [] m fits v = omega arith
  run_latest (op ∷ ops) m fits v = omega (
    arith,
    apply_latest op m v,
    run_latest ops (apply op m) (omega (arith, apply_latest op m v))
        (apply-IsValid op m (omega arith) v),
  )
