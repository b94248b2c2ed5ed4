-- ===== src/Snapshot/Finality.antt =====
-- Finality of snapshots: what `SnapshotManager` of src/snapshot.rs promises over its whole life.
use silver_consensus.Base.{
  ℕ, ◌+◌, ◌≤◌, ◌<◌, ◌≡◌, refl, ◌≢◌, true, false, some, List, [], ◌++◌, arith, length,
}
use silver_consensus.Base.Word.{u64_max, add64_exact}
use silver_consensus.Base.Dict.{lookup, lookup-insert_self, AllEntries-lookup, AllValues-lookup}
use silver_consensus.Base.Clock.{Clock}
use silver_consensus.Base.Outcome.{ok, err}
use silver_consensus.Core.{SnapshotApi}
use silver_consensus.Snapshot.Certificate.{
  SnapshotCertificate, SnapshotError, backpressure, no_quorum,
}
use silver_consensus.Snapshot.Certificate as Certificate
use silver_consensus.Snapshot.Manager.{
  SnapshotManager, PendingSnapshot, create_snapshot, fresh_pending, finalize_snapshot,
  finalize_removed, with_timeout, verify_certificate,
}
use silver_consensus.Snapshot.Lifecycle.{
  IsValid, IsFinal, IsBacked, IsSlot-length, IsSlot-found, with_timeout-IsValid, finalize-verify,
}
use silver_consensus.Snapshot.History.{Op, run, run-IsValid, run_keeps, run-append, run_latest}

module _ (api : SnapshotApi) where
  started-IsValid :
      (timeout : ℕ) (ops : List Op)
      → length ops < u64_max
      → IsValid api (run api ops (with_timeout api timeout))
  unfolding with_timeout
  started-IsValid timeout ops fits =
      run-IsValid api ops (with_timeout api timeout) (omega arith)
        (with_timeout-IsValid api timeout)

  -- After any calls on a new manager, fewer than `u64::MAX` and none of them pruning, every
  -- finalized snapshot passes `verify_certificate`, its sequence is at most the latest one, and that
  -- is at most the number of calls.
  pub finalized_verify :
      (timeout : ℕ) (ops : List Op) (k : ℕ) (x : api.Snapshot × SnapshotCertificate)
      → length ops < u64_max
      → lookup k (run api ops (with_timeout api timeout)).finalized_snapshots ≡ some x
      → let m = run api ops (with_timeout api timeout) in
        (verify_certificate api k m ≡ ok tt)
        × (k ≤ m.latest_sequence)
        × (m.latest_sequence ≤ length ops)
  unfolding with_timeout verify_certificate
  finalized_verify timeout ops k x fits h =
      let start = with_timeout api timeout in
      let m = run api ops start in
      let v = started-IsValid timeout ops fits in
      let entry =
        AllEntries-lookup (IsFinal api m.latest_sequence) k x m.finalized_snapshots v.final h in
      let bound = run_latest api ops start (omega arith) (with_timeout-IsValid api timeout) in
      (rw (h, verify_certificate) entry.1, entry.0, omega arith)

  -- A finalized snapshot and its certificate stay as they are, whatever calls follow that prune
  -- nothing, while all calls together are fewer than `u64::MAX`.
  pub finality :
      (timeout : ℕ) (first later : List Op) (k : ℕ) (x : api.Snapshot × SnapshotCertificate)
      → length first + length later < u64_max
      → lookup k (run api first (with_timeout api timeout)).finalized_snapshots ≡ some x
      → lookup k (run api (first ++ later) (with_timeout api timeout)).finalized_snapshots ≡ some x
  unfolding with_timeout
  finality timeout first later k x fits h =
      let start = with_timeout api timeout in
      let reached = run_latest api first start (omega arith) (with_timeout-IsValid api timeout) in
      rw (run-append api first later start) (
        run_keeps api later (run api first start) k (omega arith)
          (started-IsValid timeout first (omega arith)) h)

  -- At most one snapshot is pending after any calls, fewer than `u64::MAX` and none of them pruning,
  -- on a new manager; so `create_snapshot` is never refused for backpressure.
  pub create_never_full :
      (timeout : ℕ) (ops : List Op) (root : ℕ) (digests : List ℕ) (cycle total : ℕ) (t : Clock)
      → length ops < u64_max
      → let m = run api ops (with_timeout api timeout) in
        (length m.pending_snapshots ≤ 1)
        × ((create_snapshot api root digests cycle total t m).0 ≢ err backpressure)
  unfolding create_snapshot
  create_never_full timeout ops root digests cycle total t fits =
      let m = run api ops (with_timeout api timeout) in
      let v = started-IsValid timeout ops fits in
      let few = IsSlot-length (m.latest_sequence + 1) m.pending_snapshots v.slot in
      (few, ground (arith, v.roomy))

  -- `finalize_snapshot` of a pending snapshot that has a quorum, in a valid state, returns a
  -- certificate that verifies, stores it with the snapshot, moves the latest sequence on by one to
  -- the snapshot's, and leaves nothing pending.
  pub finalize_with_quorum :
      (sequence : ℕ) (t : Clock) (p : PendingSnapshot api) (m : SnapshotManager api)
      → IsValid api m
      → lookup sequence m.pending_snapshots ≡ some p
      → p.certificate.has_quorum ≡ true
      → let (r, m') = finalize_snapshot api sequence t m in
        let c = (Certificate.finalize t p.certificate).1 in
        (r ≡ ok c)
        × (Certificate.verify c ≡ ok tt)
        × (lookup sequence m'.finalized_snapshots ≡ some (p.snapshot, c))
        × (m'.latest_sequence ≡ sequence)
        × (sequence ≡ m.latest_sequence + 1)
        × (m'.pending_snapshots ≡ [])
  unfolding finalize_snapshot finalize_removed Certificate.finalize
  finalize_with_quorum sequence t p m v found q =
      let (at, gone) =
        IsSlot-found (m.latest_sequence + 1) sequence p m.pending_snapshots v.slot found in
      let backed =
        AllValues-lookup (λ (q : PendingSnapshot api). IsBacked q.certificate) sequence p
          m.pending_snapshots v.backed found in
      let verified = finalize-verify t p.certificate backed q in
      let stored =
        lookup-insert_self sequence (p.snapshot, (Certificate.finalize t p.certificate).1)
          m.finalized_snapshots in
      (ground arith, ground arith, ground arith, ground arith, at, ground arith)

  -- `finalize_snapshot` of a pending snapshot with no quorum, in a valid state, reports that and
  -- finalizes nothing; but the snapshot is pending no more, so its signatures are lost.
  pub finalize_without_quorum :
      (sequence : ℕ) (t : Clock) (p : PendingSnapshot api) (m : SnapshotManager api)
      → IsValid api m
      → lookup sequence m.pending_snapshots ≡ some p
      → p.certificate.has_quorum ≡ false
      → let (r, m') = finalize_snapshot api sequence t m in
        (r ≡ err no_quorum)
        × (m'.finalized_snapshots ≡ m.finalized_snapshots)
        × (m'.latest_sequence ≡ m.latest_sequence)
        × (m'.pending_snapshots ≡ [])
  unfolding finalize_snapshot finalize_removed
  finalize_without_quorum sequence t p m v found q =
      ground
        (arith, IsSlot-found (m.latest_sequence + 1) sequence p m.pending_snapshots v.slot found)

  -- `create_snapshot` gives a new snapshot the sequence of the one that is pending, and takes its
  -- place: the certificate that is then pending has no signature and no stake, whatever had been
  -- collected. The state is valid and its latest sequence is below `u64::MAX`.
  pub create_replaces_pending :
      (root : ℕ) (digests : List ℕ) (cycle total : ℕ) (t : Clock) (p : PendingSnapshot api)
      (m : SnapshotManager api)
      → IsValid api m
      → m.latest_sequence < u64_max
      → lookup (m.latest_sequence + 1) m.pending_snapshots ≡ some p
      → (q : PendingSnapshot api) × (lookup
            (m.latest_sequence + 1)
            (create_snapshot api root digests cycle total t m).1.pending_snapshots
          ≡ some q)
        × (q.certificate.signatures ≡ [])
        × (q.certificate.stake_weight ≡ 0)
  unfolding create_snapshot fresh_pending Certificate.new
  create_replaces_pending root digests cycle total t p m v fits found =
      let q = fresh_pending api root digests cycle total t m in
      (
        q,
        ground (
          arith,
          v.roomy,
          IsSlot-length (m.latest_sequence + 1) m.pending_snapshots v.slot,
          add64_exact m.latest_sequence 1,
          lookup-insert_self (m.latest_sequence + 1) q m.pending_snapshots,
        ),
        refl,
        refl,
      )
