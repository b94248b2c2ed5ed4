-- ===== src/Snapshot/Manager.antt =====
-- `SnapshotManager` of src/snapshot.rs: pending and finalized snapshots.
use silver_consensus.Base.{
  ℕ, ◌-◌, Bool, false, none, some, List, [], ◌∷◌, ltb, leb, if◌then◌else◌, length, take,
}
use silver_consensus.Base.Word.{add64, sub64}
use silver_consensus.Base.Dict.{Dict, lookup, insert, remove, keys}
use silver_consensus.Base.Clock.{Clock}
use silver_consensus.Base.Outcome.{Result, ok, err}
use silver_consensus.Core.{SnapshotApi}
use silver_consensus.Snapshot.Certificate.{
  SnapshotCertificate, SnapshotError, backpressure, not_found, timed_out, no_quorum,
}
use silver_consensus.Snapshot.Certificate as Certificate

-- `sort()` of numbers, by insertion
sorted_insert : ℕ → List ℕ → List ℕ
sorted_insert a [] = a ∷ []
sorted_insert a (x ∷ xs) = if leb a x then a ∷ x ∷ xs else x ∷ sorted_insert a xs

pub sort : List ℕ → List ℕ
unfolding sorted_insert
sort [] = []
sort (x ∷ xs) = sorted_insert x (sort xs)

-- the removal of each key of a list
abbrev pub remove_all {ℓ} : {V : Type ℓ} → List ℕ → Dict V → Dict V
remove_all [] d = d
remove_all (k ∷ ks) d = remove_all ks (remove k d)

module _ (api : SnapshotApi) where
  pub record PendingSnapshot : Type 0 where
    pub snapshot : api.Snapshot
    pub certificate : SnapshotCertificate
    pub created_at : ℕ
    pub timeout : ℕ

  pub record SnapshotManager : Type 0 where
    pub latest_sequence : ℕ
    pub pending_snapshots : Dict PendingSnapshot
    pub finalized_snapshots : Dict (api.Snapshot × SnapshotCertificate)
    pub finalization_timeout : ℕ
    pub max_pending : ℕ

  -- `elapsed()` is 0 for an instant that lies ahead
  unfoldable pub is_timed_out : Clock → PendingSnapshot → Bool
  is_timed_out t p = ltb p.timeout (t.instant - p.created_at)

  unfoldable pub time_remaining : Clock → PendingSnapshot → ℕ
  time_remaining t p = p.timeout - (t.instant - p.created_at)

  unfoldable pub with_timeout : ℕ → SnapshotManager
  with_timeout finalization_timeout = record {
    latest_sequence = 0;
    pending_snapshots = [];
    finalized_snapshots = [];
    finalization_timeout = finalization_timeout;
    max_pending = 1000;
  }

  -- `SnapshotDigest::new([0u8; 64])`
  abbrev zero_digest : ℕ
  zero_digest = 0

  previous_digest : ℕ → SnapshotManager → ℕ
  previous_digest sequence m =
      if ltb 1 sequence
      then elim (lookup (sub64 sequence 1) m.finalized_snapshots) [
        | none ↦ zero_digest
        | some (s, c) ↦ api.digest s
      ]
      else zero_digest

  -- the entry that `create_snapshot` makes
  unfoldable pub fresh_pending : ℕ → List ℕ → ℕ → ℕ → Clock → SnapshotManager → PendingSnapshot
  unfolding previous_digest
  fresh_pending state_root digests cycle total_stake t m =
      let sequence = add64 m.latest_sequence 1 in
      let previous = previous_digest sequence m in
      record {
        snapshot = api.create sequence t.unix_millis previous state_root digests cycle [] 0;
        certificate = Certificate.new sequence state_root total_stake t;
        created_at = t.instant;
        timeout = m.finalization_timeout;
      }

  unfoldable pub create_snapshot :
      ℕ
      → List ℕ
      → ℕ
      → ℕ
      → Clock
      → SnapshotManager
      → Result SnapshotError api.Snapshot × SnapshotManager
  create_snapshot state_root digests cycle total_stake t m =
      let sequence = add64 m.latest_sequence 1 in
      let pending = fresh_pending state_root digests cycle total_stake t m in
      if leb m.max_pending (length m.pending_snapshots) then (err backpressure, m) else (
        ok pending.snapshot,
        record m { pending_snapshots = insert sequence pending m.pending_snapshots },
      )

  -- the certificate is changed in place, inside the map
  abbrev sign_pending :
      ℕ
      → ℕ
      → ℕ
      → ℕ
      → Clock
      → PendingSnapshot
      → SnapshotManager
      → Result SnapshotError Bool × SnapshotManager
  sign_pending sequence validator signature stake t p m =
      let (r, c) = Certificate.add_signature validator signature stake t p.certificate in
      (
        r,
        record m {
          pending_snapshots = insert sequence (record p { certificate = c }) m.pending_snapshots;
        },
      )

  unfoldable pub add_signature :
      ℕ → ℕ → ℕ → ℕ → Clock → SnapshotManager → Result SnapshotError Bool × SnapshotManager
  add_signature sequence validator signature stake t m =
      elim (lookup sequence m.pending_snapshots) [
        | none ↦ (err not_found, m)
        | some p ↦
            if is_timed_out t p
            then (err timed_out, m)
            else sign_pending sequence validator signature stake t p m
      ]

  unfoldable pub has_quorum : ℕ → SnapshotManager → Bool
  has_quorum sequence m = elim (lookup sequence m.pending_snapshots) [
    | none ↦ false
    | some p ↦ p.certificate.has_quorum
  ]

  -- the entry has left `pending_snapshots` when the quorum is tested
  unfoldable pub finalize_removed :
      ℕ
      → Clock
      → PendingSnapshot
      → SnapshotManager
      → Result SnapshotError SnapshotCertificate × SnapshotManager
  finalize_removed sequence t p m =
      if p.certificate.has_quorum
      then (let (r, c) = Certificate.finalize t p.certificate in
          elim r [
            | err e ↦ (err e, m)
            | ok _ ↦ (
              ok c,
              record m {
                finalized_snapshots = insert sequence (p.snapshot, c) m.finalized_snapshots;
                latest_sequence = sequence;
              },
            )
          ])
      else (err no_quorum, m)

  unfoldable pub finalize_snapshot :
      ℕ → Clock → SnapshotManager → Result SnapshotError SnapshotCertificate × SnapshotManager
  finalize_snapshot sequence t m = elim (lookup sequence m.pending_snapshots) [
    | none ↦ (err not_found, m)
    | some p ↦
        finalize_removed sequence t p
          (record m { pending_snapshots = remove sequence m.pending_snapshots })
  ]

  timed_out_keys : Clock → Dict PendingSnapshot → List ℕ
  timed_out_keys t [] = []
  timed_out_keys t ((k, p) ∷ d) =
      let rest = timed_out_keys t d in if is_timed_out t p then k ∷ rest else rest

  unfoldable pub process_timeouts : Clock → SnapshotManager → List ℕ × SnapshotManager
  unfolding timed_out_keys is_timed_out
  process_timeouts t m =
      let sequences = timed_out_keys t m.pending_snapshots in
      (sequences, record m { pending_snapshots = remove_all sequences m.pending_snapshots })

  unfoldable pub verify_certificate : ℕ → SnapshotManager → Result SnapshotError (Unit {0})
  verify_certificate sequence m = elim (lookup sequence m.finalized_snapshots) [
    | none ↦ err not_found
    | some (s, c) ↦ Certificate.verify c
  ]

  unfoldable pub prune_old_snapshots : ℕ → SnapshotManager → SnapshotManager
  prune_old_snapshots keep_count m =
      let to_remove = length m.finalized_snapshots - keep_count in
      if leb (length m.finalized_snapshots) keep_count then m else record m {
        finalized_snapshots =
            remove_all (take to_remove (sort (keys m.finalized_snapshots))) m.finalized_snapshots;
      }
