-- ===== src/Snapshot/Lifecycle.antt =====
-- The states that `SnapshotManager` of src/snapshot.rs reaches: one pending snapshot at most, and
-- finalized ones that verify and stay.
use silver_consensus.Base.{
  ℕ, ◌+◌, ◌≤◌, ◌<◌, ◌≡◌, refl, inl, inr, true, false, some, List, [], ◌∷◌, arith, leb, length,
  is_empty, Bool-cases, Option-cases,
}
use silver_consensus.Base.Word.{add64, u64_mod, add64_exact}
use silver_consensus.Base.Dict.{
  Dict, lookup, insert, remove, AllValues, AllValues-lookup, AllValues-insert, AllValues-remove,
  AllEntries, AllEntries-insert, AllEntries-mono,
}
use silver_consensus.Base.Clock.{Clock}
use silver_consensus.Base.Outcome.{ok}
use silver_consensus.Core.{SnapshotApi}
use silver_consensus.Snapshot.Certificate.{SnapshotCertificate, SnapshotError, backpressure}
use silver_consensus.Snapshot.Certificate as Certificate
use silver_consensus.Snapshot.Manager.{
  SnapshotManager, PendingSnapshot, remove_all, create_snapshot, fresh_pending, add_signature,
  finalize_removed, finalize_snapshot, process_timeouts, with_timeout, is_timed_out,
}

-- A certificate with a quorum holds a signature.
abbrev pub IsBacked : SnapshotCertificate → Type 0
IsBacked c =
    (is_empty c.signatures ≡ true → c.stake_weight ≡ 0)
    × (c.has_quorum ≡ true → is_empty c.signatures ≡ false)

is_empty-insert {ℓ} : {V : Type ℓ} (k : ℕ) (v : V) (d : Dict V) → is_empty (insert k v d) ≡ false
is_empty-insert k v [] = refl
is_empty-insert k v (e ∷ d) = ground arith

new-IsBacked :
    (sequence digest total : ℕ) (t : Clock) → IsBacked (Certificate.new sequence digest total t)
unfolding Certificate.new
new-IsBacked sequence digest total t = ground arith

add_signature-IsBacked :
    (v signature w : ℕ) (t : Clock) (c : SnapshotCertificate)
    → IsBacked c
    → IsBacked (Certificate.add_signature v signature w t c).1
unfolding Certificate.add_signature Certificate.record_signature
add_signature-IsBacked v signature w t c b = ground (
  arith,
  is_empty-insert v
      (let i : Certificate.ValidatorSignatureInfo = record {
        validator_id = v;
        signature = signature;
        stake_weight = w;
        signed_at = t.unix_secs;
      } in
        i)
      c.signatures,
)

pub finalize-verify :
    (t : Clock) (c : SnapshotCertificate)
    → IsBacked c
    → c.has_quorum ≡ true
    → Certificate.verify (Certificate.finalize t c).1 ≡ ok tt
unfolding Certificate.finalize Certificate.verify Certificate.is_finalized
finalize-verify t c b q = ground arith

-- No entry, or one, at the given key.
abbrev pub IsSlot {ℓ} : {V : Type ℓ} → ℕ → Dict V → Type 0
IsSlot n [] = Unit
IsSlot n (e ∷ []) = e.0 ≡ n
IsSlot n (e ∷ f ∷ d) = ⊥

module _ {ℓ} {V : Type ℓ} where
  IsSlot-insert : (n : ℕ) (v : V) (d : Dict V) → IsSlot n d → IsSlot n (insert n v d)
  IsSlot-insert n v [] s = refl
  IsSlot-insert n v (e ∷ []) s = ground arith
  IsSlot-insert n v (e ∷ f ∷ d) s = absurd s

  IsSlot-remove : (n k : ℕ) (d : Dict V) → IsSlot n d → IsSlot n (remove k d)
  IsSlot-remove n k [] s = s
  IsSlot-remove n k (e ∷ []) s = ground arith
  IsSlot-remove n k (e ∷ f ∷ d) s = absurd s

  IsSlot-remove_all : (n : ℕ) (ks : List ℕ) (d : Dict V) → IsSlot n d → IsSlot n (remove_all ks d)
  IsSlot-remove_all n [] d s = s
  IsSlot-remove_all n (k ∷ ks) d s = IsSlot-remove_all n ks (remove k d) (IsSlot-remove n k d s)

  -- the one entry is at that key, and its removal leaves nothing
  pub IsSlot-found :
      (n k : ℕ) (v : V) (d : Dict V)
      → IsSlot n d
      → lookup k d ≡ some v
      → (k ≡ n) × (remove k d ≡ [])
  IsSlot-found n k v [] s h = cc
  IsSlot-found n k v (e ∷ []) s h = ground arith
  IsSlot-found n k v (e ∷ f ∷ d) s h = absurd s

  IsSlot-nil : (n : ℕ) (d : Dict V) → d ≡ [] → IsSlot n d
  IsSlot-nil n [] e = tt
  IsSlot-nil n (f ∷ d) e = cc

  pub IsSlot-length : (n : ℕ) (d : Dict V) → IsSlot n d → length d ≤ 1
  IsSlot-length n [] s = omega arith
  IsSlot-length n (e ∷ []) s = omega arith
  IsSlot-length n (e ∷ f ∷ d) s = absurd s

module _ (api : SnapshotApi) where
  -- a finalized entry: its sequence has been reached, and its certificate verifies
  abbrev pub IsFinal : ℕ → ℕ → api.Snapshot × SnapshotCertificate → Type 0
  IsFinal latest k x = (k ≤ latest) × (Certificate.verify x.1 ≡ ok tt)

  pub record IsValid (m : SnapshotManager api) : Type 0 where
    pub slot : IsSlot (m.latest_sequence + 1) m.pending_snapshots
    pub backed : AllValues (λ (p : PendingSnapshot api). IsBacked p.certificate) m.pending_snapshots
    pub final : AllEntries (IsFinal m.latest_sequence) m.finalized_snapshots
    pub roomy : 1 < m.max_pending

  pub with_timeout-IsValid : (timeout : ℕ) → IsValid (with_timeout api timeout)
  unfolding with_timeout
  with_timeout-IsValid timeout = ground arith

  -- an entry written at the one key
  insert-IsValid :
      (p : PendingSnapshot api) (k : ℕ) (m : SnapshotManager api)
      → k ≡ m.latest_sequence + 1
      → IsBacked p.certificate
      → IsValid m
      → IsValid (record m { pending_snapshots = insert k p m.pending_snapshots })
  insert-IsValid p k m e b v = record {
    slot = rw e (IsSlot-insert (m.latest_sequence + 1) p m.pending_snapshots v.slot);
    backed =
        AllValues-insert (λ (q : PendingSnapshot api). IsBacked q.certificate) k p
          m.pending_snapshots v.backed b;
    final = v.final;
    roomy = v.roomy;
  }

  pub create_snapshot-IsValid :
      (root : ℕ) (digests : List ℕ) (cycle total : ℕ) (t : Clock) (m : SnapshotManager api)
      → m.latest_sequence + 1 < u64_mod
      → IsValid m
      → IsValid (create_snapshot api root digests cycle total t m).1
  unfolding create_snapshot fresh_pending
  create_snapshot-IsValid root digests cycle total t m fits v =
      elim (Bool-cases (leb m.max_pending (length m.pending_snapshots))) [
        | inl full ↦ rw full v
        | inr free ↦ rw free (
            insert-IsValid _ (add64 m.latest_sequence 1) m (add64_exact m.latest_sequence 1 fits)
              (new-IsBacked (add64 m.latest_sequence 1) root total t) v)
      ]

  pub add_signature-IsValid :
      (sequence validator signature stake : ℕ) (t : Clock) (m : SnapshotManager api)
      → IsValid m
      → IsValid (add_signature api sequence validator signature stake t m).1
  unfolding add_signature
  add_signature-IsValid sequence validator signature stake t m v =
      elim (Option-cases (lookup sequence m.pending_snapshots)) [
        | inl missing ↦ rw (missing, add_signature) v
        | inr (p, found) ↦
            rw (found, add_signature)
              (elim (Bool-cases (is_timed_out api t p)) [
                | inl late ↦ rw late v
                | inr early ↦ rw early (
                    insert-IsValid _ sequence m
                      (IsSlot-found (m.latest_sequence + 1) sequence p m.pending_snapshots v.slot
                        found).0
                      (add_signature-IsBacked validator signature stake t p.certificate (
                        AllValues-lookup (λ (q : PendingSnapshot api). IsBacked q.certificate)
                          sequence p m.pending_snapshots v.backed found))
                      v)
              ])
      ]

  finalize_removed-IsFinal :
      (sequence : ℕ) (t : Clock) (p : PendingSnapshot api) (m : SnapshotManager api)
      → sequence ≡ m.latest_sequence + 1
      → IsBacked p.certificate
      → IsValid m
      → p.certificate.has_quorum ≡ true
      → AllEntries (IsFinal sequence) (
          insert sequence
            (p.snapshot, (Certificate.finalize t p.certificate).1)
            m.finalized_snapshots)
  finalize_removed-IsFinal sequence t p m at b v q =
      AllEntries-insert (IsFinal sequence) sequence
        (p.snapshot, (Certificate.finalize t p.certificate).1) m.finalized_snapshots
        (AllEntries-mono (IsFinal m.latest_sequence) (IsFinal sequence) m.finalized_snapshots
          (λ k x h. (omega arith, h.1)) v.final)
        (omega arith, finalize-verify t p.certificate b q)

  finalize_removed-IsValid :
      (sequence : ℕ) (t : Clock) (p : PendingSnapshot api) (m : SnapshotManager api)
      → sequence ≡ m.latest_sequence + 1
      → m.pending_snapshots ≡ []
      → IsBacked p.certificate
      → IsValid m
      → IsValid (finalize_removed api sequence t p m).1
  unfolding finalize_removed
  finalize_removed-IsValid sequence t p m at gone b v = ground (
    arith,
    finalize_removed-IsFinal sequence t p m at b v,
    IsSlot-nil (sequence + 1) m.pending_snapshots gone,
  )

  pub finalize_snapshot-IsValid :
      (sequence : ℕ) (t : Clock) (m : SnapshotManager api)
      → IsValid m
      → IsValid (finalize_snapshot api sequence t m).1
  unfolding finalize_snapshot
  finalize_snapshot-IsValid sequence t m v =
      elim (Option-cases (lookup sequence m.pending_snapshots)) [
        | inl missing ↦ rw (missing, finalize_snapshot) v
        | inr (p, found) ↦
            let (at, gone) =
              IsSlot-found (m.latest_sequence + 1) sequence p m.pending_snapshots v.slot found in
            let b =
              AllValues-lookup (λ (q : PendingSnapshot api). IsBacked q.certificate) sequence p
                m.pending_snapshots v.backed found in
            rw (found, finalize_snapshot)
              (finalize_removed-IsValid sequence t p
                (record m { pending_snapshots = remove sequence m.pending_snapshots }) at gone b
                (record {
                  slot = IsSlot-remove (m.latest_sequence + 1) sequence m.pending_snapshots v.slot;
                  backed =
                      AllValues-remove (λ (q : PendingSnapshot api). IsBacked q.certificate)
                        sequence m.pending_snapshots v.backed;
                  final = v.final;
                  roomy = v.roomy;
                }))
      ]

  remove_all-AllValues :
      (ks : List ℕ) (d : Dict (PendingSnapshot api))
      → AllValues (λ (p : PendingSnapshot api). IsBacked p.certificate) d
      → AllValues (λ (p : PendingSnapshot api). IsBacked p.certificate) (remove_all ks d)
  remove_all-AllValues [] d a = a
  remove_all-AllValues (k ∷ ks) d a =
      remove_all-AllValues ks (remove k d)
        (AllValues-remove (λ (p : PendingSnapshot api). IsBacked p.certificate) k d a)

  pub process_timeouts-IsValid :
      (t : Clock) (m : SnapshotManager api) → IsValid m → IsValid (process_timeouts api t m).1
  unfolding process_timeouts
  process_timeouts-IsValid t m v = record {
    slot =
        IsSlot-remove_all (m.latest_sequence + 1) (process_timeouts api t m).0 m.pending_snapshots
          v.slot;
    backed = remove_all-AllValues (process_timeouts api t m).0 m.pending_snapshots v.backed;
    final = v.final;
    roomy = v.roomy;
  }
