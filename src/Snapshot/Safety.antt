-- ===== src/Snapshot/Safety.antt =====
-- Quorum certificates of src/snapshot.rs under Byzantine faults.
use silver_consensus.Base.{
  ℕ, ◌*◌, ◌≤◌, ◌<◌, ◌≡◌, ◌↔◌, Bool, true, false, List, [], ◌∷◌, arith, ltb, ◌==◌, ◌&&◌, ◌||◌,
  member, IsDistinct, keep, map,
}
use silver_consensus.Base.Word.{u64_mod}
use silver_consensus.Base.Dict.{keys, member-keys-lookup}
use silver_consensus.Base.Clock.{Clock}
use silver_consensus.Snapshot.Certificate.{
  SnapshotCertificate, new, add_signature, record_signature,
}
use silver_consensus.Snapshot.Weight.{
  weight, common, weight-common, weight-keep-common, weight_honest, member_of_common,
}
use silver_consensus.Snapshot.Quorum.{
  Vote, validator_of, AreMembers, collect, new-IsSound, collect-IsSound, IsSound-quorum,
  member-keys-insert_eq,
}

-- the validators whose signatures a certificate holds
abbrev pub signers : SnapshotCertificate → List ℕ
signers c = keys c.signatures

member-signers-add :
    (stake : ℕ → ℕ) (j v signature : ℕ) (t : Clock) (c : SnapshotCertificate)
    → member j (signers (add_signature v signature (stake v) t c).1)
      ≡ (member j (signers c) || (j == v && ltb 0 (stake j)))
unfolding add_signature record_signature
member-signers-add stake j v signature t c = ground (
  arith,
  member-keys-lookup v c.signatures,
  member-keys-insert_eq j v
      (record {
        validator_id = v;
        signature = signature;
        stake_weight = stake v;
        signed_at = t.unix_secs;
      })
      c.signatures,
)

member-signers-collect :
    (stake : ℕ → ℕ) (j : ℕ) (votes : List Vote) (c : SnapshotCertificate)
    → member j (signers (collect stake votes c))
      ≡ (member j (signers c) || (member j (map validator_of votes) && ltb 0 (stake j)))
unfolding collect
member-signers-collect stake j [] c = ground arith
member-signers-collect stake j (v ∷ vs) c = ground (
  arith,
  member-signers-collect stake j vs
      (add_signature v.validator v.signature (stake v.validator) v.clock c).1,
  member-signers-add stake j v.validator v.signature v.clock c,
)

-- A certificate made by `new` and any votes of validators of the set, repeated ones included: it
-- holds each validator at most once, and holds a validator `j` exactly when `j` voted and has stake; and its quorum
-- flag is set exactly when these hold more than two thirds of the stake of the set. The set's
-- validators are distinct, and three times their stake fits 64 bits.
pub collect_quorum :
    (stake : ℕ → ℕ) (validators : List ℕ) (votes : List Vote) (sequence digest j : ℕ) (t : Clock)
    → IsDistinct validators
    → 3 * weight stake validators < u64_mod
    → AreMembers validators votes
    → let c = collect stake votes (new sequence digest (weight stake validators) t) in
      IsDistinct (signers c)
      × (member j (signers c) ≡ (member j (map validator_of votes) && ltb 0 (stake j)))
      × ((c.has_quorum ≡ true) ↔ (2 * weight stake validators < 3 * weight stake (signers c)))
unfolding new
collect_quorum stake validators votes sequence digest j t d fits m =
    let start = new sequence digest (weight stake validators) t in
    let s =
      collect-IsSound stake validators d fits votes start m
        (new-IsSound stake validators d fits sequence digest t) in
    (
      s.distinct,
      member-signers-collect stake j votes start,
      IsSound-quorum stake validators d fits (collect stake votes start) s,
    )

-- Safety under faults: let two certificates, each made by `new` and votes of validators of one set,
-- both have a quorum, while the faulty validators hold at most a third of the stake. Then some
-- validator that is not faulty has signed both.
pub quorum_intersection :
    (stake : ℕ → ℕ) (validators : List ℕ) (faulty : ℕ → Bool) (a b : List Vote) (sa da sb db : ℕ)
    (ta tb : Clock)
    → IsDistinct validators
    → 3 * weight stake validators < u64_mod
    → 3 * weight stake (keep faulty validators) ≤ weight stake validators
    → AreMembers validators a
    → AreMembers validators b
    → (collect stake a (new sa da (weight stake validators) ta)).has_quorum ≡ true
    → (collect stake b (new sb db (weight stake validators) tb)).has_quorum ≡ true
    → (v : ℕ) × (member v (signers (collect stake a (new sa da (weight stake validators) ta)))
        ≡ true)
      × (member v (signers (collect stake b (new sb db (weight stake validators) tb))) ≡ true)
      × (faulty v ≡ false)
quorum_intersection stake validators faulty a b sa da sb db ta tb d fits few ma mb qa qb =
    let ca = collect stake a (new sa da (weight stake validators) ta) in
    let cb = collect stake b (new sb db (weight stake validators) tb) in
    let s =
      collect-IsSound stake validators d fits a (new sa da (weight stake validators) ta) ma
        (new-IsSound stake validators d fits sa da ta) in
    let r =
      collect-IsSound stake validators d fits b (new sb db (weight stake validators) tb) mb
        (new-IsSound stake validators d fits sb db tb) in
    let heavy_a = (IsSound-quorum stake validators d fits ca s).0 qa in
    let heavy_b = (IsSound-quorum stake validators d fits cb r).0 qb in
    let overlap =
      weight-common stake (signers ca) (signers cb) validators s.distinct r.distinct d s.subset
        r.subset in
    let light =
      weight-keep-common stake faulty (signers ca) (signers cb) validators s.distinct d s.subset in
    let (v, m, honest) =
      weight_honest stake faulty (common (signers ca) (signers cb)) (omega arith) in
    let (in_a, in_b) = member_of_common stake v (signers ca) (signers cb) m in
    (v, in_a, in_b, honest)
