-- ===== src/Snapshot/Quorum.antt =====
-- What `SnapshotCertificate::add_signature` of src/snapshot.rs keeps true, over any list of votes.
use silver_consensus.Base.{
  ℕ, ◌+◌, ◌*◌, ◌<◌, ◌≡◌, refl, ◌↔◌, true, false, List, [], ◌∷◌, arith, ◌==◌, if◌then◌else◌, member,
  IsDistinct, map,
}
use silver_consensus.Base.Word.{mul64, u64_mod, add64_exact, mul64_exact}
use silver_consensus.Base.Dict.{Dict, contains_key, insert, keys, IsDistinct-insert}
use silver_consensus.Base.Clock.{Clock}
use silver_consensus.Snapshot.Certificate.{
  SnapshotCertificate, ValidatorSignatureInfo, new, add_signature, record_signature, check_quorum,
}
use silver_consensus.Snapshot.Weight.{weight, IsSubset, weight-le}

weight-keys-insert :
    (stake : ℕ → ℕ) (v : ℕ) (i : ValidatorSignatureInfo) (d : Dict ValidatorSignatureInfo)
    → contains_key v d ≡ false
    → weight stake (keys (insert v i d)) ≡ weight stake (keys d) + stake v
weight-keys-insert stake v i [] h = omega arith
weight-keys-insert stake v i (e ∷ d) h = ground (arith, weight-keys-insert stake v i d)

pub member-keys-insert_eq :
    (j v : ℕ) (i : ValidatorSignatureInfo) (d : Dict ValidatorSignatureInfo)
    → member j (keys (insert v i d)) ≡ (if j == v then true else member j (keys d))
member-keys-insert_eq j v i [] = ground arith
member-keys-insert_eq j v i (e ∷ d) = ground (arith, member-keys-insert_eq j v i d)

IsSubset-keys-insert :
    (vs : List ℕ) (v : ℕ) (i : ValidatorSignatureInfo) (d : Dict ValidatorSignatureInfo)
    → member v vs ≡ true
    → IsSubset (keys d) vs
    → IsSubset (keys (insert v i d)) vs
IsSubset-keys-insert vs v i [] m s = (m, tt)
IsSubset-keys-insert vs v i (e ∷ d) m s = ground (arith, IsSubset-keys-insert vs v i d m s.1)

-- One vote as it reaches the node.
pub record Vote : Type 0 where
  pub validator : ℕ
  pub signature : ℕ
  pub clock : Clock

abbrev pub validator_of : Vote → ℕ
validator_of v = v.validator

module _ (stake : ℕ → ℕ) (validators : List ℕ) where
  -- A certificate that stands for distinct validators of the set, with the stake that they have.
  pub record IsSound (c : SnapshotCertificate) : Type 0 where
    pub distinct : IsDistinct (keys c.signatures)
    pub subset : IsSubset (keys c.signatures) validators
    pub weighed : c.stake_weight ≡ weight stake (keys c.signatures)
    pub whole : c.total_stake ≡ weight stake validators
    pub flagged : c.has_quorum ≡ check_quorum c

-- Every vote is cast with the stake of its validator.
unfoldable pub collect : (ℕ → ℕ) → List Vote → SnapshotCertificate → SnapshotCertificate
collect stake [] c = c
collect stake (v ∷ vs) c =
    collect stake vs (add_signature v.validator v.signature (stake v.validator) v.clock c).1

-- Every voter is a validator of the set.
abbrev pub AreMembers : List ℕ → List Vote → Type 0
AreMembers validators vs = IsSubset (map validator_of vs) validators

module _ (stake : ℕ → ℕ) (validators : List ℕ) (distinct_set : IsDistinct validators)
    (fits : 3 * weight stake validators < u64_mod) where
  pub new-IsSound :
      (sequence digest : ℕ) (t : Clock)
      → IsSound stake validators (new sequence digest (weight stake validators) t)
  unfolding new check_quorum mul64
  new-IsSound sequence digest t = record {
    distinct = tt;
    subset = tt;
    weighed = refl;
    whole = refl;
    flagged = ground arith;
  }

  record_signature-IsSound :
      (c : SnapshotCertificate) (v : ℕ) (i : ValidatorSignatureInfo)
      → member v validators ≡ true
      → i.stake_weight ≡ stake v
      → contains_key v c.signatures ≡ false
      → IsSound stake validators c
      → IsSound stake validators (record_signature v i c)
  unfolding record_signature check_quorum
  record_signature-IsSound c v i m w fresh s =
      let grown = weight-keys-insert stake v i c.signatures fresh in
      let d = IsDistinct-insert v i c.signatures s.distinct in
      let u = IsSubset-keys-insert validators v i c.signatures m s.subset in
      record {
        distinct = d;
        subset = u;
        weighed = omega (
          arith,
          s.weighed,
          w,
          grown,
          weight-le stake (keys (insert v i c.signatures)) validators d distinct_set u,
          add64_exact c.stake_weight i.stake_weight,
        );
        whole = s.whole;
        flagged = refl;
      }

  add_signature-IsSound :
      (c : SnapshotCertificate) (v signature : ℕ) (t : Clock)
      → member v validators ≡ true
      → IsSound stake validators c
      → IsSound stake validators (add_signature v signature (stake v) t c).1
  unfolding add_signature
  add_signature-IsSound c v signature t m s = ground (
    arith,
    record_signature-IsSound c v
        (record {
          validator_id = v;
          signature = signature;
          stake_weight = stake v;
          signed_at = t.unix_secs;
        })
        m refl,
  )

  pub collect-IsSound :
      (votes : List Vote) (c : SnapshotCertificate)
      → AreMembers validators votes
      → IsSound stake validators c
      → IsSound stake validators (collect stake votes c)
  unfolding collect
  collect-IsSound [] c m s = s
  collect-IsSound (v ∷ vs) c m s =
      collect-IsSound vs (add_signature v.validator v.signature (stake v.validator) v.clock c).1 m.1
        (add_signature-IsSound c v.validator v.signature v.clock m.0 s)

  pub IsSound-quorum :
      (c : SnapshotCertificate)
      → IsSound stake validators c
      → (c.has_quorum ≡ true) ↔ (2 * weight stake validators < 3 * weight stake (keys c.signatures))
  unfolding check_quorum
  IsSound-quorum c s =
      let below = weight-le stake (keys c.signatures) validators s.distinct distinct_set s.subset in
      let doubled = mul64_exact c.total_stake 2 (omega (arith, s.whole)) in
      let tripled = mul64_exact c.stake_weight 3 (omega (arith, s.weighed)) in
      (ground (arith, s.flagged, s.whole, s.weighed), ground (arith, s.flagged, s.whole, s.weighed))
