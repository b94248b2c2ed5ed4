-- ===== src/Snapshot/Certificate.antt =====
-- `SnapshotCertificate` of src/snapshot.rs: signatures, their stake, the quorum test.
-- Signatures and digests are only stored, so each is a number.
use silver_consensus.Base.{
  ℕ, Bool, true, false, Option, none, some, [], ltb, ◌==◌, if◌then◌else◌, length, is_empty,
}
use silver_consensus.Base.Word.{add64, sub64, mul64}
use silver_consensus.Base.Dict.{Dict, contains_key, insert}
use silver_consensus.Base.Clock.{Clock}
use silver_consensus.Base.Outcome.{Result, ok, err}

pub record ValidatorSignatureInfo : Type 0 where
  pub validator_id : ℕ
  pub signature : ℕ
  pub stake_weight : ℕ
  pub signed_at : ℕ

pub record SnapshotCertificate : Type 0 where
  pub sequence : ℕ
  pub snapshot_digest : ℕ
  pub signatures : Dict ValidatorSignatureInfo
  pub stake_weight : ℕ
  pub total_stake : ℕ
  pub created_at : ℕ
  pub finalized_at : Option ℕ
  pub has_quorum : Bool

-- The `Error::InvalidData` messages of src/snapshot.rs.
pub data SnapshotError : Type 0 where
  zero_stake no_quorum not_finalized no_signatures : SnapshotError
  backpressure not_found timed_out : SnapshotError

unfoldable pub new : ℕ → ℕ → ℕ → Clock → SnapshotCertificate
new sequence snapshot_digest total_stake clock = record {
  sequence = sequence;
  snapshot_digest = snapshot_digest;
  signatures = [];
  stake_weight = 0;
  total_stake = total_stake;
  created_at = clock.unix_secs;
  finalized_at = none;
  has_quorum = false;
}

unfoldable pub check_quorum : SnapshotCertificate → Bool
check_quorum c =
    if c.total_stake == 0 then false else ltb (mul64 c.total_stake 2) (mul64 c.stake_weight 3)

-- the accepting branch: the entry, the weight, then the quorum flag
unfoldable pub record_signature :
    ℕ → ValidatorSignatureInfo → SnapshotCertificate → SnapshotCertificate
record_signature validator_id info c =
    let signed = record c {
      signatures = insert validator_id info c.signatures;
      stake_weight = add64 c.stake_weight info.stake_weight;
    } in
    record signed { has_quorum = check_quorum signed }

unfoldable pub add_signature :
    ℕ → ℕ → ℕ → Clock → SnapshotCertificate → Result SnapshotError Bool × SnapshotCertificate
unfolding record_signature
add_signature validator_id signature stake_weight clock c =
    let info : ValidatorSignatureInfo = record {
      validator_id = validator_id;
      signature = signature;
      stake_weight = stake_weight;
      signed_at = clock.unix_secs;
    } in
    if stake_weight == 0
    then (err zero_stake, c)
    else if contains_key validator_id c.signatures
    then (ok false, c)
    else (ok true, record_signature validator_id info c)

unfoldable pub finalize :
    Clock → SnapshotCertificate → Result SnapshotError (Unit {0}) × SnapshotCertificate
finalize clock c =
    if c.has_quorum
    then (ok tt, record c { finalized_at = some clock.unix_secs })
    else (err no_quorum, c)

unfoldable pub is_finalized : SnapshotCertificate → Bool
is_finalized c = elim c.finalized_at [ none ↦ false | some _ ↦ true ]

unfoldable pub time_to_finalization : SnapshotCertificate → Option ℕ
time_to_finalization c = elim c.finalized_at [
  | none ↦ none
  | some finalized ↦ some (sub64 finalized c.created_at)
]

unfoldable pub signature_count : SnapshotCertificate → ℕ
signature_count c = length c.signatures

unfoldable pub verify : SnapshotCertificate → Result SnapshotError (Unit {0})
unfolding is_finalized
verify c =
    if c.has_quorum
    then if is_finalized c
      then if is_empty c.signatures then err no_signatures else ok tt
      else err not_finalized
    else err no_quorum
