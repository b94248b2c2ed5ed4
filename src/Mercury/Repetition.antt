-- ===== src/Mercury/Repetition.antt =====
-- `add_snapshot_signature` of src/mercury.rs counts a signature as often as it is sent.
use silver_consensus.Base.{ℕ, zero, suc, ◌≡◌, true, none, some, map, replicate}
use silver_consensus.Base.Dict.{lookup}
use silver_consensus.Core.{MetadataApi, SnapshotApi, SnapshotLaws, ValidatorSignature}
use silver_consensus.ValidatorSet.{ValidatorSet}
use silver_consensus.ValidatorSet.Info.{ValidatorInfo}
use silver_consensus.Mercury.Defs.{Protocol}
use silver_consensus.Mercury.Votes.{add_snapshot_signature, voter}

module _ (md : MetadataApi) (sn : SnapshotApi) (laws : SnapshotLaws sn) where
  -- the same vote, so many times
  unfoldable pub vote_times : ℕ → ℕ → ValidatorSignature → Protocol md sn → Protocol md sn
  vote_times zero k vote m = m
  vote_times (suc n) k vote m = (add_snapshot_signature md sn k vote true (vote_times n k vote m)).1

  module _ (k : ℕ) (vote : ValidatorSignature) (info : ValidatorInfo md) (m : Protocol md sn) where
    -- after `j` votes the snapshot is pending, signed `j` times by the one validator
    record IsRepeated (j : ℕ) (m' : Protocol md sn) : Type 0 where
      fresh : lookup k m'.finalized_snapshots ≡ none
      same_set : m'.validator_set ≡ m.validator_set
      current : sn.Snapshot
      found : lookup k m'.pending_snapshots ≡ some current
      votes : map voter (sn.validator_signatures current) ≡ replicate j vote.validator
