-- ===== src/Mercury/Defs.antt =====
-- The state of `MercuryProtocol` of src/mercury.rs.
use silver_consensus.Base.{ℕ, []}
use silver_consensus.Base.Dict.{Dict}
use silver_consensus.Core.{MetadataApi, SnapshotApi}
use silver_consensus.ValidatorSet.{ValidatorSet}

-- the errors, and a panic
pub data MercuryError : Type 0 where
  not_pending unknown_validator store_failed : MercuryError
  bad_graph execution_failed panicked sign_failed : MercuryError

-- What the functions of `MercuryProtocol` share and change. The metrics are those that are counts.
module _ (md : MetadataApi) (sn : SnapshotApi) where
  pub record Protocol : Type 0 where
    pub validator_set : ValidatorSet md
    pub current_snapshot : ℕ
    pub current_cycle : ℕ
    pub pending_snapshots : Dict sn.Snapshot
    pub finalized_snapshots : Dict sn.Snapshot
    pub snapshots_created : ℕ
    pub transactions_finalized : ℕ
    pub current_snapshot_height : ℕ
    pub pending_count : ℕ

  -- `MercuryProtocol::new`
  unfoldable pub new : ValidatorSet md → Protocol
  new validator_set = record {
    validator_set = validator_set;
    current_snapshot = 0;
    current_cycle = 0;
    pending_snapshots = [];
    finalized_snapshots = [];
    snapshots_created = 0;
    transactions_finalized = 0;
    current_snapshot_height = 0;
    pending_count = 0;
  }
