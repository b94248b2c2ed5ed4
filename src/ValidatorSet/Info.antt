-- ===== src/ValidatorSet/Info.antt =====
-- `ValidatorInfo` of src/validator.rs.
use silver_consensus.Base.{ℕ, Bool, true, if◌then◌else◌}
use silver_consensus.Base.Word.{add64}
use silver_consensus.Core.{MetadataApi}

module _ (api : MetadataApi) where
  pub record ValidatorInfo : Type 0 where
    pub metadata : api.Metadata
    pub stake : ℕ
    pub active : Bool
    pub snapshots_participated : ℕ
    pub total_snapshots : ℕ

  unfoldable pub new_info : api.Metadata → ValidatorInfo
  new_info metadata = record {
    metadata = metadata;
    stake = api.stake_amount metadata;
    active = true;
    snapshots_participated = 0;
    total_snapshots = 0;
  }

  -- `record_participation`
  unfoldable pub record_one : Bool → ValidatorInfo → ValidatorInfo
  record_one participated v = record v {
    total_snapshots = add64 v.total_snapshots 1;
    snapshots_participated =
        if participated then add64 v.snapshots_participated 1 else v.snapshots_participated;
  }

  unfoldable pub reset_cycle_stats : ValidatorInfo → ValidatorInfo
  reset_cycle_stats v = record v { snapshots_participated = 0; total_snapshots = 0 }
