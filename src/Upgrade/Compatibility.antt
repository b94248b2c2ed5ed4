-- ===== src/Upgrade/Compatibility.antt =====
-- `CompatibilityChecker` and `FeatureExtractor` of src/compatibility.rs.
use silver_consensus.Base.{
  ℕ, suc, Bool, false, Option, none, some, List, [], ◌∷◌, ◌++◌, length, ltb, ◌==◌, if◌then◌else◌,
}
use silver_consensus.Base.Dict.{Dict, lookup, contains_key, insert, remove, keys}
use silver_consensus.Base.Outcome.{Result, ok, err}
use silver_consensus.Core.{UpgradeApi}

-- the last two with the feature
pub data CompatibilityError : Type 0 where
  is_active not_supported unsupported_version : CompatibilityError
  inactive_feature : ℕ → CompatibilityError
  needs_version : ℕ → ℕ → CompatibilityError

module _ (api : UpgradeApi) where
  pub record CompatibilityChecker : Type 0 where
    pub active_version : ℕ
    pub supported_versions : Dict api.Flags
    pub feature_requirements : Dict ℕ

  unfoldable pub new : ℕ → CompatibilityChecker
  new initial_version = record {
    active_version = initial_version;
    supported_versions = insert initial_version api.no_flags [];
    feature_requirements = [];
  }

  unfoldable pub update_active_version : ℕ → CompatibilityChecker → CompatibilityChecker
  update_active_version version m = record m { active_version = version }

  unfoldable pub add_supported_version : ℕ → api.Flags → CompatibilityChecker → CompatibilityChecker
  add_supported_version version flags m = record m {
    supported_versions = insert version flags m.supported_versions;
  }

  unfoldable pub remove_supported_version :
      ℕ → CompatibilityChecker → Result CompatibilityError (Unit {0}) × CompatibilityChecker
  remove_supported_version version m =
      let m' = record m { supported_versions = remove version m.supported_versions } in
      if version == m.active_version
      then (err is_active, m)
      else if contains_key version m.supported_versions
      then (ok tt, m')
      else (err not_supported, m')

  unfoldable pub register_feature_requirement : ℕ → ℕ → CompatibilityChecker → CompatibilityChecker
  register_feature_requirement feature min_version m = record m {
    feature_requirements = insert feature min_version m.feature_requirements;
  }

  unfoldable pub is_version_supported : ℕ → CompatibilityChecker → Bool
  is_version_supported version m = contains_key version m.supported_versions

  unfoldable pub is_feature_enabled_in_version : ℕ → ℕ → CompatibilityChecker → Bool
  is_feature_enabled_in_version feature version m = elim (lookup version m.supported_versions) [
    | none ↦ false
    | some flags ↦ api.is_enabled feature flags
  ]

  unfoldable pub is_feature_enabled : ℕ → CompatibilityChecker → Bool
  is_feature_enabled feature m = elim (lookup m.active_version m.supported_versions) [
    | none ↦ false
    | some flags ↦ api.is_enabled feature flags
  ]

  -- whether the active version is below the one that the feature needs, and which that is
  unfoldable pub missing_version : ℕ → CompatibilityChecker → Option ℕ
  missing_version feature m = elim (lookup feature m.feature_requirements) [
    | none ↦ none
    | some min_version ↦ if ltb m.active_version min_version then some min_version else none
  ]

  -- the loop over the features that a transaction requires
  unfoldable pub check_features :
      List ℕ → CompatibilityChecker → Result CompatibilityError (Unit {0})
  check_features [] m = ok tt
  check_features (feature ∷ fs) m =
      let rest = check_features fs m in
      if is_feature_enabled feature m
      then elim (missing_version feature m) [
        | some min_version ↦ err (needs_version feature min_version)
        | none ↦ rest
      ]
      else err (inactive_feature feature)

  unfoldable pub validate_transaction_compatibility :
      List ℕ → CompatibilityChecker → Result CompatibilityError (Unit {0})
  validate_transaction_compatibility required_features m =
      if is_version_supported m.active_version m
      then check_features required_features m
      else err unsupported_version

  -- the loop over a batch, from an index on; an error is the index and the error there
  unfoldable pub validate_from :
      {Transaction : Type 0}
      → ℕ
      → (Transaction → List ℕ)
      → List Transaction
      → CompatibilityChecker
      → Result (ℕ × CompatibilityError) (Unit {0})
  validate_from index features [] m = ok tt
  validate_from index features (t ∷ ts) m =
      let rest = validate_from (suc index) features ts m in
      elim (validate_transaction_compatibility (features t) m) [
        | err e ↦ err (index, e)
        | ok _ ↦ rest
      ]

  unfoldable pub validate_batch_compatibility :
      {Transaction : Type 0}
      → List Transaction
      → (Transaction → List ℕ)
      → CompatibilityChecker
      → Result (ℕ × CompatibilityError) (Unit {0})
  validate_batch_compatibility transactions features m = validate_from 0 features transactions m

  pub record CompatibilityStats : Type 0 where
    pub active_version : ℕ
    pub supported_versions : List ℕ
    pub registered_features : ℕ

  unfoldable pub get_stats : CompatibilityChecker → CompatibilityStats
  get_stats m = record {
    active_version = m.active_version;
    supported_versions = keys m.supported_versions;
    registered_features = length m.feature_requirements;
  }

-- the commands and the kinds of a transaction that the extractor tells apart
pub data Command : Type 0 where
  transfer_objects split_coins merge_coins publish call : Command
  make_move_vec delete_object share_object freeze_object : Command

pub data TransactionKind : Type 0 where
  composite_chain : List Command → TransactionKind
  genesis consensus_commit : TransactionKind

-- the names of features
pub data Feature : Type 0 where
  module_publishing smart_contracts move_vectors shared_objects immutable_objects : Feature
  genesis_feature commit_feature : Feature

unfoldable pub command_features : Command → List Feature
command_features publish = module_publishing ∷ []
command_features call = smart_contracts ∷ []
command_features make_move_vec = move_vectors ∷ []
command_features share_object = shared_objects ∷ []
command_features freeze_object = immutable_objects ∷ []
command_features _ = []

unfoldable pub chain_features : List Command → List Feature
chain_features [] = []
chain_features (c ∷ cs) = command_features c ++ chain_features cs

unfoldable pub extract_features : TransactionKind → List Feature
extract_features (composite_chain commands) = chain_features commands
extract_features genesis = genesis_feature ∷ []
extract_features consensus_commit = commit_feature ∷ []
