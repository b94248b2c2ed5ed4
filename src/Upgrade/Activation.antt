-- ===== src/Upgrade/Activation.antt =====
-- `ActivationCoordinator` of src/activation.rs, with the tasks that it spawns.
use silver_consensus.Base.{
  ℕ, Bool, Option, none, some, List, [], ◌∷◌, ◌++◌, length, leb, ◌==◌, if◌then◌else◌,
}
use silver_consensus.Base.Word.{add64}
use silver_consensus.Base.Dict.{Dict, lookup, contains_key, insert, remove, keys}
use silver_consensus.Base.Outcome.{Result, ok, err}
use silver_consensus.Core.{UpgradeApi}

pub data ActivationError : Type 0 where
  already_scheduled none_scheduled is_active not_supported : ActivationError

module _ (api : UpgradeApi) where
  -- `tasks`: the version and the removal cycle of each task that waits
  pub record ActivationCoordinator : Type 0 where
    pub active_version : ℕ
    pub supported_versions : Dict api.Flags
    pub scheduled_activations : Dict api.Approved
    pub transition_period : ℕ
    pub removal_schedule : Dict ℕ
    pub tasks : List (ℕ × ℕ)

  unfoldable pub new : ℕ → ℕ → ActivationCoordinator
  new initial_version transition_period = record {
    active_version = initial_version;
    supported_versions = insert initial_version api.no_flags [];
    scheduled_activations = [];
    transition_period = transition_period;
    removal_schedule = [];
    tasks = [];
  }

  unfoldable pub is_version_supported : ℕ → ActivationCoordinator → Bool
  is_version_supported version m = contains_key version m.supported_versions

  unfoldable pub get_feature_flags : ℕ → ActivationCoordinator → Option api.Flags
  get_feature_flags version m = lookup version m.supported_versions

  unfoldable pub schedule_activation :
      api.Approved
      → ActivationCoordinator
      → Result ActivationError (Unit {0}) × ActivationCoordinator
  schedule_activation upgrade m =
      let cycle = api.activation_cycle (api.proposal upgrade) in
      if contains_key cycle m.scheduled_activations then (err already_scheduled, m) else (
        ok tt,
        record m { scheduled_activations = insert cycle upgrade m.scheduled_activations },
      )

  unfoldable pub get_scheduled_activation : ℕ → ActivationCoordinator → Option api.Approved
  get_scheduled_activation cycle m = lookup cycle m.scheduled_activations

  unfoldable pub schedule_version_removal : ℕ → ℕ → ActivationCoordinator → ActivationCoordinator
  schedule_version_removal version removal_cycle m = record m {
    removal_schedule = insert version removal_cycle m.removal_schedule;
    tasks = m.tasks ++ (version, removal_cycle) ∷ [];
  }

  unfoldable pub activate_at_cycle :
      ℕ → ActivationCoordinator → Result ActivationError ℕ × ActivationCoordinator
  activate_at_cycle cycle m = elim (lookup cycle m.scheduled_activations) [
    | none ↦ (err none_scheduled, m)
    | some upgrade ↦
        let p = api.proposal upgrade in
        let m' = record m {
          active_version = api.new_version p;
          supported_versions =
              insert (api.new_version p) (api.feature_flags p) m.supported_versions;
          scheduled_activations = remove cycle m.scheduled_activations;
        } in
        (
          ok (api.new_version p),
          schedule_version_removal m.active_version (add64 cycle m.transition_period) m',
        )
  ]

  -- one round of each waiting task: its `current_cycle` is 0, and it ends once it removes the version
  unfoldable pub run_tasks : List (ℕ × ℕ) → ActivationCoordinator → ActivationCoordinator
  run_tasks [] m = m
  run_tasks ((version, removal_cycle) ∷ ts) m =
      if leb removal_cycle 0
      then run_tasks ts (record m {
        supported_versions = remove version m.supported_versions;
        removal_schedule = remove version m.removal_schedule;
      })
      else run_tasks ts (record m { tasks = m.tasks ++ (version, removal_cycle) ∷ [] })

  unfoldable pub wake_tasks : ActivationCoordinator → ActivationCoordinator
  wake_tasks m = run_tasks m.tasks (record m { tasks = [] })

  unfoldable pub remove_version_support :
      ℕ → ActivationCoordinator → Result ActivationError (Unit {0}) × ActivationCoordinator
  remove_version_support version m =
      let m' = record m { supported_versions = remove version m.supported_versions } in
      if version == m.active_version
      then (err is_active, m)
      else if contains_key version m.supported_versions
      then (ok tt, m')
      else (err not_supported, m')

  unfoldable pub process_cycle_boundary :
      ℕ → ActivationCoordinator → Result ActivationError (Option ℕ) × ActivationCoordinator
  process_cycle_boundary cycle m = elim (get_scheduled_activation cycle m) [
    | none ↦ (ok none, m)
    | some _ ↦
        let (outcome, m') = activate_at_cycle cycle m in
        elim outcome [ err e ↦ (err e, m') | ok version ↦ (ok (some version), m') ]
  ]

  pub record ActivationStats : Type 0 where
    pub active_version : ℕ
    pub supported_versions : List ℕ
    pub scheduled_activations : ℕ
    pub transition_period : ℕ

  unfoldable pub get_stats : ActivationCoordinator → ActivationStats
  get_stats m = record {
    active_version = m.active_version;
    supported_versions = keys m.supported_versions;
    scheduled_activations = length m.scheduled_activations;
    transition_period = m.transition_period;
  }
