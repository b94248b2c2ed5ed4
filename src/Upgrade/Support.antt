-- ===== src/Upgrade/Support.antt =====
-- The versions that the coordinator of src/activation.rs supports.
use silver_consensus.Base.{
  ℕ, ◌+◌, ◌<◌, ◌≡◌, refl, ◌≢◌, inl, inr, true, false, List, [], ◌∷◌, ◌++◌, All, All-append, leb,
  ◌==◌, arith, Option-cases, after_test, after_guard,
}
use silver_consensus.Base.Word.{u64_mod, add64}
use silver_consensus.Base.Dict.{lookup, contains_key, remove, contains_key-insert, lookup-remove_ne}
use silver_consensus.Base.Outcome.{Result-cases}
use silver_consensus.Core.{UpgradeApi}
use silver_consensus.Upgrade.Activation.{
  ActivationCoordinator, new, is_version_supported, schedule_activation, get_scheduled_activation,
  schedule_version_removal, activate_at_cycle, run_tasks, wake_tasks, remove_version_support,
  process_cycle_boundary,
}

pub data Call (api : UpgradeApi) : Type 0 where
  schedule : api.Approved → Call api
  boundary : ℕ → Call api
  wake : Call api
  unsupport : ℕ → Call api

-- the cycle is early enough for the transition period to end within `u64`
unfoldable pub IsEarly : {api : UpgradeApi} → ℕ → Call api → Type 0
IsEarly period (boundary cycle) = cycle + period < u64_mod
IsEarly period _ = Unit

-- the call does not remove the version by hand
unfoldable pub Spares : {api : UpgradeApi} → ℕ → Call api → Type 0
Spares version (unsupport v) = version ≢ v
Spares version _ = Unit

module _ (api : UpgradeApi) where
  unfoldable pub apply : Call api → ActivationCoordinator api → ActivationCoordinator api
  apply (schedule upgrade) m = (schedule_activation api upgrade m).1
  apply (boundary cycle) m = (process_cycle_boundary api cycle m).1
  apply wake m = wake_tasks api m
  apply (unsupport version) m = (remove_version_support api version m).1

  unfoldable pub run : List (Call api) → ActivationCoordinator api → ActivationCoordinator api
  run [] m = m
  run (c ∷ cs) m = run cs (apply c m)

  abbrev Supports : ActivationCoordinator api → ℕ → Type 0
  Supports m version = contains_key version m.supported_versions ≡ true

  -- the active version is supported, and no task is about to remove a version
  record IsSteady (period : ℕ) (m : ActivationCoordinator api) : Type 0 where
    period_kept : m.transition_period ≡ period
    supported : Supports m m.active_version
    waiting : All (λ t. leb t.1 0 ≡ false) m.tasks

  -- the steady state after a step that removes no version but where the last says so
  abbrev Steps : ℕ → (ℕ → Type 0) → ActivationCoordinator api → ActivationCoordinator api → Type 0
  Steps period P m m' =
      IsSteady period m' × ((version : ℕ) → P version → Supports m version → Supports m' version)

  abbrev Any : ℕ → Type 0
  Any version = Unit

  schedule-Steps :
      (period : ℕ) (upgrade : api.Approved) (m : ActivationCoordinator api)
      → IsSteady period m
      → Steps period Any m (schedule_activation api upgrade m).1
  unfolding schedule_activation
  schedule-Steps period upgrade m s =
      let cycle = api.activation_cycle (api.proposal upgrade) in
      after_guard (Steps period Any m) (contains_key cycle m.scheduled_activations) _ _
        (s, λ version p h. h)
        (λ a. (
          record { period_kept = s.period_kept; supported = s.supported; waiting = s.waiting },
          λ version p h. h,
        ))

  activate-Steps :
      (period cycle : ℕ) (m : ActivationCoordinator api)
      → 0 < period
      → cycle + period < u64_mod
      → IsSteady period m
      → Steps period Any m (activate_at_cycle api cycle m).1
  unfolding activate_at_cycle schedule_version_removal
  activate-Steps period cycle m positive fits s =
      elim (Option-cases (lookup cycle m.scheduled_activations)) [
        | inl e ↦ rw (e, activate_at_cycle) (s, λ version p h. h)
        | inr (upgrade, e) ↦
            let v = api.new_version (api.proposal upgrade) in
            let flags = api.feature_flags (api.proposal upgrade) in
            let later : leb (add64 cycle m.transition_period) 0 ≡ false =
              unfold add64 in ground (arith, positive, fits, s.period_kept) in
            rw (e, activate_at_cycle)
              (
                record {
                  period_kept = s.period_kept;
                  supported = ground (arith, contains_key-insert v v flags m.supported_versions);
                  waiting = All-append (λ t. leb t.1 0 ≡ false) m.tasks _ s.waiting (later, tt);
                },
                λ version p h.
                    ground (arith, h, contains_key-insert version v flags m.supported_versions),
              )
      ]

  boundary-Steps :
      (period cycle : ℕ) (m : ActivationCoordinator api)
      → 0 < period
      → cycle + period < u64_mod
      → IsSteady period m
      → Steps period Any m (process_cycle_boundary api cycle m).1
  unfolding process_cycle_boundary get_scheduled_activation
  boundary-Steps period cycle m positive fits s =
      let step = activate-Steps period cycle m positive fits s in
      elim (Option-cases (lookup cycle m.scheduled_activations)) [
        | inl e ↦ rw (e, process_cycle_boundary) (s, λ version p h. h)
        | inr (upgrade, e) ↦ elim (Result-cases (activate_at_cycle api cycle m).0) [
          | inl (x, q) ↦ rw (e, q, process_cycle_boundary) step
          | inr (v, q) ↦ rw (e, q, process_cycle_boundary) step
        ]
      ]

  run_tasks-Steps :
      (period : ℕ) (ts : List (ℕ × ℕ)) (m : ActivationCoordinator api)
      → All (λ t. leb t.1 0 ≡ false) ts
      → IsSteady period m
      → Steps period Any m (run_tasks api ts m)
  unfolding run_tasks
  run_tasks-Steps period [] m h s = (s, λ version p h. h)
  run_tasks-Steps period (t ∷ ts) m h s =
      let n = record m { tasks = m.tasks ++ t ∷ [] } in
      let s' : IsSteady period n = record {
        period_kept = s.period_kept;
        supported = s.supported;
        waiting = All-append (λ t. leb t.1 0 ≡ false) m.tasks (t ∷ []) s.waiting (h.0, tt);
      } in
      rw h.0 (run_tasks-Steps period ts n h.1 s')

  wake-Steps :
      (period : ℕ) (m : ActivationCoordinator api)
      → IsSteady period m
      → Steps period Any m (wake_tasks api m)
  unfolding wake_tasks
  wake-Steps period m s =
      let s' : IsSteady period (record m { tasks = [] }) = record {
        period_kept = s.period_kept;
        supported = s.supported;
        waiting = tt;
      } in
      run_tasks-Steps period m.tasks (record m { tasks = [] }) s.waiting s'

  unsupport-Steps :
      (period v : ℕ) (m : ActivationCoordinator api)
      → IsSteady period m
      → Steps period (λ version. version ≢ v) m (remove_version_support api v m).1
  unfolding remove_version_support
  unsupport-Steps period v m s =
      let m' = record m { supported_versions = remove v m.supported_versions } in
      after_guard (Steps period (λ version. version ≢ v) m) (v == m.active_version) _ _
        (s, λ version p h. h)
        (λ a.
          let step : Steps period (λ version. version ≢ v) m m' = (
            record {
              period_kept = s.period_kept;
              supported =
                  ground (
                    arith,
                    a,
                    s.supported,
                    lookup-remove_ne m.active_version v m.supported_versions,
                  );
              waiting = s.waiting;
            },
            λ version p h. ground (arith, h, lookup-remove_ne version v m.supported_versions p),
          ) in
          after_test (Steps period (λ version. version ≢ v) m) (contains_key v m.supported_versions)
            _ _ (λ b. step) (λ b. step))

  apply-Steps :
      (period : ℕ) (c : Call api) (m : ActivationCoordinator api)
      → 0 < period
      → IsEarly period c
      → IsSteady period m
      → Steps period (λ version. Spares version c) m (apply c m)
  unfolding apply IsEarly Spares
  apply-Steps period (schedule upgrade) m positive early s =
      let step = schedule-Steps period upgrade m s in (step.0, λ version p h. step.1 version tt h)
  apply-Steps period (boundary cycle) m positive early s =
      let step = boundary-Steps period cycle m positive early s in
      (step.0, λ version p h. step.1 version tt h)
  apply-Steps period wake m positive early s =
      let step = wake-Steps period m s in (step.0, λ version p h. step.1 version tt h)
  apply-Steps period (unsupport v) m positive early s = unsupport-Steps period v m s

  run-Steps :
      (period : ℕ) (cs : List (Call api)) (m : ActivationCoordinator api)
      → 0 < period
      → All (IsEarly period) cs
      → IsSteady period m
      → Steps period (λ version. All (Spares version) cs) m (run cs m)
  unfolding run
  run-Steps period [] m positive early s = (s, λ version p h. h)
  run-Steps period (c ∷ cs) m positive early s =
      let first = apply-Steps period c m positive early.0 s in
      let rest = run-Steps period cs (apply c m) positive early.1 first.0 in
      (rest.0, λ version p h. rest.1 version p.1 (first.1 version p.0 h))

  new-IsSteady : (initial period : ℕ) → IsSteady period (new api initial period)
  unfolding new
  new-IsSteady initial period = record {
    period_kept = refl;
    supported = ground arith;
    waiting = tt;
  }

  -- After any calls on a new coordinator with a transition period of at least one cycle, whose
  -- activations are early enough for the period to end within u64, the active version is supported.
  pub active_is_supported :
      (initial period : ℕ) (cs : List (Call api))
      → 0 < period
      → All (IsEarly period) cs
      → is_version_supported api
          (run cs (new api initial period)).active_version
          (run cs (new api initial period))
        ≡ true
  unfolding is_version_supported
  active_is_supported initial period cs positive early =
      (run-Steps period cs (new api initial period) positive early
        (new-IsSteady initial period)).0.supported

  -- A version that is supported after some calls on a new coordinator with a transition period of at
  -- least one cycle stays supported through further calls, the rounds of the removal tasks included,
  -- that do not remove it by hand, where all activations are early enough for the period to end
  -- within u64.
  pub support_stays :
      (initial period version : ℕ) (cs ds : List (Call api))
      → 0 < period
      → All (IsEarly period) cs
      → All (IsEarly period) ds
      → All (Spares version) ds
      → is_version_supported api version (run cs (new api initial period)) ≡ true
      → is_version_supported api version (run ds (run cs (new api initial period))) ≡ true
  unfolding is_version_supported
  support_stays initial period version cs ds positive early later spares h =
      let first =
        run-Steps period cs (new api initial period) positive early (new-IsSteady initial period) in
      let rest = run-Steps period ds (run cs (new api initial period)) positive later first.0 in
      rest.1 version spares h
