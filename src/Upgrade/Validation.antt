-- ===== src/Upgrade/Validation.antt =====
-- What the checks of transactions in src/compatibility.rs accept.
use silver_consensus.Base.{
  ℕ, suc, ◌+◌, ◌≤◌, ◌≡◌, refl, ap, ◌⊎◌, inl, inr, true, none, some, List, [], ◌∷◌, ◌++◌, length,
  All, arith, Bool-cases, Option-cases,
}
use silver_consensus.Base.Dict.{lookup}
use silver_consensus.Base.Outcome.{ok, err, Result-cases}
use silver_consensus.Core.{UpgradeApi}
use silver_consensus.Upgrade.Compatibility.{
  CompatibilityChecker, CompatibilityError, is_version_supported, is_feature_enabled,
  missing_version, check_features, validate_transaction_compatibility, validate_from,
  validate_batch_compatibility,
}

module _ (api : UpgradeApi) where
  -- the active flags have the feature, and the active version is as high as it needs
  pub record IsUsable (m : CompatibilityChecker api) (flags : api.Flags) (feature : ℕ)
      : Type 0 where
    pub enabled : api.is_enabled feature flags ≡ true
    pub high_enough :
        (v : ℕ) → lookup feature m.feature_requirements ≡ some v → v ≤ m.active_version

  -- the active version is supported, with flags that have each feature
  abbrev pub IsCompatible : CompatibilityChecker api → List ℕ → Type 0
  IsCompatible m features =
      (flags : api.Flags) × (lookup m.active_version m.supported_versions ≡ some flags)
      × All (IsUsable m flags) features

  usable :
      (m : CompatibilityChecker api) (flags : api.Flags) (feature : ℕ)
      → lookup m.active_version m.supported_versions ≡ some flags
      → is_feature_enabled api feature m ≡ true
      → missing_version api feature m ≡ none
      → IsUsable m flags feature
  unfolding is_feature_enabled missing_version
  usable m flags feature e a b = record {
    enabled = ground (arith, e, a);
    high_enough = λ v f. ground (arith, f, b);
  }

  usable_enabled :
      (m : CompatibilityChecker api) (flags : api.Flags) (feature : ℕ)
      → lookup m.active_version m.supported_versions ≡ some flags
      → IsUsable m flags feature
      → is_feature_enabled api feature m ≡ true
  unfolding is_feature_enabled
  usable_enabled m flags feature e u = ground (arith, e, u.enabled)

  usable_none_missing :
      (m : CompatibilityChecker api) (flags : api.Flags) (feature : ℕ)
      → IsUsable m flags feature
      → missing_version api feature m ≡ none
  unfolding missing_version
  usable_none_missing m flags feature u =
      elim (Option-cases (lookup feature m.feature_requirements)) [
        | inl e ↦ rw (e, missing_version) refl
        | inr (v, e) ↦ ground (arith, e, u.high_enough v e)
      ]

  check_features_sound :
      (m : CompatibilityChecker api) (flags : api.Flags) (fs : List ℕ)
      → lookup m.active_version m.supported_versions ≡ some flags
      → check_features api fs m ≡ ok tt
      → All (IsUsable m flags) fs
  unfolding check_features
  check_features_sound m flags [] e h = tt
  check_features_sound m flags (f ∷ fs) e h = elim (Bool-cases (is_feature_enabled api f m)) [
    | inr n ↦ ground (arith, n, h)
    | inl y ↦ elim (Option-cases (missing_version api f m)) [
      | inr (v, q) ↦ ground (arith, y, q, h)
      | inl q ↦
          (usable m flags f e y q, check_features_sound m flags fs e (ground (arith, y, q, h)))
    ]
  ]

  check_features_complete :
      (m : CompatibilityChecker api) (flags : api.Flags) (fs : List ℕ)
      → lookup m.active_version m.supported_versions ≡ some flags
      → All (IsUsable m flags) fs
      → check_features api fs m ≡ ok tt
  unfolding check_features
  check_features_complete m flags [] e a = refl
  check_features_complete m flags (f ∷ fs) e a = ground (
    arith,
    usable_enabled m flags f e a.0,
    usable_none_missing m flags f a.0,
    check_features_complete m flags fs e a.1,
  )

  validate_sound :
      (m : CompatibilityChecker api) (fs : List ℕ)
      → validate_transaction_compatibility api fs m ≡ ok tt
      → IsCompatible m fs
  unfolding validate_transaction_compatibility is_version_supported
  validate_sound m fs h = elim (Option-cases (lookup m.active_version m.supported_versions)) [
    | inl e ↦ ground (arith, e, h)
    | inr (flags, e) ↦ (flags, e, check_features_sound m flags fs e (ground (arith, e, h)))
  ]

  validate_complete :
      (m : CompatibilityChecker api) (fs : List ℕ)
      → IsCompatible m fs
      → validate_transaction_compatibility api fs m ≡ ok tt
  unfolding validate_transaction_compatibility is_version_supported
  validate_complete m fs (flags, e, a) = ground (arith, e, check_features_complete m flags fs e a)

  module _ {Transaction : Type 0} (features : Transaction → List ℕ)
      (m : CompatibilityChecker api) where
    -- the transactions before the first that is not compatible, that one with its error, and the rest
    pub record IsFirstError (ts : List Transaction) (index : ℕ) (e : CompatibilityError)
        : Type 0 where
      pub before : List Transaction
      pub t : Transaction
      pub after : List Transaction
      pub split : ts ≡ before ++ t ∷ after
      pub position : index ≡ length before
      pub compatible : All (λ s. IsCompatible m (features s)) before
      pub incompatible : ¬ IsCompatible m (features t)
      pub refused : validate_transaction_compatibility api (features t) m ≡ err e

    refused_incompatible :
        (t : Transaction) (e : CompatibilityError)
        → validate_transaction_compatibility api (features t) m ≡ err e
        → ¬ IsCompatible m (features t)
    refused_incompatible t e q c = ground (arith, q, validate_complete m (features t) c)

    validate_from-cases :
        (n : ℕ) (ts : List Transaction)
        → ((validate_from api n features ts m ≡ ok tt) × All (λ s. IsCompatible m (features s)) ts)
          ⊎ ((i : ℕ) × (e : CompatibilityError) × (validate_from api n features ts m
                ≡ err (n + i, e))
              × IsFirstError ts i e)
    unfolding validate_from
    validate_from-cases n [] = inl (refl, tt)
    validate_from-cases n (t ∷ ts) =
        elim (Result-cases (validate_transaction_compatibility api (features t) m)) [
          | inl (e, q) ↦ inr (
            0,
            e,
            ground (arith, q),
            record {
              before = [];
              t = t;
              after = ts;
              split = refl;
              position = refl;
              compatible = tt;
              incompatible = refused_incompatible t e q;
              refused = q;
            },
          )
          | inr (u, q) ↦
              let good = validate_sound m (features t) q in
              elim (validate_from-cases (suc n) ts) [
                | inl (r, a) ↦ inl (ground (arith, q, r), (good, a))
                | inr (i, e, r, first) ↦ inr (
                  suc i,
                  e,
                  ground (arith, q, r),
                  record {
                    before = t ∷ first.before;
                    t = first.t;
                    after = first.after;
                    split = ap (λ xs. t ∷ xs) first.split;
                    position = ap suc first.position;
                    compatible = (good, first.compatible);
                    incompatible = first.incompatible;
                    refused = first.refused;
                  },
                )
              ]
        ]

    -- The check of a batch accepts it where for each transaction the active version is supported, and
    -- all features that the transaction requires are enabled in its flags and have a minimum version
    -- that is not above it; else it reports the index of the first transaction that is not so, with
    -- the error of that transaction.
    pub validate_batch_cases :
        (ts : List Transaction)
        → ((validate_batch_compatibility api ts features m ≡ ok tt)
            × All (λ s. IsCompatible m (features s)) ts)
          ⊎ ((i : ℕ) × (e : CompatibilityError) × (validate_batch_compatibility api ts features m
                ≡ err (i, e))
              × IsFirstError ts i e)
    unfolding validate_batch_compatibility
    validate_batch_cases ts = elim (validate_from-cases 0 ts) [
      | inl x ↦ inl x
      | inr (i, e, r, first) ↦ inr (i, e, ground (arith, r), first)
    ]
