-- ===== src/Upgrade/Examples.antt =====
-- Runs of the upgrade components of src/upgrade.rs, src/activation.rs and src/compatibility.rs, and
-- instances of their theorems.
use silver_consensus.Base.{ℕ, ◌≡◌, refl, ◌⊎◌, true, List, [], ◌∷◌, All, map, arith}
use silver_consensus.Base.Word.{add64}
use silver_consensus.Base.Outcome.{ok, err}
use silver_consensus.Core.Plain.{
  PlainProposal, PlainVote, PlainApproved, plain_upgrades, plain_upgrade_laws,
}
use silver_consensus.Upgrade.{
  UpgradeManager, new, update_total_stake, submit_proposal, cast_vote, finalize_voting,
  activate_upgrade,
}
use silver_consensus.Upgrade.Approval as Approval
use silver_consensus.Upgrade.Approval.{IsApproved, activated_IsApproved}
use silver_consensus.Upgrade.Activation as Activation
use silver_consensus.Upgrade.Activation.{ActivationCoordinator, is_version_supported}
use silver_consensus.Upgrade.Support as Support
use silver_consensus.Upgrade.Support.{
  schedule, boundary, wake, unsupport, IsEarly, Spares, active_is_supported, support_stays,
}
use silver_consensus.Upgrade.Compatibility as Compatibility
use silver_consensus.Upgrade.Compatibility.{
  CompatibilityChecker, CompatibilityError, inactive_feature, TransactionKind, composite_chain,
  publish, call, merge_coins, Feature, module_publishing, smart_contracts, move_vectors,
  shared_objects, immutable_objects, genesis_feature, commit_feature, command_features,
  chain_features, extract_features, validate_batch_compatibility,
}
use silver_consensus.Upgrade.Validation.{IsCompatible, IsFirstError, validate_batch_cases}

abbrev upgrade_2 : PlainProposal
upgrade_2 = record { id = 7; version = 2; cycle = 30; flags = 1 ∷ 2 ∷ []; deadline = 20 }

abbrev vote_of : ℕ → PlainVote
vote_of voter = record { proposal = 7; voter = voter; stake = 40 }

-- two votes carry version 2, the one that comes twice counted once
abbrev votes : List (Approval.Call plain_upgrades)
votes =
    Approval.stake 100
    ∷ Approval.submit upgrade_2 5
    ∷ Approval.cast (vote_of 1) 6
    ∷ Approval.cast (vote_of 1) 7
    ∷ Approval.cast (vote_of 3) 8
    ∷ Approval.finalize 7 20 99
    ∷ []

abbrev voted : UpgradeManager plain_upgrades
voted = Approval.run plain_upgrades votes (new plain_upgrades 1 0)

version_2 : (activate_upgrade plain_upgrades 30 voted).0 ≡ ok 2
unfolding Approval.run Approval.apply new update_total_stake submit_proposal cast_vote
    finalize_voting activate_upgrade
version_2 = refl

activated_IsApproved_example :
    (upgrade : PlainApproved) × (a : IsApproved plain_upgrades 30 upgrade) × (a.p.version ≡ 2)
    × ((activate_upgrade plain_upgrades 30 voted).1.current_version ≡ 2)
activated_IsApproved_example =
    activated_IsApproved plain_upgrades plain_upgrade_laws 1 0 votes 30 2 version_2

abbrev steps : List (Support.Call plain_upgrades)
steps =
    Support.schedule (record { proposal = upgrade_2; snapshot = 99 })
    ∷ Support.boundary 29
    ∷ Support.boundary 30
    ∷ []

abbrev later : List (Support.Call plain_upgrades)
later = Support.wake ∷ Support.boundary 31 ∷ Support.unsupport 3 ∷ Support.wake ∷ []

abbrev upgraded : ActivationCoordinator plain_upgrades
upgraded = Support.run plain_upgrades steps (Activation.new plain_upgrades 1 10)

abbrev moves : Unit {0}
unfolding Support.run Support.apply Activation.new Activation.schedule_activation
    Activation.get_scheduled_activation Activation.schedule_version_removal
    Activation.activate_at_cycle Activation.run_tasks Activation.wake_tasks
    Activation.remove_version_support Activation.process_cycle_boundary is_version_supported add64
moves = tt

active_2 : upgraded.active_version ≡ 2
active_2 = unfold moves in refl

steps-IsEarly : All (IsEarly 10) steps
unfolding IsEarly
steps-IsEarly = (tt, (omega arith, (omega arith, tt)))

later-IsEarly : All (IsEarly 10) later
unfolding IsEarly
later-IsEarly = (tt, (omega arith, (tt, (tt, tt))))

later-Spares : All (Spares 1) later
unfolding Spares
later-Spares = (tt, (tt, ((λ e. ground (arith, e)), (tt, tt))))

active_is_supported_example :
    is_version_supported plain_upgrades upgraded.active_version upgraded ≡ true
active_is_supported_example =
    active_is_supported plain_upgrades 1 10 steps (omega arith) steps-IsEarly

support_stays_example :
    is_version_supported plain_upgrades 1 (Support.run plain_upgrades later upgraded) ≡ true
support_stays_example =
    support_stays plain_upgrades 1 10 1 steps later (omega arith) steps-IsEarly later-IsEarly
      later-Spares (unfold moves in refl)

-- a number for each feature
abbrev code : Feature → ℕ
code module_publishing = 1
code smart_contracts = 2
code move_vectors = 3
code shared_objects = 4
code immutable_objects = 5
code genesis_feature = 6
code commit_feature = 7

abbrev needed : TransactionKind → List ℕ
needed t = map code (extract_features t)

abbrev checker : CompatibilityChecker plain_upgrades
checker = record {
  active_version = 2;
  supported_versions = (2, 1 ∷ 2 ∷ []) ∷ [];
  feature_requirements = (2, 2) ∷ [];
}

abbrev batch : List TransactionKind
batch =
    composite_chain (publish ∷ merge_coins ∷ [])
    ∷ composite_chain (call ∷ Compatibility.share_object ∷ [])
    ∷ []

second_refused :
    validate_batch_compatibility plain_upgrades batch needed checker ≡ err (1, inactive_feature 4)
unfolding validate_batch_compatibility extract_features chain_features command_features
    Compatibility.validate_from Compatibility.validate_transaction_compatibility
    Compatibility.check_features Compatibility.is_feature_enabled Compatibility.missing_version
    Compatibility.is_version_supported
second_refused = refl

validate_batch_cases_example :
    ((validate_batch_compatibility plain_upgrades batch needed checker ≡ ok tt)
      × All (λ s. IsCompatible plain_upgrades checker (needed s)) batch)
    ⊎ ((i : ℕ) × (e : CompatibilityError) × (validate_batch_compatibility plain_upgrades batch
            needed checker
          ≡ err (i, e))
        × IsFirstError plain_upgrades needed checker batch i e)
validate_batch_cases_example = validate_batch_cases plain_upgrades needed checker batch
