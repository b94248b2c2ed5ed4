-- ===== src/Upgrade.antt =====
-- `UpgradeManager` of src/upgrade.rs. A method that takes a lock is one step.
mod Activation
mod Compatibility
mod Approval
mod Support
mod Validation
mod Examples
use silver_consensus.Base.{
  ℕ, Bool, true, false, Option, none, some, List, [], ◌∷◌, map, if◌then◌else◌,
}
use silver_consensus.Base.Dict.{Dict, lookup, contains_key, insert, remove}
use silver_consensus.Base.Outcome.{Result, ok, err}
use silver_consensus.Core.{UpgradeApi}

pub data UpgradeError : Type 0 where
  bad_proposal exists bad_vote not_found closed no_results not_added still_open : UpgradeError
  not_approved none_approved : UpgradeError

module _ (api : UpgradeApi) where
  pub record UpgradeManager : Type 0 where
    pub current_version : ℕ
    pub feature_flags : api.Flags
    pub pending_proposals : Dict api.Proposal
    pub voting_results : Dict api.Results
    pub approved_upgrades : Dict api.Approved
    pub total_stake : ℕ

  unfoldable pub new : ℕ → ℕ → UpgradeManager
  new initial_version total_stake = record {
    current_version = initial_version;
    feature_flags = api.no_flags;
    pending_proposals = [];
    voting_results = [];
    approved_upgrades = [];
    total_stake = total_stake;
  }

  unfoldable pub is_feature_enabled : ℕ → UpgradeManager → Bool
  is_feature_enabled feature m = api.is_enabled feature m.feature_flags

  unfoldable pub update_total_stake : ℕ → UpgradeManager → UpgradeManager
  update_total_stake new_total_stake m = record m { total_stake = new_total_stake }

  unfoldable pub submit_proposal :
      api.Proposal → ℕ → UpgradeManager → Result UpgradeError ℕ × UpgradeManager
  submit_proposal p current_cycle m =
      let id = api.proposal_id p in
      if api.is_valid_proposal current_cycle p
      then if contains_key id m.pending_proposals then (err exists, m) else (
        ok id,
        record m {
          pending_proposals = insert id p m.pending_proposals;
          voting_results = insert id (api.new_results id m.total_stake) m.voting_results;
        },
      )
      else (err bad_proposal, m)

  unfoldable pub cast_vote :
      api.Vote → ℕ → UpgradeManager → Result UpgradeError (Unit {0}) × UpgradeManager
  cast_vote vote current_cycle m =
      let id = api.vote_proposal vote in
      if api.is_valid_vote vote
      then elim (lookup id m.pending_proposals) [
        | none ↦ (err not_found, m)
        | some p ↦
            if api.is_voting_open current_cycle p
            then elim (lookup id m.voting_results) [
              | none ↦ (err no_results, m)
              | some results ↦
                  let (added, results') = api.add_vote vote results in
                  let outcome : Result UpgradeError (Unit {0}) =
                    if added then ok tt else err not_added in
                  (outcome, record m { voting_results = insert id results' m.voting_results })
            ]
            else (err closed, m)
      ]
      else (err bad_vote, m)

  unfoldable pub finalize_voting :
      ℕ → ℕ → ℕ → UpgradeManager → Result UpgradeError Bool × UpgradeManager
  finalize_voting proposal_id current_cycle approval_snapshot m =
      elim (lookup proposal_id m.pending_proposals) [
        | none ↦ (err not_found, m)
        | some p ↦
            let m' = record m { pending_proposals = remove proposal_id m.pending_proposals } in
            if api.is_voting_open current_cycle p
            then (err still_open, m)
            else elim (lookup proposal_id m.voting_results) [
              | none ↦ (err no_results, m)
              | some results ↦
                  if api.has_quorum results
                  then elim (api.approve p results approval_snapshot) [
                    | none ↦ (err not_approved, m)
                    | some upgrade ↦ (
                      ok true,
                      record m' {
                        approved_upgrades =
                            insert (api.activation_cycle p) upgrade m.approved_upgrades;
                      },
                    )
                  ]
                  else (ok false, m')
            ]
      ]

  unfoldable pub get_pending_proposals : UpgradeManager → List api.Proposal
  get_pending_proposals m = map (λ (e : ℕ × api.Proposal). e.1) m.pending_proposals

  unfoldable pub check_for_activation : ℕ → UpgradeManager → Option api.Approved
  check_for_activation current_cycle m = lookup current_cycle m.approved_upgrades

  unfoldable pub activate_upgrade : ℕ → UpgradeManager → Result UpgradeError ℕ × UpgradeManager
  activate_upgrade cycle m = elim (lookup cycle m.approved_upgrades) [
    | none ↦ (err none_approved, m)
    | some upgrade ↦
        let p = api.proposal upgrade in
        (
          ok (api.new_version p),
          record m {
            current_version = api.new_version p;
            feature_flags = api.feature_flags p;
            approved_upgrades = remove cycle m.approved_upgrades;
          },
        )
  ]
