-- ===== src/Upgrade/Approval.antt =====
-- From the vote to the activation of an upgrade, in src/upgrade.rs.
use silver_consensus.Base.{
  ℕ, ◌≡◌, refl, sym, ap, ◌∙◌, inl, inr, true, false, some, List, [], ◌∷◌, arith, Option-cases,
  after_test, after_guard,
}
use silver_consensus.Base.Dict.{
  lookup, contains_key, remove, AllEntries, AllEntries-lookup, AllEntries-insert, AllEntries-remove,
}
use silver_consensus.Base.Outcome.{ok}
use silver_consensus.Core.{UpgradeApi, UpgradeLaws}
use silver_consensus.Upgrade.{
  UpgradeManager, new, update_total_stake, submit_proposal, cast_vote, finalize_voting,
  activate_upgrade,
}

pub data Call (api : UpgradeApi) : Type 0 where
  stake : ℕ → Call api
  submit : api.Proposal → ℕ → Call api
  cast : api.Vote → ℕ → Call api
  finalize : ℕ → ℕ → ℕ → Call api
  activate : ℕ → Call api

module _ (api : UpgradeApi) where
  unfoldable pub apply : Call api → UpgradeManager api → UpgradeManager api
  apply (stake total) m = update_total_stake api total m
  apply (submit p cycle) m = (submit_proposal api p cycle m).1
  apply (cast vote cycle) m = (cast_vote api vote cycle m).1
  apply (finalize id cycle snapshot) m = (finalize_voting api id cycle snapshot m).1
  apply (activate cycle) m = (activate_upgrade api cycle m).1

  unfoldable pub run : List (Call api) → UpgradeManager api → UpgradeManager api
  run [] m = m
  run (c ∷ cs) m = run cs (apply c m)

  -- results that come from nothing but valid votes on the proposal
  pub data IsTally (id : ℕ) : api.Results → Type 0 where
    opened : (total_stake : ℕ) → IsTally id (api.new_results id total_stake)
    voted :
        {results : api.Results} (vote : api.Vote)
        → api.is_valid_vote vote ≡ true
        → api.vote_proposal vote ≡ id
        → IsTally id results
        → IsTally id (api.add_vote vote results).1

  -- a valid proposal whose vote was closed with a quorum, and the upgrade that it became
  pub record IsApproved (cycle : ℕ) (upgrade : api.Approved) : Type 0 where
    pub p : api.Proposal
    pub results : api.Results
    pub submitted_at : ℕ
    pub decided_at : ℕ
    pub snapshot : ℕ
    pub is_valid : api.is_valid_proposal submitted_at p ≡ true
    pub is_closed : api.is_voting_open decided_at p ≡ false
    pub is_tally : IsTally (api.proposal_id p) results
    pub has_quorum : api.has_quorum results ≡ true
    pub is_approved : api.approve p results snapshot ≡ some upgrade
    pub is_due : api.activation_cycle p ≡ cycle

  -- a proposal that was submitted, under its identifier
  pub record IsProposed (id : ℕ) (p : api.Proposal) : Type 0 where
    pub named : api.proposal_id p ≡ id
    pub submitted_at : ℕ
    pub is_valid : api.is_valid_proposal submitted_at p ≡ true

  pub record IsOrderly (m : UpgradeManager api) : Type 0 where
    pub proposed : AllEntries IsProposed m.pending_proposals
    pub tallied : AllEntries IsTally m.voting_results
    pub approved : AllEntries IsApproved m.approved_upgrades

  submit-IsOrderly :
      (p : api.Proposal) (cycle : ℕ) (m : UpgradeManager api)
      → IsOrderly m
      → IsOrderly (submit_proposal api p cycle m).1
  unfolding submit_proposal
  submit-IsOrderly p cycle m s =
      let id = api.proposal_id p in
      after_test IsOrderly (api.is_valid_proposal cycle p) _ _
        (λ a. after_guard IsOrderly (contains_key id m.pending_proposals) _ _ s (λ b. record {
          proposed =
              AllEntries-insert IsProposed id p m.pending_proposals s.proposed
                (record { named = refl; submitted_at = cycle; is_valid = a });
          tallied =
              AllEntries-insert IsTally id (api.new_results id m.total_stake) m.voting_results
                s.tallied (opened m.total_stake);
          approved = s.approved;
        }))
        (λ a. s)

  cast-IsOrderly :
      (vote : api.Vote) (cycle : ℕ) (m : UpgradeManager api)
      → IsOrderly m
      → IsOrderly (cast_vote api vote cycle m).1
  unfolding cast_vote
  cast-IsOrderly vote cycle m s =
      let id = api.vote_proposal vote in
      after_test IsOrderly (api.is_valid_vote vote) _ _
        (λ a. elim (Option-cases (lookup id m.pending_proposals)) [
          | inl e ↦ rw e s
          | inr (p, e) ↦ rw e (
              after_test IsOrderly (api.is_voting_open cycle p) _ _
                (λ b. elim (Option-cases (lookup id m.voting_results)) [
                  | inl f ↦ rw f s
                  | inr (results, f) ↦ rw f (record {
                    proposed = s.proposed;
                    tallied =
                        AllEntries-insert IsTally id (api.add_vote vote results).1 m.voting_results
                          s.tallied
                          (voted vote a refl
                            (AllEntries-lookup IsTally id results m.voting_results s.tallied f));
                    approved = s.approved;
                  })
                ])
                (λ b. s))
        ])
        (λ a. s)

  closed-IsOrderly :
      (id : ℕ) (m : UpgradeManager api)
      → IsOrderly m
      → IsOrderly (record m { pending_proposals = remove id m.pending_proposals })
  closed-IsOrderly id m s = record {
    proposed = AllEntries-remove IsProposed id m.pending_proposals s.proposed;
    tallied = s.tallied;
    approved = s.approved;
  }

  finalize-IsOrderly :
      (id cycle snapshot : ℕ) (m : UpgradeManager api)
      → IsOrderly m
      → IsOrderly (finalize_voting api id cycle snapshot m).1
  unfolding finalize_voting
  finalize-IsOrderly id cycle snapshot m s = elim (Option-cases (lookup id m.pending_proposals)) [
    | inl e ↦ rw (e, finalize_voting) s
    | inr (p, e) ↦
        let from = AllEntries-lookup IsProposed id p m.pending_proposals s.proposed e in
        let closed = closed-IsOrderly id m s in
        rw (e, finalize_voting)
          (after_guard IsOrderly (api.is_voting_open cycle p) _ _ s (λ a.
            elim (Option-cases (lookup id m.voting_results)) [
              | inl f ↦ rw f s
              | inr (results, f) ↦
                  let tally = AllEntries-lookup IsTally id results m.voting_results s.tallied f in
                  rw f (
                    after_test IsOrderly (api.has_quorum results) _ _
                      (λ b. elim (Option-cases (api.approve p results snapshot)) [
                        | inl g ↦ rw g s
                        | inr (upgrade, g) ↦ rw g (record {
                          proposed = closed.proposed;
                          tallied = s.tallied;
                          approved =
                              AllEntries-insert IsApproved (api.activation_cycle p) upgrade
                                m.approved_upgrades s.approved
                                (record {
                                  p = p;
                                  results = results;
                                  submitted_at = from.submitted_at;
                                  decided_at = cycle;
                                  snapshot = snapshot;
                                  is_valid = from.is_valid;
                                  is_closed = a;
                                  is_tally = rw from.named tally;
                                  has_quorum = b;
                                  is_approved = g;
                                  is_due = refl;
                                });
                        })
                      ])
                      (λ b. closed))
            ]))
  ]

  activate-IsOrderly :
      (cycle : ℕ) (m : UpgradeManager api)
      → IsOrderly m
      → IsOrderly (activate_upgrade api cycle m).1
  unfolding activate_upgrade
  activate-IsOrderly cycle m s = elim (Option-cases (lookup cycle m.approved_upgrades)) [
    | inl e ↦ rw (e, activate_upgrade) s
    | inr (upgrade, e) ↦
        rw (e, activate_upgrade)
          (record {
            proposed = s.proposed;
            tallied = s.tallied;
            approved = AllEntries-remove IsApproved cycle m.approved_upgrades s.approved;
          })
  ]

  apply-IsOrderly : (c : Call api) (m : UpgradeManager api) → IsOrderly m → IsOrderly (apply c m)
  unfolding apply update_total_stake
  apply-IsOrderly (stake total) m s = record {
    proposed = s.proposed;
    tallied = s.tallied;
    approved = s.approved;
  }
  apply-IsOrderly (submit p cycle) m s = submit-IsOrderly p cycle m s
  apply-IsOrderly (cast vote cycle) m s = cast-IsOrderly vote cycle m s
  apply-IsOrderly (finalize id cycle snapshot) m s = finalize-IsOrderly id cycle snapshot m s
  apply-IsOrderly (activate cycle) m s = activate-IsOrderly cycle m s

  run-IsOrderly :
      (cs : List (Call api)) (m : UpgradeManager api) → IsOrderly m → IsOrderly (run cs m)
  unfolding run
  run-IsOrderly [] m s = s
  run-IsOrderly (c ∷ cs) m s = run-IsOrderly cs (apply c m) (apply-IsOrderly c m s)

  -- After any calls on a new upgrade manager, where activate_upgrade in a cycle makes a version the
  -- current one, that version is the one of a valid proposal for that cycle, whose vote was closed,
  -- with a quorum, by results that come from nothing but valid votes on it.
  pub activated_IsApproved :
      (laws : UpgradeLaws api) (initial total : ℕ) (cs : List (Call api)) (cycle version : ℕ)
      → (activate_upgrade api cycle (run cs (new api initial total))).0 ≡ ok version
      → (upgrade : api.Approved) × (a : IsApproved cycle upgrade) × (api.new_version a.p ≡ version)
        × ((activate_upgrade api cycle (run cs (new api initial total))).1.current_version
            ≡ version)
  unfolding activate_upgrade
  activated_IsApproved laws initial total cs cycle version h =
      let m = run cs (new api initial total) in
      let start : IsOrderly (new api initial total) =
        unfold new in record { proposed = tt; tallied = tt; approved = tt } in
      let s = run-IsOrderly cs (new api initial total) start in
      elim (Option-cases (lookup cycle m.approved_upgrades)) [
        | inl e ↦ ground (arith, e, h)
        | inr (upgrade, e) ↦
            let a = AllEntries-lookup IsApproved cycle upgrade m.approved_upgrades s.approved e in
            let made = laws.approve_proposal a.p a.results a.snapshot upgrade a.is_approved in
            let same : api.new_version (api.proposal upgrade) ≡ version = ground (arith, e, h) in
            (upgrade, a, ap api.new_version (sym made) ∙ same, ground (arith, e, same))
      ]
