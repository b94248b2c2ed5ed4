-- ===== src/Mercury/Votes.antt =====
-- `add_snapshot_signature` of src/mercury.rs. `stored` says whether the object store accepts the
-- snapshot.
use silver_consensus.Base.{ℕ, Bool, true, false, none, some, [], ◌∷◌, ◌++◌, map, if◌then◌else◌}
use silver_consensus.Base.Dict.{lookup, contains_key, insert, remove}
use silver_consensus.Base.Outcome.{Result, ok, err}
use silver_consensus.Core.{MetadataApi, SnapshotApi, ValidatorSignature}
use silver_consensus.ValidatorSet.{contains_validator, calculate_stake_weight}
use silver_consensus.Mercury.Defs.{
  Protocol, MercuryError, not_pending, unknown_validator, store_failed,
}

abbrev pub voter : ValidatorSignature → ℕ
voter s = s.validator

module _ (md : MetadataApi) (sn : SnapshotApi) where
  -- the snapshot with one more signature, and the stake of all its signers
  unfoldable pub with_vote : ValidatorSignature → sn.Snapshot → Protocol md sn → sn.Snapshot
  with_vote vote s m =
      let votes = sn.validator_signatures s ++ vote ∷ [] in
      sn.with_votes votes (calculate_stake_weight md (map voter votes) m.validator_set) s

  -- the part behind the guards
  unfoldable pub count_vote :
      ℕ → sn.Snapshot → Bool → Protocol md sn → Result MercuryError Bool × Protocol md sn
  count_vote sequence voted stored m =
      if sn.has_quorum voted m.validator_set.total_stake
      then (
        (if stored then ok true else err store_failed),
        record m {
          finalized_snapshots = insert sequence voted m.finalized_snapshots;
          pending_snapshots = remove sequence m.pending_snapshots;
          current_snapshot = sequence;
        },
      )
      else (ok false, record m { pending_snapshots = insert sequence voted m.pending_snapshots })

  unfoldable pub add_snapshot_signature :
      ℕ → ValidatorSignature → Bool → Protocol md sn → Result MercuryError Bool × Protocol md sn
  add_snapshot_signature sequence vote stored m =
      if contains_key sequence m.finalized_snapshots
      then (ok false, m)
      else elim (lookup sequence m.pending_snapshots) [
        | none ↦ (err not_pending, m)
        | some s ↦
            if contains_validator md vote.validator m.validator_set
            then count_vote sequence (with_vote vote s m) stored m
            else (err unknown_validator, m)
      ]
