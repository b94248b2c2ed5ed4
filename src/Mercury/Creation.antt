-- ===== src/Mercury/Creation.antt =====
-- `create_snapshot_internal` of src/mercury.rs. A transaction stands for its digest.
use silver_consensus.Base.{
  ℕ, Bool, Option, none, some, List, [], ◌∷◌, ◌++◌, ltb, ◌==◌, if◌then◌else◌, length, take,
  is_empty,
}
use silver_consensus.Base.Word.{add64, sub64}
use silver_consensus.Base.Dict.{lookup, insert}
use silver_consensus.Base.Clock.{Clock}
use silver_consensus.Base.Outcome.{Result, ok, err}
use silver_consensus.Core.{MetadataApi, SnapshotApi, ValidatorSignature}
use silver_consensus.ValidatorSet.{stake_of}
use silver_consensus.Mercury.Execution.{HashApi, compute_state_root}
use silver_consensus.Mercury.Defs.{
  Protocol, MercuryError, store_failed, bad_graph, execution_failed, sign_failed,
}

-- What a run is given by the parts that it calls: the transactions of the certified batches, in
-- their order, or a failure of the flow graph; whether execution succeeds; whether the node is a
-- validator, and then what its key signs; and whether the store accepts the snapshot.
pub record Inputs : Type 0 where
  pub batches : Option (List (List ℕ))
  pub executed : Bool
  pub signer : Option (ℕ × Option ℕ)
  pub stored : Bool
  pub clock : Clock

-- the batches' transactions, one after another
abbrev pub extend_all : List (List ℕ) → List ℕ
extend_all [] = []
extend_all (batch ∷ batches) = batch ++ extend_all batches

-- `truncate`, where there are more than the limit
unfoldable pub limit_to : ℕ → List ℕ → List ℕ
limit_to n transactions = if ltb n (length transactions) then take n transactions else transactions

module _ (md : MetadataApi) (sn : SnapshotApi) where
  abbrev zero_digest : ℕ
  zero_digest = 0

  unfoldable pub previous_digest : ℕ → Protocol md sn → ℕ
  previous_digest sequence m =
      if sequence == 1
      then zero_digest
      else elim (lookup (sub64 sequence 1) m.finalized_snapshots) [
        | none ↦ zero_digest
        | some s ↦ sn.digest s
      ]

  -- the signatures and the stake that the node itself gives, or its key's failure
  unfoldable pub own_vote :
      Option (ℕ × Option ℕ) → Protocol md sn → Result MercuryError (List ValidatorSignature × ℕ)
  own_vote none m = ok ([], 0)
  own_vote (some (v, none)) m = err sign_failed
  own_vote (some (v, some signature)) m =
      let votes : List ValidatorSignature = record { validator = v; signature = signature } ∷ [] in
      ok (votes, elim (stake_of md m.validator_set v) [ none ↦ 0 | some stake ↦ stake ])

  -- the counts at the end of a run
  abbrev pub count_run : ℕ → List ℕ → Protocol md sn → Protocol md sn
  count_run sequence transactions m = record m {
    snapshots_created = add64 m.snapshots_created 1;
    transactions_finalized = add64 m.transactions_finalized (length transactions);
    current_snapshot_height = sequence;
    pending_count = length m.pending_snapshots;
  }

  -- finalized at once if the own stake is a quorum, or else pending
  unfoldable pub place :
      ℕ
      → List ℕ
      → sn.Snapshot
      → Bool
      → Protocol md sn
      → Result MercuryError (Unit {0}) × Protocol md sn
  place sequence transactions s stored m =
      let final = record m {
        finalized_snapshots = insert sequence s m.finalized_snapshots;
        current_snapshot = sequence;
      } in
      let pending = record m { pending_snapshots = insert sequence s m.pending_snapshots } in
      if sn.has_quorum s m.validator_set.total_stake
      then if stored
        then (ok tt, count_run sequence transactions final)
        else (err store_failed, final)
      else (ok tt, count_run sequence transactions pending)

  -- the part that makes the snapshot, once the state root is known
  unfoldable pub make :
      List ℕ → ℕ → Inputs → Protocol md sn → Result MercuryError (Unit {0}) × Protocol md sn
  make transactions root given m =
      let sequence = add64 m.current_snapshot 1 in
      elim (own_vote given.signer m) [
        | err e ↦ (err e, m)
        | ok (votes, stake) ↦
            place sequence transactions
              (sn.create sequence given.clock.unix_millis (previous_digest sequence m) root
                transactions m.current_cycle votes stake)
              given.stored m
      ]

  unfoldable pub create_snapshot_internal :
      HashApi → ℕ → Inputs → Protocol md sn → Result MercuryError (Unit {0}) × Protocol md sn
  create_snapshot_internal h max_transactions given m = elim given.batches [
    | none ↦ (err bad_graph, m)
    | some batches ↦
        let transactions = limit_to max_transactions (extend_all batches) in
        if is_empty transactions
        then (ok tt, m)
        else if given.executed
        then elim (compute_state_root h) [
          | err e ↦ (err e, m)
          | ok root ↦ make transactions root given m
        ]
        else (err execution_failed, m)
  ]
