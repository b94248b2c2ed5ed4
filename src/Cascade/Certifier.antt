-- ===== src/Cascade/Certifier.antt =====
-- `BatchCertifier` of src/cascade.rs, with the validator set and the flow graph that it shares. A call
-- of `add_signature` that certifies a batch takes the lock of its entry twice and never returns, and
-- then no other call that wants the same shard of `pending_signatures` does: such a call has the error
-- `never_returns`, and the state that it leaves.
use silver_consensus.Base.{
  ℕ, Bool, Option, none, some, List, [], ◌∷◌, ◌++◌, length, is_empty, member, map, ltb,
  if◌then◌else◌,
}
use silver_consensus.Base.Word.{mul64}
use silver_consensus.Base.Dict.{Dict, lookup, contains_key, insert, remove, keys, sum_values}
use silver_consensus.Base.Outcome.{Result, ok, err}
use silver_consensus.Core.{BatchApi, MetadataApi, CertificateApi, ValidatorSignature}
use silver_consensus.ValidatorSet.{ValidatorSet, contains_validator, calculate_stake_weight}
use silver_consensus.FlowGraph.{FlowGraph, contains_batch, set_certificate}

pub data CertifierError : Type 0 where
  unknown_batch unknown_validator bad_certificate not_set never_returns : CertifierError

pub record CertificationStats : Type 0 where
  pub certified_batches : ℕ
  pub pending_batches : ℕ
  pub total_pending_signatures : ℕ

module _ (bt : BatchApi) (md : MetadataApi) (ct : CertificateApi) where
  pub record BatchCertifier : Type 0 where
    pub validator_set : ValidatorSet md
    pub flow_graph : FlowGraph bt
    pub pending_signatures : Dict (List ValidatorSignature)
    pub certified_batches : Dict ℕ
    -- the shard of a key of `pending_signatures`, and the shards that are locked for good
    pub shard_of : ℕ → ℕ
    pub held : List ℕ

  unfoldable pub new : (ℕ → ℕ) → ValidatorSet md → FlowGraph bt → BatchCertifier
  new shard_of validator_set flow_graph = record {
    validator_set = validator_set;
    flow_graph = flow_graph;
    pending_signatures = [];
    certified_batches = [];
    shard_of = shard_of;
    held = [];
  }

  -- the signatures of a batch that wait, or none
  abbrev pub signatures_of : ℕ → BatchCertifier → List ValidatorSignature
  signatures_of batch_id m = elim (lookup batch_id m.pending_signatures) [
    | none ↦ []
    | some sigs ↦ sigs
  ]

  -- the stake of the signers, each signature counted
  unfoldable pub weight_of : List ValidatorSignature → BatchCertifier → ℕ
  weight_of sigs m =
      calculate_stake_weight md (map (λ (s : ValidatorSignature). s.validator) sigs) m.validator_set

  -- the part after the quorum: the certificate is checked, stored, and set in the graph; and the
  -- removal of the batch's signatures waits for the reference to them that the call itself holds
  unfoldable pub certify :
      ℕ
      → List ValidatorSignature
      → ℕ
      → BatchCertifier
      → Result CertifierError (Option ℕ) × BatchCertifier
  certify batch_id sigs timestamp m =
      let certificate = ct.new_certificate batch_id sigs (weight_of sigs m) timestamp in
      let stored = insert batch_id certificate m.certified_batches in
      let (outcome, graph) = set_certificate bt batch_id certificate m.flow_graph in
      if ct.is_valid m.validator_set.total_stake certificate
      then elim outcome [
        | err e ↦ (err not_set, record m { certified_batches = stored })
        | ok _ ↦ (
          err never_returns,
          record m {
            certified_batches = stored;
            flow_graph = graph;
            held = m.shard_of batch_id ∷ m.held;
          },
        )
      ]
      else (err bad_certificate, m)

  unfoldable pub add_signature :
      ℕ
      → ValidatorSignature
      → ℕ
      → BatchCertifier
      → Result CertifierError (Option ℕ) × BatchCertifier
  add_signature batch_id signature timestamp m =
      let sigs = signatures_of batch_id m ++ signature ∷ [] in
      let m' = record m { pending_signatures = insert batch_id sigs m.pending_signatures } in
      if contains_batch bt batch_id m.flow_graph
      then if contains_key batch_id m.certified_batches
        then (ok none, m)
        else if contains_validator md signature.validator m.validator_set
        then if member (m.shard_of batch_id) m.held
          then (err never_returns, m)
          else if ltb (mul64 m.validator_set.total_stake 2) (mul64 (weight_of sigs m) 3)
          then certify batch_id sigs timestamp m'
          else (ok none, m')
        else (err unknown_validator, m)
      else (err unknown_batch, m)

  unfoldable pub get_certificate : ℕ → BatchCertifier → Option ℕ
  get_certificate batch_id m = lookup batch_id m.certified_batches

  unfoldable pub is_certified : ℕ → BatchCertifier → Bool
  is_certified batch_id m = contains_key batch_id m.certified_batches

  unfoldable pub get_certified_batch_ids : BatchCertifier → List ℕ
  get_certified_batch_ids m = keys m.certified_batches

  unfoldable pub pending_signature_count : ℕ → BatchCertifier → ℕ
  pending_signature_count batch_id m = length (signatures_of batch_id m)

  -- the batches with no signature, and their removal
  unfoldable pub emptied : Dict (List ValidatorSignature) → List ℕ
  emptied [] = []
  emptied ((id, sigs) ∷ d) = let rest = emptied d in if is_empty sigs then id ∷ rest else rest

  unfoldable pub remove_all :
      List ℕ → Dict (List ValidatorSignature) → Dict (List ValidatorSignature)
  remove_all [] d = d
  remove_all (id ∷ ids) d = remove_all ids (remove id d)

  -- the loop over all shards does not get past one that is locked
  unfoldable pub clear_old_pending : BatchCertifier → BatchCertifier
  clear_old_pending m =
      if is_empty m.held
      then record m {
        pending_signatures = remove_all (emptied m.pending_signatures) m.pending_signatures;
      }
      else m

  unfoldable pub stats : BatchCertifier → CertificationStats
  stats m = record {
    certified_batches = length m.certified_batches;
    pending_batches = length m.pending_signatures;
    total_pending_signatures = sum_values length m.pending_signatures;
  }
