-- ===== src/Cascade/Examples.antt =====
-- Runs of the mempool and the certifier of src/cascade.rs, and instances of their theorems.
use silver_consensus.Base.{ℕ, ◌%◌, ◌≡◌, ◌⊎◌, refl, true, some, List, [], ◌∷◌, arith}
use silver_consensus.Base.Word.{add64, mul64}
use silver_consensus.Base.Outcome.{err}
use silver_consensus.Core.{ValidatorSignature}
use silver_consensus.Core.Plain.{
  PlainBatch, PlainTransaction, PlainMetadata, plain_batches, plain_mempool, plain_floats,
  plain_metadata, plain_certificates,
}
use silver_consensus.ValidatorSet.{ValidatorSet, calculate_stake_weight}
use silver_consensus.ValidatorSet.Info.{new_info}
use silver_consensus.FlowGraph.{
  FlowGraph, vertex, add_child, link_parent, link_parents, place_batch, add_batch, set_certificate,
  contains_batch, get_latest_batch_ids,
}
use silver_consensus.FlowGraph as Graph
use silver_consensus.Cascade as Cascade
use silver_consensus.Cascade.{
  CascadeConfig, CascadeMempool, mempool_full, Collected, submit_transaction, collect_from,
  update_metrics, make_batch, worker_create_batch, broadcast_from, broadcast_next,
  handle_incoming_batch,
}
use silver_consensus.Cascade.Calls as Mempool
use silver_consensus.Cascade.Calls.{submit, work, broadcast, incoming}
use silver_consensus.Cascade.Batches.{IsWork, worker_create_batch_lem}
use silver_consensus.Cascade.Backlog.{full_stays}
use silver_consensus.Cascade.Certifier as Certifier
use silver_consensus.Cascade.Certifier.{
  BatchCertifier, certify, add_signature, get_certificate, weight_of, clear_old_pending,
}
use silver_consensus.Cascade.Signing as Signing
use silver_consensus.Cascade.Signing.{sign, clear, grow, replace}
use silver_consensus.Cascade.Changes.{replaces}
use silver_consensus.Cascade.Certificates.{Witnessed, certificate_stays}

-- batches of three transactions or ten bytes, and one pending transaction at most
abbrev config : CascadeConfig
config = record {
  worker_count = 4;
  max_transactions_per_batch = 3;
  max_batch_size_bytes = 10;
  batch_creation_interval_ms = 50;
  auto_batch_creation = true;
  max_pending_transactions = 1;
}

abbrev sized : ℕ → PlainTransaction
sized n = record { number = n; size = n }

abbrev mempool : CascadeMempool plain_floats plain_mempool
mempool =
    Mempool.run plain_floats plain_mempool
      (submit (sized 4) ∷ submit (sized 8) ∷ submit (sized 2) ∷ [])
      (Cascade.new plain_floats plain_mempool config 1 (Graph.new plain_batches))

worker_create_batch_lem_example :
    (r : Collected plain_floats plain_mempool) × IsWork plain_floats plain_mempool 60
      (worker_create_batch plain_floats plain_mempool 60 1000 mempool).0
      mempool
      (worker_create_batch plain_floats plain_mempool 60 1000 mempool).1
      r
worker_create_batch_lem_example = worker_create_batch_lem plain_floats plain_mempool 60 1000 mempool

-- the transaction of eight bytes is put back
abbrev backlog : CascadeMempool plain_floats plain_mempool
backlog = (worker_create_batch plain_floats plain_mempool 60 1000 mempool).1

abbrev runs : Unit {0}
unfolding Mempool.run Mempool.apply Cascade.new Cascade.new_state Cascade.new_metrics
    Cascade.average Cascade.push_history submit_transaction collect_from update_metrics make_batch
    worker_create_batch broadcast_from broadcast_next handle_incoming_batch get_latest_batch_ids
    Graph.new add64
runs = tt

one_pending : backlog.state.pending_transactions ≡ sized 8 ∷ []
one_pending = unfold runs in refl

full_stays_example :
    (submit_transaction plain_floats plain_mempool (sized 5) (
      Mempool.run plain_floats plain_mempool
        (broadcast (λ n. true) 70 71 ∷ work 80 1000 ∷ [])
        backlog)).0
    ≡ err mempool_full
full_stays_example =
    full_stays plain_floats plain_mempool (broadcast (λ n. true) 70 71 ∷ work 80 1000 ∷ []) backlog
      (sized 5) (unfold runs in omega arith) refl

abbrev validator : ℕ → PlainMetadata
validator n = record { number = n; stake = 10 }

abbrev three : ValidatorSet plain_metadata
three = record {
  validators =
      (1, new_info plain_metadata (validator 1))
      ∷ (2, new_info plain_metadata (validator 2))
      ∷ (3, new_info plain_metadata (validator 3))
      ∷ [];
  total_stake = 30;
  current_cycle = 0;
  change_history = [];
  min_stake = 10;
}

abbrev signed_by : ℕ → ValidatorSignature
signed_by n = record { validator = n; signature = n }

abbrev numbered : ℕ → PlainBatch
numbered n = record { id = n; previous = [] }

abbrev signing : List (Signing.Call plain_batches plain_metadata)
signing =
    grow (numbered 9) 1 2
    ∷ sign 9 (signed_by 1) 3
    ∷ sign 9 (signed_by 2) 4
    ∷ sign 9 (signed_by 3) 5
    ∷ []

-- four shards
abbrev fresh : BatchCertifier plain_batches plain_metadata plain_certificates
fresh =
    Certifier.new plain_batches plain_metadata plain_certificates (λ id. id % 4) three
      (Graph.new plain_batches)

abbrev certifier : BatchCertifier plain_batches plain_metadata plain_certificates
certifier = Signing.run plain_batches plain_metadata plain_certificates signing fresh

abbrev later : List (Signing.Call plain_batches plain_metadata)
later = grow (numbered 10) 6 7 ∷ sign 9 (signed_by 1) 8 ∷ clear ∷ []

abbrev signs : Unit {0}
unfolding Signing.run Signing.apply Certifier.new certify add_signature get_certificate weight_of
    clear_old_pending calculate_stake_weight new_info Graph.new vertex add_child link_parent
    link_parents place_batch add_batch set_certificate contains_batch add64 mul64
signs = tt

certified_9 : get_certificate plain_batches plain_metadata plain_certificates 9 certifier ≡ some 30
certified_9 = unfold signs in refl

certificate_stays_example :
    let m' = Signing.run plain_batches plain_metadata plain_certificates later certifier in
    Witnessed plain_batches plain_metadata plain_certificates 9 30 [] fresh signing
    × (get_certificate plain_batches plain_metadata plain_certificates 9 m' ≡ some 30)
    × ((Graph.get_certificate plain_batches 9 m'.flow_graph ≡ some 30)
        ⊎ (replaces plain_batches plain_metadata plain_certificates signing ≡ true)
        ⊎ (replaces plain_batches plain_metadata plain_certificates later ≡ true))
certificate_stays_example =
    certificate_stays plain_batches plain_metadata plain_certificates (λ id. id % 4) three
      (Graph.new plain_batches) signing later 9 30 certified_9
