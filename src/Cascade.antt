-- ===== src/Cascade.antt =====
-- `CascadeConfig`, `CascadeMetrics`, `CascadeState` and `CascadeMempool` of src/cascade.rs. The
-- channels are lists, first in first out; what a task reads from a clock is an argument.
mod Certifier
mod Calls
mod Batches
mod Backlog
mod Holding
mod Signing
mod Signatures
mod Changes
mod Certificates
mod Examples
use silver_consensus.Base.{
  ℕ, zero, suc, ◌+◌, ◌*◌, ◌/◌, ◌%◌, Bool, true, false, ◌&&◌, Option, none, some, List, [], ◌∷◌,
  ◌++◌, length, is_empty, pop_front, sum_by, leb, ltb, if◌then◌else◌,
}
use silver_consensus.Base.Word.{add64}
use silver_consensus.Base.Outcome.{Result, ok, err}
use silver_consensus.Core.{BatchApi, MempoolApi, FloatApi}
use silver_consensus.FlowGraph as FlowGraph

pub record CascadeConfig : Type 0 where
  pub worker_count : ℕ
  pub max_transactions_per_batch : ℕ
  pub max_batch_size_bytes : ℕ
  pub batch_creation_interval_ms : ℕ
  pub auto_batch_creation : Bool
  pub max_pending_transactions : ℕ

abbrev pub max_broadcast_retries : ℕ
max_broadcast_retries = 3

pub data CascadeError : Type 0 where
  bad_transaction mempool_full not_signed bad_batch : CascadeError

-- `u64::to_le_bytes`, so many bytes of it
unfoldable pub le_bytes : ℕ → ℕ → List ℕ
le_bytes zero n = []
le_bytes (suc k) n = n % 256 ∷ le_bytes k (n / 256)

module _ (fl : FloatApi) where
  pub record CascadeMetrics : Type 0 where
    pub batches_created : ℕ
    pub transactions_batched : ℕ
    pub avg_batch_size : fl.F64
    pub avg_batch_size_bytes : fl.F64
    pub batch_creation_rate : fl.F64
    pub transaction_throughput : fl.F64
    pub pending_transactions : ℕ
    pub failed_broadcasts : ℕ
    pub successful_broadcasts : ℕ

  unfoldable pub new_metrics : CascadeMetrics
  new_metrics = record {
    batches_created = 0;
    transactions_batched = 0;
    avg_batch_size = fl.of_u64 0;
    avg_batch_size_bytes = fl.of_u64 0;
    batch_creation_rate = fl.of_u64 0;
    transaction_throughput = fl.of_u64 0;
    pending_transactions = 0;
    failed_broadcasts = 0;
    successful_broadcasts = 0;
  }

  -- the mean of the history, or what was there before
  unfoldable pub average : List ℕ → fl.F64 → fl.F64
  average history before =
      if is_empty history
      then before
      else fl.div (fl.of_u64 (sum_by (λ n. n) history)) (fl.of_u64 (length history))

  -- one entry more, and at most a hundred
  unfoldable pub push_history : ℕ → List ℕ → List ℕ
  push_history n history =
      let longer = history ++ n ∷ [] in if ltb 100 (length longer) then pop_front longer else longer

  module _ {bt : BatchApi} (tx : MempoolApi bt) where
    -- `last_batch_time` is where the `elapsed` of a batch counts from, and nothing uses `recent_batches`
    pub record CascadeState : Type 0 where
      pub pending_transactions : List tx.Transaction
      pub metrics : CascadeMetrics
      pub batch_size_history : List ℕ
      pub batch_byte_size_history : List ℕ

    -- `CascadeState::new`
    unfoldable pub new_state : CascadeState
    new_state = record {
      pending_transactions = [];
      metrics = new_metrics;
      batch_size_history = [];
      batch_byte_size_history = [];
    }

    -- `elapsed`: the seconds since the last batch
    unfoldable pub update_metrics : bt.Batch → fl.F64 → CascadeState → CascadeState
    update_metrics batch elapsed s =
        let count = tx.transaction_count batch in
        let sizes = push_history count s.batch_size_history in
        let bytes = push_history (tx.batch_size batch) s.batch_byte_size_history in
        let passed = fl.lt (fl.of_u64 0) elapsed in
        let m = s.metrics in
        record s {
          batch_size_history = sizes;
          batch_byte_size_history = bytes;
          metrics = record m {
            batches_created = add64 m.batches_created 1;
            transactions_batched = add64 m.transactions_batched count;
            pending_transactions = length s.pending_transactions;
            avg_batch_size = average sizes m.avg_batch_size;
            avg_batch_size_bytes = average bytes m.avg_batch_size_bytes;
            batch_creation_rate =
                if passed then fl.div (fl.of_u64 1) elapsed else m.batch_creation_rate;
            transaction_throughput =
                if passed then fl.div (fl.of_u64 count) elapsed else m.transaction_throughput;
          };
        }

    -- the mempool: its state, the flow graph that it shares and its two channels; key, network and
    -- store are not its own
    pub record CascadeMempool : Type 0 where
      pub config : CascadeConfig
      pub validator_id : ℕ
      pub state : CascadeState
      pub flow_graph : FlowGraph.FlowGraph bt
      pub submitted : List tx.Transaction
      pub created : List bt.Batch

    unfoldable pub new : CascadeConfig → ℕ → FlowGraph.FlowGraph bt → CascadeMempool
    new config validator_id flow_graph = record {
      config = config;
      validator_id = validator_id;
      state = new_state;
      flow_graph = flow_graph;
      submitted = [];
      created = [];
    }

    -- the channel is open as long as the mempool lives
    unfoldable pub submit_transaction :
        tx.Transaction → CascadeMempool → Result CascadeError ℕ × CascadeMempool
    submit_transaction t m =
        if tx.is_valid t
        then if leb m.config.max_pending_transactions (length m.state.pending_transactions)
          then (err mempool_full, m)
          else (ok (tx.digest t), record m { submitted = m.submitted ++ t ∷ [] })
        else (err bad_transaction, m)

    unfoldable pub pending_count : CascadeMempool → ℕ
    pending_count m = length m.state.pending_transactions

    -- what the loop of a worker took off the channel, what it put back, and what is left there
    pub record Collected : Type 0 where
      pub transactions : List tx.Transaction
      pub put_back : List tx.Transaction
      pub rest : List tx.Transaction

    -- the loop, with `count` transactions of `size` bytes so far
    unfoldable pub collect_from : CascadeConfig → List tx.Transaction → ℕ → ℕ → Collected
    collect_from c [] count size = record { transactions = []; put_back = []; rest = [] }
    collect_from c (t ∷ ts) count size =
        let size' = size + tx.size_bytes t in
        let later = collect_from c ts (suc count) size' in
        if ltb count c.max_transactions_per_batch && ltb size c.max_batch_size_bytes
        then if ltb c.max_batch_size_bytes size'
          then record { transactions = []; put_back = t ∷ []; rest = ts }
          else record {
            transactions = t ∷ later.transactions;
            put_back = later.put_back;
            rest = later.rest;
          }
        else record { transactions = []; put_back = []; rest = t ∷ ts }

    unfoldable pub concat_bytes : List ℕ → List ℕ
    concat_bytes [] = []
    concat_bytes (a ∷ rest) = tx.as_bytes a ++ concat_bytes rest

    unfoldable pub digests : List tx.Transaction → List ℕ
    digests [] = []
    digests (t ∷ ts) = tx.digest t ∷ digests ts

    unfoldable pub prepare_batch_signing_data : List tx.Transaction → ℕ → ℕ → List ℕ → List ℕ
    prepare_batch_signing_data transactions author timestamp previous_batches =
        tx.as_bytes author
        ++ le_bytes 8 timestamp
        ++ concat_bytes previous_batches
        ++ concat_bytes (digests transactions)

    -- the batch of the transactions, and where it is noted and sent
    unfoldable pub make_batch :
        List tx.Transaction
        → ℕ
        → fl.F64
        → CascadeMempool
        → Result CascadeError (Unit {0}) × CascadeMempool
    make_batch transactions timestamp elapsed m =
        let previous = FlowGraph.get_latest_batch_ids bt 10 m.flow_graph in
        let signed_bytes =
          prepare_batch_signing_data transactions m.validator_id timestamp previous in
        elim (tx.sign signed_bytes) [
          | none ↦ (err not_signed, m)
          | some signature ↦
              elim (tx.new_batch transactions m.validator_id timestamp previous signature) [
                | none ↦ (err bad_batch, m)
                | some batch ↦ (
                  ok tt,
                  record m {
                    state = update_metrics batch elapsed m.state;
                    created = m.created ++ batch ∷ [];
                  },
                )
              ]
        ]

    -- a call of a worker: other workers wait for the lock of the channel
    unfoldable pub worker_create_batch :
        ℕ → fl.F64 → CascadeMempool → Result CascadeError (Unit {0}) × CascadeMempool
    worker_create_batch timestamp elapsed m =
        let c = collect_from m.config m.submitted 0 0 in
        let m' = record m {
          submitted = c.rest;
          state = record m.state {
            pending_transactions = c.put_back ++ m.state.pending_transactions;
          };
        } in
        if is_empty c.transactions
        then (ok tt, m')
        else make_batch c.transactions timestamp elapsed m'

    -- the attempts to send a batch, as many as are left; `sent` says which succeeds
    unfoldable pub broadcast_from : (ℕ → Bool) → ℕ → CascadeMetrics → Bool × CascadeMetrics
    broadcast_from sent zero m = (false, m)
    broadcast_from sent (suc left) m =
        let m' = record m { failed_broadcasts = add64 m.failed_broadcasts 1 } in
        let again = broadcast_from sent left m' in
        if sent left
        then (true, record m { successful_broadcasts = add64 m.successful_broadcasts 1 })
        else again

    -- a round of the broadcaster: whether the batch was sent, where there was one that was added
    unfoldable pub broadcast_next :
        (ℕ → Bool) → ℕ → ℕ → CascadeMempool → Option Bool × CascadeMempool
    broadcast_next sent now later m = elim m.created [
      | [] ↦ (none, m)
      | batch ∷ rest ↦
          let (added, graph) = FlowGraph.add_batch bt batch now later m.flow_graph in
          let (success, metrics) = broadcast_from sent max_broadcast_retries m.state.metrics in
          let m' = record m { created = rest; flow_graph = graph } in
          elim added [
            | err e ↦ (none, m')
            | ok _ ↦ (some success, record m' { state = record m.state { metrics = metrics } })
          ]
    ]

    unfoldable pub handle_incoming_batch :
        bt.Batch → ℕ → ℕ → CascadeMempool → Result CascadeError (Unit {0}) × CascadeMempool
    handle_incoming_batch batch now later m =
        let (added, graph) = FlowGraph.add_batch bt batch now later m.flow_graph in
        if bt.is_valid batch
        then if FlowGraph.contains_batch bt (bt.batch_id batch) m.flow_graph
          then (ok tt, m)
          else elim added [
            | err e ↦ (err bad_batch, record m { flow_graph = graph })
            | ok _ ↦ (ok tt, record m { flow_graph = graph })
          ]
        else (err bad_batch, m)
