-- ===== src/Cascade/Calls.antt =====
-- Histories of calls on the mempool of src/cascade.rs: submissions, and rounds of its tasks.
use silver_consensus.Base.{ℕ, Bool, List, [], ◌∷◌}
use silver_consensus.Core.{BatchApi, MempoolApi, FloatApi}
use silver_consensus.Cascade.{
  CascadeMempool, submit_transaction, worker_create_batch, broadcast_next, handle_incoming_batch,
}

module _ (fl : FloatApi) {bt : BatchApi} (tx : MempoolApi bt) where
  pub data Call : Type 0 where
    submit : tx.Transaction → Call
    work : ℕ → fl.F64 → Call
    broadcast : (ℕ → Bool) → ℕ → ℕ → Call
    incoming : bt.Batch → ℕ → ℕ → Call

  unfoldable pub apply : Call → CascadeMempool fl tx → CascadeMempool fl tx
  apply (submit t) m = (submit_transaction fl tx t m).1
  apply (work timestamp elapsed) m = (worker_create_batch fl tx timestamp elapsed m).1
  apply (broadcast sent now later) m = (broadcast_next fl tx sent now later m).1
  apply (incoming batch now later) m = (handle_incoming_batch fl tx batch now later m).1

  unfoldable pub run : List Call → CascadeMempool fl tx → CascadeMempool fl tx
  run [] m = m
  run (c ∷ cs) m = run cs (apply c m)
