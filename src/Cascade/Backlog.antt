-- ===== src/Cascade/Backlog.antt =====
-- The transactions that workers of src/cascade.rs put back, which count against new ones.
use silver_consensus.Base.{
  ℕ, ◌≤◌, ◌≡◌, refl, ap, ◌∙◌, inl, inr, Bool, true, List, [], ◌∷◌, length, length-append, leb,
  arith, after_test, after_guard,
}
use silver_consensus.Base.Outcome.{err, Result-cases}
use silver_consensus.Core.{BatchApi, MempoolApi, FloatApi}
use silver_consensus.FlowGraph as FlowGraph
use silver_consensus.Cascade.{
  CascadeConfig, CascadeMempool, submit_transaction, mempool_full, worker_create_batch,
  broadcast_next, handle_incoming_batch,
}
use silver_consensus.Cascade.Calls.{Call, submit, work, broadcast, incoming, apply, run}
use silver_consensus.Cascade.Batches.{worker_create_batch_lem}

module _ (fl : FloatApi) {bt : BatchApi} (tx : MempoolApi bt) where
  -- no pending transaction goes, and the configuration stays
  abbrev Grows : CascadeMempool fl tx → CascadeMempool fl tx → Type 0
  Grows m m' =
      (length m.state.pending_transactions ≤ length m'.state.pending_transactions)
      × (m'.config ≡ m.config)

  Grows-refl : (m : CascadeMempool fl tx) → Grows m m
  Grows-refl m = (omega arith, refl)

  submit-Grows :
      (t : tx.Transaction) (m : CascadeMempool fl tx) → Grows m (submit_transaction fl tx t m).1
  unfolding submit_transaction
  submit-Grows t m =
      after_test (Grows m) (tx.is_valid t) _ _
        (λ a.
          after_guard (Grows m)
            (leb m.config.max_pending_transactions (length m.state.pending_transactions)) _ _
            (Grows-refl m) (λ b. (omega arith, refl)))
        (λ a. Grows-refl m)

  work-Grows :
      (timestamp : ℕ) (elapsed : fl.F64) (m : CascadeMempool fl tx)
      → Grows m (worker_create_batch fl tx timestamp elapsed m).1
  work-Grows timestamp elapsed m =
      let (r, w) = worker_create_batch_lem fl tx timestamp elapsed m in
      let more = length-append r.put_back m.state.pending_transactions in
      (omega (arith, ap length w.behind, more), w.configured)

  broadcast-Grows :
      (sent : ℕ → Bool) (now later : ℕ) (m : CascadeMempool fl tx) (created : List bt.Batch)
      → m.created ≡ created
      → Grows m (broadcast_next fl tx sent now later m).1
  unfolding broadcast_next
  broadcast-Grows sent now later m [] e = rw (e, broadcast_next) (Grows-refl m)
  broadcast-Grows sent now later m (b ∷ bs) e =
      elim (Result-cases (FlowGraph.add_batch bt b now later m.flow_graph).0) [
        | inl (x, q) ↦ rw (e, q, broadcast_next) (omega arith, refl)
        | inr (u, q) ↦ rw (e, q, broadcast_next) (omega arith, refl)
      ]

  incoming-Grows :
      (b : bt.Batch) (now later : ℕ) (m : CascadeMempool fl tx)
      → Grows m (handle_incoming_batch fl tx b now later m).1
  unfolding handle_incoming_batch
  incoming-Grows b now later m =
      after_test (Grows m) (bt.is_valid b) _ _
        (λ a.
          after_guard (Grows m) (FlowGraph.contains_batch bt (bt.batch_id b) m.flow_graph) _ _
            (Grows-refl m)
            (λ c. elim (Result-cases (FlowGraph.add_batch bt b now later m.flow_graph).0) [
              | inl (x, q) ↦ rw q (omega arith, refl)
              | inr (u, q) ↦ rw q (omega arith, refl)
            ]))
        (λ a. Grows-refl m)

  apply-Grows : (c : Call fl tx) (m : CascadeMempool fl tx) → Grows m (apply fl tx c m)
  unfolding apply
  apply-Grows (submit t) m = submit-Grows t m
  apply-Grows (work timestamp elapsed) m = work-Grows timestamp elapsed m
  apply-Grows (broadcast sent now later) m = broadcast-Grows sent now later m m.created refl
  apply-Grows (incoming b now later) m = incoming-Grows b now later m

  run-Grows : (cs : List (Call fl tx)) (m : CascadeMempool fl tx) → Grows m (run fl tx cs m)
  unfolding run
  run-Grows [] m = Grows-refl m
  run-Grows (c ∷ cs) m =
      let first = apply-Grows c m in
      let rest = run-Grows cs (apply fl tx c m) in
      (omega (arith, first.0, rest.0), rest.1 ∙ first.1)

  -- Once as many transactions are pending as the configuration allows, the mempool refuses every
  -- valid transaction as full, after any further submissions and rounds of its tasks.
  pub full_stays :
      (cs : List (Call fl tx)) (m : CascadeMempool fl tx) (t : tx.Transaction)
      → m.config.max_pending_transactions ≤ length m.state.pending_transactions
      → tx.is_valid t ≡ true
      → (submit_transaction fl tx t (run fl tx cs m)).0 ≡ err mempool_full
  unfolding submit_transaction
  full_stays cs m t full valid =
      let (more, same) = run-Grows cs m in
      let n = run fl tx cs m in
      let limit = ap (λ (c : CascadeConfig). c.max_pending_transactions) same in
      let still : leb n.config.max_pending_transactions (length n.state.pending_transactions)
          ≡ true =
        ground (arith, full, more, limit) in
      rw (valid, still) refl
