-- ===== src/Cascade/Batches.antt =====
-- What a worker takes, and what stays behind, in src/cascade.rs.
use silver_consensus.Base.{
  ℕ, suc, ◌+◌, ◌≤◌, ◌≡◌, refl, ap, ◌⊎◌, inl, inr, true, ◌&&◌, some, List, [], ◌∷◌, ◌++◌, length,
  is_empty, sum_by, ltb, arith, Bool-cases, Option-cases,
}
use silver_consensus.Base.Outcome.{Result, ok, err}
use silver_consensus.Core.{BatchApi, MempoolApi, FloatApi}
use silver_consensus.FlowGraph as FlowGraph
use silver_consensus.Cascade.{
  CascadeConfig, CascadeMempool, Collected, update_metrics, CascadeError, not_signed, bad_batch,
  collect_from, prepare_batch_signing_data, make_batch, worker_create_batch,
}

module _ (fl : FloatApi) {bt : BatchApi} (tx : MempoolApi bt) where
  abbrev pub bytes : List tx.Transaction → ℕ
  bytes ts = sum_by tx.size_bytes ts

  -- the channel split in three, with a batch within the limits and at most one transaction put back
  pub record IsSplit (c : CascadeConfig) (count size : ℕ) (ts : List tx.Transaction)
      (r : Collected fl tx) : Type 0 where
    pub parts : ts ≡ r.transactions ++ r.put_back ++ r.rest
    pub few : count + length r.transactions ≤ c.max_transactions_per_batch
    pub small : size + bytes r.transactions ≤ c.max_batch_size_bytes
    pub one : length r.put_back ≤ 1

  collect_from-IsSplit :
      (c : CascadeConfig) (ts : List tx.Transaction) (count size : ℕ)
      → count ≤ c.max_transactions_per_batch
      → size ≤ c.max_batch_size_bytes
      → IsSplit c count size ts (collect_from fl tx c ts count size)
  unfolding collect_from
  collect_from-IsSplit c [] count size few small = record {
    parts = refl;
    few = omega (arith, few);
    small = omega (arith, small);
    one = omega arith;
  }
  collect_from-IsSplit c (t ∷ ts) count size few small =
      let go = ltb count c.max_transactions_per_batch && ltb size c.max_batch_size_bytes in
      let size' = size + tx.size_bytes t in
      elim (Bool-cases go) [
        | inr n ↦ rw n (record {
          parts = refl;
          few = omega (arith, few);
          small = omega (arith, small);
          one = omega arith;
        })
        | inl y ↦ elim (Bool-cases (ltb c.max_batch_size_bytes size')) [
          | inl over ↦
              rw (y, over)
                (record {
                  parts = refl;
                  few = omega (arith, few);
                  small = omega (arith, small);
                  one = omega arith;
                })
          | inr fits ↦
              let rest =
                collect_from-IsSplit c ts (suc count) size' (ground (arith, y))
                  (ground (arith, fits)) in
              rw (y, fits)
                (record {
                  parts = ap (λ xs. t ∷ xs) rest.parts;
                  few = omega (arith, rest.few);
                  small = omega (arith, rest.small);
                  one = rest.one;
                })
        ]
      ]

  make_batch_keeps :
      (ts : List tx.Transaction) (timestamp : ℕ) (elapsed : fl.F64) (m : CascadeMempool fl tx)
      → ((make_batch fl tx ts timestamp elapsed m).1.submitted ≡ m.submitted)
        × ((make_batch fl tx ts timestamp elapsed m).1.state.pending_transactions
            ≡ m.state.pending_transactions)
        × ((make_batch fl tx ts timestamp elapsed m).1.config ≡ m.config)
  unfolding make_batch update_metrics
  make_batch_keeps ts timestamp elapsed m =
      let previous = FlowGraph.get_latest_batch_ids bt 10 m.flow_graph in
      elim (Option-cases
        (tx.sign (prepare_batch_signing_data fl tx ts m.validator_id timestamp previous))) [
          | inl e ↦ rw (e, make_batch) (refl, refl, refl)
          | inr (s, e) ↦ elim (Option-cases (tx.new_batch ts m.validator_id timestamp previous s)) [
            | inl f ↦ rw (e, f, make_batch) (refl, refl, refl)
            | inr (b, f) ↦ rw (e, f, make_batch) (refl, refl, refl)
          ]
        ]

  -- what became of the transactions that a worker took: there were none, an error lost them, or they
  -- are in a batch that waits to be broadcast
  abbrev Outcome : Type 0
  Outcome = Result CascadeError (Unit {0})

  pub record IsLost (outcome : Outcome) (m m' : CascadeMempool fl tx) : Type 0 where
    pub error : CascadeError
    pub failed : outcome ≡ err error
    pub created_same : m'.created ≡ m.created

  pub record IsBatched (ts : List tx.Transaction) (timestamp : ℕ) (outcome : Outcome)
      (m m' : CascadeMempool fl tx) : Type 0 where
    pub batch : bt.Batch
    pub previous : List ℕ
    pub signature : ℕ
    pub is_batch : tx.new_batch ts m.validator_id timestamp previous signature ≡ some batch
    pub is_signed :
        tx.sign (prepare_batch_signing_data fl tx ts m.validator_id timestamp previous)
        ≡ some signature
    pub is_sent : m'.created ≡ m.created ++ batch ∷ []
    pub succeeded : outcome ≡ ok tt

  make_batch_cases :
      (ts : List tx.Transaction) (timestamp : ℕ) (elapsed : fl.F64) (m : CascadeMempool fl tx)
      → IsLost
          (make_batch fl tx ts timestamp elapsed m).0
          m
          (make_batch fl tx ts timestamp elapsed m).1
        ⊎ IsBatched ts timestamp
            (make_batch fl tx ts timestamp elapsed m).0
            m
            (make_batch fl tx ts timestamp elapsed m).1
  unfolding make_batch
  make_batch_cases ts timestamp elapsed m =
      let previous = FlowGraph.get_latest_batch_ids bt 10 m.flow_graph in
      elim (Option-cases
        (tx.sign (prepare_batch_signing_data fl tx ts m.validator_id timestamp previous))) [
          | inl e ↦ inl (
              rw (e, make_batch)
                (record { error = not_signed; failed = refl; created_same = refl }))
          | inr (s, e) ↦ elim (Option-cases (tx.new_batch ts m.validator_id timestamp previous s)) [
            | inl f ↦ inl (
                rw (e, f, make_batch)
                  (record { error = bad_batch; failed = refl; created_same = refl }))
            | inr (b, f) ↦ inr (
                rw (e, f, make_batch)
                  (record {
                    batch = b;
                    previous = previous;
                    signature = s;
                    is_batch = f;
                    is_signed = e;
                    is_sent = refl;
                    succeeded = refl;
                  }))
          ]
        ]

  -- the channel and the pending transactions after the call, and what became of those taken
  pub record IsWork (timestamp : ℕ) (outcome : Outcome) (m m' : CascadeMempool fl tx)
      (r : Collected fl tx) : Type 0 where
    pub split : IsSplit m.config 0 0 m.submitted r
    pub left : m'.submitted ≡ r.rest
    pub configured : m'.config ≡ m.config
    pub behind : m'.state.pending_transactions ≡ r.put_back ++ m.state.pending_transactions
    pub taken :
        ((r.transactions ≡ []) × (m'.created ≡ m.created))
        ⊎ IsLost outcome m m'
        ⊎ IsBatched r.transactions timestamp outcome m m'

  empty_of_test : (ts : List tx.Transaction) → is_empty ts ≡ true → ts ≡ []
  empty_of_test [] h = refl
  empty_of_test (t ∷ ts) h = cc

  -- A call of a worker splits the submitted transactions, in their order, in those that it takes, at
  -- most one that it puts behind, and those that it leaves; what it takes is within the limits on
  -- transactions and bytes; and it takes none, or reports an error and sends no batch, or sends one
  -- batch of exactly those that it took.
  pub worker_create_batch_lem :
      (timestamp : ℕ) (elapsed : fl.F64) (m : CascadeMempool fl tx)
      → (r : Collected fl tx) × IsWork timestamp
          (worker_create_batch fl tx timestamp elapsed m).0
          m
          (worker_create_batch fl tx timestamp elapsed m).1
          r
  unfolding worker_create_batch
  worker_create_batch_lem timestamp elapsed m =
      let r = collect_from fl tx m.config m.submitted 0 0 in
      let split = collect_from-IsSplit m.config m.submitted 0 0 (omega arith) (omega arith) in
      let m' : CascadeMempool fl tx = record m {
        submitted = r.rest;
        state = record m.state {
          pending_transactions = r.put_back ++ m.state.pending_transactions;
        };
      } in
      elim (Bool-cases (is_empty r.transactions)) [
        | inl y ↦ (
          r,
          rw (y, worker_create_batch)
              (record {
                split = split;
                left = refl;
                configured = refl;
                behind = refl;
                taken = inl (empty_of_test r.transactions y, refl);
              }),
        )
        | inr n ↦
            let keeps = make_batch_keeps r.transactions timestamp elapsed m' in
            (
              r,
              rw (n, worker_create_batch)
                  (record {
                    split = split;
                    left = keeps.0;
                    configured = keeps.2;
                    behind = keeps.1;
                    taken = elim (make_batch_cases r.transactions timestamp elapsed m') [
                      | inl x ↦ inr (
                          inl (record {
                            error = x.error;
                            failed = x.failed;
                            created_same = x.created_same;
                          }))
                      | inr x ↦ inr (
                          inr (record {
                            batch = x.batch;
                            previous = x.previous;
                            signature = x.signature;
                            is_batch = x.is_batch;
                            is_signed = x.is_signed;
                            is_sent = x.is_sent;
                            succeeded = x.succeeded;
                          }))
                    ];
                  }),
            )
      ]
