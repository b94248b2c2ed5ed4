-- ===== src/Cascade/Holding.antt =====
-- The certificates of batches in the flow graph of src/flow_graph.rs.
use silver_consensus.Base.{
  ℕ, ◌≡◌, refl, inl, inr, true, false, some, List, [], ◌∷◌, ◌==◌, arith, Option-cases, eq_of_test,
  after_test, after_guard,
}
use silver_consensus.Base.Dict.{lookup, contains_key, insert, lookup-insert}
use silver_consensus.Base.Outcome.{ok}
use silver_consensus.Core.{BatchApi}
use silver_consensus.FlowGraph.{
  FlowGraph, vertex, add_child, link_parent, link_parents, place_batch, add_batch, set_certificate,
  contains_batch,
}
use silver_consensus.FlowGraph as Graph

module _ (bt : BatchApi) where
  -- the graph has the certificate for the batch
  abbrev pub Holds : ℕ → ℕ → FlowGraph bt → Type 0
  Holds id c g = Graph.get_certificate bt id g ≡ some c

  link_parent-Holds :
      (id c b p : ℕ) (g : FlowGraph bt) → Holds id c g → Holds id c (link_parent bt b p g)
  unfolding link_parent Graph.get_certificate add_child
  link_parent-Holds id c b p g h = elim (Option-cases (lookup p g.vertices)) [
    | inl e ↦ rw (e, link_parent) h
    | inr (v, e) ↦
        ground (arith, e, h, lookup-insert p id (add_child bt b v) g.vertices, eq_of_test id p)
  ]

  link_parents-Holds :
      (id c b : ℕ) (ps : List ℕ) (g : FlowGraph bt)
      → Holds id c g
      → Holds id c (link_parents bt b ps g)
  unfolding link_parents
  link_parents-Holds id c b [] g h = h
  link_parents-Holds id c b (p ∷ ps) g h =
      link_parents-Holds id c b ps (link_parent bt b p g) (link_parent-Holds id c b p g h)

  pub add_batch-Holds :
      (id c now later : ℕ) (b : bt.Batch) (g : FlowGraph bt)
      → Holds id c g
      → Holds id c (add_batch bt b now later g).1
  unfolding add_batch place_batch Graph.get_certificate
  add_batch-Holds id c now later b g h =
      let n = bt.batch_id b in
      after_guard (Holds id c) (contains_key n g.vertices) _ _ h (λ a.
        after_test (Holds id c) (bt.is_valid b) _ _
          (λ d.
            let added : FlowGraph bt = record g {
              vertices = insert n (vertex bt b now) g.vertices;
            } in
            let kept : Holds id c added =
              ground
                (arith, h, a, lookup-insert n id (vertex bt b now) g.vertices, eq_of_test id n) in
            link_parents-Holds id c n (bt.previous_batches b) added kept)
          (λ d. h))

  pub set_certificate-Holds :
      (id c batch_id c' : ℕ) (g : FlowGraph bt)
      → (id == batch_id) ≡ false
      → Holds id c g
      → Holds id c (set_certificate bt batch_id c' g).1
  unfolding set_certificate Graph.get_certificate
  set_certificate-Holds id c batch_id c' g n h = elim (Option-cases (lookup batch_id g.vertices)) [
    | inl e ↦ rw (e, set_certificate) h
    | inr (v, e) ↦
        ground (
          arith,
          e,
          h,
          n,
          lookup-insert batch_id id (record v { certificate = some c' }) g.vertices,
        )
  ]

  pub set_certificate-Holds_new :
      (batch_id c : ℕ) (g : FlowGraph bt)
      → contains_batch bt batch_id g ≡ true
      → Holds batch_id c (set_certificate bt batch_id c g).1
  unfolding set_certificate Graph.get_certificate contains_batch
  set_certificate-Holds_new batch_id c g h = elim (Option-cases (lookup batch_id g.vertices)) [
    | inl e ↦ ground (arith, e, h)
    | inr (v, e) ↦
        ground
          (arith, e, lookup-insert batch_id batch_id (record v { certificate = some c }) g.vertices)
  ]

  pub set_certificate_ok :
      (batch_id c : ℕ) (g : FlowGraph bt)
      → contains_batch bt batch_id g ≡ true
      → (set_certificate bt batch_id c g).0 ≡ ok tt
  unfolding set_certificate contains_batch
  set_certificate_ok batch_id c g h = elim (Option-cases (lookup batch_id g.vertices)) [
    | inl e ↦ ground (arith, e, h)
    | inr (v, e) ↦ rw (e, set_certificate) refl
  ]
