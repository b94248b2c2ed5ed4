-- ===== src/FlowGraph/Grown.antt =====
-- Graphs of src/flow_graph.rs whose batches were added after their parents.
use silver_consensus.Base.{
  ℕ, ◌≡◌, sym, inl, inr, true, false, List, [], ◌∷◌, ◌++◌, ◌==◌, member, IsDistinct, arith, Within,
  Bool-cases, eq_of_test, eq_refl,
}
use silver_consensus.Base.Dict.{keys, contains_key, contains_key-insert, member-keys-lookup}
use silver_consensus.Core.{BatchApi}
use silver_consensus.FlowGraph.{
  FlowGraph, vertex, link_parents, get_children, get_parents, place_batch,
}
use silver_consensus.FlowGraph.Walk.{IsCausalFrom, IsCausalFrom-snoc}
use silver_consensus.FlowGraph.Growth.{keys-insert_new, IsSameShape}
use silver_consensus.FlowGraph.Placement.{
  IsLinks, link_parents-IsLinks, with_vertex, with_vertex-parents, with_vertex-children,
  placed-IsSameShape,
}

module _ (bt : BatchApi) where
  -- What a batch that was added after its parents leaves: a parent stands once, has the batch as a
  -- child, and came earlier.
  pub record IsGrown (g : FlowGraph bt) : Type 0 where
    pub parents_distinct : (c : ℕ) → IsDistinct (get_parents bt c g)
    pub back :
        (c p : ℕ) → member p (get_parents bt c g) ≡ true → member c (get_children bt p g) ≡ true
    pub ordered : IsCausalFrom bt g [] (keys g.vertices)

  IsCausalFrom-same :
      (g g' : FlowGraph bt) (before r : List ℕ)
      → ((c : ℕ) → member c r ≡ true → get_parents bt c g' ≡ get_parents bt c g)
      → IsCausalFrom bt g before r
      → IsCausalFrom bt g' before r
  unfolding IsCausalFrom
  IsCausalFrom-same g g' before [] f c = c
  IsCausalFrom-same g g' before (x ∷ r) f c = (
    rw (f x (ground (arith, eq_refl x))) c.0,
    IsCausalFrom-same g g' (before ++ x ∷ []) r (λ b h. f b (ground (arith, h))) c.1,
  )

  pub same-IsGrown : (g g' : FlowGraph bt) → IsSameShape bt g g' → IsGrown g → IsGrown g'
  same-IsGrown g g' s grown = record {
    parents_distinct = λ c. rw (s.same_parents c) (grown.parents_distinct c);
    back = λ c p h. rw (s.same_children p) (grown.back c p (rw (sym (s.same_parents c)) h));
    ordered =
        rw s.same_keys
          (IsCausalFrom-same g g' [] (keys g.vertices) (λ c h. s.same_parents c) grown.ordered);
  }

  no_children :
      (v : ℕ) (g : FlowGraph bt) → contains_key v g.vertices ≡ false → get_children bt v g ≡ []
  unfolding get_children
  no_children v g h = ground arith

  placed_back :
      (batch : bt.Batch) (now : ℕ) (g g' : FlowGraph bt)
      → IsLinks bt (bt.batch_id batch) (bt.previous_batches batch) (with_vertex bt batch now g) g'
      → contains_key (bt.batch_id batch) g.vertices ≡ false
      → Within (bt.previous_batches batch) (keys g.vertices)
      → IsGrown g
      → (c p : ℕ) → member p (get_parents bt c g') ≡ true
      → member c (get_children bt p g') ≡ true
  placed_back batch now g g' links k m grown c p h =
      let id = bt.batch_id batch in
      let mine = with_vertex-parents bt batch now g c in
      let known = links.all_parents c in
      let child = links.all_children p c in
      elim (Bool-cases (c == id)) [
        | inl q ↦
            let parent : member p (bt.previous_batches batch) ≡ true =
              ground (arith, h, known, mine, q) in
            ground (
              arith,
              child,
              parent,
              q,
              m p parent,
              member-keys-lookup p g.vertices,
              contains_key-insert p id (vertex bt batch now) g.vertices,
            )
        | inr q ↦
            let parent : member p (get_parents bt c g) ≡ true = ground (arith, h, known, mine, q) in
            ground (
              arith,
              child,
              grown.back c p parent,
              with_vertex-children bt batch now g p,
              no_children id g k,
              eq_of_test p id,
            )
      ]

  placed_ordered :
      (batch : bt.Batch) (now : ℕ) (g g' : FlowGraph bt)
      → IsLinks bt (bt.batch_id batch) (bt.previous_batches batch) (with_vertex bt batch now g) g'
      → contains_key (bt.batch_id batch) g.vertices ≡ false
      → Within (bt.previous_batches batch) (keys g.vertices)
      → IsGrown g
      → IsCausalFrom bt g' [] (keys g'.vertices)
  placed_ordered batch now g g' links k m grown =
      let id = bt.batch_id batch in
      let old : (c : ℕ)
          → member c (keys g.vertices) ≡ true
          → get_parents bt c g' ≡ get_parents bt c g =
        λ c h. ground (
          arith,
          h,
          links.all_parents c,
          with_vertex-parents bt batch now g c,
          member-keys-lookup c g.vertices,
          k,
          eq_of_test c id,
        ) in
      let own : get_parents bt id g' ≡ bt.previous_batches batch =
        ground (arith, links.all_parents id, with_vertex-parents bt batch now g id, eq_refl id) in
      rw (links.all_keys, keys-insert_new id (vertex bt batch now) g.vertices k)
        (IsCausalFrom-snoc bt g' [] (keys g.vertices) id
          (IsCausalFrom-same g g' [] (keys g.vertices) old grown.ordered) (rw own m))

  pub place_batch-IsGrown :
      (batch : bt.Batch) (now later : ℕ) (g : FlowGraph bt)
      → contains_key (bt.batch_id batch) g.vertices ≡ false
      → IsDistinct (bt.previous_batches batch)
      → Within (bt.previous_batches batch) (keys g.vertices)
      → IsGrown g
      → IsGrown (place_batch bt batch now later g)
  place_batch-IsGrown batch now later g k u m grown =
      let id = bt.batch_id batch in
      let ps = bt.previous_batches batch in
      let g1 = with_vertex bt batch now g in
      let g' = link_parents bt id ps g1 in
      let links = link_parents-IsLinks bt id ps g1 in
      same-IsGrown g' (place_batch bt batch now later g) (placed-IsSameShape bt batch now later g)
        record {
          parents_distinct = λ c. ground (
            arith,
            links.all_parents c,
            with_vertex-parents bt batch now g c,
            u,
            grown.parents_distinct c,
          );
          back = placed_back batch now g g' links k m grown;
          ordered = placed_ordered batch now g g' links k m grown;
        }
