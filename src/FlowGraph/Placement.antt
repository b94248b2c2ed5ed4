-- ===== src/FlowGraph/Placement.antt =====
-- How `add_batch` of src/flow_graph.rs changes the edges of the graph.
use silver_consensus.Base.{
  ℕ, ◌+◌, ◌<◌, ◌≡◌, refl, ◌∙◌, true, false, List, [], ◌∷◌, ◌==◌, ◌||◌, ◌&&◌, if◌then◌else◌, length,
  member, arith, Within, eq_of_test, eq_refl,
}
use silver_consensus.Base.Word.{u64_mod}
use silver_consensus.Base.Dict.{
  insert, keys, contains_key, lookup-insert, IsDistinct-insert, contains_key-insert,
}
use silver_consensus.Core.{BatchApi}
use silver_consensus.FlowGraph.{
  FlowGraph, vertex, link_parent, link_parents, get_children, get_parents, place_batch,
}
use silver_consensus.FlowGraph.Degree.{IsLinked}
use silver_consensus.FlowGraph.Growth.{
  link_parent-IsLink, member-IsLink, link-IsLinked, IsSameShape, same-IsLinked,
}

module _ (bt : BatchApi) where
  -- the loop over the parents
  pub record IsLinks (id : ℕ) (ps : List ℕ) (g g' : FlowGraph bt) : Type 0 where
    pub all_keys : keys g'.vertices ≡ keys g.vertices
    pub all_contains : (c : ℕ) → contains_key c g'.vertices ≡ contains_key c g.vertices
    pub all_parents : (c : ℕ) → get_parents bt c g' ≡ get_parents bt c g
    pub all_children :
        (v c : ℕ)
        → member c (get_children bt v g') ≡ (
            member c (get_children bt v g) || (member v ps && contains_key v g.vertices && c == id))

  pub link_parents-IsLinks :
      (id : ℕ) (ps : List ℕ) (g : FlowGraph bt) → IsLinks id ps g (link_parents bt id ps g)
  unfolding link_parents
  link_parents-IsLinks id [] g = record {
    all_keys = refl;
    all_contains = λ c. refl;
    all_parents = λ c. refl;
    all_children = λ v c. ground arith;
  }
  link_parents-IsLinks id (p ∷ ps) g =
      let g' = link_parent bt id p g in
      let one = link_parent-IsLink bt id p g in
      let more = link_parents-IsLinks id ps g' in
      record {
        all_keys = more.all_keys ∙ one.same_keys;
        all_contains = λ c. more.all_contains c ∙ one.same_contains c;
        all_parents = λ c. more.all_parents c ∙ one.same_parents c;
        all_children = λ v c. ground (
          arith,
          more.all_children v c,
          member-IsLink bt id p g g' one v c,
          one.same_contains v,
          eq_of_test v p,
        );
      }

  link_parents-IsLinked :
      (id : ℕ) (ps : List ℕ) (g : FlowGraph bt)
      → Within ps (get_parents bt id g)
      → contains_key id g.vertices ≡ true
      → IsLinked bt g
      → IsLinked bt (link_parents bt id ps g)
  unfolding link_parents
  link_parents-IsLinked id [] g m k w = w
  link_parents-IsLinked id (p ∷ ps) g m k w =
      let one = link_parent-IsLink bt id p g in
      link_parents-IsLinked id ps (link_parent bt id p g)
        (λ a h. rw (one.same_parents id) (m a (ground (arith, h)))) (one.same_contains id ∙ k)
        (link-IsLinked bt id p g (link_parent bt id p g) one (m p (ground (arith, eq_refl p))) k w)

  -- the graph with the vertex, before the loop
  abbrev pub with_vertex : bt.Batch → ℕ → FlowGraph bt → FlowGraph bt
  with_vertex batch now g = record g {
    vertices = insert (bt.batch_id batch) (vertex bt batch now) g.vertices;
  }

  pub with_vertex-parents :
      (batch : bt.Batch) (now : ℕ) (g : FlowGraph bt) (c : ℕ)
      → get_parents bt c (with_vertex batch now g)
        ≡ (if c == bt.batch_id batch then bt.previous_batches batch else get_parents bt c g)
  unfolding get_parents vertex
  with_vertex-parents batch now g c =
      ground (arith, lookup-insert (bt.batch_id batch) c (vertex bt batch now) g.vertices)

  pub with_vertex-children :
      (batch : bt.Batch) (now : ℕ) (g : FlowGraph bt) (c : ℕ)
      → get_children bt c (with_vertex batch now g)
        ≡ (if c == bt.batch_id batch then [] else get_children bt c g)
  unfolding get_children vertex
  with_vertex-children batch now g c =
      ground (arith, lookup-insert (bt.batch_id batch) c (vertex bt batch now) g.vertices)

  with_vertex-IsLinked :
      (batch : bt.Batch) (now : ℕ) (g : FlowGraph bt)
      → contains_key (bt.batch_id batch) g.vertices ≡ false
      → length (bt.previous_batches batch) + 1 < u64_mod
      → IsLinked bt g
      → IsLinked bt (with_vertex batch now g)
  with_vertex-IsLinked batch now g k few w =
      let id = bt.batch_id batch in
      let contains = λ (c : ℕ). contains_key-insert c id (vertex bt batch now) g.vertices in
      record {
        keys_distinct = IsDistinct-insert id (vertex bt batch now) g.vertices w.keys_distinct;
        children_distinct =
            λ v. ground (arith, with_vertex-children batch now g v, w.children_distinct v);
        children_exist = λ v c h.
            ground (arith, h, with_vertex-children batch now g v, w.children_exist v c, contains c);
        linked = λ v c h. ground (
          arith,
          h,
          with_vertex-children batch now g v,
          with_vertex-parents batch now g c,
          w.children_exist v c,
          w.linked v c,
          eq_of_test c id,
          k,
        );
        few_parents = λ c. ground (arith, with_vertex-parents batch now g c, few, w.few_parents c);
      }

  pub placed-IsSameShape :
      (batch : bt.Batch) (now later : ℕ) (g : FlowGraph bt)
      → IsSameShape bt
          (link_parents bt
            (bt.batch_id batch)
            (bt.previous_batches batch)
            (with_vertex batch now g))
          (place_batch bt batch now later g)
  unfolding place_batch get_parents get_children
  placed-IsSameShape batch now later g = record {
    same_keys = refl;
    same_contains = λ c. refl;
    same_parents = λ c. refl;
    same_children = λ c. refl;
  }

  pub place_batch-IsLinked :
      (batch : bt.Batch) (now later : ℕ) (g : FlowGraph bt)
      → contains_key (bt.batch_id batch) g.vertices ≡ false
      → length (bt.previous_batches batch) + 1 < u64_mod
      → IsLinked bt g
      → IsLinked bt (place_batch bt batch now later g)
  place_batch-IsLinked batch now later g k few w =
      let id = bt.batch_id batch in
      let ps = bt.previous_batches batch in
      let g1 = with_vertex batch now g in
      same-IsLinked bt (link_parents bt id ps g1) (place_batch bt batch now later g)
        (placed-IsSameShape batch now later g)
        (link_parents-IsLinked id ps g1
          (λ a h. ground (arith, h, with_vertex-parents batch now g id, eq_refl id))
          (ground (arith, contains_key-insert id id (vertex bt batch now) g.vertices, eq_refl id))
          (with_vertex-IsLinked batch now g k few w))
