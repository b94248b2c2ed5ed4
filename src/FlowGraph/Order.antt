-- ===== src/FlowGraph/Order.antt =====
-- The order that `topological_sort` of src/flow_graph.rs returns after any calls.
use silver_consensus.Base.{
  ℕ, ◌≡◌, refl, sym, ◌⊎◌, inl, inr, true, false, some, List, [], ◌==◌, length, member, IsDistinct,
  arith, Within, Within-back, length-Within, Bool-cases, All,
}
use silver_consensus.Base.Dict.{keys, member-keys-lookup}
use silver_consensus.Base.Outcome.{ok, err}
use silver_consensus.Core.{BatchApi}
use silver_consensus.FlowGraph.{
  FlowGraph, new, get_children, get_parents, contains_batch, cycle_detected,
}
use silver_consensus.FlowGraph.Sort.{topological_sort}
use silver_consensus.FlowGraph.Degree.{IsLinked}
use silver_consensus.FlowGraph.Walk.{IsCausalFrom, walked-Within, length-keys}
use silver_consensus.FlowGraph.Causal.{walked, result_linked, all-member, append_none}
use silver_consensus.FlowGraph.Grown.{IsGrown}
use silver_consensus.FlowGraph.Calls.{
  Call, run, IsFew, IsOrderly, new-IsLinked, new-IsGrown, run-IsLinked, run-IsGrown,
}

module _ (bt : BatchApi) where
  -- the list has each batch of the graph once, each after its parents
  pub record IsOrder (g : FlowGraph bt) (r : List ℕ) : Type 0 where
    pub once : IsDistinct r
    pub whole : (a : ℕ) → member a r ≡ contains_batch bt a g
    pub causal : IsCausalFrom bt g [] r
    pub known :
        (c p : ℕ)
        → member p (get_parents bt c g) ≡ true
        → member c r ≡ true
        → member c (get_children bt p g) ≡ true

  whole_of :
      (g : FlowGraph bt) (r : List ℕ)
      → Within r (keys g.vertices)
      → Within (keys g.vertices) r
      → (a : ℕ) → member a r ≡ contains_batch bt a g
  unfolding contains_batch
  whole_of g r h k a = elim (Bool-cases (member a r)) [
    | inl e ↦ ground (arith, e, h a e, member-keys-lookup a g.vertices)
    | inr e ↦ ground (arith, e, k a, member-keys-lookup a g.vertices)
  ]

  pub sort-IsOrder :
      (g : FlowGraph bt)
      → IsLinked bt g
      → (topological_sort bt g ≡ some (err cycle_detected))
        ⊎ ((r : List ℕ) × (topological_sort bt g ≡ some (ok r)) × IsOrder g r)
  unfolding topological_sort
  sort-IsOrder g w =
      let (r, degrees, ends, s, causal) = walked bt g w in
      let distinct : IsDistinct r = rw (sym (append_none bt g w r)) s.distinct in
      let inside : Within r (keys g.vertices) =
        λ a h. walked-Within bt g degrees [] [] r s a (rw (append_none bt g w r) h) in
      elim (Bool-cases (length r == length g.vertices)) [
        | inl e ↦
            let outside =
              Within-back r (keys g.vertices) distinct inside
                (ground (arith, length-keys bt g g.vertices, e)) in
            inr (
              r,
              rw (ends, e, topological_sort) refl,
              record {
                once = distinct;
                whole = whole_of g r inside outside;
                causal = causal;
                known = λ c p h m. result_linked bt g w degrees r c p s m h;
              },
            )
        | inr e ↦ inl (rw (ends, e, topological_sort) refl)
      ]

  -- the walk of a grown graph leaves no batch out
  pub grown_sort :
      (g : FlowGraph bt)
      → IsLinked bt g
      → IsGrown bt g
      → (r : List ℕ) × (topological_sort bt g ≡ some (ok r))
  unfolding topological_sort
  grown_sort g w grown =
      let (r, degrees, ends, s, causal) = walked bt g w in
      let distinct : IsDistinct r = rw (sym (append_none bt g w r)) s.distinct in
      let inside : Within r (keys g.vertices) =
        λ a h. walked-Within bt g degrees [] [] r s a (rw (append_none bt g w r) h) in
      let outside : Within (keys g.vertices) r =
        all-member bt g w degrees r [] (keys g.vertices) s grown (λ a h. ground (arith, h))
          (λ a h. h) grown.ordered in
      let most = length-Within r (keys g.vertices) distinct inside in
      let least = length-Within (keys g.vertices) r w.keys_distinct outside in
      let all : (length r == length g.vertices) ≡ true =
        ground (arith, most, least, length-keys bt g g.vertices) in
      (r, rw (ends, all, topological_sort) refl)

  pub run-new-IsLinked :
      (cs : List (Call bt)) → All (IsFew bt) cs → IsLinked bt (run bt cs (new bt))
  run-new-IsLinked cs few = run-IsLinked bt cs (new bt) few (new-IsLinked bt)

  -- After any calls on a new graph that prune nothing, of batches with fewer than u64::MAX parents,
  -- `topological_sort` ends: it reports a cycle, or returns each batch of the graph exactly once, each
  -- after all its parents.
  pub topological_sort_lem :
      (cs : List (Call bt))
      → All (IsFew bt) cs
      → let g = run bt cs (new bt) in
        (topological_sort bt g ≡ some (err cycle_detected))
        ⊎ ((r : List ℕ) × (topological_sort bt g ≡ some (ok r))
            × IsDistinct r
            × ((a : ℕ) → member a r ≡ contains_batch bt a g)
            × IsCausalFrom bt g [] r)
  topological_sort_lem cs few = elim (sort-IsOrder (run bt cs (new bt)) (run-new-IsLinked cs few)) [
    | inl e ↦ inl e
    | inr (r, e, o) ↦ inr (r, e, o.once, o.whole, o.causal)
  ]

  -- If each batch was added after its parents, which it names once, in calls that prune nothing, of
  -- batches with fewer than u64::MAX parents, then `topological_sort` succeeds.
  pub orderly_sort :
      (cs : List (Call bt))
      → All (IsFew bt) cs
      → IsOrderly bt cs (new bt)
      → (r : List ℕ) × (topological_sort bt (run bt cs (new bt)) ≡ some (ok r))
  orderly_sort cs few o =
      grown_sort (run bt cs (new bt)) (run-new-IsLinked cs few)
        (run-IsGrown bt cs (new bt) o (new-IsGrown bt))

  -- After calls that prune nothing, of batches with fewer than u64::MAX parents, one batch that its
  -- parent does not have as a child, as when the parent is missing or came later, makes
  -- `topological_sort` report a cycle for the whole graph.
  pub unlinked_parent :
      (cs : List (Call bt)) (c p : ℕ)
      → All (IsFew bt) cs
      → let g = run bt cs (new bt) in
        contains_batch bt c g ≡ true
        → member p (get_parents bt c g) ≡ true
        → member c (get_children bt p g) ≡ false
        → topological_sort bt g ≡ some (err cycle_detected)
  unlinked_parent cs c p few k m n =
      elim (sort-IsOrder (run bt cs (new bt)) (run-new-IsLinked cs few)) [
        | inl e ↦ e
        | inr (r, e, o) ↦ ground (arith, o.known c p m, o.whole c, k, n)
      ]
