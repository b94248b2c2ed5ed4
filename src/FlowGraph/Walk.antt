-- ===== src/FlowGraph/Walk.antt =====
-- The walk of `topological_sort` of src/flow_graph.rs, from its start to its end.
use silver_consensus.Base.{
  ℕ, zero, suc, ◌+◌, ◌≤◌, ◌≡◌, refl, ap, inl, inr, true, false, Option, none, some, List, [], ◌∷◌,
  ◌++◌, ◌==◌, length, is_empty, member, IsDistinct, arith, Within, length-Within, Within-back,
  member-keep, member-append, Bool-cases, Option-cases, length-append, eq_of_test, eq_refl,
}
use silver_consensus.Base.Dict.{Dict, lookup, keys, member-keys-lookup}
use silver_consensus.Core.{BatchApi}
use silver_consensus.FlowGraph.{FlowGraph, FlowGraphVertex, get_children, get_parents}
use silver_consensus.FlowGraph.Sort.{relax, in_degrees, ready, walk}
use silver_consensus.FlowGraph.Degree.{
  IsLinked, IsWalk, pending, linked_from, linked_from-Within, linked_from-IsDistinct,
  append-IsDistinct, relax-IsWalk,
}

module _ (bt : BatchApi) (g : FlowGraph bt) where
  -- each batch of the list comes after all its parents, which are earlier in it or before it
  unfoldable pub IsCausalFrom : List ℕ → List ℕ → Type 0
  IsCausalFrom before [] = Unit
  IsCausalFrom before (v ∷ r) =
      Within (get_parents bt v g) before × IsCausalFrom (before ++ v ∷ []) r

  lookup-in_degrees :
      (c : ℕ) (d : Dict (FlowGraphVertex bt))
      → lookup c (in_degrees bt d)
        ≡ elim (lookup c d) as (λ _. Option ℕ) [ none ↦ none | some y ↦ some (length y.parents) ]
  unfolding in_degrees
  lookup-in_degrees c [] = refl
  lookup-in_degrees c (e ∷ d) = ground (arith, lookup-in_degrees c d)

  member-ready_absent :
      (c : ℕ) (d : Dict (FlowGraphVertex bt)) → lookup c d ≡ none → member c (ready bt d) ≡ false
  unfolding ready
  member-ready_absent c [] h = refl
  member-ready_absent c (e ∷ d) h = ground (arith, member-ready_absent c d)

  pub keys_absent :
      (c : ℕ) (d : Dict (FlowGraphVertex bt)) → member c (keys d) ≡ false → lookup c d ≡ none
  keys_absent c d h = ground (arith, member-keys-lookup c d)

  is_empty-length : (xs : List ℕ) → is_empty xs ≡ (length xs == 0)
  is_empty-length [] = refl
  is_empty-length (x ∷ xs) = ground arith

  member-ready :
      (c : ℕ) (y : FlowGraphVertex bt) (d : Dict (FlowGraphVertex bt))
      → IsDistinct (keys d)
      → lookup c d ≡ some y
      → member c (ready bt d) ≡ (length y.parents == 0)
  unfolding ready
  member-ready c y [] u h = cc
  member-ready c y (e ∷ d) u h = elim (Bool-cases (c == e.0)) [
    | inl q ↦ ground (
      arith,
      h,
      q,
      is_empty-length y.parents,
      eq_of_test c e.0 q,
      member-ready_absent e.0 d (keys_absent e.0 d u.0),
    )
    | inr q ↦ ground (arith, member-ready c y d u.1, q)
  ]

  IsDistinct-ready : (d : Dict (FlowGraphVertex bt)) → IsDistinct (keys d) → IsDistinct (ready bt d)
  unfolding ready
  IsDistinct-ready [] u = u
  IsDistinct-ready (e ∷ d) u =
      ground (arith, IsDistinct-ready d u.1, member-ready_absent e.0 d, keys_absent e.0 d u.0)

  pub start-IsWalk :
      IsLinked bt g → IsWalk bt g (in_degrees bt g.vertices) [] (ready bt g.vertices) []
  unfolding linked_from
  start-IsWalk w = record {
    distinct = IsDistinct-ready g.vertices w.keys_distinct;
    present = λ c y h. (
      length y.parents,
      ground (arith, lookup-in_degrees c g.vertices, h),
      omega arith,
      member-ready c y g.vertices w.keys_distinct h,
    );
    absent = λ c h.
        (ground (arith, lookup-in_degrees c g.vertices, h), member-ready_absent c g.vertices h);
  }

  append_cons : (xs ys : List ℕ) (a : ℕ) → (xs ++ a ∷ []) ++ ys ≡ xs ++ a ∷ ys
  append_cons [] ys a = refl
  append_cons (x ∷ xs) ys a = rw (append_cons xs ys a) refl

  linked_from-snoc :
      (c v : ℕ) (r : List ℕ)
      → length (linked_from bt g c (r ++ v ∷ []))
        ≡ length (linked_from bt g c r) + pending c (get_children bt v g)
  unfolding linked_from
  linked_from-snoc c v [] = ground arith
  linked_from-snoc c v (x ∷ r) = ground (arith, linked_from-snoc c v r)

  -- the batch at the front of the queue goes to the result, and its children are to be gone over
  pop-IsWalk :
      (degrees : Dict ℕ) (v : ℕ) (queue result : List ℕ)
      → IsWalk bt g degrees [] (v ∷ queue) result
      → IsWalk bt g degrees (get_children bt v g) queue (result ++ v ∷ [])
  pop-IsWalk degrees v queue result s =
      let same = append_cons result queue v in
      record {
        distinct = rw same s.distinct;
        present = λ c y h.
            let (d, at, sum, zeros) = s.present c y h in
            (d, at, omega (arith, sum, linked_from-snoc c v result), rw same zeros);
        absent = λ c h. rw same (s.absent c h);
      }

  member_here : (v : ℕ) (queue result : List ℕ) → member v (result ++ v ∷ queue) ≡ true
  member_here v queue result = ground (arith, member-append v result (v ∷ queue), eq_refl v)

  -- the batch at the front of the queue has all its parents in the result
  popped-Within :
      IsLinked bt g
      → (degrees : Dict ℕ) (v : ℕ) (queue result : List ℕ)
      → IsWalk bt g degrees [] (v ∷ queue) result
      → Within (get_parents bt v g) result
  unfolding get_parents linked_from
  popped-Within w degrees v queue result s a h = elim (Option-cases (lookup v g.vertices)) [
    | inl e ↦ ground (arith, s.absent v e, member_here v queue result)
    | inr (y, e) ↦
        let (d, at, sum, zeros) = s.present v y e in
        let zero_degree : d ≡ 0 = ground (arith, zeros, member_here v queue result) in
        let in_parents : member a y.parents ≡ true = ground (arith, e, h) in
        ground (
          arith,
          Within-back (linked_from bt g v result) y.parents
              (linked_from-IsDistinct bt g v result
                (append-IsDistinct bt g result (v ∷ queue) s.distinct))
              (linked_from-Within bt g w v y result e) (omega (arith, sum, zero_degree)) a
              in_parents,
          member-keep (λ b. member v (get_children bt b g)) a result,
        )
  ]

  pub IsCausalFrom-snoc :
      (before r : List ℕ) (v : ℕ)
      → IsCausalFrom before r
      → Within (get_parents bt v g) (before ++ r)
      → IsCausalFrom before (r ++ v ∷ [])
  unfolding IsCausalFrom
  IsCausalFrom-snoc before [] v c w = (λ a h. ground (arith, w a h, member-append a before []), tt)
  IsCausalFrom-snoc before (x ∷ r) v c w = (
    c.0,
    IsCausalFrom-snoc (before ++ x ∷ []) r v c.1 (λ a h. rw (append_cons before r x) (w a h)),
  )

  -- what stands in the result or in the queue is in the graph
  pub walked-Within :
      (degrees : Dict ℕ) (cs queue result : List ℕ)
      → IsWalk bt g degrees cs queue result
      → Within (result ++ queue) (keys g.vertices)
  walked-Within degrees cs queue result s a h = elim (Bool-cases (member a (keys g.vertices))) [
    | inl e ↦ e
    | inr e ↦ ground (arith, s.absent a (keys_absent a g.vertices e), h)
  ]

  pub length-keys : (d : Dict (FlowGraphVertex bt)) → length (keys d) ≡ length d
  length-keys [] = refl
  length-keys (e ∷ d) = ap suc (length-keys d)

  -- with a round for each batch that is not in the result, the walk comes to its end
  pub walk_ends :
      IsLinked bt g
      → (fuel : ℕ) (degrees : Dict ℕ) (queue result : List ℕ) → IsWalk bt g degrees [] queue result
      → IsCausalFrom [] result
      → length g.vertices ≤ fuel + length result
      → (r : List ℕ) × (degrees' : Dict ℕ) × (walk bt fuel g degrees queue result ≡ some r)
        × IsWalk bt g degrees' [] [] r
        × IsCausalFrom [] r
  unfolding walk
  walk_ends w fuel degrees [] result s c l = (result, degrees, refl, s, c)
  walk_ends w zero degrees (v ∷ queue) result s c l =
      let all =
        length-Within (result ++ v ∷ queue) (keys g.vertices) s.distinct
          (walked-Within degrees [] (v ∷ queue) result s) in
      ground (arith, all, length-keys g.vertices, length-append result (v ∷ queue))
  walk_ends w (suc fuel) degrees (v ∷ queue) result s c l =
      let (degrees', queue') = relax (get_children bt v g) degrees queue in
      walk_ends w fuel degrees' queue' (result ++ v ∷ [])
        (relax-IsWalk bt g w (get_children bt v g) degrees queue (result ++ v ∷ [])
          (w.children_distinct v) (pop-IsWalk degrees v queue result s))
        (IsCausalFrom-snoc [] result v c (popped-Within w degrees v queue result s))
        (omega (arith, l, length-append result (v ∷ [])))
