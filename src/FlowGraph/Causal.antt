-- ===== src/FlowGraph/Causal.antt =====
-- What `topological_sort` of src/flow_graph.rs returns for a graph that was built by calls.
use silver_consensus.Base.{
  ℕ, ◌≡◌, refl, ap, inl, inr, true, some, List, [], ◌∷◌, ◌++◌, ◌==◌, length, member, arith, Within,
  Within-back, length-Within, member-append, member-keep, Bool-cases, Option-cases, eq_of_test,
  eq_refl,
}
use silver_consensus.Base.Dict.{Dict, lookup, keys, contains_key, member-keys-lookup}
use silver_consensus.Core.{BatchApi}
use silver_consensus.FlowGraph.{FlowGraph, get_children, get_parents}
use silver_consensus.FlowGraph.Sort.{in_degrees, ready, walk}
use silver_consensus.FlowGraph.Degree.{
  IsLinked, IsWalk, linked_from, linked_from-IsDistinct, linked_from-Within, append-IsDistinct,
  parents_found,
}
use silver_consensus.FlowGraph.Walk.{IsCausalFrom, start-IsWalk, walk_ends}
use silver_consensus.FlowGraph.Grown.{IsGrown}

module _ (bt : BatchApi) (g : FlowGraph bt) (w : IsLinked bt g) where
  -- the walk's result, with the degrees that it leaves
  pub walked :
      (r : List ℕ) × (degrees : Dict ℕ) × (walk bt
          (length g.vertices)
          g
          (in_degrees bt g.vertices)
          (ready bt g.vertices)
          []
        ≡ some r)
      × IsWalk bt g degrees [] [] r
      × IsCausalFrom bt g [] r
  unfolding IsCausalFrom
  walked =
      walk_ends bt g w (length g.vertices) (in_degrees bt g.vertices) (ready bt g.vertices) []
        (start-IsWalk bt g w) tt (omega arith)

  pub append_none : (xs : List ℕ) → xs ++ [] ≡ xs
  append_none [] = refl
  append_none (x ∷ xs) = ap (λ ys. x ∷ ys) (append_none xs)

  -- a batch of the result has a child link from each of its parents
  pub result_linked :
      (degrees : Dict ℕ) (r : List ℕ) (c p : ℕ)
      → IsWalk bt g degrees [] [] r
      → member c r ≡ true
      → member p (get_parents bt c g) ≡ true
      → member c (get_children bt p g) ≡ true
  unfolding linked_from get_parents
  result_linked degrees r c p s m h = elim (Option-cases (lookup c g.vertices)) [
    | inl e ↦ ground (arith, h, e)
    | inr (y, e) ↦
        let (d, at, sum, zeros) = s.present c y e in
        let none_left : d ≡ 0 = ground (arith, zeros, m, append_none r) in
        let parent : member p y.parents ≡ true = ground (arith, h, e) in
        ground (
          arith,
          Within-back (linked_from bt g c r) y.parents
              (linked_from-IsDistinct bt g c r (append-IsDistinct bt g r [] s.distinct))
              (linked_from-Within bt g w c y r e) (omega (arith, sum, none_left)) p parent,
          member-keep (λ v. member c (get_children bt v g)) p r,
        )
  ]

  -- a batch whose parents are all in the result, and know it, is in the result
  next-member :
      (degrees : Dict ℕ) (r : List ℕ) (c : ℕ)
      → IsWalk bt g degrees [] [] r
      → IsGrown bt g
      → contains_key c g.vertices ≡ true
      → Within (get_parents bt c g) r
      → member c r ≡ true
  unfolding linked_from
  next-member degrees r c s grown k m = elim (Option-cases (lookup c g.vertices)) [
    | inl e ↦ ground (arith, k, e)
    | inr (y, e) ↦
        let (d, at, sum, zeros) = s.present c y e in
        let here = parents_found bt g c y e in
        let all : Within (get_parents bt c g) (linked_from bt g c r) = λ a h.
          ground (
            arith,
            m a h,
            grown.back c a h,
            member-keep (λ v. member c (get_children bt v g)) a r,
          ) in
        let enough =
          length-Within (get_parents bt c g) (linked_from bt g c r) (grown.parents_distinct c)
            all in
        let none_left : d ≡ 0 = omega (arith, sum, enough, ap length here) in
        ground (arith, zeros, none_left, append_none r)
  ]

  pub all-member :
      (degrees : Dict ℕ) (r before ks : List ℕ)
      → IsWalk bt g degrees [] [] r
      → IsGrown bt g
      → Within before r
      → Within ks (keys g.vertices)
      → IsCausalFrom bt g before ks
      → Within ks r
  unfolding IsCausalFrom
  all-member degrees r before [] s grown b k c a h = cc
  all-member degrees r before (x ∷ ks) s grown b k c a h =
      let here : member x r ≡ true =
        next-member degrees r x s grown
          (ground (arith, k x (ground (arith, eq_refl x)), member-keys-lookup x g.vertices))
          (λ p m. b p (c.0 p m)) in
      elim (Bool-cases (a == x)) [
        | inl q ↦ ground (arith, here, eq_of_test a x q)
        | inr q ↦
            all-member degrees r (before ++ x ∷ []) ks s grown
              (λ p m. ground (arith, m, member-append p before (x ∷ []), b p, here, eq_of_test p x))
              (λ p m. k p (ground (arith, m))) c.1 a (ground (arith, h, q))
      ]
