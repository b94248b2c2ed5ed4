-- ===== src/FlowGraph/Degree.antt =====
-- The degrees of `topological_sort` of src/flow_graph.rs: how a round over a batch's children keeps
-- each degree at the number of the parents that are not in the result.
use silver_consensus.Base.{
  ℕ, ◌+◌, ◌-◌, ◌≤◌, ◌<◌, ◌≡◌, refl, inl, inr, Bool, true, false, none, some, List, [], ◌∷◌, ◌++◌,
  ◌==◌, ◌||◌, if◌then◌else◌, length, member, keep, IsDistinct, arith, Within, length-Within,
  member-keep, IsDistinct-keep, member-append, IsDistinct-snoc, Bool-cases, Option-cases,
  eq_of_test, eq_refl,
}
use silver_consensus.Base.Word.{sub64, sub64_exact, u64_mod}
use silver_consensus.Base.Dict.{Dict, lookup, insert, keys, contains_key, lookup-insert}
use silver_consensus.Core.{BatchApi}
use silver_consensus.FlowGraph.{FlowGraph, FlowGraphVertex, get_children, get_parents}
use silver_consensus.FlowGraph.Sort.{relax}

-- one for a child that the round has still to go over
abbrev pub pending : ℕ → List ℕ → ℕ
pending c cs = if member c cs then 1 else 0

module _ (bt : BatchApi) where
  -- What the walk needs of a graph: no batch stands twice, a child stands once under a parent, is in
  -- the graph, and names the parent; and no batch has `u64::MAX` parents.
  pub record IsLinked (g : FlowGraph bt) : Type 0 where
    pub keys_distinct : IsDistinct (keys g.vertices)
    pub children_distinct : (v : ℕ) → IsDistinct (get_children bt v g)
    pub children_exist :
        (v c : ℕ) → member c (get_children bt v g) ≡ true → contains_key c g.vertices ≡ true
    pub linked :
        (v c : ℕ) → member c (get_children bt v g) ≡ true → member v (get_parents bt c g) ≡ true
    pub few_parents : (c : ℕ) → length (get_parents bt c g) + 1 < u64_mod

  module _ (g : FlowGraph bt) where
    -- the batches of the list that have the batch as a child
    unfoldable pub linked_from : ℕ → List ℕ → List ℕ
    linked_from c r = keep (λ v. member c (get_children bt v g)) r

    -- The state of the walk: the degree of a batch and the parents of it in the result make up its
    -- parents, and the batches of degree zero are those in the result or the queue, each once.
    pub record IsWalk (degrees : Dict ℕ) (cs queue result : List ℕ) : Type 0 where
      pub distinct : IsDistinct (result ++ queue)
      pub present :
          (c : ℕ) (y : FlowGraphVertex bt)
          → lookup c g.vertices ≡ some y
          → (d : ℕ) × (lookup c degrees ≡ some d)
            × (d + length (linked_from c result) ≡ length y.parents + pending c cs)
            × (member c (result ++ queue) ≡ (d == 0))
      pub absent :
          (c : ℕ)
          → lookup c g.vertices ≡ none
          → (lookup c degrees ≡ none) × (member c (result ++ queue) ≡ false)

    pub parents_found :
        (c : ℕ) (y : FlowGraphVertex bt)
        → lookup c g.vertices ≡ some y
        → get_parents bt c g ≡ y.parents
    unfolding get_parents
    parents_found c y e = rw (e, get_parents) refl

    pub linked_from-Within :
        IsLinked g
        → (c : ℕ) (y : FlowGraphVertex bt) (r : List ℕ) → lookup c g.vertices ≡ some y
        → Within (linked_from c r) y.parents
    unfolding linked_from
    linked_from-Within w c y r e a h =
        let child : member c (get_children bt a g) ≡ true =
          ground (arith, h, member-keep (λ v. member c (get_children bt v g)) a r) in
        ground (arith, w.linked a c child, parents_found c y e)

    pub linked_from-IsDistinct : (c : ℕ) (r : List ℕ) → IsDistinct r → IsDistinct (linked_from c r)
    unfolding linked_from
    linked_from-IsDistinct c r d = IsDistinct-keep (λ v. member c (get_children bt v g)) r d

    pub length-linked_from :
        IsLinked g
        → (c : ℕ) (y : FlowGraphVertex bt) (r : List ℕ) → lookup c g.vertices ≡ some y
        → IsDistinct r
        → length (linked_from c r) ≤ length y.parents
    length-linked_from w c y r e d =
        length-Within (linked_from c r) y.parents (linked_from-IsDistinct c r d)
          (linked_from-Within w c y r e)

    pub append-IsDistinct : (xs ys : List ℕ) → IsDistinct (xs ++ ys) → IsDistinct xs
    append-IsDistinct [] ys d = tt
    append-IsDistinct (x ∷ xs) ys d =
        ground (arith, append-IsDistinct xs ys d.1, member-append x xs ys, d.0)

    append_snoc : (xs ys : List ℕ) (a : ℕ) → xs ++ (ys ++ a ∷ []) ≡ (xs ++ ys) ++ a ∷ []
    append_snoc [] ys a = refl
    append_snoc (x ∷ xs) ys a = rw (append_snoc xs ys a) refl

    -- who is in the result or the queue after the child has joined it, or not
    member_joined :
        (t : Bool) (b c : ℕ) (queue result : List ℕ)
        → member b (result ++ (if t then queue ++ c ∷ [] else queue))
          ≡ (member b (result ++ queue) || (if t then b == c else false))
    member_joined true b c queue result =
        rw (append_snoc result queue c) (ground (arith, member-append b (result ++ queue) (c ∷ [])))
    member_joined false b c queue result = ground arith

    -- a child of no vertex is passed over
    skip-IsWalk :
        (degrees : Dict ℕ) (c : ℕ) (cs queue result : List ℕ)
        → lookup c g.vertices ≡ none
        → IsWalk degrees (c ∷ cs) queue result
        → IsWalk degrees cs queue result
    skip-IsWalk degrees c cs queue result e s = record {
      distinct = s.distinct;
      present = λ b y h.
          let (d, at, sum, zeros) = s.present b y h in
          (
            d,
            at,
            elim (Bool-cases (b == c)) [
              | inl q ↦ ground (arith, e, h, eq_of_test b c q)
              | inr q ↦ ground (arith, sum, q)
            ],
            zeros,
          );
      absent = s.absent;
    }

    -- the degree of a child that the round has still to go over
    degree_positive :
        IsLinked g
        → (degrees : Dict ℕ) (c d : ℕ) (y : FlowGraphVertex bt) (cs queue result : List ℕ)
        → lookup c g.vertices ≡ some y
        → lookup c degrees ≡ some d
        → IsWalk degrees (c ∷ cs) queue result
        → (1 ≤ d) × (sub64 d 1 ≡ d - 1) × (member c (result ++ queue) ≡ false)
    degree_positive w degrees c d y cs queue result e at s =
        let (d', at', sum, zeros) = s.present c y e in
        let few : length y.parents + 1 < u64_mod =
          ground (arith, w.few_parents c, parents_found c y e) in
        let bound = length-linked_from w c y result e (append-IsDistinct result queue s.distinct) in
        let same : d ≡ d' = ground (arith, at, at') in
        let total : d' + length (linked_from c result) ≡ length y.parents + 1 =
          ground (arith, sum, eq_refl c) in
        let positive : 1 ≤ d = omega (arith, same, total, bound) in
        (
          positive,
          sub64_exact d 1 positive (omega (arith, same, total, few)),
          ground (arith, zeros, positive, same),
        )

    -- a child that has a degree loses one, and joins the queue at zero
    lower-IsWalk :
        IsLinked g
        → (degrees : Dict ℕ) (c d : ℕ) (y : FlowGraphVertex bt) (cs queue result : List ℕ)
        → lookup c g.vertices ≡ some y
        → lookup c degrees ≡ some d
        → IsDistinct (c ∷ cs)
        → IsWalk degrees (c ∷ cs) queue result
        → IsWalk
            (insert c (sub64 d 1) degrees)
            cs
            (if sub64 d 1 == 0 then queue ++ c ∷ [] else queue)
            result
    lower-IsWalk w degrees c d y cs queue result e at u s =
        let (positive, exact, fresh) = degree_positive w degrees c d y cs queue result e at s in
        rw exact record {
          distinct = elim (Bool-cases (d - 1 == 0)) [
            | inl q ↦
                rw (q, append_snoc result queue c)
                  (IsDistinct-snoc c (result ++ queue) s.distinct fresh)
            | inr q ↦ rw q s.distinct
          ];
          present = λ b y' h. elim (Bool-cases (b == c)) [
            | inl q ↦
                let (d', at', sum, _) = s.present b y' h in
                let same : d ≡ d' = ground (arith, at, at', eq_of_test b c q) in
                (
                  d - 1,
                  ground (arith, lookup-insert c b (d - 1) degrees, q),
                  ground (arith, sum, same, positive, q, eq_of_test b c q, u.0),
                  ground (
                    arith,
                    member_joined (d - 1 == 0) b c queue result,
                    q,
                    fresh,
                    eq_of_test b c q,
                  ),
                )
            | inr q ↦
                let (d', at', sum, zeros) = s.present b y' h in
                (
                  d',
                  ground (arith, lookup-insert c b (d - 1) degrees, q, at'),
                  ground (arith, sum, q),
                  ground (arith, member_joined (d - 1 == 0) b c queue result, q, zeros),
                )
          ];
          absent = λ b h.
              let away = s.absent b h in
              let apart : (b == c) ≡ false = elim (Bool-cases (b == c)) [
                | inl q ↦ ground (arith, e, h, eq_of_test b c q)
                | inr q ↦ q
              ] in
              (
                ground (arith, lookup-insert c b (d - 1) degrees, apart, away.0),
                ground (arith, member_joined (d - 1 == 0) b c queue result, apart, away.1),
              );
        }

    pub relax-IsWalk :
        IsLinked g
        → (cs : List ℕ) (degrees : Dict ℕ) (queue result : List ℕ) → IsDistinct cs
        → IsWalk degrees cs queue result
        → let (degrees', queue') = relax cs degrees queue in IsWalk degrees' [] queue' result
    unfolding relax
    relax-IsWalk w [] degrees queue result u s = s
    relax-IsWalk w (c ∷ cs) degrees queue result u s = elim (Option-cases (lookup c g.vertices)) [
      | inl e ↦
          rw ((s.absent c e).0, relax)
            (relax-IsWalk w cs degrees queue result u.1 (skip-IsWalk degrees c cs queue result e s))
      | inr (y, e) ↦
          let (d, at, _, _) = s.present c y e in
          rw (at, relax)
            (relax-IsWalk w cs (insert c (sub64 d 1) degrees)
              (if sub64 d 1 == 0 then queue ++ c ∷ [] else queue) result u.1
              (lower-IsWalk w degrees c d y cs queue result e at u s))
    ]
