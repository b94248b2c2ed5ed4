-- ===== src/FlowGraph/Agreement.antt =====
-- `get_consensus_order` of src/flow_graph.rs: the order by identifier, over two orders of arrival.
use silver_consensus.Base.{
  ℕ, ◌<◌, ◌≡◌, refl, sym, ◌∙◌, inl, inr, true, false, some, List, [], ◌∷◌, ◌==◌, ◌||◌, leb, member,
  IsDistinct, All, arith, Bool-cases, Option-cases, eq_of_test, eq_refl,
}
use silver_consensus.Base.Dict.{lookup}
use silver_consensus.Base.Outcome.{ok}
use silver_consensus.Core.{BatchApi}
use silver_consensus.FlowGraph.{FlowGraph, new, get_batch, contains_batch}
use silver_consensus.FlowGraph.Sort.{
  insert_sorted, sort_ids, topological_sort, collect_batches, get_consensus_order,
}
use silver_consensus.FlowGraph.Calls.{Call, run, IsFew, IsOrderly}
use silver_consensus.FlowGraph.Order.{IsOrder, sort-IsOrder, orderly_sort, run-new-IsLinked}

-- each element is below all that follow
abbrev IsAscending : List ℕ → Type 0
IsAscending [] = Unit
IsAscending (x ∷ xs) = ((b : ℕ) → member b xs ≡ true → x < b) × IsAscending xs

member-insert_sorted :
    (b a : ℕ) (xs : List ℕ) → member b (insert_sorted a xs) ≡ (b == a || member b xs)
unfolding insert_sorted
member-insert_sorted b a [] = refl
member-insert_sorted b a (x ∷ xs) = ground (arith, member-insert_sorted b a xs)

member-sort_ids : (b : ℕ) (xs : List ℕ) → member b (sort_ids xs) ≡ member b xs
unfolding sort_ids
member-sort_ids b [] = refl
member-sort_ids b (x ∷ xs) =
    ground (arith, member-insert_sorted b x (sort_ids xs), member-sort_ids b xs)

insert_sorted-IsAscending :
    (a : ℕ) (xs : List ℕ) → member a xs ≡ false → IsAscending xs → IsAscending (insert_sorted a xs)
unfolding insert_sorted
insert_sorted-IsAscending a [] n s = ((λ b h. cc), tt)
insert_sorted-IsAscending a (x ∷ xs) n s = elim (Bool-cases (leb a x)) [
  | inl e ↦ rw (e, insert_sorted) ((λ b h. ground (arith, h, s.0 b, n, e, eq_of_test b x)), s)
  | inr e ↦
      rw (e, insert_sorted)
        (
          (λ b h. ground (arith, h, member-insert_sorted b a xs, s.0 b, e, eq_of_test b a)),
          insert_sorted-IsAscending a xs (ground (arith, n)) s.1,
        )
]

sort_ids-IsAscending : (xs : List ℕ) → IsDistinct xs → IsAscending (sort_ids xs)
unfolding sort_ids
sort_ids-IsAscending [] d = tt
sort_ids-IsAscending (x ∷ xs) d =
    insert_sorted-IsAscending x (sort_ids xs) (member-sort_ids x xs ∙ d.0)
      (sort_ids-IsAscending xs d.1)

-- ascending lists with the same elements are the same
ascending_unique :
    (xs ys : List ℕ)
    → IsAscending xs
    → IsAscending ys
    → ((b : ℕ) → member b xs ≡ member b ys)
    → xs ≡ ys
ascending_unique [] [] s t m = refl
ascending_unique [] (y ∷ ys) s t m = ground (arith, m y, eq_refl y)
ascending_unique (x ∷ xs) [] s t m = ground (arith, m x, eq_refl x)
ascending_unique (x ∷ xs) (y ∷ ys) s t m =
    let same : x ≡ y = ground (arith, m x, m y, s.0 y, t.0 x, eq_refl x, eq_refl y) in
    let rest : (b : ℕ) → member b xs ≡ member b ys =
      λ b. ground (arith, m b, s.0 b, t.0 b, same, eq_of_test b x) in
    rw (same, ascending_unique xs ys s.1 t.1 rest) refl

module _ (bt : BatchApi) where
  collect_batches-same :
      (g g' : FlowGraph bt) (ks : List ℕ)
      → ((k : ℕ) → get_batch bt k g ≡ get_batch bt k g')
      → collect_batches bt ks g ≡ collect_batches bt ks g'
  unfolding collect_batches
  collect_batches-same g g' [] f = refl
  collect_batches-same g g' (k ∷ ks) f = ground (arith, f k, collect_batches-same g g' ks f)

  contains_batch-same :
      (g g' : FlowGraph bt) (k : ℕ)
      → get_batch bt k g ≡ get_batch bt k g'
      → contains_batch bt k g ≡ contains_batch bt k g'
  unfolding contains_batch get_batch
  contains_batch-same g g' k f = elim (Option-cases (lookup k g.vertices)) [
    | inl e ↦ elim (Option-cases (lookup k g'.vertices)) [
      | inl e' ↦ ground (arith, e, e')
      | inr (x', e') ↦ ground (arith, f, e, e')
    ]
    | inr (x, e) ↦ elim (Option-cases (lookup k g'.vertices)) [
      | inl e' ↦ ground (arith, f, e, e')
      | inr (x', e') ↦ ground (arith, e, e')
    ]
  ]

  -- whole orders of graphs with the same batches are the same once sorted
  sorted_same :
      (g g' : FlowGraph bt) (r r' : List ℕ)
      → IsOrder bt g r
      → IsOrder bt g' r'
      → ((k : ℕ) → get_batch bt k g ≡ get_batch bt k g')
      → sort_ids r ≡ sort_ids r'
  sorted_same g g' r r' o o' f =
      ascending_unique (sort_ids r) (sort_ids r') (sort_ids-IsAscending r o.once)
        (sort_ids-IsAscending r' o'.once)
        (λ b.
          member-sort_ids b r
          ∙ o.whole b
          ∙ contains_batch-same g g' b (f b)
          ∙ sym (o'.whole b)
          ∙ sym (member-sort_ids b r'))

  sorted-IsOrder :
      (cs : List (Call bt))
      → All (IsFew bt) cs
      → IsOrderly bt cs (new bt)
      → (r : List ℕ) × (topological_sort bt (run bt cs (new bt)) ≡ some (ok r))
        × IsOrder bt (run bt cs (new bt)) r
  sorted-IsOrder cs few o =
      let (r, e) = orderly_sort bt cs few o in
      elim (sort-IsOrder bt (run bt cs (new bt)) (run-new-IsLinked bt cs few)) [
        | inl e' ↦ ground (arith, e, e')
        | inr found ↦ found
      ]

  -- Two graphs that hold the same batches, each made by calls on a new graph that add a batch after
  -- its parents, which it names once, that prune nothing, and whose batches have fewer than u64::MAX
  -- parents, have the same consensus order, whatever the order of arrival was.
  pub consensus_agreement :
      (cs cs' : List (Call bt))
      → All (IsFew bt) cs
      → All (IsFew bt) cs'
      → IsOrderly bt cs (new bt)
      → IsOrderly bt cs' (new bt)
      → ((k : ℕ) → get_batch bt k (run bt cs (new bt)) ≡ get_batch bt k (run bt cs' (new bt)))
      → (order : List bt.Batch) × (get_consensus_order bt (run bt cs (new bt)) ≡ some (ok order))
        × (get_consensus_order bt (run bt cs' (new bt)) ≡ some (ok order))
  unfolding get_consensus_order
  consensus_agreement cs cs' few few' o o' f =
      let g = run bt cs (new bt) in
      let g' = run bt cs' (new bt) in
      let (r, e, whole) = sorted-IsOrder cs few o in
      let (r', e', whole') = sorted-IsOrder cs' few' o' in
      (
        collect_batches bt (sort_ids r) g,
        rw (e, get_consensus_order) refl,
        rw
            (
              e',
              get_consensus_order,
              sorted_same g g' r r' whole whole' f,
              collect_batches-same g g' (sort_ids r') f,
            )
            refl,
      )
