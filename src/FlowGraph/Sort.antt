-- ===== src/FlowGraph/Sort.antt =====
-- `topological_sort`, `get_consensus_order` and `get_certified_batches` of src/flow_graph.rs.
-- `usize` is `u64`, and `-=` wraps.
use silver_consensus.Base.{
  ℕ, zero, suc, Bool, false, Option, none, some, List, [], ◌∷◌, ◌++◌, ◌==◌, leb, if◌then◌else◌,
  length, is_empty, keep,
}
use silver_consensus.Base.Word.{sub64}
use silver_consensus.Base.Dict.{Dict, lookup, insert}
use silver_consensus.Base.Outcome.{Result, ok, err}
use silver_consensus.Core.{BatchApi}
use silver_consensus.FlowGraph.{
  FlowGraphVertex, FlowGraph, FlowError, cycle_detected, get_children, get_batch, is_certified,
}

-- The loop over the children of a batch: each that has a degree loses one, and joins the queue at
-- zero. The result is the degrees and the queue.
unfoldable pub relax : List ℕ → Dict ℕ → List ℕ → Dict ℕ × List ℕ
relax [] degrees queue = (degrees, queue)
relax (c ∷ cs) degrees queue = elim (lookup c degrees) [
  | none ↦ relax cs degrees queue
  | some d ↦
      let degree = sub64 d 1 in
      relax cs (insert c degree degrees) (if degree == 0 then queue ++ c ∷ [] else queue)
]

-- `sort_by` on identifiers, by insertion
unfoldable pub insert_sorted : ℕ → List ℕ → List ℕ
insert_sorted a [] = a ∷ []
insert_sorted a (x ∷ xs) = if leb a x then a ∷ x ∷ xs else x ∷ insert_sorted a xs

unfoldable pub sort_ids : List ℕ → List ℕ
sort_ids [] = []
sort_ids (x ∷ xs) = insert_sorted x (sort_ids xs)

module _ (bt : BatchApi) where
  unfoldable pub in_degrees : Dict (FlowGraphVertex bt) → Dict ℕ
  in_degrees [] = []
  in_degrees ((k, v) ∷ d) = (k, length v.parents) ∷ in_degrees d

  -- the batches with no parents
  unfoldable pub ready : Dict (FlowGraphVertex bt) → List ℕ
  ready [] = []
  ready ((k, v) ∷ d) = let rest = ready d in if is_empty v.parents then k ∷ rest else rest

  -- The loop over the queue, on fuel: nothing, where it has not ended.
  unfoldable pub walk : ℕ → FlowGraph bt → Dict ℕ → List ℕ → List ℕ → Option (List ℕ)
  walk fuel g degrees [] result = some result
  walk zero g degrees (v ∷ queue) result = none
  walk (suc fuel) g degrees (v ∷ queue) result =
      let (degrees', queue') = relax (get_children bt v g) degrees queue in
      walk fuel g degrees' queue' (result ++ v ∷ [])

  -- a round for each batch is enough
  unfoldable pub topological_sort : FlowGraph bt → Option (Result FlowError (List ℕ))
  topological_sort g =
      elim (walk (length g.vertices) g (in_degrees g.vertices) (ready g.vertices) []) [
        | none ↦ none
        | some result ↦
            if length result == length g.vertices
            then some (ok result)
            else some (err cycle_detected)
      ]

  unfoldable pub collect_batches : List ℕ → FlowGraph bt → List bt.Batch
  collect_batches [] g = []
  collect_batches (k ∷ ks) g =
      let rest = collect_batches ks g in elim (get_batch bt k g) [ none ↦ rest | some b ↦ b ∷ rest ]

  unfoldable pub get_consensus_order : FlowGraph bt → Option (Result FlowError (List bt.Batch))
  get_consensus_order g = elim (topological_sort g) [
    | none ↦ none
    | some (err e) ↦ some (err e)
    | some (ok sorted_ids) ↦ some (ok (collect_batches (sort_ids sorted_ids) g))
  ]

  -- whether the vertex of the batch has a certificate
  unfoldable pub has_certificate : FlowGraph bt → bt.Batch → Bool
  has_certificate g batch = elim (lookup (bt.batch_id batch) g.vertices) [
    | none ↦ false
    | some v ↦ is_certified bt v
  ]

  unfoldable pub get_certified_batches : FlowGraph bt → Option (Result FlowError (List bt.Batch))
  get_certified_batches g = elim (get_consensus_order g) [
    | none ↦ none
    | some (err e) ↦ some (err e)
    | some (ok batches) ↦ some (ok (keep (has_certificate g) batches))
  ]
