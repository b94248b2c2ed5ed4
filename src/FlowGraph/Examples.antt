-- ===== src/FlowGraph/Examples.antt =====
-- Runs of the flow graph of src/flow_graph.rs, and instances of its theorems.
use silver_consensus.Base.{
  ℕ, ◌≡◌, refl, ◌⊎◌, true, false, some, List, [], ◌∷◌, All, IsDistinct, Within, arith, member,
}
use silver_consensus.Base.Word.{sub64}
use silver_consensus.Base.Outcome.{ok, err}
use silver_consensus.Core.Plain.{PlainBatch, plain_batches}
use silver_consensus.FlowGraph.{
  FlowGraph, new, vertex, add_child, add_batch, place_batch, link_parents, link_parent, get_batch,
  get_children, get_parents, prune_old_batches, stale, drop_batches, clear, len, is_certified,
  contains_batch, cycle_detected, duplicate_batch, set_certificate, mark_finalized,
}
use silver_consensus.FlowGraph.Stats.{stats, tally}
use silver_consensus.FlowGraph.Sort.{
  relax, in_degrees, ready, walk, topological_sort, insert_sorted, sort_ids, collect_batches,
  get_consensus_order, has_certificate, get_certified_batches,
}
use silver_consensus.FlowGraph.Walk.{IsCausalFrom}
use silver_consensus.FlowGraph.Calls.{Call, add, certify, apply, run, IsFew, IsInOrder, IsOrderly}
use silver_consensus.FlowGraph.Order.{topological_sort_lem, orderly_sort, unlinked_parent}
use silver_consensus.FlowGraph.Agreement.{consensus_agreement}

abbrev batch : ℕ → List ℕ → PlainBatch
batch id previous = record { id = id; previous = previous }

abbrev Step : Type 0
Step = Call plain_batches

-- batch 7 follows batch 1, and batch 3 follows both
abbrev arrivals : List Step
arrivals =
    add (batch 1 []) 0 0
    ∷ add (batch 7 (1 ∷ [])) 1 1
    ∷ add (batch 3 (1 ∷ 7 ∷ [])) 2 2
    ∷ certify 7 9
    ∷ []

-- the child came before its parent
abbrev late_parent : List Step
late_parent = add (batch 2 (1 ∷ [])) 0 0 ∷ add (batch 1 []) 1 1 ∷ []

-- two children of batch 1, in one order and in the other
abbrev one_way : List Step
one_way = add (batch 1 []) 0 0 ∷ add (batch 5 (1 ∷ [])) 1 1 ∷ add (batch 2 (1 ∷ [])) 1 1 ∷ []

abbrev other_way : List Step
other_way = add (batch 1 []) 0 0 ∷ add (batch 2 (1 ∷ [])) 1 1 ∷ add (batch 5 (1 ∷ [])) 1 1 ∷ []

abbrev graph : List Step → FlowGraph plain_batches
graph cs = run plain_batches cs (new plain_batches)

-- what a run unfolds
abbrev runs : Unit {0}
unfolding run apply sub64 new vertex add_child add_batch place_batch link_parents link_parent clear
    set_certificate mark_finalized relax in_degrees ready walk topological_sort get_children
    insert_sorted sort_ids collect_batches get_batch get_consensus_order has_certificate
    get_certified_batches is_certified get_parents contains_batch len stale drop_batches
    prune_old_batches
runs = tt

sorts_in_order : topological_sort plain_batches (graph arrivals) ≡ some (ok (1 ∷ 7 ∷ 3 ∷ []))
sorts_in_order = unfold runs in refl

-- the order by identifier puts batch 3 before its parent 7
order_by_id :
    get_consensus_order plain_batches (graph arrivals)
    ≡ some (ok (batch 1 [] ∷ batch 3 (1 ∷ 7 ∷ []) ∷ batch 7 (1 ∷ []) ∷ []))
order_by_id = unfold runs in refl

certified_only :
    get_certified_batches plain_batches (graph arrivals) ≡ some (ok (batch 7 (1 ∷ []) ∷ []))
certified_only = unfold runs in refl

counts : (stats plain_batches (graph arrivals)).pending_batches ≡ 2
unfolding stats tally
counts = unfold runs in refl

refuses_duplicate :
    add_batch plain_batches (batch 7 []) 3 3 (graph arrivals)
    ≡ (err duplicate_batch, graph arrivals)
refuses_duplicate = unfold runs in refl

arrivals-IsFew : All (IsFew plain_batches) arrivals
unfolding IsFew
arrivals-IsFew = (omega arith, (omega arith, (omega arith, (tt, tt))))

late_parent-IsFew : All (IsFew plain_batches) late_parent
unfolding IsFew
late_parent-IsFew = (omega arith, (omega arith, tt))

one_way-IsFew : All (IsFew plain_batches) one_way
unfolding IsFew
one_way-IsFew = (omega arith, (omega arith, (omega arith, tt)))

other_way-IsFew : All (IsFew plain_batches) other_way
unfolding IsFew
other_way-IsFew = (omega arith, (omega arith, (omega arith, tt)))

no_parents : (ys : List ℕ) → Within [] ys
no_parents ys a h = cc

arrivals-IsOrderly : IsOrderly plain_batches arrivals (new plain_batches)
unfolding IsOrderly IsInOrder
arrivals-IsOrderly =
    unfold runs in
    ((tt, no_parents []), (((refl, tt), λ a h. h), (((refl, (refl, tt)), λ a h. h), (tt, tt))))

one_way-IsOrderly : IsOrderly plain_batches one_way (new plain_batches)
unfolding IsOrderly IsInOrder
one_way-IsOrderly =
    unfold runs in
    ((tt, no_parents []), (((refl, tt), λ a h. h), (((refl, tt), λ a h. ground (arith, h)), tt)))

other_way-IsOrderly : IsOrderly plain_batches other_way (new plain_batches)
unfolding IsOrderly IsInOrder
other_way-IsOrderly =
    unfold runs in
    ((tt, no_parents []), (((refl, tt), λ a h. h), (((refl, tt), λ a h. ground (arith, h)), tt)))

late_found : contains_batch plain_batches 2 (graph late_parent) ≡ true
late_found = unfold runs in refl

late_names : member 1 (get_parents plain_batches 2 (graph late_parent)) ≡ true
late_names = unfold runs in refl

late_unlinked : member 2 (get_children plain_batches 1 (graph late_parent)) ≡ false
late_unlinked = unfold runs in refl

ways_same :
    (k : ℕ)
    → get_batch plain_batches k (graph one_way) ≡ get_batch plain_batches k (graph other_way)
ways_same k = unfold runs in ground arith

topological_sort_lem_example :
    (topological_sort plain_batches (graph arrivals) ≡ some (err cycle_detected))
    ⊎ ((r : List ℕ) × (topological_sort plain_batches (graph arrivals) ≡ some (ok r))
        × IsDistinct r
        × ((a : ℕ) → member a r ≡ contains_batch plain_batches a (graph arrivals))
        × IsCausalFrom plain_batches (graph arrivals) [] r)
topological_sort_lem_example = topological_sort_lem plain_batches arrivals arrivals-IsFew

orderly_sort_example :
    (r : List ℕ) × (topological_sort plain_batches (graph arrivals) ≡ some (ok r))
orderly_sort_example = orderly_sort plain_batches arrivals arrivals-IsFew arrivals-IsOrderly

unlinked_parent_example :
    topological_sort plain_batches (graph late_parent) ≡ some (err cycle_detected)
unlinked_parent_example =
    unlinked_parent plain_batches late_parent 2 1 late_parent-IsFew late_found late_names
      late_unlinked

consensus_agreement_example :
    (order : List PlainBatch) × (get_consensus_order plain_batches (graph one_way)
      ≡ some (ok order))
    × (get_consensus_order plain_batches (graph other_way) ≡ some (ok order))
consensus_agreement_example =
    consensus_agreement plain_batches one_way other_way one_way-IsFew other_way-IsFew
      one_way-IsOrderly other_way-IsOrderly ways_same
