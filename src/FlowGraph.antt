-- ===== src/FlowGraph.antt =====
-- `FlowGraphVertex` and `FlowGraph` of src/flow_graph.rs: the state, its changes and its reads. A
-- certificate is only stored, so it is a number. The sets of roots and of tips are lists.
mod Sort
mod Stats
mod Degree
mod Walk
mod Growth
mod Placement
mod Grown
mod Calls
mod Causal
mod Order
mod Agreement
mod Examples
use silver_consensus.Base.{
  ℕ, ◌-◌, Bool, true, false, Option, none, some, List, [], ◌∷◌, ◌++◌, not, ◌&&◌, ◌==◌, ltb,
  if◌then◌else◌, length, is_empty, member, keep, take, pop_front,
}
use silver_consensus.Base.Dict.{Dict, lookup, contains_key, insert, remove, keys}
use silver_consensus.Base.Outcome.{Result, ok, err}
use silver_consensus.Core.{BatchApi}

pub data FlowError : Type 0 where
  duplicate_batch invalid_batch batch_not_found cycle_detected : FlowError

-- `max_propagation_history`
abbrev pub max_propagation_history : ℕ
max_propagation_history = 1000

-- `HashSet::insert` and `HashSet::remove`
abbrev pub set_insert : ℕ → List ℕ → List ℕ
set_insert a xs = if member a xs then xs else xs ++ a ∷ []

abbrev pub set_remove : ℕ → List ℕ → List ℕ
set_remove a xs = keep (λ x. not (x == a)) xs

-- the last `max_propagation_history` times
abbrev pub record_time : ℕ → List ℕ → List ℕ
record_time t times =
    let longer = times ++ t ∷ [] in
    if ltb max_propagation_history (length longer) then pop_front longer else longer

module _ (bt : BatchApi) where
  pub record FlowGraphVertex : Type 0 where
    pub batch : bt.Batch
    pub certificate : Option ℕ
    pub parents : List ℕ
    pub children : List ℕ
    pub added_at : ℕ
    pub finalized : Bool

  pub record FlowGraph : Type 0 where
    pub vertices : Dict FlowGraphVertex
    pub roots : List ℕ
    pub tips : List ℕ
    pub propagation_times : List ℕ

  -- `FlowGraphVertex::new`
  unfoldable pub vertex : bt.Batch → ℕ → FlowGraphVertex
  vertex batch now = record {
    batch = batch;
    certificate = none;
    parents = bt.previous_batches batch;
    children = [];
    added_at = now;
    finalized = false;
  }

  unfoldable pub is_certified : FlowGraphVertex → Bool
  is_certified v = elim v.certificate [ none ↦ false | some _ ↦ true ]

  unfoldable pub add_child : ℕ → FlowGraphVertex → FlowGraphVertex
  add_child child_id v =
      if member child_id v.children then v else record v { children = v.children ++ child_id ∷ [] }

  unfoldable pub new : FlowGraph
  new = record { vertices = []; roots = []; tips = []; propagation_times = [] }

  -- one round of the loop over the parents: the child is noted, and the parent is no tip
  unfoldable pub link_parent : ℕ → ℕ → FlowGraph → FlowGraph
  link_parent batch_id parent_id g = elim (lookup parent_id g.vertices) [
    | none ↦ g
    | some p ↦ record g {
      vertices = insert parent_id (add_child batch_id p) g.vertices;
      tips = set_remove parent_id g.tips;
    }
  ]

  unfoldable pub link_parents : ℕ → List ℕ → FlowGraph → FlowGraph
  link_parents batch_id [] g = g
  link_parents batch_id (p ∷ ps) g = link_parents batch_id ps (link_parent batch_id p g)

  -- the accepting branch. `now` and `later` are the two times that it reads.
  unfoldable pub place_batch : bt.Batch → ℕ → ℕ → FlowGraph → FlowGraph
  place_batch batch now later g =
      let batch_id = bt.batch_id batch in
      let parents = bt.previous_batches batch in
      let added = record g { vertices = insert batch_id (vertex batch now) g.vertices } in
      let linked = link_parents batch_id parents added in
      record linked {
        roots = if is_empty parents then set_insert batch_id linked.roots else linked.roots;
        tips = set_insert batch_id linked.tips;
        propagation_times = record_time (later - now) linked.propagation_times;
      }

  unfoldable pub add_batch : bt.Batch → ℕ → ℕ → FlowGraph → Result FlowError (Unit {0}) × FlowGraph
  add_batch batch now later g =
      if contains_key (bt.batch_id batch) g.vertices
      then (err duplicate_batch, g)
      else if bt.is_valid batch
      then (ok tt, place_batch batch now later g)
      else (err invalid_batch, g)

  unfoldable pub get_batch : ℕ → FlowGraph → Option bt.Batch
  get_batch batch_id g = elim (lookup batch_id g.vertices) [ none ↦ none | some v ↦ some v.batch ]

  unfoldable pub contains_batch : ℕ → FlowGraph → Bool
  contains_batch batch_id g = contains_key batch_id g.vertices

  unfoldable pub get_certificate : ℕ → FlowGraph → Option ℕ
  get_certificate batch_id g = elim (lookup batch_id g.vertices) [
    | none ↦ none
    | some v ↦ v.certificate
  ]

  unfoldable pub set_certificate : ℕ → ℕ → FlowGraph → Result FlowError (Unit {0}) × FlowGraph
  set_certificate batch_id certificate g = elim (lookup batch_id g.vertices) [
    | none ↦ (err batch_not_found, g)
    | some v ↦
        let certified = record v { certificate = some certificate } in
        (ok tt, record g { vertices = insert batch_id certified g.vertices })
  ]

  unfoldable pub mark_finalized : ℕ → FlowGraph → Result FlowError (Unit {0}) × FlowGraph
  mark_finalized batch_id g = elim (lookup batch_id g.vertices) [
    | none ↦ (err batch_not_found, g)
    | some v ↦
        let final = record v { finalized = true } in
        (ok tt, record g { vertices = insert batch_id final g.vertices })
  ]

  abbrev pub get_roots : FlowGraph → List ℕ
  get_roots g = g.roots

  abbrev pub get_tips : FlowGraph → List ℕ
  get_tips g = g.tips

  unfoldable pub get_latest_batch_ids : ℕ → FlowGraph → List ℕ
  get_latest_batch_ids limit g = take limit g.tips

  unfoldable pub get_children : ℕ → FlowGraph → List ℕ
  get_children batch_id g = elim (lookup batch_id g.vertices) [ none ↦ [] | some v ↦ v.children ]

  unfoldable pub get_parents : ℕ → FlowGraph → List ℕ
  get_parents batch_id g = elim (lookup batch_id g.vertices) [ none ↦ [] | some v ↦ v.parents ]

  -- the batches that `prune_old_batches` removes
  unfoldable pub stale : ℕ → ℕ → Dict FlowGraphVertex → List ℕ
  stale now retention [] = []
  stale now retention ((k, v) ∷ d) =
      let rest = stale now retention d in
      if v.finalized && ltb retention (now - v.added_at) then k ∷ rest else rest

  unfoldable pub drop_batches : List ℕ → FlowGraph → FlowGraph
  drop_batches [] g = g
  drop_batches (k ∷ ks) g = drop_batches ks (record g {
    vertices = remove k g.vertices;
    roots = set_remove k g.roots;
    tips = set_remove k g.tips;
  })

  unfoldable pub prune_old_batches : ℕ → ℕ → FlowGraph → ℕ × FlowGraph
  prune_old_batches now retention g =
      let to_remove = stale now retention g.vertices in (length to_remove, drop_batches to_remove g)

  unfoldable pub clear : FlowGraph → FlowGraph
  clear g = record { vertices = []; roots = []; tips = []; propagation_times = [] }

  unfoldable pub len : FlowGraph → ℕ
  len g = length g.vertices
