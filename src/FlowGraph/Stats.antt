-- ===== src/FlowGraph/Stats.antt =====
-- `FlowGraph::stats` of src/flow_graph.rs, without the mean propagation time, a float.
use silver_consensus.Base.{ℕ, ◌+◌, [], ◌∷◌, ltb, if◌then◌else◌, length}
use silver_consensus.Base.Word.{sub64}
use silver_consensus.Base.Dict.{Dict}
use silver_consensus.Core.{BatchApi}
use silver_consensus.FlowGraph.{FlowGraph, FlowGraphVertex, is_certified}

pub record FlowGraphStats : Type 0 where
  pub total_batches : ℕ
  pub certified_batches : ℕ
  pub finalized_batches : ℕ
  pub pending_batches : ℕ
  pub max_depth : ℕ
  pub tip_count : ℕ

module _ (bt : BatchApi) where
  -- the loop over the vertices: the certified, the finalized, and the most parents of one
  unfoldable pub tally : Dict (FlowGraphVertex bt) → ℕ → ℕ → ℕ → ℕ × ℕ × ℕ
  tally [] certified finalized max_depth = (certified, finalized, max_depth)
  tally ((k, v) ∷ d) certified finalized max_depth =
      let depth = length v.parents in
      tally d (if is_certified bt v then certified + 1 else certified)
        (if v.finalized then finalized + 1 else finalized)
        (if ltb max_depth depth then depth else max_depth)

  unfoldable pub stats : FlowGraph bt → FlowGraphStats
  stats g =
      let (certified, finalized, max_depth) = tally g.vertices 0 0 0 in
      record {
        total_batches = length g.vertices;
        certified_batches = certified;
        finalized_batches = finalized;
        pending_batches = sub64 (length g.vertices) certified;
        max_depth = max_depth;
        tip_count = length g.tips;
      }
