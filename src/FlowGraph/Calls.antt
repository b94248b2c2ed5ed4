-- ===== src/FlowGraph/Calls.antt =====
-- Histories of calls on a flow graph of src/flow_graph.rs, without `prune_old_batches`.
use silver_consensus.Base.{
  ℕ, ◌+◌, ◌<◌, refl, inl, inr, true, some, List, [], ◌∷◌, length, IsDistinct, arith, Within, All,
  Bool-cases, Option-cases,
}
use silver_consensus.Base.Word.{u64_mod}
use silver_consensus.Base.Dict.{lookup, keys, contains_key}
use silver_consensus.Core.{BatchApi}
use silver_consensus.FlowGraph.{
  FlowGraph, new, add_batch, set_certificate, mark_finalized, clear, get_children, get_parents,
}
use silver_consensus.FlowGraph.Degree.{IsLinked}
use silver_consensus.FlowGraph.Walk.{IsCausalFrom}
use silver_consensus.FlowGraph.Growth.{IsSameShape, same_shape, replace-IsSameShape, same-IsLinked}
use silver_consensus.FlowGraph.Placement.{place_batch-IsLinked}
use silver_consensus.FlowGraph.Grown.{IsGrown, same-IsGrown, place_batch-IsGrown}

module _ (bt : BatchApi) where
  pub data Call : Type 0 where
    add : bt.Batch → ℕ → ℕ → Call
    certify : ℕ → ℕ → Call
    finish : ℕ → Call
    wipe : Call

  unfoldable pub apply : Call → FlowGraph bt → FlowGraph bt
  apply (add batch now later) g = (add_batch bt batch now later g).1
  apply (certify batch_id certificate) g = (set_certificate bt batch_id certificate g).1
  apply (finish batch_id) g = (mark_finalized bt batch_id g).1
  apply wipe g = clear bt g

  unfoldable pub run : List Call → FlowGraph bt → FlowGraph bt
  run [] g = g
  run (c ∷ cs) g = run cs (apply c g)

  -- the batch has fewer than `u64::MAX` parents
  unfoldable pub IsFew : Call → Type 0
  IsFew (add batch now later) = length (bt.previous_batches batch) + 1 < u64_mod
  IsFew (certify batch_id certificate) = Unit
  IsFew (finish batch_id) = Unit
  IsFew wipe = Unit

  -- the batch comes after its parents, and names none twice
  unfoldable pub IsInOrder : Call → FlowGraph bt → Type 0
  IsInOrder (add batch now later) g =
      IsDistinct (bt.previous_batches batch) × Within (bt.previous_batches batch) (keys g.vertices)
  IsInOrder (certify batch_id certificate) g = Unit
  IsInOrder (finish batch_id) g = Unit
  IsInOrder wipe g = Unit

  unfoldable pub IsOrderly : List Call → FlowGraph bt → Type 0
  IsOrderly [] g = Unit
  IsOrderly (c ∷ cs) g = IsInOrder c g × IsOrderly cs (apply c g)

  pub new-IsLinked : IsLinked bt (new bt)
  unfolding new get_children get_parents
  new-IsLinked = record {
    keys_distinct = tt;
    children_distinct = λ v. tt;
    children_exist = λ v c h. h;
    linked = λ v c h. h;
    few_parents = λ c. omega arith;
  }

  pub new-IsGrown : IsGrown bt (new bt)
  unfolding new get_children get_parents IsCausalFrom
  new-IsGrown = record { parents_distinct = λ c. tt; back = λ c p h. h; ordered = tt }

  set_certificate-IsSameShape :
      (k certificate : ℕ) (g : FlowGraph bt)
      → IsSameShape bt g (set_certificate bt k certificate g).1
  unfolding set_certificate
  set_certificate-IsSameShape k certificate g = elim (Option-cases (lookup k g.vertices)) [
    | inl e ↦ rw (e, set_certificate) (same_shape bt g)
    | inr (x, e) ↦
        let y = record x { certificate = some certificate } in
        rw (e, set_certificate) (replace-IsSameShape bt g _ k x y e refl refl refl)
  ]

  mark_finalized-IsSameShape :
      (k : ℕ) (g : FlowGraph bt) → IsSameShape bt g (mark_finalized bt k g).1
  unfolding mark_finalized
  mark_finalized-IsSameShape k g = elim (Option-cases (lookup k g.vertices)) [
    | inl e ↦ rw (e, mark_finalized) (same_shape bt g)
    | inr (x, e) ↦
        let y = record x { finalized = true } in
        rw (e, mark_finalized) (replace-IsSameShape bt g _ k x y e refl refl refl)
  ]

  add-IsLinked :
      (batch : bt.Batch) (now later : ℕ) (g : FlowGraph bt)
      → length (bt.previous_batches batch) + 1 < u64_mod
      → IsLinked bt g
      → IsLinked bt (add_batch bt batch now later g).1
  unfolding add_batch
  add-IsLinked batch now later g few w =
      elim (Bool-cases (contains_key (bt.batch_id batch) g.vertices)) [
        | inl e ↦ rw (e, add_batch) w
        | inr e ↦ elim (Bool-cases (bt.is_valid batch)) [
          | inl v ↦ rw (e, v, add_batch) (place_batch-IsLinked bt batch now later g e few w)
          | inr v ↦ rw (e, v, add_batch) w
        ]
      ]

  add-IsGrown :
      (batch : bt.Batch) (now later : ℕ) (g : FlowGraph bt)
      → IsInOrder (add batch now later) g
      → IsGrown bt g
      → IsGrown bt (add_batch bt batch now later g).1
  unfolding IsInOrder add_batch
  add-IsGrown batch now later g o w =
      elim (Bool-cases (contains_key (bt.batch_id batch) g.vertices)) [
        | inl e ↦ rw (e, add_batch) w
        | inr e ↦ elim (Bool-cases (bt.is_valid batch)) [
          | inl v ↦ rw (e, v, add_batch) (place_batch-IsGrown bt batch now later g e o.0 o.1 w)
          | inr v ↦ rw (e, v, add_batch) w
        ]
      ]

  apply-IsLinked : (c : Call) (g : FlowGraph bt) → IsFew c → IsLinked bt g → IsLinked bt (apply c g)
  unfolding apply IsFew clear
  apply-IsLinked (add batch now later) g few w = add-IsLinked batch now later g few w
  apply-IsLinked (certify k x) g few w = same-IsLinked bt g _ (set_certificate-IsSameShape k x g) w
  apply-IsLinked (finish k) g few w = same-IsLinked bt g _ (mark_finalized-IsSameShape k g) w
  apply-IsLinked wipe g few w = unfold new in new-IsLinked

  apply-IsGrown :
      (c : Call) (g : FlowGraph bt) → IsInOrder c g → IsGrown bt g → IsGrown bt (apply c g)
  unfolding apply clear
  apply-IsGrown (add batch now later) g o w = add-IsGrown batch now later g o w
  apply-IsGrown (certify k x) g o w = same-IsGrown bt g _ (set_certificate-IsSameShape k x g) w
  apply-IsGrown (finish k) g o w = same-IsGrown bt g _ (mark_finalized-IsSameShape k g) w
  apply-IsGrown wipe g o w = unfold new in new-IsGrown

  pub run-IsLinked :
      (cs : List Call) (g : FlowGraph bt) → All IsFew cs → IsLinked bt g → IsLinked bt (run cs g)
  unfolding run
  run-IsLinked [] g few w = w
  run-IsLinked (c ∷ cs) g few w = run-IsLinked cs (apply c g) few.1 (apply-IsLinked c g few.0 w)

  pub run-IsGrown :
      (cs : List Call) (g : FlowGraph bt) → IsOrderly cs g → IsGrown bt g → IsGrown bt (run cs g)
  unfolding run IsOrderly
  run-IsGrown [] g o w = w
  run-IsGrown (c ∷ cs) g o w = run-IsGrown cs (apply c g) o.1 (apply-IsGrown c g o.0 w)
