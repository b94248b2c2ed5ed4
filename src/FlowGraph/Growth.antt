-- ===== src/FlowGraph/Growth.antt =====
-- How the calls on a flow graph of src/flow_graph.rs change its edges.
use silver_consensus.Base.{
  ℕ, ◌≡◌, refl, sym, inl, inr, true, false, some, List, [], ◌∷◌, ◌++◌, ◌==◌, ◌||◌, ◌&&◌,
  if◌then◌else◌, member, IsDistinct, arith, member-append, IsDistinct-snoc, Bool-cases,
  Option-cases, eq_of_test,
}
use silver_consensus.Base.Dict.{
  Dict, lookup, insert, keys, contains_key, lookup-insert, contains_key-insert,
}
use silver_consensus.Core.{BatchApi}
use silver_consensus.FlowGraph.{
  FlowGraph, FlowGraphVertex, add_child, link_parent, get_children, get_parents, set_insert,
}
use silver_consensus.FlowGraph.Degree.{IsLinked}

keys-insert_old {ℓ} :
    {V : Type ℓ} (k : ℕ) (v : V) (d : Dict V)
    → contains_key k d ≡ true
    → keys (insert k v d) ≡ keys d
keys-insert_old k v [] h = cc
keys-insert_old k v (e ∷ d) h = ground (arith, keys-insert_old k v d, eq_of_test k e.0)

pub keys-insert_new {ℓ} :
    {V : Type ℓ} (k : ℕ) (v : V) (d : Dict V)
    → contains_key k d ≡ false
    → keys (insert k v d) ≡ keys d ++ k ∷ []
keys-insert_new k v [] h = refl
keys-insert_new k v (e ∷ d) h = ground (arith, keys-insert_new k v d)

module _ (bt : BatchApi) where
  -- two graphs with the same batches in one order and the same edges
  pub record IsSameShape (g g' : FlowGraph bt) : Type 0 where
    pub same_keys : keys g'.vertices ≡ keys g.vertices
    pub same_contains : (c : ℕ) → contains_key c g'.vertices ≡ contains_key c g.vertices
    pub same_parents : (c : ℕ) → get_parents bt c g' ≡ get_parents bt c g
    pub same_children : (c : ℕ) → get_children bt c g' ≡ get_children bt c g

  pub same_shape : (g : FlowGraph bt) → IsSameShape g g
  same_shape g = record {
    same_keys = refl;
    same_contains = λ c. refl;
    same_parents = λ c. refl;
    same_children = λ c. refl;
  }

  pub same-IsLinked : (g g' : FlowGraph bt) → IsSameShape g g' → IsLinked bt g → IsLinked bt g'
  same-IsLinked g g' s w = record {
    keys_distinct = rw s.same_keys w.keys_distinct;
    children_distinct = λ v. rw (s.same_children v) (w.children_distinct v);
    children_exist =
        λ v c h. rw (s.same_contains c) (w.children_exist v c (rw (sym (s.same_children v)) h));
    linked = λ v c h. rw (s.same_parents c) (w.linked v c (rw (sym (s.same_children v)) h));
    few_parents = λ c. rw (s.same_parents c) (w.few_parents c);
  }

  -- a vertex put in the place of one with the same edges
  pub replace-IsSameShape :
      (g g' : FlowGraph bt) (k : ℕ) (x y : FlowGraphVertex bt)
      → lookup k g.vertices ≡ some x
      → g'.vertices ≡ insert k y g.vertices
      → y.parents ≡ x.parents
      → y.children ≡ x.children
      → IsSameShape g g'
  unfolding get_parents get_children
  replace-IsSameShape g g' k x y e i p q = record {
    same_keys = rw i (keys-insert_old k y g.vertices (ground (arith, e)));
    same_contains = λ c. ground (arith, i, contains_key-insert c k y g.vertices, e, eq_of_test c k);
    same_parents = λ c. ground (arith, i, lookup-insert k c y g.vertices, e, eq_of_test c k, p);
    same_children = λ c. ground (arith, i, lookup-insert k c y g.vertices, e, eq_of_test c k, q);
  }

  member-set_insert : (b a : ℕ) (xs : List ℕ) → member b (set_insert a xs) ≡ (b == a || member b xs)
  member-set_insert b a xs = elim (Bool-cases (member a xs)) [
    | inl e ↦ ground (arith, e, eq_of_test b a)
    | inr e ↦ ground (arith, e, member-append b xs (a ∷ []))
  ]

  IsDistinct-set_insert : (a : ℕ) (xs : List ℕ) → IsDistinct xs → IsDistinct (set_insert a xs)
  IsDistinct-set_insert a xs d = elim (Bool-cases (member a xs)) [
    | inl e ↦ ground (arith, e, d)
    | inr e ↦ ground (arith, e, IsDistinct-snoc a xs d e)
  ]

  -- what a round of the loop over the parents leaves and changes
  pub record IsLink (id p : ℕ) (g g' : FlowGraph bt) : Type 0 where
    pub same_keys : keys g'.vertices ≡ keys g.vertices
    pub same_contains : (c : ℕ) → contains_key c g'.vertices ≡ contains_key c g.vertices
    pub same_parents : (c : ℕ) → get_parents bt c g' ≡ get_parents bt c g
    pub more_children :
        (c : ℕ)
        → get_children bt c g' ≡ (
            if c == p && contains_key p g.vertices
            then set_insert id (get_children bt c g)
            else get_children bt c g)

  add_child-children :
      (id : ℕ) (x : FlowGraphVertex bt) → (add_child bt id x).children ≡ set_insert id x.children
  unfolding add_child
  add_child-children id x = ground arith

  add_child-parents : (id : ℕ) (x : FlowGraphVertex bt) → (add_child bt id x).parents ≡ x.parents
  unfolding add_child
  add_child-parents id x = ground arith

  pub link_parent-IsLink : (id p : ℕ) (g : FlowGraph bt) → IsLink id p g (link_parent bt id p g)
  unfolding link_parent get_children get_parents
  link_parent-IsLink id p g = elim (Option-cases (lookup p g.vertices)) [
    | inl e ↦
        rw (e, link_parent)
          record {
            same_keys = refl;
            same_contains = λ c. refl;
            same_parents = λ c. refl;
            more_children = λ c. ground (arith, e);
          }
    | inr (x, e) ↦
        let y = add_child bt id x in
        let d = g.vertices in
        rw (e, link_parent)
          record {
            same_keys = keys-insert_old p y d (ground (arith, e));
            same_contains = λ c. ground (arith, contains_key-insert c p y d, e, eq_of_test c p);
            same_parents = λ c.
                ground (arith, lookup-insert p c y d, e, eq_of_test c p, add_child-parents id x);
            more_children = λ c.
                ground (arith, lookup-insert p c y d, e, eq_of_test c p, add_child-children id x);
          }
  ]

  -- who is a child after the round
  pub member-IsLink :
      (id p : ℕ) (g g' : FlowGraph bt)
      → IsLink id p g g'
      → (v c : ℕ)
      → member c (get_children bt v g')
        ≡ (member c (get_children bt v g) || (v == p && contains_key p g.vertices && c == id))
  member-IsLink id p g g' s v c =
      ground (arith, s.more_children v, member-set_insert c id (get_children bt v g))

  pub link-IsLinked :
      (id p : ℕ) (g g' : FlowGraph bt)
      → IsLink id p g g'
      → member p (get_parents bt id g) ≡ true
      → contains_key id g.vertices ≡ true
      → IsLinked bt g
      → IsLinked bt g'
  link-IsLinked id p g g' s m k w = record {
    keys_distinct = rw s.same_keys w.keys_distinct;
    children_distinct = λ v. ground (
      arith,
      s.more_children v,
      w.children_distinct v,
      IsDistinct-set_insert id (get_children bt v g) (w.children_distinct v),
    );
    children_exist = λ v c h.
        rw (s.same_contains c) ground
          (arith, h, member-IsLink id p g g' s v c, w.children_exist v c, k, eq_of_test c id);
    linked = λ v c h.
        rw (s.same_parents c) ground (
          arith,
          h,
          member-IsLink id p g g' s v c,
          w.linked v c,
          m,
          eq_of_test c id,
          eq_of_test v p,
        );
    few_parents = λ c. rw (s.same_parents c) (w.few_parents c);
  }
