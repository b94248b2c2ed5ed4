-- ===== src/KeyRotation/Rotation.antt =====
-- The end of a rotation in src/key_rotation.rs: the vote is finalized, and the period of transition
-- passes.
use silver_consensus.Base.{
  ℕ, ◌≡◌, refl, ◌⊎◌, inl, inr, Bool, true, false, ◌||◌, some, List, [], ◌∷◌, ◌++◌, map, All,
  All-append, All-mono, IsDistinct, member, ◌==◌, arith, Bool-cases, eq_of_test,
}
use silver_consensus.Base.Dict.{
  Dict, lookup, insert, keys, AllEntries, lookup-insert, member-keys-lookup,
}
use silver_consensus.KeyRotation.{KeyRecord, is_transitioning}
use silver_consensus.KeyRotation.Manager.{process_keys, process_all, set_active}
use silver_consensus.KeyRotation.Transitions.{
  ends, process_keys-cons, process_all-completed, HasKey,
}

-- the key is the one named, or is in no transition
abbrev pub OnlyEnds : ℕ → ℕ → KeyRecord → Type 0
OnlyEnds new id k = (id ≡ new) ⊎ (is_transitioning k.status ≡ false)

module _ (now new : ℕ) where
  only_new :
      (d : Dict KeyRecord)
      → AllEntries (OnlyEnds new) d
      → All (λ id. id ≡ new) (process_keys now d).1
  only_new [] a = unfold process_keys in tt
  only_new ((id, k) ∷ d) a = elim (Bool-cases (ends now k)) [
    | inl e ↦ rw (process_keys-cons now id k d, e) (ground (arith, a.0, e), only_new d a.1)
    | inr e ↦ rw (process_keys-cons now id k d, e) (only_new d a.1)
  ]

  new_among :
      (k : KeyRecord) (d : Dict KeyRecord)
      → lookup new d ≡ some k
      → ends now k ≡ true
      → member new (process_keys now d).1 ≡ true
  new_among k [] e h = cc
  new_among k ((id, r) ∷ d) e h = ground (arith, e, h, process_keys-cons now id r d, new_among k d)

  -- the pair is of another validator, or names the new key
  abbrev pub IsNew : ℕ → ℕ × ℕ → Type 0
  IsNew v e = ((e.0 == v) ≡ false) ⊎ (e.1 ≡ new)

  abbrev pub names : ℕ → List (ℕ × ℕ) → Bool
  names v [] = false
  names v (e ∷ es) = e.0 == v || names v es

  names-append : (v : ℕ) (xs ys : List (ℕ × ℕ)) → names v (xs ++ ys) ≡ (names v xs || names v ys)
  names-append v [] ys = refl
  names-append v (x ∷ xs) ys = ground (arith, names-append v xs ys)

  paired_names :
      (v : ℕ) (ids : List ℕ)
      → member new ids ≡ true
      → names v (map (λ (id : ℕ). (v, id)) ids) ≡ true
  paired_names v [] h = cc
  paired_names v (id ∷ ids) h = ground arith

  paired_new :
      (v w : ℕ) (ids : List ℕ)
      → ((w == v) ≡ false) ⊎ All (λ id. id ≡ new) ids
      → All (IsNew v) (map (λ (id : ℕ). (w, id)) ids)
  paired_new v w [] h = tt
  paired_new v w (id ∷ ids) (inl n) = (inl n, paired_new v w ids (inl n))
  paired_new v w (id ∷ ids) (inr h) = (inr h.0, paired_new v w ids (inr h.1))

  -- after the sweep, the new key is the active one
  pub new_is_set :
      (v : ℕ) (es : List (ℕ × ℕ)) (d : Dict ℕ)
      → All (IsNew v) es
      → (names v es ≡ true) ⊎ (lookup v d ≡ some new)
      → lookup v (set_active es d) ≡ some new
  unfolding set_active
  new_is_set v [] d a (inl h) = cc
  new_is_set v [] d a (inr h) = h
  new_is_set v (e ∷ es) d a h =
      let next : (names v es ≡ true) ⊎ (lookup v (insert e.0 e.1 d) ≡ some new) =
        elim (Bool-cases (e.0 == v)) [
          | inl y ↦ inr (ground (arith, y, a.0, lookup-insert e.0 v e.1 d))
          | inr n ↦ elim h [
            | inl x ↦ inl (ground (arith, n, x))
            | inr x ↦ inr (ground (arith, n, x, lookup-insert e.0 v e.1 d))
          ]
        ] in
      new_is_set v es (insert e.0 e.1 d) a.1 next

  others :
      (v : ℕ) (d : Dict (Dict KeyRecord))
      → IsDistinct (keys d)
      → member v (keys d) ≡ false
      → All (IsNew v) (process_all now d).1
  others v d distinct h =
      All-mono (λ e. HasKey d e.0 e.1) (IsNew v) (process_all now d).1
        (λ e p. inl (ground (arith, p, h, member-keys-lookup e.0 d, eq_of_test e.0 v)))
        (process_all-completed now d distinct)

  -- the pairs of the sweep that are of the validator
  pub swept :
      (v : ℕ) (k : KeyRecord) (ks : Dict KeyRecord) (d : Dict (Dict KeyRecord))
      → IsDistinct (keys d)
      → lookup v d ≡ some ks
      → AllEntries (OnlyEnds new) ks
      → lookup new ks ≡ some k
      → ends now k ≡ true
      → All (IsNew v) (process_all now d).1 × (names v (process_all now d).1 ≡ true)
  unfolding process_all
  swept v k ks [] distinct e only found h = cc
  swept v k ks ((w, ls) ∷ d) distinct e only found h =
      let pairs : List (ℕ × ℕ) = map (λ (id : ℕ). (w, id)) (process_keys now ls).1 in
      let rest = (process_all now d).1 in
      let split = names-append v pairs rest in
      elim (Bool-cases (v == w)) [
        | inl y ↦
            let same : ls ≡ ks = ground (arith, e, y) in
            let at : v ≡ w = eq_of_test v w y in
            let mine = paired_new v w (process_keys now ls).1 (inr (rw same (only_new ks only))) in
            let absent : member v (keys d) ≡ false = rw at distinct.0 in
            let named : names w pairs ≡ true =
              paired_names w (process_keys now ls).1 (rw same (new_among k ks found h)) in
            (
              All-append (IsNew v) pairs rest mine (others v d distinct.1 absent),
              ground (arith, split, named, at),
            )
        | inr n ↦
            let back : (w == v) ≡ false = ground (arith, n) in
            let mine = paired_new v w (process_keys now ls).1 (inl back) in
            let (later, named) = swept v k ks d distinct.1 (ground (arith, e, n)) only found h in
            (All-append (IsNew v) pairs rest mine later, ground (arith, split, named))
      ]
