-- ===== src/Snapshot/Weight.antt =====
-- The stake of a set of validators, and how the stakes of two sets of signers overlap.
use silver_consensus.Base.{
  ℕ, ◌+◌, ◌≤◌, ◌<◌, ◌≡◌, refl, inl, inr, Bool, true, false, List, [], ◌∷◌, arith, if◌then◌else◌,
  ◌&&◌, member, IsDistinct, keep, Bool-cases, ◌==◌, eq_of_test,
}

-- the stake of a list of validators, each counted as often as it occurs
abbrev pub weight : (ℕ → ℕ) → List ℕ → ℕ
weight stake [] = 0
weight stake (v ∷ vs) = stake v + weight stake vs

-- every entry of the first list occurs in the second
abbrev pub IsSubset : List ℕ → List ℕ → Type 0
IsSubset [] ys = Unit
IsSubset (x ∷ xs) ys = (member x ys ≡ true) × IsSubset xs ys

-- the entries of the first list that occur in the second
abbrev pub common : List ℕ → List ℕ → List ℕ
common xs ys = keep (λ v. member v ys) xs

module _ (stake : ℕ → ℕ) where
  -- the stake of those in `vs` that occur in `xs`
  abbrev pub share : List ℕ → List ℕ → ℕ
  share xs [] = 0
  share xs (v ∷ vs) = (if member v xs then stake v else 0) + share xs vs

  share-nil : (vs : List ℕ) → share [] vs ≡ 0
  share-nil [] = refl
  share-nil (v ∷ vs) = omega (arith, share-nil vs)

  share-cons_absent :
      (x : ℕ) (xs vs : List ℕ) → member x vs ≡ false → share (x ∷ xs) vs ≡ share xs vs
  share-cons_absent x xs [] h = refl
  share-cons_absent x xs (v ∷ vs) h = ground (arith, share-cons_absent x xs vs)

  share-cons :
      (x : ℕ) (xs vs : List ℕ)
      → IsDistinct vs
      → member x vs ≡ true
      → member x xs ≡ false
      → share (x ∷ xs) vs ≡ stake x + share xs vs
  share-cons x xs [] d m n = cc
  share-cons x xs (v ∷ vs) d m n = ground (arith, share-cons x xs vs d.1, share-cons_absent x xs vs)

  -- the stake of distinct validators of a set is the share that they have of it
  pub weight-eq-share :
      (xs vs : List ℕ)
      → IsDistinct xs
      → IsDistinct vs
      → IsSubset xs vs
      → weight stake xs ≡ share xs vs
  weight-eq-share [] vs d e s = omega (arith, share-nil vs)
  weight-eq-share (x ∷ xs) vs d e s =
      omega (arith, weight-eq-share xs vs d.1 e s.1, share-cons x xs vs e s.0 d.0)

  share-le-weight : (xs vs : List ℕ) → share xs vs ≤ weight stake vs
  share-le-weight xs [] = omega arith
  share-le-weight xs (v ∷ vs) = ground (arith, share-le-weight xs vs)

  pub weight-le :
      (xs vs : List ℕ)
      → IsDistinct xs
      → IsDistinct vs
      → IsSubset xs vs
      → weight stake xs ≤ weight stake vs
  weight-le xs vs d e s = omega (arith, weight-eq-share xs vs d e s, share-le-weight xs vs)

  member-common : (v : ℕ) (xs ys : List ℕ) → member v (common xs ys) ≡ (member v xs && member v ys)
  member-common v [] ys = refl
  member-common v (x ∷ xs) ys = ground (arith, member-common v xs ys)

  -- two shares cannot miss each other by more than the whole
  share-add-le :
      (xs ys vs : List ℕ) → share xs vs + share ys vs ≤ weight stake vs + share (common xs ys) vs
  share-add-le xs ys [] = omega arith
  share-add-le xs ys (v ∷ vs) = ground (arith, share-add-le xs ys vs, member-common v xs ys)

  IsDistinct-common : (xs ys : List ℕ) → IsDistinct xs → IsDistinct (common xs ys)
  IsDistinct-common [] ys d = d
  IsDistinct-common (x ∷ xs) ys d =
      ground (arith, IsDistinct-common xs ys d.1, member-common x xs ys)

  IsSubset-common : (xs ys vs : List ℕ) → IsSubset xs vs → IsSubset (common xs ys) vs
  IsSubset-common [] ys vs s = s
  IsSubset-common (x ∷ xs) ys vs s = ground (arith, IsSubset-common xs ys vs s.1)

  pub weight-common :
      (xs ys vs : List ℕ)
      → IsDistinct xs
      → IsDistinct ys
      → IsDistinct vs
      → IsSubset xs vs
      → IsSubset ys vs
      → weight stake xs + weight stake ys ≤ weight stake vs + weight stake (common xs ys)
  weight-common xs ys vs dx dy dv sx sy = omega (
    arith,
    share-add-le xs ys vs,
    weight-eq-share xs vs dx dv sx,
    weight-eq-share ys vs dy dv sy,
    weight-eq-share (common xs ys) vs (IsDistinct-common xs ys dx) dv (IsSubset-common xs ys vs sx),
  )

  member-keep : (p : ℕ → Bool) (v : ℕ) (xs : List ℕ) → member v (keep p xs) ≡ (p v && member v xs)
  member-keep p v [] = ground arith
  member-keep p v (x ∷ xs) = elim (Bool-cases (v == x)) [
    | inl e ↦ rw (eq_of_test v x e) (ground (arith, member-keep p x xs))
    | inr e ↦ ground (arith, member-keep p v xs)
  ]

  IsDistinct-keep : (p : ℕ → Bool) (xs : List ℕ) → IsDistinct xs → IsDistinct (keep p xs)
  IsDistinct-keep p [] d = d
  IsDistinct-keep p (x ∷ xs) d = ground (arith, IsDistinct-keep p xs d.1, member-keep p x xs)

  IsSubset-keep :
      (p : ℕ → Bool) (xs ys : List ℕ) → IsSubset xs ys → IsSubset (keep p xs) (keep p ys)
  IsSubset-keep p [] ys s = s
  IsSubset-keep p (x ∷ xs) ys s = ground (arith, IsSubset-keep p xs ys s.1, member-keep p x ys)

  -- the faulty part of what two sets share weighs at most the faulty part of the whole
  pub weight-keep-common :
      (p : ℕ → Bool) (xs ys vs : List ℕ)
      → IsDistinct xs
      → IsDistinct vs
      → IsSubset xs vs
      → weight stake (keep p (common xs ys)) ≤ weight stake (keep p vs)
  weight-keep-common p xs ys vs dx dv sx =
      weight-le (keep p (common xs ys)) (keep p vs)
        (IsDistinct-keep p (common xs ys) (IsDistinct-common xs ys dx)) (IsDistinct-keep p vs dv)
        (IsSubset-keep p (common xs ys) vs (IsSubset-common xs ys vs sx))

  -- a list that outweighs its faulty part has a member that is not faulty
  pub weight_honest :
      (faulty : ℕ → Bool) (xs : List ℕ)
      → weight stake (keep faulty xs) < weight stake xs
      → (v : ℕ) × (member v xs ≡ true) × (faulty v ≡ false)
  weight_honest faulty [] h = absurd (omega arith)
  weight_honest faulty (x ∷ xs) h = elim (Bool-cases (faulty x)) [
    | inr honest ↦ (x, ground arith, honest)
    | inl bad ↦ let (v, m, e) = weight_honest faulty xs (ground arith) in (v, ground arith, e)
  ]

  pub member_of_common :
      (v : ℕ) (xs ys : List ℕ)
      → member v (common xs ys) ≡ true
      → (member v xs ≡ true) × (member v ys ≡ true)
  member_of_common v xs ys h = ground (arith, member-common v xs ys)
