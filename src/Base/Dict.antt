-- ===== src/Base/Dict.antt =====
-- `HashMap` and `DashMap` keyed by identifiers, as association lists. An identifier is only
-- compared, so it is a number. The list's order is one order of iteration.
use Prim.Native.Nat.{ℕ, ◌+◌}
use mathlib.Core.Path.{◌≡◌, refl}
use mathlib.Core.Logic.{◌≢◌}
use mathlib.Core.Bool.{Bool, true, false, ◌||◌}
use mathlib.Core.Option.{Option, none, some}
use mathlib.Core.List.{List, [], ◌∷◌}
use native.Mathlib.Omega.{arith}
use silver_consensus.Base.Tests.{◌==◌, if◌then◌else◌}
use silver_consensus.Base.Lists.{member, IsDistinct}

abbrev pub Dict {ℓ} : Type ℓ → Type ℓ
Dict V = List (ℕ × V)

module _ {ℓ} {V : Type ℓ} where
  abbrev pub lookup : ℕ → Dict V → Option V
  lookup k [] = none
  lookup k ((j, v) ∷ d) = if k == j then some v else lookup k d

  -- `contains_key(&k)`
  abbrev pub contains_key : ℕ → Dict V → Bool
  contains_key k d = elim (lookup k d) [ none ↦ false | some _ ↦ true ]

  -- `insert(k, v)`
  abbrev pub insert : ℕ → V → Dict V → Dict V
  insert k v [] = (k, v) ∷ []
  insert k v (e ∷ d) = if k == e.0 then (k, v) ∷ d else e ∷ insert k v d

  -- `remove(&k)`
  abbrev pub remove : ℕ → Dict V → Dict V
  remove k [] = []
  remove k (e ∷ d) = if k == e.0 then d else e ∷ remove k d

  abbrev pub keys : Dict V → List ℕ
  keys [] = []
  keys (e ∷ d) = e.0 ∷ keys d

  -- the sum of a measure of the values
  abbrev pub sum_values : (V → ℕ) → Dict V → ℕ
  sum_values f [] = 0
  sum_values f (e ∷ d) = f e.1 + sum_values f d

  -- every value has the property
  abbrev pub AllValues {κ} : (V → Type κ) → Dict V → Type κ
  AllValues P [] = Unit
  AllValues P (e ∷ d) = P e.1 × AllValues P d

  pub lookup-insert :
      (k j : ℕ) (v : V) (d : Dict V)
      → lookup j (insert k v d) ≡ (if j == k then some v else lookup j d)
  lookup-insert k j v [] = refl
  lookup-insert k j v (e ∷ d) = ground (arith, lookup-insert k j v d)

  pub lookup-insert_self : (k : ℕ) (v : V) (d : Dict V) → lookup k (insert k v d) ≡ some v
  lookup-insert_self k v d = ground (arith, lookup-insert k k v d)

  pub lookup-insert_ne :
      (j k : ℕ) (v : V) (d : Dict V) → j ≢ k → lookup j (insert k v d) ≡ lookup j d
  lookup-insert_ne j k v d h = ground (arith, lookup-insert k j v d)

  pub contains_key-insert :
      (j k : ℕ) (v : V) (d : Dict V) → contains_key j (insert k v d) ≡ (j == k || contains_key j d)
  contains_key-insert j k v d = ground (arith, lookup-insert k j v d)

  pub lookup-remove_ne : (j k : ℕ) (d : Dict V) → j ≢ k → lookup j (remove k d) ≡ lookup j d
  lookup-remove_ne j k [] h = refl
  lookup-remove_ne j k (e ∷ d) h = ground (arith, lookup-remove_ne j k d h)

  pub member-keys-lookup : (k : ℕ) (d : Dict V) → member k (keys d) ≡ contains_key k d
  member-keys-lookup k [] = refl
  member-keys-lookup k (e ∷ d) = ground (arith, member-keys-lookup k d)

  pub member-keys-remove :
      (j k : ℕ) (d : Dict V) → member j (keys d) ≡ false → member j (keys (remove k d)) ≡ false
  member-keys-remove j k [] h = refl
  member-keys-remove j k (e ∷ d) h = ground (arith, member-keys-remove j k d)

  pub member-keys-insert :
      (j k : ℕ) (v : V) (d : Dict V)
      → j ≢ k
      → member j (keys d) ≡ false
      → member j (keys (insert k v d)) ≡ false
  member-keys-insert j k v [] n h = ground arith
  member-keys-insert j k v (e ∷ d) n h = ground (arith, member-keys-insert j k v d n)

  pub IsDistinct-insert :
      (k : ℕ) (v : V) (d : Dict V) → IsDistinct (keys d) → IsDistinct (keys (insert k v d))
  IsDistinct-insert k v [] h = ground arith
  IsDistinct-insert k v (e ∷ d) h =
      ground (arith, IsDistinct-insert k v d h.1, member-keys-insert e.0 k v d)

  pub IsDistinct-remove :
      (k : ℕ) (d : Dict V) → IsDistinct (keys d) → IsDistinct (keys (remove k d))
  IsDistinct-remove k [] h = h
  IsDistinct-remove k (e ∷ d) h =
      ground (arith, IsDistinct-remove k d h.1, member-keys-remove e.0 k d)

  pub lookup-remove_self : (k : ℕ) (d : Dict V) → IsDistinct (keys d) → lookup k (remove k d) ≡ none
  lookup-remove_self k [] h = refl
  lookup-remove_self k (e ∷ d) h =
      ground (arith, lookup-remove_self k d h.1, member-keys-lookup k d)

  pub sum_values-insert_new :
      (f : V → ℕ) (k : ℕ) (v : V) (d : Dict V)
      → lookup k d ≡ none
      → sum_values f (insert k v d) ≡ sum_values f d + f v
  sum_values-insert_new f k v [] h = omega arith
  sum_values-insert_new f k v (e ∷ d) h = ground (arith, sum_values-insert_new f k v d)

  pub sum_values-insert_old :
      (f : V → ℕ) (k : ℕ) (v old : V) (d : Dict V)
      → lookup k d ≡ some old
      → sum_values f (insert k v d) + f old ≡ sum_values f d + f v
  sum_values-insert_old f k v old [] h = cc
  sum_values-insert_old f k v old (e ∷ d) h = ground (arith, sum_values-insert_old f k v old d)

  pub sum_values-remove :
      (f : V → ℕ) (k : ℕ) (old : V) (d : Dict V)
      → lookup k d ≡ some old
      → sum_values f (remove k d) + f old ≡ sum_values f d
  sum_values-remove f k old [] h = cc
  sum_values-remove f k old (e ∷ d) h = ground (arith, sum_values-remove f k old d)

  pub remove_absent : (k : ℕ) (d : Dict V) → lookup k d ≡ none → remove k d ≡ d
  remove_absent k [] h = refl
  remove_absent k (e ∷ d) h = ground (arith, remove_absent k d)

  pub AllValues-lookup {κ} :
      (P : V → Type κ) (k : ℕ) (v : V) (d : Dict V) → AllValues P d → lookup k d ≡ some v → P v
  AllValues-lookup P k v [] a h = cc
  AllValues-lookup P k v (e ∷ d) a h = ground (arith, AllValues-lookup P k v d a.1)

  pub AllValues-insert {κ} :
      (P : V → Type κ) (k : ℕ) (v : V) (d : Dict V)
      → AllValues P d
      → P v
      → AllValues P (insert k v d)
  AllValues-insert P k v [] a h = (h, tt)
  AllValues-insert P k v (e ∷ d) a h = ground (arith, AllValues-insert P k v d a.1 h)

  pub AllValues-remove {κ} :
      (P : V → Type κ) (k : ℕ) (d : Dict V) → AllValues P d → AllValues P (remove k d)
  AllValues-remove P k [] a = a
  AllValues-remove P k (e ∷ d) a = ground (arith, AllValues-remove P k d a.1)

-- every entry, its key included, has the property
abbrev pub AllEntries {ℓ κ} : {V : Type ℓ} → (ℕ → V → Type κ) → Dict V → Type κ
AllEntries P [] = Unit
AllEntries P (e ∷ d) = P e.0 e.1 × AllEntries P d

module _ {ℓ κ} {V : Type ℓ} (P : ℕ → V → Type κ) where
  pub AllEntries-lookup :
      (k : ℕ) (v : V) (d : Dict V) → AllEntries P d → lookup k d ≡ some v → P k v
  AllEntries-lookup k v [] a h = cc
  AllEntries-lookup k v (e ∷ d) a h = ground (arith, AllEntries-lookup k v d a.1)

  pub AllEntries-insert :
      (k : ℕ) (v : V) (d : Dict V) → AllEntries P d → P k v → AllEntries P (insert k v d)
  AllEntries-insert k v [] a h = (h, tt)
  AllEntries-insert k v (e ∷ d) a h = ground (arith, AllEntries-insert k v d a.1 h)

  pub AllEntries-remove : (k : ℕ) (d : Dict V) → AllEntries P d → AllEntries P (remove k d)
  AllEntries-remove k [] a = a
  AllEntries-remove k (e ∷ d) a = ground (arith, AllEntries-remove k d a.1)

pub AllEntries-mono {ℓ κ} :
    {V : Type ℓ} (P Q : ℕ → V → Type κ) (d : Dict V)
    → ((k : ℕ) (v : V) → P k v → Q k v)
    → AllEntries P d
    → AllEntries Q d
AllEntries-mono P Q [] f a = a
AllEntries-mono P Q (e ∷ d) f a = (f e.0 e.1 a.0, AllEntries-mono P Q d f a.1)

pub AllValues-mono {ℓ κ} :
    {V : Type ℓ} (P Q : V → Type κ) (d : Dict V)
    → ((v : V) → P v → Q v)
    → AllValues P d
    → AllValues Q d
AllValues-mono P Q [] f a = a
AllValues-mono P Q (e ∷ d) f a = (f e.1 a.0, AllValues-mono P Q d f a.1)
