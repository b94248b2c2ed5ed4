-- ===== src/KeyRotation/Transitions.antt =====
-- What the sweep over keys in transition does to the keys, in src/key_rotation.rs.
use silver_consensus.Base.{
  ℕ, ◌≡◌, refl, ap, inl, inr, Bool, true, false, none, some, List, [], ◌∷◌, map, All, All-append,
  All-mono, IsDistinct, eq_of_test, ◌&&◌, not, if◌then◌else◌, arith, Bool-cases, Option-cases,
}
use silver_consensus.Base.Dict.{
  Dict, lookup, contains_key, insert, AllValues, AllEntries, AllEntries-insert, keys,
  member-keys-lookup,
}
use silver_consensus.KeyRotation.{
  KeyRecord, is_valid, is_transitioning, is_transition_complete, is_before_end, complete_transition,
}
use silver_consensus.KeyRotation.Manager.{
  process_keys, process_all, oldest_revoked_from, make_room, set_active,
}

-- every key is accepted
abbrev pub AreValid : Dict KeyRecord → Type 0
AreValid d = AllValues (λ k. is_valid k ≡ true) d

-- the key after the sweep
abbrev pub settled : ℕ → KeyRecord → KeyRecord
settled now k =
    if is_transitioning k.status && is_transition_complete now k
    then (complete_transition now k).1
    else k

settled-valid : (now : ℕ) (k : KeyRecord) → is_valid k ≡ true → is_valid (settled now k) ≡ true
unfolding is_valid complete_transition
settled-valid now k h = ground (arith, h)

-- no key is added or lost
pub lookup-process_keys :
    (now j : ℕ) (d : Dict KeyRecord)
    → lookup j (process_keys now d).0
      ≡ elim (lookup j d) [ none ↦ none | some k ↦ some (settled now k) ]
unfolding process_keys complete_transition
lookup-process_keys now j [] = refl
lookup-process_keys now j ((id, k) ∷ d) = ground (arith, lookup-process_keys now j d)

contains_key-process_keys :
    (now j : ℕ) (d : Dict KeyRecord) → contains_key j (process_keys now d).0 ≡ contains_key j d
contains_key-process_keys now j d = ground (arith, lookup-process_keys now j d)

process_keys-AreValid :
    (now : ℕ) (d : Dict KeyRecord) → AreValid d → AreValid (process_keys now d).0
unfolding process_keys complete_transition is_valid
process_keys-AreValid now [] a = a
process_keys-AreValid now ((id, k) ∷ d) a =
    let rest = process_keys-AreValid now d a.1 in
    let valid = settled-valid now k a.0 in ground (arith, rest, valid)

-- whether the sweep ends the transition of the key
abbrev pub ends : ℕ → KeyRecord → Bool
ends now k =
    if is_transitioning k.status && is_transition_complete now k
    then not (is_before_end now k)
    else false

pub process_keys-cons :
    (now id : ℕ) (k : KeyRecord) (d : Dict KeyRecord)
    → (process_keys now ((id, k) ∷ d)).1
      ≡ (if ends now k then id ∷ (process_keys now d).1 else (process_keys now d).1)
unfolding process_keys complete_transition
process_keys-cons now id k d = ground arith

-- each key whose transition ended is one of the keys
process_keys-contains :
    (now : ℕ) (d : Dict KeyRecord) → All (λ id. contains_key id d ≡ true) (process_keys now d).1
process_keys-contains now [] = unfold process_keys in tt
process_keys-contains now ((id, k) ∷ d) =
    let rest =
      All-mono (λ j. contains_key j d ≡ true) (λ j. contains_key j ((id, k) ∷ d) ≡ true)
        (process_keys now d).1 (λ j h. ground (arith, h)) (process_keys-contains now d) in
    let this : contains_key id ((id, k) ∷ d) ≡ true = ground arith in
    elim (Bool-cases (ends now k)) [
      | inl e ↦ rw (process_keys-cons now id k d, e) (this, rest)
      | inr e ↦ rw (process_keys-cons now id k d, e) rest
    ]

-- the key is one of the validator's
abbrev pub HasKey : Dict (Dict KeyRecord) → ℕ → ℕ → Type 0
HasKey d v id = contains_key id (elim (lookup v d) [ none ↦ [] | some keys ↦ keys ]) ≡ true

pub lookup-process_all :
    (now v : ℕ) (d : Dict (Dict KeyRecord))
    → lookup v (process_all now d).0
      ≡ elim (lookup v d) [ none ↦ none | some keys ↦ some (process_keys now keys).0 ]
unfolding process_all
lookup-process_all now v [] = refl
lookup-process_all now v ((w, keys) ∷ d) = ground (arith, lookup-process_all now v d)

pub keys-process_all : (now : ℕ) (d : Dict (Dict KeyRecord)) → keys (process_all now d).0 ≡ keys d
unfolding process_all
keys-process_all now [] = refl
keys-process_all now ((w, ks) ∷ d) = ap (λ xs. w ∷ xs) (keys-process_all now d)

pub process_all-HasKey :
    (now v id : ℕ) (d : Dict (Dict KeyRecord)) → HasKey d v id → HasKey (process_all now d).0 v id
process_all-HasKey now v id d h = elim (Option-cases (lookup v d)) [
  | inl e ↦ ground (arith, e, h)
  | inr (ks, e) ↦
      ground (arith, e, h, lookup-process_all now v d, contains_key-process_keys now id ks)
]

pub process_all-AreValid :
    (now : ℕ) (d : Dict (Dict KeyRecord))
    → AllValues AreValid d
    → AllValues AreValid (process_all now d).0
unfolding process_all
process_all-AreValid now [] a = a
process_all-AreValid now ((w, ks) ∷ d) a =
    (process_keys-AreValid now ks a.0, process_all-AreValid now d a.1)

All-paired :
    (v : ℕ) (P : ℕ × ℕ → Type 0) (ids : List ℕ)
    → All (λ id. P (v, id)) ids
    → All P (map (λ (id : ℕ). (v, id)) ids)
All-paired v P [] h = tt
All-paired v P (id ∷ ids) h = (h.0, All-paired v P ids h.1)

-- each key whose transition ended is one of its validator's
pub process_all-completed :
    (now : ℕ) (d : Dict (Dict KeyRecord))
    → IsDistinct (keys d)
    → All (λ e. HasKey d e.0 e.1) (process_all now d).1
unfolding process_all
process_all-completed now [] distinct = tt
process_all-completed now ((w, ks) ∷ d) distinct =
    let here =
      All-paired w (λ e. HasKey ((w, ks) ∷ d) e.0 e.1) (process_keys now ks).1
        (All-mono (λ j. contains_key j ks ≡ true) (λ j. HasKey ((w, ks) ∷ d) w j) _
          (λ j h. ground (arith, h)) (process_keys-contains now ks)) in
    let later =
      All-mono (λ e. HasKey d e.0 e.1) (λ e. HasKey ((w, ks) ∷ d) e.0 e.1) (process_all now d).1
        (λ e h. ground (arith, h, distinct.0, member-keys-lookup e.0 d, eq_of_test e.0 w))
        (process_all-completed now d distinct.1) in
    All-append (λ e. HasKey ((w, ks) ∷ d) e.0 e.1) _ _ here later

pub set_active-entries :
    (P : ℕ → ℕ → Type 0) (es : List (ℕ × ℕ)) (d : Dict ℕ)
    → All (λ e. P e.0 e.1) es
    → AllEntries P d
    → AllEntries P (set_active es d)
unfolding set_active
set_active-entries P [] d h a = a
set_active-entries P (e ∷ es) d h a =
    set_active-entries P es (insert e.0 e.1 d) h.1 (AllEntries-insert P e.0 e.1 d a h.0)

-- a key that is accepted is not the one that is removed to make room
oldest_revoked_none : (d : Dict KeyRecord) → AreValid d → oldest_revoked_from d ≡ none
unfolding oldest_revoked_from is_valid
oldest_revoked_none [] a = refl
oldest_revoked_none ((id, k) ∷ d) a = ground (arith, a.0, oldest_revoked_none d a.1)

pub make_room_keeps : (n : ℕ) (d : Dict KeyRecord) → AreValid d → make_room n d ≡ d
unfolding make_room
make_room_keeps n d a = ground (arith, oldest_revoked_none d a)
