-- ===== src/Base/Pigeonhole.antt =====
-- Lists of identifiers with no repetition: such a list is no longer than any list that holds it.
use Prim.Native.Nat.{ℕ, suc, ◌≤◌}
use mathlib.Core.Path.{◌≡◌}
use mathlib.Core.Logic.{inl, inr}
use mathlib.Core.Bool.{Bool, true, false}
use mathlib.Core.List.{List, [], ◌∷◌}
use native.Mathlib.Omega.{arith}
use silver_consensus.Base.Tests.{◌==◌, if◌then◌else◌, Bool-cases, eq_of_test, eq_refl}
use silver_consensus.Base.Lists.{length, member, keep, IsDistinct}

-- the elements of the one are elements of the other
abbrev pub Within : List ℕ → List ℕ → Type 0
Within xs ys = (a : ℕ) → member a xs ≡ true → member a ys ≡ true

erase : ℕ → List ℕ → List ℕ
erase a [] = []
erase a (x ∷ xs) = if a == x then xs else x ∷ erase a xs

length-erase : (a : ℕ) (xs : List ℕ) → member a xs ≡ true → length xs ≡ suc (length (erase a xs))
unfolding erase
length-erase a [] h = cc
length-erase a (x ∷ xs) h = ground (arith, length-erase a xs)

member-erase :
    (a b : ℕ) (xs : List ℕ) → (b == a) ≡ false → member b xs ≡ true → member b (erase a xs) ≡ true
unfolding erase
member-erase a b [] n h = h
member-erase a b (x ∷ xs) n h = ground (arith, member-erase a b xs n)

member_apart : (x a : ℕ) (xs : List ℕ) → member x xs ≡ false → member a xs ≡ true → (a == x) ≡ false
member_apart x a [] n h = cc
member_apart x a (y ∷ ys) n h = ground (arith, member_apart x a ys)

pub length-Within : (xs ys : List ℕ) → IsDistinct xs → Within xs ys → length xs ≤ length ys
length-Within [] ys d w = omega arith
length-Within (x ∷ xs) ys d w =
    let rest : Within xs (erase x ys) =
      λ a h. member-erase x a ys (member_apart x a xs d.0 h) (w a (ground (arith, h))) in
    omega (
      arith,
      length-erase x ys (w x (ground (arith, eq_refl x))),
      length-Within xs (erase x ys) d.1 rest,
    )

pub Within-cons : (a : ℕ) (xs ys : List ℕ) → member a ys ≡ true → Within xs ys → Within (a ∷ xs) ys
Within-cons a xs ys m w b h = elim (Bool-cases (b == a)) [
  | inl e ↦ rw (eq_of_test b a e) m
  | inr e ↦ w b (ground (arith, h, e))
]

-- a list with no repetition that is as long as one that holds it holds that one too
pub Within-back :
    (xs ys : List ℕ) → IsDistinct xs → Within xs ys → length ys ≤ length xs → Within ys xs
Within-back xs ys d w l a h = elim (Bool-cases (member a xs)) [
  | inl e ↦ e
  | inr e ↦ ground (arith, length-Within (a ∷ xs) ys (e, d) (Within-cons a xs ys h w))
]

pub member-keep :
    (p : ℕ → Bool) (a : ℕ) (xs : List ℕ)
    → member a (keep p xs) ≡ (if p a then member a xs else false)
member-keep p a [] = ground arith
member-keep p a (x ∷ xs) = elim (Bool-cases (a == x)) [
  | inl e ↦ rw (eq_of_test a x e) ground (arith, member-keep p x xs, eq_refl x)
  | inr e ↦ ground (arith, member-keep p a xs)
]

pub IsDistinct-keep : (p : ℕ → Bool) (xs : List ℕ) → IsDistinct xs → IsDistinct (keep p xs)
IsDistinct-keep p [] d = d
IsDistinct-keep p (x ∷ xs) d = ground (arith, IsDistinct-keep p xs d.1, member-keep p x xs)
