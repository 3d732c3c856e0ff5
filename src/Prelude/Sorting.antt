-- ===== src/Prelude/Sorting.antt =====
-- `sorted(xs)` for a list of numbers that may hold a number twice, and deletion at several places.
use asimap.Prelude.Tests.{leb, ◌==◌, if◌then◌else◌, Bool-cases}
use asimap.Prelude.Lists.{All, mem}
use asimap.Prelude.Ascending.{Asc, mem_of_below}
use Prim.Native.Nat.{ℕ, ◌≤◌, ◌<◌}
use mathlib.Core.Path.{◌≡◌, refl}
use mathlib.Core.Logic.{inl, inr}
use mathlib.Core.Bool.{false, ◌||◌}
use mathlib.Core.List.{List, [], ◌∷◌}
use native.Mathlib.Omega.{arith}

unfoldable pub insert_sorted : ℕ → List ℕ → List ℕ
insert_sorted a [] = a ∷ []
insert_sorted a (x ∷ xs) = if leb a x then a ∷ x ∷ xs else x ∷ insert_sorted a xs

unfoldable pub sorted : List ℕ → List ℕ
unfolding insert_sorted
sorted [] = []
sorted (x ∷ xs) = insert_sorted x (sorted xs)

-- No number twice.
abbrev pub Distinct : List ℕ → Type 0
Distinct [] = Unit
Distinct (x ∷ xs) = (mem x xs ≡ false) × Distinct xs

pub mem-insert_sorted : (b a : ℕ) (xs : List ℕ) → mem b (insert_sorted a xs) ≡ (b == a || mem b xs)
unfolding insert_sorted
mem-insert_sorted b a [] = refl
mem-insert_sorted b a (x ∷ xs) = ground (arith, mem-insert_sorted b a xs)

pub mem-sorted : (b : ℕ) (xs : List ℕ) → mem b (sorted xs) ≡ mem b xs
unfolding sorted
mem-sorted b [] = refl
mem-sorted b (x ∷ xs) = ground (arith, mem-insert_sorted b x (sorted xs), mem-sorted b xs)

All-insert_sorted :
    (P : ℕ → Type 0) (a : ℕ) (xs : List ℕ) → P a → All P xs → All P (insert_sorted a xs)
unfolding insert_sorted
All-insert_sorted P a [] p h = (p, tt)
All-insert_sorted P a (x ∷ xs) p h = ground (arith, All-insert_sorted P a xs p h.1)

All-weaken : (a b : ℕ) (xs : List ℕ) → a ≤ b → All (λ y. b < y) xs → All (λ y. a < y) xs
All-weaken a b [] h p = tt
All-weaken a b (x ∷ xs) h p = (omega arith, All-weaken a b xs h p.1)

insert_sorted-Asc : (a : ℕ) (xs : List ℕ) → mem a xs ≡ false → Asc xs → Asc (insert_sorted a xs)
unfolding insert_sorted
insert_sorted-Asc a [] n h = (tt, tt)
insert_sorted-Asc a (x ∷ xs) n h = elim (Bool-cases (leb a x)) [
  | inl e ↦ rw e ((ground arith, All-weaken a x xs (ground arith) h.0), h)
  | inr e ↦ rw e (
    All-insert_sorted (λ y. x < y) a xs (ground arith) h.0,
    insert_sorted-Asc a xs (ground arith) h.1,
  )
]

-- Sorting numbers that are all different gives a strictly ascending list.
pub sorted-Asc : (xs : List ℕ) → Distinct xs → Asc (sorted xs)
unfolding sorted
sorted-Asc [] d = tt
sorted-Asc (x ∷ xs) d =
    insert_sorted-Asc x (sorted xs) (ground (arith, mem-sorted x xs)) (sorted-Asc xs d.1)

pub Asc→Distinct : (xs : List ℕ) → Asc xs → Distinct xs
Asc→Distinct [] h = tt
Asc→Distinct (x ∷ xs) h = (mem_of_below x xs h.0, Asc→Distinct xs h.1)

pub sorted_of_Asc : (xs : List ℕ) → Asc xs → sorted xs ≡ xs
unfolding sorted insert_sorted
sorted_of_Asc [] a = refl
sorted_of_Asc (x ∷ []) a = refl
sorted_of_Asc (x ∷ y ∷ xs) a = ground (arith, sorted_of_Asc (y ∷ xs) a.1)
