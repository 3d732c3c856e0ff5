-- ===== src/Prelude/Ascending.antt =====
-- Strictly ascending lists, the form in which a Python `set` of numbers is kept: `sorted(s)` is then
-- the list itself, and two sets are equal exactly if the lists are.
use mathlib.Core.List.{List, [], ◌∷◌, ◌++◌}
use Prim.Native.Nat.{ℕ, zero, suc, ◌≤◌, ◌<◌}
use mathlib.Core.Path.{◌≡◌, refl}
use mathlib.Core.Bool.{Bool, true, false, not, ◌||◌}
use mathlib.Core.Logic.{inl, inr}
use native.Mathlib.Omega.{arith}
use asimap.Prelude.Tests.{ltb, ◌==◌, if◌then◌else◌, Bool-cases}
use asimap.Prelude.Lists.{All, All-append, keep, mem, span}

-- Each item is below all that follow it.
abbrev pub Asc : List ℕ → Type 0
Asc [] = Unit
Asc (x ∷ xs) = All (λ y. x < y) xs × Asc xs

-- `s.add(a)`
unfoldable pub insert : ℕ → List ℕ → List ℕ
insert a [] = a ∷ []
insert a (x ∷ xs) = if ltb a x then a ∷ x ∷ xs else if a == x then x ∷ xs else x ∷ insert a xs

-- `s.discard(a)`
abbrev pub discard : ℕ → List ℕ → List ℕ
discard a = keep (λ x. not (a == x))

-- `s.update(xs)`
unfoldable pub insert_all : List ℕ → List ℕ → List ℕ
insert_all [] s = s
insert_all (x ∷ xs) s = insert_all xs (insert x s)

-- `sorted(set(xs))`
unfoldable pub sorted_set : List ℕ → List ℕ
unfolding insert_all
sorted_set xs = insert_all xs []

-- `s - t`
abbrev pub difference : List ℕ → List ℕ → List ℕ
difference s t = keep (λ x. not (mem x t)) s

All-weaken : (a b : ℕ) (xs : List ℕ) → a ≤ b → All (λ y. b < y) xs → All (λ y. a < y) xs
All-weaken a b [] h p = tt
All-weaken a b (x ∷ xs) h p = (omega arith, All-weaken a b xs h p.1)

pub All-keep : (P : ℕ → Type 0) (p : ℕ → Bool) (xs : List ℕ) → All P xs → All P (keep p xs)
All-keep P p [] h = tt
All-keep P p (x ∷ xs) h = ground (arith, All-keep P p xs h.1)

pub keep-Asc : (p : ℕ → Bool) (xs : List ℕ) → Asc xs → Asc (keep p xs)
keep-Asc p [] h = tt
keep-Asc p (x ∷ xs) h = elim (Bool-cases (p x)) [
  | inl e ↦ rw e (All-keep (λ y. x < y) p xs h.0, keep-Asc p xs h.1)
  | inr e ↦ rw e (keep-Asc p xs h.1)
]

pub All-insert : (P : ℕ → Type 0) (a : ℕ) (xs : List ℕ) → P a → All P xs → All P (insert a xs)
unfolding insert
All-insert P a [] p h = (p, tt)
All-insert P a (x ∷ xs) p h = ground (arith, All-insert P a xs p h.1)

pub insert-Asc : (a : ℕ) (xs : List ℕ) → Asc xs → Asc (insert a xs)
unfolding insert
insert-Asc a [] h = (tt, tt)
insert-Asc a (x ∷ xs) h = elim (Bool-cases (ltb a x)) [
  | inl e ↦ rw e ((ground arith, All-weaken a x xs (ground arith) h.0), h)
  | inr e ↦ elim (Bool-cases (a == x)) [
    | inl q ↦ rw (e, q) h
    | inr q ↦ rw (e, q) (All-insert (λ y. x < y) a xs (ground arith) h.0, insert-Asc a xs h.1)
  ]
]

pub insert_all-Asc : (xs s : List ℕ) → Asc s → Asc (insert_all xs s)
unfolding insert_all
insert_all-Asc [] s h = h
insert_all-Asc (x ∷ xs) s h = insert_all-Asc xs (insert x s) (insert-Asc x s h)

pub sorted_set-Asc : (xs : List ℕ) → Asc (sorted_set xs)
unfolding sorted_set
sorted_set-Asc xs = insert_all-Asc xs [] tt

pub mem-insert : (b a : ℕ) (xs : List ℕ) → mem b (insert a xs) ≡ (b == a || mem b xs)
unfolding insert
mem-insert b a [] = refl
mem-insert b a (x ∷ xs) = ground (arith, mem-insert b a xs)

pub mem-insert_all : (b : ℕ) (xs s : List ℕ) → mem b (insert_all xs s) ≡ (mem b xs || mem b s)
unfolding insert_all
mem-insert_all b [] s = refl
mem-insert_all b (x ∷ xs) s = ground (arith, mem-insert_all b xs (insert x s), mem-insert b x s)

pub mem-sorted_set : (b : ℕ) (xs : List ℕ) → mem b (sorted_set xs) ≡ mem b xs
unfolding sorted_set
mem-sorted_set b xs = ground (arith, mem-insert_all b xs [])

-- A number below all items is no member.
pub mem_of_below : (a : ℕ) (xs : List ℕ) → All (λ y. a < y) xs → mem a xs ≡ false
mem_of_below a [] h = refl
mem_of_below a (x ∷ xs) h = ground (arith, mem_of_below a xs h.1)

pub Asc-append :
    (xs ys : List ℕ) (b : ℕ)
    → Asc xs
    → Asc ys
    → All (λ x. x < b) xs
    → All (λ y. b ≤ y) ys
    → Asc (xs ++ ys)
Asc-append [] ys b hx hy lo hi = hy
Asc-append (x ∷ xs) ys b hx hy lo hi =
    (All-append (λ y. x < y) xs ys hx.0 (above ys hi), Asc-append xs ys b hx.1 hy lo.1 hi)
  where
    above : (zs : List ℕ) → All (λ y. b ≤ y) zs → All (λ y. x < y) zs
    above [] h = tt
    above (z ∷ zs) h = (omega arith, above zs h.1)

pub span-ge : (b a n : ℕ) → b ≤ a → All (λ y. b ≤ y) (span a n)
span-ge b a zero h = tt
span-ge b a (suc n) h = (h, span-ge b (suc a) n (omega arith))

pub span-Asc : (a n : ℕ) → Asc (span a n)
span-Asc a zero = tt
span-Asc a (suc n) = (span-ge (suc a) (suc a) n (omega arith), span-Asc (suc a) n)

-- Ascending lists with the same members are equal.
head-eq :
    (x y : ℕ) (xs ys : List ℕ)
    → Asc (x ∷ xs)
    → Asc (y ∷ ys)
    → mem x (y ∷ ys) ≡ true
    → mem y (x ∷ xs) ≡ true
    → x ≡ y
head-eq x y xs ys hx hy p q = elim (Bool-cases (ltb x y)) [
  | inl e ↦ ground (arith, mem_of_below x ys (All-weaken x y ys (ground arith) hy.0))
  | inr e ↦ elim (Bool-cases (ltb y x)) [
    | inl f ↦ ground (arith, mem_of_below y xs (All-weaken y x xs (ground arith) hx.0))
    | inr f ↦ ground arith
  ]
]

pub Asc-ext : (xs ys : List ℕ) → Asc xs → Asc ys → ((a : ℕ) → mem a xs ≡ mem a ys) → xs ≡ ys
Asc-ext [] [] hx hy same = refl
Asc-ext [] (y ∷ ys) hx hy same = ground (arith, same y)
Asc-ext (x ∷ xs) [] hx hy same = ground (arith, same x)
Asc-ext (x ∷ xs) (y ∷ ys) hx hy same =
    let e = head-eq x y xs ys hx hy (ground (arith, same x)) (ground (arith, same y)) in
    cc (e, Asc-ext xs ys hx.1 hy.1 (tails e))
  where
    tails : x ≡ y → (a : ℕ) → mem a xs ≡ mem a ys
    tails e a = ground (arith, e, same a, mem_of_below x xs hx.0, mem_of_below y ys hy.0)
