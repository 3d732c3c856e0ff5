-- ===== src/Prelude/Position.antt =====
-- The dictionary of an enumeration finds each item of a list with no item twice at its place.
use asimap.Prelude.Tests.{Bool-cases}
use asimap.Prelude.Lists.{get_elem?, mem, length}
use asimap.Prelude.Ascending.{Asc, mem_of_below}
use asimap.Prelude.Dict.{position, index_of?, enumerate_from, index_of-enumerate_from}
use Prim.Native.Nat.{ℕ, zero, suc, ◌<◌}
use mathlib.Core.Path.{◌≡◌, refl}
use mathlib.Core.Logic.{inl, inr}
use mathlib.Core.Bool.{true, false}
use mathlib.Core.Option.{none, some}
use mathlib.Core.List.{List, [], ◌∷◌}
use native.Mathlib.Omega.{arith}

pub position_of_not_mem : (k : ℕ) (xs : List ℕ) → mem k xs ≡ false → position k xs ≡ none
unfolding position
position_of_not_mem k [] h = refl
position_of_not_mem k (x ∷ xs) h = ground (arith, position_of_not_mem k xs)

pub mem_of_get_elem? : (xs : List ℕ) (i : ℕ) {k : ℕ} → get_elem? xs i ≡ some k → mem k xs ≡ true
mem_of_get_elem? [] i h = cc
mem_of_get_elem? (x ∷ xs) zero h = ground arith
mem_of_get_elem? (x ∷ xs) (suc i) h = ground (arith, mem_of_get_elem? xs i h)

pub position_of_get_elem? :
    (xs : List ℕ) (i k : ℕ) → Asc xs → get_elem? xs i ≡ some k → position k xs ≡ some i
unfolding position
position_of_get_elem? [] i k a h = cc
position_of_get_elem? (x ∷ xs) zero k a h =
    let e : x ≡ k = ground arith in
    ground (arith, e, mem_of_below x xs a.0, position_of_not_mem k xs)
position_of_get_elem? (x ∷ xs) (suc i) k a h = ground (arith, position_of_get_elem? xs i k a.1 h)

pub get_elem?_of_position :
    (xs : List ℕ) (k i : ℕ) → position k xs ≡ some i → get_elem? xs i ≡ some k
unfolding position
get_elem?_of_position [] k i h = cc
get_elem?_of_position (x ∷ xs) k zero h = ground arith
get_elem?_of_position (x ∷ xs) k (suc i) h = get_elem?_of_position xs k i (ground arith)

pub position_of_mem : (k : ℕ) (xs : List ℕ) → mem k xs ≡ true → (i : ℕ) × (position k xs ≡ some i)
unfolding position
position_of_mem k [] h = cc
position_of_mem k (x ∷ xs) h = elim (Bool-cases (mem k xs)) [
  | inl e ↦ let (i, p) = position_of_mem k xs e in (suc i, rw p)
  | inr e ↦ (0, ground (arith, position_of_not_mem k xs e))
]

pub index_of-enumerate : (k : ℕ) (xs : List ℕ) → index_of? k (enumerate_from 0 xs) ≡ position k xs
index_of-enumerate k xs = ground (arith, index_of-enumerate_from k 0 xs)

pub get_elem?_of_lt {ℓ} :
    {A : Type ℓ} (xs : List A) (i : ℕ) → i < length xs → (a : A) × (get_elem? xs i ≡ some a)
get_elem?_of_lt [] i h = absurd (omega arith)
get_elem?_of_lt (x ∷ xs) zero h = (x, refl)
get_elem?_of_lt (x ∷ xs) (suc i) h = get_elem?_of_lt xs i (omega arith)

pub lt-length_of_position : (k i : ℕ) (xs : List ℕ) → position k xs ≡ some i → i < length xs
unfolding position
lt-length_of_position k i [] h = cc
lt-length_of_position k zero (x ∷ xs) h = omega arith
lt-length_of_position k (suc i) (x ∷ xs) h =
    omega (arith, lt-length_of_position k i xs (ground arith))
