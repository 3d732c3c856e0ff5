-- ===== src/Prelude/Lists.antt =====
-- Lists measured and indexed by native numbers, and Python's `in`, `range`, `del l[i]`.
use Prim.Native.Nat.{ℕ, zero, suc, ◌+◌, ◌-◌, ◌≤◌}
use mathlib.Core.Path.{◌≡◌, refl}
use mathlib.Core.Bool.{Bool, true, false, ◌&&◌, ◌||◌}
use mathlib.Core.Logic.{inl, inr}
use mathlib.Core.List.{List, [], ◌∷◌, ◌++◌}
use mathlib.Core.Option.{Option, none, some}
use native.Mathlib.Omega.{arith}
use asimap.Prelude.Tests.{ltb, leb, ◌==◌, if◌then◌else◌, Bool-cases, ==_iff}

module _ {ℓ} {A : Type ℓ} where
  abbrev pub length : List A → ℕ
  length [] = 0
  length (x ∷ xs) = suc (length xs)

  abbrev pub get_elem? : List A → ℕ → Option A
  get_elem? [] i = none
  get_elem? (x ∷ xs) zero = some x
  get_elem? (x ∷ xs) (suc i) = get_elem? xs i

  -- `l[-1]`
  abbrev pub get_last? : List A → Option A
  get_last? [] = none
  get_last? (x ∷ []) = some x
  get_last? (x ∷ y ∷ ys) = get_last? (y ∷ ys)

  abbrev pub take : ℕ → List A → List A
  take zero xs = []
  take (suc n) [] = []
  take (suc n) (x ∷ xs) = x ∷ take n xs

  abbrev pub drop : ℕ → List A → List A
  drop zero xs = xs
  drop (suc n) [] = []
  drop (suc n) (x ∷ xs) = drop n xs

  -- The items that pass a Boolean test: `[x for x in xs if p(x)]`.
  abbrev pub keep : (A → Bool) → List A → List A
  keep p [] = []
  keep p (x ∷ xs) = if p x then x ∷ keep p xs else keep p xs

  -- `any(p(x) for x in xs)` and `all(p(x) for x in xs)`
  abbrev pub any_of : (A → Bool) → List A → Bool
  any_of p [] = false
  any_of p (x ∷ xs) = p x || any_of p xs

  abbrev pub all_of : (A → Bool) → List A → Bool
  all_of p [] = true
  all_of p (x ∷ xs) = p x && all_of p xs

  -- `del l[i]`, at an index in range; out of range nothing changes here, and each caller tests it.
  abbrev pub delete_at : ℕ → List A → List A
  delete_at i [] = []
  delete_at zero (x ∷ xs) = xs
  delete_at (suc i) (x ∷ xs) = x ∷ delete_at i xs

  pub length-append : (xs ys : List A) → length (xs ++ ys) ≡ length xs + length ys
  length-append [] ys = omega arith
  length-append (x ∷ xs) ys = omega (arith, length-append xs ys)

  pub length-drop : (n : ℕ) (xs : List A) → length (drop n xs) ≡ length xs - n
  length-drop zero xs = omega arith
  length-drop (suc n) [] = omega arith
  length-drop (suc n) (x ∷ xs) = omega (arith, length-drop n xs)

  pub keep-append : (p : A → Bool) (xs ys : List A) → keep p (xs ++ ys) ≡ keep p xs ++ keep p ys
  keep-append p [] ys = refl
  keep-append p (x ∷ xs) ys = ground (arith, keep-append p xs ys)

  pub length-keep-le : (p : A → Bool) (xs : List A) → length (keep p xs) ≤ length xs
  length-keep-le p [] = omega arith
  length-keep-le p (x ∷ xs) = ground (arith, length-keep-le p xs)

  pub any_of-append :
      (p : A → Bool) (xs ys : List A) → any_of p (xs ++ ys) ≡ (any_of p xs || any_of p ys)
  any_of-append p [] ys = refl
  any_of-append p (x ∷ xs) ys = ground (arith, any_of-append p xs ys)

abbrev pub All {ℓ κ} : {A : Type ℓ} → (A → Type κ) → List A → Type κ
All P [] = Unit
All P (x ∷ xs) = P x × All P xs

module _ {ℓ κ} {A : Type ℓ} where
  pub All-append : (P : A → Type κ) (xs ys : List A) → All P xs → All P ys → All P (xs ++ ys)
  All-append P [] ys hx hy = hy
  All-append P (x ∷ xs) ys hx hy = (hx.0, All-append P xs ys hx.1 hy)

-- `a in xs`
abbrev pub mem : ℕ → List ℕ → Bool
mem a [] = false
mem a (x ∷ xs) = a == x || mem a xs

pub mem-append : (a : ℕ) (xs ys : List ℕ) → mem a (xs ++ ys) ≡ (mem a xs || mem a ys)
mem-append a [] ys = refl
mem-append a (x ∷ xs) ys = ground (arith, mem-append a xs ys)

pub mem-keep : (p : ℕ → Bool) (a : ℕ) (xs : List ℕ) → mem a (keep p xs) ≡ (p a && mem a xs)
mem-keep p a [] = ground arith
mem-keep p a (x ∷ xs) = ground (arith, mem-keep p a xs)

-- What holds of every item holds of a member.
pub All-mem {κ} : (P : ℕ → Type κ) (a : ℕ) (xs : List ℕ) → All P xs → mem a xs ≡ true → P a
All-mem P a [] h m = cc
All-mem P a (x ∷ xs) h m = elim (Bool-cases (a == x)) [
  | inl e ↦ rw ((==_iff a x).0 e) h.0
  | inr e ↦ All-mem P a xs h.1 (ground arith)
]

-- `range(a, a + n)`
abbrev pub span : ℕ → ℕ → List ℕ
span a zero = []
span a (suc n) = a ∷ span (suc a) n

-- `range(a, b)`
abbrev pub range : ℕ → ℕ → List ℕ
range a b = span a (b - a)

pub length-span : (a n : ℕ) → length (span a n) ≡ n
length-span a zero = refl
length-span a (suc n) = omega (arith, length-span (suc a) n)

pub mem-span : (x a n : ℕ) → mem x (span a n) ≡ (leb a x && ltb x (a + n))
mem-span x a zero = ground arith
mem-span x a (suc n) = ground (arith, mem-span x (suc a) n)

pub mem-range : (x a b : ℕ) → mem x (range a b) ≡ (leb a x && ltb x b)
mem-range x a b = ground (arith, mem-span x a (b - a))

-- `l[::-1]`, in front of `acc`
abbrev pub reverse_onto {ℓ} : {A : Type ℓ} → List A → List A → List A
reverse_onto [] acc = acc
reverse_onto (x ∷ xs) acc = reverse_onto xs (x ∷ acc)

-- The items of the second list whose partner in the first passes the test.
abbrev pub keep_with {ℓ} : {A : Type ℓ} → (ℕ → Bool) → List ℕ → List A → List A
keep_with p [] items = []
keep_with p (k ∷ ks) [] = []
keep_with p (k ∷ ks) (a ∷ rest) = if p k then a ∷ keep_with p ks rest else keep_with p ks rest

pub mem-reverse_onto :
    (a : ℕ) (xs acc : List ℕ) → mem a (reverse_onto xs acc) ≡ (mem a xs || mem a acc)
mem-reverse_onto a [] acc = refl
mem-reverse_onto a (x ∷ xs) acc = ground (arith, mem-reverse_onto a xs (x ∷ acc))

pub keep_with_self : (p : ℕ → Bool) (xs : List ℕ) → keep_with p xs xs ≡ keep p xs
keep_with_self p [] = refl
keep_with_self p (x ∷ xs) = ground (arith, keep_with_self p xs)

-- What holds of every member holds of every item.
pub All-mem-of {κ} : (P : ℕ → Type κ) (xs : List ℕ) → ((k : ℕ) → mem k xs ≡ true → P k) → All P xs
All-mem-of P [] h = tt
All-mem-of P (x ∷ xs) h = (h x (ground arith), All-mem-of P xs (λ k e. h k (ground arith)))
