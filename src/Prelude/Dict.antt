-- ===== src/Prelude/Dict.antt =====
-- Python's `dict`, in insertion order, for keys with a Boolean test.
use mathlib.Core.List.{List, [], ◌∷◌, ◌++◌, map}
use mathlib.Core.Logic.{inl, inr}
use Prim.Native.Nat.{ℕ, suc, ◌+◌}
use Prim.Native.String.{String}
use mathlib.Core.Path.{◌≡◌, refl, subst₂}
use mathlib.Core.Bool.{Bool, true, false, not, ◌&&◌, ◌||◌}
use mathlib.Core.Option.{Option, none, some}
use text.Mathlib.Text.{◌==◌ as str_eq}
use text.Mathlib.TextEquality.{eq_iff}
use native.Mathlib.Omega.{arith}
use asimap.Prelude.Tests.{◌==◌, if◌then◌else◌, Bool-cases}
use asimap.Prelude.Lists.{All}

module _ {ℓ} {V : Type ℓ} where
  -- `d.get(k)`
  unfoldable pub lookup : String → List (String × V) → Option V
  lookup k [] = none
  lookup k ((j, v) ∷ d) = if str_eq j k then some v else lookup k d

  -- `d[k] = v`: an old key keeps its place, a new one goes to the end.
  unfoldable pub put : String → V → List (String × V) → List (String × V)
  put k v [] = (k, v) ∷ []
  put k v ((j, w) ∷ d) = if str_eq j k then (j, v) ∷ d else (j, w) ∷ put k v d

  -- `del d[k]`, `d.pop(k, None)`
  unfoldable pub remove : String → List (String × V) → List (String × V)
  remove k [] = []
  remove k ((j, w) ∷ d) = let rest = remove k d in if str_eq j k then rest else (j, w) ∷ rest

  pub lookup-put :
      (k j : String) (v : V) (d : List (String × V))
      → lookup j (put k v d) ≡ (if str_eq k j then some v else lookup j d)
  unfolding lookup put
  lookup-put k j v [] = refl
  lookup-put k j v ((i, w) ∷ d) =
      ground (arith, eq_iff k j, eq_iff i k, eq_iff i j, lookup-put k j v d)

  pub lookup-remove :
      (k j : String) (d : List (String × V))
      → lookup j (remove k d) ≡ (if str_eq k j then none else lookup j d)
  unfolding lookup remove
  lookup-remove k j [] = ground arith
  lookup-remove k j ((i, w) ∷ d) =
      ground (arith, eq_iff k j, eq_iff i k, eq_iff i j, lookup-remove k j d)

-- A `dict[int, int]`.
unfoldable pub index_of? : ℕ → List (ℕ × ℕ) → Option ℕ
index_of? k [] = none
index_of? k ((j, i) ∷ d) = if k == j then some i else index_of? k d

-- `k in d`
abbrev pub has_index : ℕ → List (ℕ × ℕ) → Bool
has_index k d = elim (index_of? k d) [ none ↦ false | some i ↦ true ]

-- `{k: i for i, k in enumerate(ks, i)}`: of equal keys the last one's index stays.
unfoldable pub enumerate_from : ℕ → List ℕ → List (ℕ × ℕ)
enumerate_from i [] = []
enumerate_from i (k ∷ ks) =
    let rest = enumerate_from (suc i) ks in if has_index k rest then rest else (k, i) ∷ rest

-- The index of the last item that equals `k`.
unfoldable pub position : ℕ → List ℕ → Option ℕ
position k [] = none
position k (x ∷ xs) = elim (position k xs) [
  | some i ↦ some (suc i)
  | none ↦ if k == x then some 0 else none
]

abbrev shift : ℕ → Option ℕ → Option ℕ
shift i none = none
shift i (some j) = some (i + j)

pub index_of-enumerate_from :
    (k i : ℕ) (ks : List ℕ) → index_of? k (enumerate_from i ks) ≡ shift i (position k ks)
unfolding index_of? enumerate_from position
index_of-enumerate_from k i [] = refl
index_of-enumerate_from k i (x ∷ xs) =
    ground (arith, index_of-enumerate_from k (suc i) xs, index_of-enumerate_from x (suc i) xs)

-- `s in xs`, for texts.
abbrev pub str_mem : String → List String → Bool
str_mem s [] = false
str_mem s (x ∷ xs) = str_eq x s || str_mem s xs

-- `xs.add(s)` for a set of texts, the new one last.
unfoldable pub str_add : String → List String → List String
str_add s xs = if str_mem s xs then xs else xs ++ s ∷ []

-- `xs.discard(s)`
unfoldable pub str_discard : String → List String → List String
str_discard s [] = []
str_discard s (x ∷ xs) = let rest = str_discard s xs in if str_eq x s then rest else x ∷ rest

pub str_mem-append :
    (s : String) (xs ys : List String) → str_mem s (xs ++ ys) ≡ (str_mem s xs || str_mem s ys)
str_mem-append s [] ys = refl
str_mem-append s (x ∷ xs) ys = ground (arith, str_mem-append s xs ys)

pub str_mem-str_add :
    (s t : String) (xs : List String) → str_mem s (str_add t xs) ≡ (str_eq t s || str_mem s xs)
unfolding str_add
str_mem-str_add s t xs = ground (arith, eq_iff t s, str_mem-append s xs (t ∷ []))

pub str_mem-str_discard :
    (s t : String) (xs : List String)
    → str_mem s (str_discard t xs) ≡ (not (str_eq t s) && str_mem s xs)
unfolding str_discard
str_mem-str_discard s t [] = ground arith
str_mem-str_discard s t (x ∷ xs) =
    ground (arith, eq_iff t s, eq_iff x t, eq_iff x s, str_mem-str_discard s t xs)

module _ {ℓ κ} {V : Type ℓ} where
  -- What holds of every entry holds of the one that is found.
  pub lookup-All :
      (P : String → V → Type κ) (k : String) (d : List (String × V)) {v : V}
      → All (λ e. P e.0 e.1) d
      → lookup k d ≡ some v
      → P k v
  unfolding lookup
  lookup-All P k [] h e = cc
  lookup-All P k ((j, w) ∷ d) {v} h e = elim (Bool-cases (str_eq j k)) [
    | inl q ↦ let same : w ≡ v = ground arith in subst₂ P ((eq_iff j k).0 q) same h.0
    | inr q ↦ lookup-All P k d h.1 (ground arith)
  ]

pub lookup-none {ℓ} :
    {V : Type ℓ} (k : String) (d : List (String × V))
    → str_mem k (map (λ e. e.0) d) ≡ false
    → lookup k d ≡ none
unfolding lookup
lookup-none k [] h = refl
lookup-none k ((j, w) ∷ d) h = ground (arith, lookup-none k d)
