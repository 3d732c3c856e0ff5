-- ===== src/SeqSet/Numbers.antt =====
-- Which numbers `sequence_set_to_list` returns, and when it raises.
use asimap.Prelude.{
  ℕ, ◌+◌, ◌≤◌, ◌≡◌, refl, Bool, false, ◌&&◌, ◌||◌, List, [], ◌∷◌, ◌++◌, arith, leb, ◌==◌, min, max,
}
use asimap.Prelude.Lists.{All, mem, mem-append, mem-range, any_of}
use asimap.Prelude.Ascending.{Asc, sorted_set, sorted_set-Asc, mem-sorted_set}
use asimap.Result.{ok, >>=-eq-ok}
use asimap.SeqSet.{
  star, num, SeqElt, one, pair, value, span_between, elt_numbers, collect, sequence_set_to_list,
}

-- What RFC 3501 says of an element: `x` is the number, or lies between the two ends in either order.
abbrev pub names : ℕ → ℕ → SeqElt → Bool
names seq_max x (one a) = x == value seq_max a
names seq_max x (pair a b) =
    leb (min (value seq_max a) (value seq_max b)) x
    && leb x (max (value seq_max a) (value seq_max b))

-- Every end of the element is a message number of the mailbox.
abbrev pub Fits : ℕ → SeqElt → Type 0
Fits seq_max (one a) = (1 ≤ value seq_max a) × (value seq_max a ≤ seq_max)
Fits seq_max (pair a b) =
    (1 ≤ value seq_max a)
    × (value seq_max a ≤ seq_max)
    × (1 ≤ value seq_max b)
    × (value seq_max b ≤ seq_max)

mem-span_between : (x a b : ℕ) → mem x (span_between a b) ≡ (leb (min a b) x && leb x (max a b))
unfolding span_between
mem-span_between x a b = ground (arith, mem-range x b (a + 1), mem-range x a (b + 1))

elt_numbers-names :
    (seq_max x : ℕ) (uid_cmd : Bool) (elt : SeqElt) (xs : List ℕ)
    → elt_numbers seq_max uid_cmd elt ≡ ok xs
    → mem x xs ≡ names seq_max x elt
unfolding elt_numbers
elt_numbers-names seq_max x uid_cmd (one star) xs h = ground arith
elt_numbers-names seq_max x uid_cmd (one (num n)) xs h = ground arith
elt_numbers-names seq_max x uid_cmd (pair a b) xs h =
    ground (arith, mem-span_between x (value seq_max a) (value seq_max b))

collect-names :
    (seq_max x : ℕ) (uid_cmd : Bool) (acc : List ℕ) (elts : List SeqElt) (xs : List ℕ)
    → collect seq_max uid_cmd acc elts ≡ ok xs
    → mem x xs ≡ (mem x acc || any_of (names seq_max x) elts)
unfolding collect
collect-names seq_max x uid_cmd acc [] xs h = ground arith
collect-names seq_max x uid_cmd acc (elt ∷ elts) xs h =
    let (ys, e, rest) = >>=-eq-ok (elt_numbers seq_max uid_cmd elt) _ h in
    ground (
      arith,
      collect-names seq_max x uid_cmd (acc ++ ys) elts xs rest,
      mem-append x acc ys,
      elt_numbers-names seq_max x uid_cmd elt ys e,
    )

-- When `sequence_set_to_list` returns, the list is strictly ascending, so sorted with no number
-- twice, and a number is in it exactly if some element of the set names it.
pub sequence_set_to_list-names :
    (elts : List SeqElt) (seq_max : ℕ) (uid_cmd : Bool) (xs : List ℕ)
    → sequence_set_to_list elts seq_max uid_cmd ≡ ok xs
    → Asc xs × ((x : ℕ) → mem x xs ≡ any_of (names seq_max x) elts)
unfolding sequence_set_to_list
sequence_set_to_list-names elts seq_max uid_cmd xs h =
    let (ys, e, rest) = >>=-eq-ok (collect seq_max uid_cmd [] elts) _ h in
    let same : sorted_set ys ≡ xs = ground arith in
    (
      rw (← same) (sorted_set-Asc ys),
      λ x.
          rw (← same)
            (ground (arith, mem-sorted_set x ys, collect-names seq_max x uid_cmd [] elts ys e)),
    )

elt_numbers-Fits :
    (seq_max : ℕ) (elt : SeqElt) {xs : List ℕ}
    → elt_numbers seq_max false elt ≡ ok xs
    → Fits seq_max elt
unfolding elt_numbers
elt_numbers-Fits seq_max (one star) h = ground arith
elt_numbers-Fits seq_max (one (num n)) h = ground arith
elt_numbers-Fits seq_max (pair a b) h = ground arith

Fits-elt_numbers :
    (seq_max : ℕ) (elt : SeqElt)
    → Fits seq_max elt
    → (xs : List ℕ) × (elt_numbers seq_max false elt ≡ ok xs)
unfolding elt_numbers
Fits-elt_numbers seq_max (one star) h = (seq_max ∷ [], ground arith)
Fits-elt_numbers seq_max (one (num n)) h = (n ∷ [], ground arith)
Fits-elt_numbers seq_max (pair a b) h =
    (span_between (value seq_max a) (value seq_max b), ground arith)

collect-Fits :
    (seq_max : ℕ) (acc : List ℕ) (elts : List SeqElt) {xs : List ℕ}
    → collect seq_max false acc elts ≡ ok xs
    → All (Fits seq_max) elts
unfolding collect
collect-Fits seq_max acc [] h = tt
collect-Fits seq_max acc (elt ∷ elts) h =
    let (ys, e, rest) = >>=-eq-ok (elt_numbers seq_max false elt) _ h in
    (elt_numbers-Fits seq_max elt e, collect-Fits seq_max (acc ++ ys) elts rest)

Fits-collect :
    (seq_max : ℕ) (acc : List ℕ) (elts : List SeqElt)
    → All (Fits seq_max) elts
    → (xs : List ℕ) × (collect seq_max false acc elts ≡ ok xs)
unfolding collect
Fits-collect seq_max acc [] h = (acc, refl)
Fits-collect seq_max acc (elt ∷ elts) h =
    let (ys, e) = Fits-elt_numbers seq_max elt h.0 in
    let (zs, f) = Fits-collect seq_max (acc ++ ys) elts h.1 in (zs, rw e f)

-- Without `uid_cmd` the function returns exactly if every end of every element is at least 1 and at
-- most `seq_max`. So `"*"` is refused in an empty mailbox.
pub sequence_set_to_list-Fits :
    (elts : List SeqElt) (seq_max : ℕ)
    → ((xs : List ℕ) → sequence_set_to_list elts seq_max false ≡ ok xs → All (Fits seq_max) elts)
      × (All (Fits seq_max) elts
          → (xs : List ℕ) × (sequence_set_to_list elts seq_max false ≡ ok xs))
unfolding sequence_set_to_list
sequence_set_to_list-Fits elts seq_max = (
  λ xs h.
      let (ys, e, rest) = >>=-eq-ok (collect seq_max false [] elts) _ h in
      collect-Fits seq_max [] elts e,
  λ fits. let (ys, e) = Fits-collect seq_max [] elts fits in (sorted_set ys, rw e),
)
