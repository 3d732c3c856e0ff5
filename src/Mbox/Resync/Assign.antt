-- ===== src/Mbox/Resync/Assign.antt =====
-- UIDs of old messages and of new ones.
use asimap.Prelude.{
  ℕ, zero, suc, ◌+◌, ◌-◌, ◌≤◌, ◌<◌, ◌≡◌, true, false, not, some, List, [], ◌∷◌, ◌++◌, arith,
}
use asimap.Prelude.Lists.{
  All, mem, mem-append, mem-keep, length, length-span, span, range, get_last?,
}
use asimap.Prelude.Ascending.{
  Asc, Asc-ext, sorted_set, sorted_set-Asc, mem-sorted_set, difference, mem_of_below,
}
use asimap.Mbox.Resync.{after_last}

Asc-suffix : (xs ys : List ℕ) → Asc (xs ++ ys) → Asc ys
Asc-suffix [] ys h = h
Asc-suffix (x ∷ xs) ys h = Asc-suffix xs ys h.1

-- Of an ascending list no item of the front is in the back.
not_in_suffix : (a : ℕ) (xs ys : List ℕ) → Asc (xs ++ ys) → mem a xs ≡ true → mem a ys ≡ false
not_in_suffix a [] ys h m = cc
not_in_suffix a (x ∷ xs) ys h m =
    ground (arith, mem_of_below x (xs ++ ys) h.0, mem-append x xs ys, not_in_suffix a xs ys h.1)

-- What the folder has beyond a front part is the rest.
pub difference-append :
    (xs ys : List ℕ) → Asc (xs ++ ys) → sorted_set (difference (xs ++ ys) xs) ≡ ys
difference-append xs ys h =
    Asc-ext (sorted_set (difference (xs ++ ys) xs)) ys (sorted_set-Asc (difference (xs ++ ys) xs))
      (Asc-suffix xs ys h)
      λ a. ground (
        arith,
        mem-sorted_set a (difference (xs ++ ys) xs),
        mem-keep (λ x. not (mem x xs)) a (xs ++ ys),
        mem-append a xs ys,
        not_in_suffix a xs ys h,
      )

get_last-span : (xs : List ℕ) (a n : ℕ) → get_last? (xs ++ span a (suc n)) ≡ some (a + n)
get_last-span [] a zero = ground arith
get_last-span [] a (suc n) = ground (arith, get_last-span [] (suc a) n)
get_last-span (x ∷ []) a n = get_last-span [] a n
get_last-span (x ∷ y ∷ xs) a n = get_last-span (y ∷ xs) a n

-- The numbering goes on: with a new message `next_uid` moves past the last UID given out.
pub after_last-span :
    (xs : List ℕ) (next n : ℕ) → after_last next (xs ++ range next (next + suc n)) ≡ next + suc n
after_last-span xs next n =
    let e : next + suc n - next ≡ suc n = omega arith in
    rw e (ground (arith, get_last-span xs next n))

pub span-lt : (a n b : ℕ) → a + n ≤ b → All (λ u. u < b) (span a n)
span-lt a zero b h = tt
span-lt a (suc n) b h = (omega arith, span-lt (suc a) n b (omega arith))

pub All-lt-le : (a b : ℕ) (xs : List ℕ) → a ≤ b → All (λ u. u < a) xs → All (λ u. u < b) xs
All-lt-le a b [] h p = tt
All-lt-le a b (x ∷ xs) h p = (omega arith, All-lt-le a b xs h p.1)

pub length-range : (a n : ℕ) → length (range a (a + n)) ≡ n
length-range a n = omega (arith, length-span a (a + n - a))
