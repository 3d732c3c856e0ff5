-- ===== src/Compact/RoundTrip.antt =====
-- What `compact_sequence` writes, `expand_sequence` reads.
use asimap.Prelude.{
  ℕ, zero, suc, ◌+◌, ◌-◌, ◌≡◌, refl, sym, ap, ◌∙◌, inl, inr, List, [], ◌∷◌, ◌++◌, Bool-cases, arith,
}
use asimap.Prelude.Lists.{span, range}
use asimap.Prelude.Ascending.{
  insert, insert_all, sorted_set, sorted_set-Asc, mem-sorted_set, Asc-ext,
}
use asimap.Prelude.Sorting.{sorted, mem-sorted}
use asimap.Compact.{
  Spec, digits, start_stop, same_key, put_first, group_by_run, last_of, as_range, as_ranges,
  compact_sequence, expand_into, expand_sequence,
}

-- The numbers that a part stands for, and those of all parts in their order.
abbrev numbers : Spec → List ℕ
numbers (digits n) = n ∷ []
numbers (start_stop start stop) = range start (stop + 1)

abbrev listed : List Spec → List ℕ
listed [] = []
listed (spec ∷ specs) = numbers spec ++ listed specs

insert_all-append : (xs ys s : List ℕ) → insert_all (xs ++ ys) s ≡ insert_all ys (insert_all xs s)
unfolding insert_all
insert_all-append [] ys s = refl
insert_all-append (x ∷ xs) ys s = insert_all-append xs ys (insert x s)

expand_into-listed :
    (keys : List ℕ) (specs : List Spec) → expand_into keys specs ≡ insert_all (listed specs) keys
unfolding expand_into insert_all
expand_into-listed keys [] = refl
expand_into-listed keys (digits n ∷ specs) = expand_into-listed (insert n keys) specs
expand_into-listed keys (start_stop start stop ∷ specs) =
    let run = range start (stop + 1) in
    expand_into-listed (insert_all run keys) specs ∙ sym (insert_all-append run (listed specs) keys)

last_of-span : (n k : ℕ) → last_of n (span (suc n) k) ≡ n + k
last_of-span n zero = omega arith
last_of-span n (suc k) = last_of-span (suc n) k ∙ omega arith

-- A group that is a run is written as what stands for its numbers.
numbers-as_range : (n k : ℕ) → numbers (as_range (n, span (suc n) k)) ≡ span n (suc k)
numbers-as_range n zero = refl
numbers-as_range n (suc k) =
    let e : (last_of (suc n) (span (suc (suc n)) k) + 1) - n ≡ suc (suc k) =
      omega (arith, last_of-span (suc n) k) in
    ap (span n) e

-- The first group of a list is a run from its first number on; the groups stand for the list.
record IsGrouped (n : ℕ) (keys : List ℕ) (groups : List (ℕ × List ℕ)) : Type 0 where
  more : ℕ
  others : List (ℕ × List ℕ)
  split : groups ≡ (n, span (suc n) more) ∷ others
  whole : span (suc n) more ++ listed (as_ranges others) ≡ keys

listed-IsGrouped :
    (n : ℕ) (keys : List ℕ) (groups : List (ℕ × List ℕ))
    → IsGrouped n keys groups
    → listed (as_ranges groups) ≡ n ∷ keys
listed-IsGrouped n keys groups h =
    ap (λ (g : List (ℕ × List ℕ)). listed (as_ranges g)) h.split
    ∙ ap (λ (l : List ℕ). l ++ listed (as_ranges h.others)) (numbers-as_range n h.more)
    ∙ ap (λ (l : List ℕ). n ∷ l) h.whole

put_first-IsGrouped :
    (n m : ℕ) (keys : List ℕ) (groups : List (ℕ × List ℕ))
    → m ≡ suc n
    → IsGrouped m keys groups
    → IsGrouped n (m ∷ keys) (put_first n groups)
put_first-IsGrouped n m keys groups e h = record {
  more = suc h.more;
  others = h.others;
  split = ap (put_first n) h.split ∙ ap (λ x. (n, x ∷ span (suc x) h.more) ∷ h.others) e;
  whole =
      ap (λ x. x ∷ span (suc x) h.more ++ listed (as_ranges h.others)) (sym e)
      ∙ ap (λ (l : List ℕ). m ∷ l) h.whole;
}

group_by_run-IsGrouped : (i n : ℕ) (keys : List ℕ) → IsGrouped n keys (group_by_run i (n ∷ keys))
unfolding group_by_run
group_by_run-IsGrouped i n [] = record { more = 0; others = []; split = refl; whole = refl }
group_by_run-IsGrouped i n (m ∷ keys) =
    let h = group_by_run-IsGrouped (suc i) m keys in
    elim (Bool-cases (same_key n i m (suc i))) [
      | inl e ↦
          rw e
            (put_first-IsGrouped n m keys (group_by_run (suc i) (m ∷ keys)) (ground (arith, e)) h)
      | inr e ↦ rw e record {
        more = 0;
        others = group_by_run (suc i) (m ∷ keys);
        split = refl;
        whole = listed-IsGrouped m keys (group_by_run (suc i) (m ∷ keys)) h;
      }
    ]

listed-group_by_run : (i : ℕ) (keys : List ℕ) → listed (as_ranges (group_by_run i keys)) ≡ keys
unfolding group_by_run
listed-group_by_run i [] = refl
listed-group_by_run i (n ∷ keys) =
    listed-IsGrouped n keys (group_by_run i (n ∷ keys)) (group_by_run-IsGrouped i n keys)

-- A list of keys, in any order and with repetitions, is read as the ascending list of its keys from
-- what is written for it.
pub expand-compact : (keys : List ℕ) → expand_sequence (compact_sequence keys) ≡ sorted_set keys
unfolding expand_sequence compact_sequence sorted_set
expand-compact keys =
    expand_into-listed [] (compact_sequence keys)
    ∙ ap (λ l. insert_all l []) (listed-group_by_run 0 (sorted keys))
    ∙ Asc-ext (sorted_set (sorted keys)) (sorted_set keys) (sorted_set-Asc (sorted keys))
        (sorted_set-Asc keys)
        (λ a. mem-sorted_set a (sorted keys) ∙ mem-sorted a keys ∙ sym (mem-sorted_set a keys))
