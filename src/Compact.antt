-- ===== src/Compact.antt =====
-- asimap/utils.py, `compact_sequence` and `expand_sequence`: how the keys and UIDs of a mailbox are
-- written to the database and read from it. The text is the list of its comma-separated parts.
pub mod RoundTrip
use asimap.Prelude.{ℕ, suc, ◌+◌, Bool, List, [], ◌∷◌, ◌==◌, if◌then◌else◌}
use asimap.Prelude.Lists.{range}
use asimap.Prelude.Ascending.{insert, insert_all}
use asimap.Prelude.Sorting.{sorted}

-- A part of the text: `"7"` or `"7-9"`.
pub data Spec : Type 0 where
  digits : ℕ → Spec
  start_stop : ℕ → ℕ → Spec

-- `n - next(c)` is the same for the two numbers at these indices.
abbrev pub same_key : ℕ → ℕ → ℕ → ℕ → Bool
same_key n i m j = n + j == m + i

abbrev pub put_first : ℕ → List (ℕ × List ℕ) → List (ℕ × List ℕ)
put_first n [] = (n, []) ∷ []
put_first n ((first, rest) ∷ groups) = (n, first ∷ rest) ∷ groups

-- `groupby(keys, key=lambda n, c=count(): n - next(c))`, from an index on: each group is its first
-- item and the others.
unfoldable pub group_by_run : ℕ → List ℕ → List (ℕ × List ℕ)
group_by_run i [] = []
group_by_run i (n ∷ []) = (n, []) ∷ []
group_by_run i (n ∷ m ∷ keys) =
    let groups = group_by_run (suc i) (m ∷ keys) in
    if same_key n i m (suc i) then put_first n groups else (n, []) ∷ groups

-- The last item of a list that begins with the first argument
abbrev pub last_of : ℕ → List ℕ → ℕ
last_of first [] = first
last_of first (x ∷ xs) = last_of x xs

abbrev pub as_range : ℕ × List ℕ → Spec
as_range (first, []) = digits first
as_range (first, x ∷ xs) = start_stop first (last_of x xs)

abbrev pub as_ranges : List (ℕ × List ℕ) → List Spec
as_ranges [] = []
as_ranges (group ∷ groups) = as_range group ∷ as_ranges groups

unfoldable pub compact_sequence : List ℕ → List Spec
unfolding group_by_run
compact_sequence keys = as_ranges (group_by_run 0 (sorted keys))

-- The loop over the parts, with the set of keys so far
unfoldable pub expand_into : List ℕ → List Spec → List ℕ
expand_into keys [] = keys
expand_into keys (digits n ∷ specs) = expand_into (insert n keys) specs
expand_into keys (start_stop start stop ∷ specs) =
    expand_into (insert_all (range start (stop + 1)) keys) specs

unfoldable pub expand_sequence : List Spec → List ℕ
unfolding expand_into
expand_sequence contents = expand_into [] contents
