-- ===== src/Mbox/Expunge/Deletion.antt =====
-- Deleting from the back, by indices taken before the first deletion.
use asimap.Prelude.{
  ℕ, zero, suc, ◌<◌, ◌≡◌, refl, Bool, true, false, not, some, List, [], ◌∷◌, arith,
}
use asimap.Prelude.Lists.{All, mem, length, delete_at, reverse_onto, keep_with, All-mem}
use asimap.Prelude.Ascending.{Asc, mem_of_below}
use asimap.Prelude.Dict.{position}
use asimap.Prelude.Position.{get_elem?_of_position, mem_of_get_elem?}

-- The messages that are not among the deleted ones.
abbrev pub spared : List ℕ → ℕ → Bool
spared gone key = not (mem key gone)

All-lt-mem : (x k : ℕ) (xs : List ℕ) → All (λ y. x < y) xs → mem k xs ≡ true → x < k
All-lt-mem x k xs h m = All-mem (λ y. x < y) k xs h m

-- A key below all that are gone is none of them.
keep_with_ignore {ℓ} :
    {A : Type ℓ} (d : ℕ) (gone ks : List ℕ) (items : List A)
    → mem d ks ≡ false
    → keep_with (spared (d ∷ gone)) ks items ≡ keep_with (spared gone) ks items
keep_with_ignore d gone [] items h = refl
keep_with_ignore d gone (k ∷ ks) [] h = refl
keep_with_ignore d gone (k ∷ ks) (a ∷ items) h = ground (arith, keep_with_ignore d gone ks items)

All-trans : (k d : ℕ) (gone : List ℕ) → k < d → All (λ g. d < g) gone → All (λ g. k < g) gone
All-trans k d [] h g = tt
All-trans k d (x ∷ gone) h g = (omega arith, All-trans k d gone h g.1)

mem_of_position : (d i : ℕ) (xs : List ℕ) → position d xs ≡ some i → mem d xs ≡ true
mem_of_position d i xs h = mem_of_get_elem? xs i (get_elem?_of_position xs d i h)

module _ {ℓ} {A : Type ℓ} where
  -- With all that is gone behind `d`, deleting at the original index of `d` removes its item.
  pub delete_at-keep_with :
      (d i : ℕ) (gone ks : List ℕ) (items : List A)
      → Asc ks
      → position d ks ≡ some i
      → All (λ g. d < g) gone
      → length items ≡ length ks
      → delete_at i (keep_with (spared gone) ks items) ≡ keep_with (spared (d ∷ gone)) ks items
  unfolding position
  delete_at-keep_with d i gone [] items a p g l = cc
  delete_at-keep_with d i gone (k ∷ ks) [] a p g l = absurd (omega arith)
  delete_at-keep_with d zero gone (k ∷ ks) (x ∷ items) a p g l =
      let e : k ≡ d = cc (get_elem?_of_position (k ∷ ks) d 0 p) in
      ground (
        arith,
        e,
        mem_of_below d gone g,
        keep_with_ignore d gone ks items (rw (← e) (mem_of_below k ks a.0)),
      )
  delete_at-keep_with d (suc i) gone (k ∷ ks) (x ∷ items) a p g l =
      let p' : position d ks ≡ some i = ground arith in
      let below : k < d = All-lt-mem k d ks a.0 (mem_of_position d i ks p') in
      ground (
        arith,
        below,
        mem_of_below k gone (All-trans k d gone below g),
        delete_at-keep_with d i gone ks items a.1 p' g (omega arith),
      )

  -- And there is an item at that index.
  pub lt-length-keep_with :
      (d i : ℕ) (gone ks : List ℕ) (items : List A)
      → Asc ks
      → position d ks ≡ some i
      → All (λ g. d < g) gone
      → length items ≡ length ks
      → i < length (keep_with (spared gone) ks items)
  unfolding position
  lt-length-keep_with d i gone [] items a p g l = cc
  lt-length-keep_with d i gone (k ∷ ks) [] a p g l = absurd (omega arith)
  lt-length-keep_with d zero gone (k ∷ ks) (x ∷ items) a p g l =
      let e : k ≡ d = cc (get_elem?_of_position (k ∷ ks) d 0 p) in
      ground (arith, e, mem_of_below d gone g)
  lt-length-keep_with d (suc i) gone (k ∷ ks) (x ∷ items) a p g l =
      let p' : position d ks ≡ some i = ground arith in
      let below : k < d = All-lt-mem k d ks a.0 (mem_of_position d i ks p') in
      ground (
        arith,
        mem_of_below k gone (All-trans k d gone below g),
        lt-length-keep_with d i gone ks items a.1 p' g (omega arith),
      )

-- Each item is above all that follow it.
abbrev pub Descends : List ℕ → Type 0
Descends [] = Unit
Descends (x ∷ xs) = All (λ y. y < x) xs × Descends xs

pub reverse_onto-Descends :
    (xs acc : List ℕ)
    → Asc xs
    → Descends acc
    → All (λ x. All (λ y. y < x) acc) xs
    → Descends (reverse_onto xs acc)
reverse_onto-Descends [] acc a d h = d
reverse_onto-Descends (x ∷ xs) acc a d h =
    reverse_onto-Descends xs (x ∷ acc) a.1 (h.0, d) (both xs a.0 h.1)
  where
    both :
        (ys : List ℕ)
        → All (λ y. x < y) ys
        → All (λ y. All (λ z. z < y) acc) ys
        → All (λ y. All (λ z. z < y) (x ∷ acc)) ys
    both [] p q = tt
    both (y ∷ ys) p q = ((p.0, q.0), both ys p.1 q.1)
