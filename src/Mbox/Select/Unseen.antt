-- ===== src/Mbox/Select/Unseen.antt =====
-- The UNSEEN line of SELECT names the first unseen message.
use asimap.Prelude.{
  ℕ, zero, suc, ◌+◌, ◌≤◌, ◌<◌, ◌≡◌, refl, ap, sym, ◌∙◌, Bool, true, false, some, List, [], ◌∷◌,
  arith, leb, Bool-cases, inl, inr,
}
use asimap.Prelude.Lists.{All, All-mem, mem, get_elem?}
use asimap.Prelude.Ascending.{Asc}
use asimap.Prelude.Dict.{index_of?, str_mem}
use asimap.Prelude.Position.{
  index_of-enumerate, position_of_mem, get_elem?_of_position, mem_of_get_elem?,
}
use asimap.Prelude.Sorting.{sorted, insert_sorted, mem-sorted}
use asimap.Result.{ok}
use asimap.Mbox.Sequences.{members, has}
use asimap.Mbox.State.{Mailbox, Client}
use asimap.Mbox.Invariant.{IsValid}
use asimap.Client.{Untagged, first_unseen}
use asimap.Mbox.Select.{unseen_lines, opening, selected}

-- Each number is at most those after it.
abbrev Climbs : List ℕ → Type 0
Climbs [] = Unit
Climbs (x ∷ xs) = All (λ y. x ≤ y) xs × Climbs xs

All-le : (a b : ℕ) (xs : List ℕ) → a ≤ b → All (λ y. b ≤ y) xs → All (λ y. a ≤ y) xs
All-le a b [] h p = tt
All-le a b (x ∷ xs) h p = (omega arith, All-le a b xs h p.1)

All-inserted :
    (b a : ℕ) (xs : List ℕ) → b ≤ a → All (λ y. b ≤ y) xs → All (λ y. b ≤ y) (insert_sorted a xs)
unfolding insert_sorted
All-inserted b a [] h p = (h, tt)
All-inserted b a (x ∷ xs) h p = elim (Bool-cases (leb a x)) [
  | inl e ↦ rw e (h, p)
  | inr e ↦ rw e (p.0, All-inserted b a xs h p.1)
]

inserted-Climbs : (a : ℕ) (xs : List ℕ) → Climbs xs → Climbs (insert_sorted a xs)
unfolding insert_sorted
inserted-Climbs a [] h = (tt, tt)
inserted-Climbs a (x ∷ xs) h = elim (Bool-cases (leb a x)) [
  | inl e ↦ rw e ((ground arith, All-le a x xs (ground arith) h.0), h)
  | inr e ↦ rw e (All-inserted x a xs (ground arith) h.0, inserted-Climbs a xs h.1)
]

sorted-Climbs : (xs : List ℕ) → Climbs (sorted xs)
unfolding sorted
sorted-Climbs [] = tt
sorted-Climbs (x ∷ xs) = inserted-Climbs x (sorted xs) (sorted-Climbs xs)

head-le : (a b : ℕ) (xs : List ℕ) → Climbs (a ∷ xs) → mem b (a ∷ xs) ≡ true → a ≤ b
head-le a b xs h m = elim (Bool-cases (mem b xs)) [
  | inl e ↦ All-mem (λ y. a ≤ y) b xs h.0 e
  | inr e ↦ ground (arith, e)
]

Asc-lt :
    (xs : List ℕ) (i j a b : ℕ)
    → Asc xs
    → get_elem? xs j ≡ some a
    → get_elem? xs i ≡ some b
    → j < i
    → a < b
Asc-lt [] i j a b h ej ei lt = absurd (cc ej)
Asc-lt (x ∷ xs) zero j a b h ej ei lt = absurd (omega arith)
Asc-lt (x ∷ xs) (suc i) zero a b h ej ei lt =
    let later : x < b = All-mem (λ y. x < y) b xs h.0 (mem_of_get_elem? xs i ei) in ground arith
Asc-lt (x ∷ xs) (suc i) (suc j) a b h ej ei lt = Asc-lt xs i j a b h.1 ej ei (omega arith)

-- The message at this index is unseen, and none before it is.
pub record IsFirstUnseen (m : Mailbox) (i : ℕ) : Type 0 where
  pub key : ℕ
  pub there : get_elem? m.msg_keys i ≡ some key
  pub unseen : has "unseen" key m.sequences ≡ true
  pub first :
      (j k : ℕ) → j < i → get_elem? m.msg_keys j ≡ some k → has "unseen" k m.sequences ≡ false

not_unseen : (a k : ℕ) (b : Bool) → k < a → (b ≡ true → a ≤ k) → b ≡ false
not_unseen a k true lt h = absurd (omega (arith, h refl))
not_unseen a k false lt h = refl

self_mem : (a : ℕ) (xs : List ℕ) → mem a (a ∷ xs) ≡ true
self_mem a xs = ground arith

unseen_line :
    (a i : ℕ) (rest : List ℕ) (d : List (ℕ × ℕ))
    → index_of? a d ≡ some i
    → unseen_lines (a ∷ rest) d ≡ first_unseen (i + 1) ∷ []
unfolding unseen_lines
unseen_line a i rest d e = rw (e, unseen_lines)

selected_lines :
    (client : Client) (m : Mailbox)
    → str_mem "\\Noselect" m.attributes ≡ false
    → (selected client m).0
      ≡ ok (opening (unseen_lines (sorted (members "unseen" m.sequences)) m.key_to_idx) m)
unfolding selected
selected_lines client m e = ground (arith, e)

first_lem :
    (m : Mailbox) (a : ℕ) (rest : List ℕ)
    → IsValid m
    → sorted (members "unseen" m.sequences) ≡ a ∷ rest
    → mem a m.msg_keys ≡ true
    → (i : ℕ) × (unseen_lines (a ∷ rest) m.key_to_idx ≡ first_unseen (i + 1) ∷ [])
      × IsFirstUnseen m i
first_lem m a rest v e known =
    let (i, p) = position_of_mem a m.msg_keys known in
    let there = get_elem?_of_position m.msg_keys a i p in
    let found : index_of? a m.key_to_idx ≡ some i =
      rw (v.keys_indexed, index_of-enumerate a m.msg_keys) p in
    let in_sorted : (k : ℕ) → mem k (a ∷ rest) ≡ has "unseen" k m.sequences =
      λ k. ap (mem k) (sym e) ∙ mem-sorted k (members "unseen" m.sequences) in
    let climbs : Climbs (a ∷ rest) = rw e at (sorted-Climbs (members "unseen" m.sequences)) in
    (
      i,
      unseen_line a i rest m.key_to_idx found,
      record {
        key = a;
        there = there;
        unseen = sym (in_sorted a) ∙ self_mem a rest;
        first = λ j k lt at.
            not_unseen a k (has "unseen" k m.sequences)
              (Asc-lt m.msg_keys i j k a v.keys_ascend at there lt)
              (λ u. head-le a k rest climbs (in_sorted k ∙ u));
      },
    )

no_head : (a : ℕ) (xs : List ℕ) → xs ≡ [] → mem a xs ≡ true → ⊥
no_head a [] e h = cc
no_head a (x ∷ xs) e h = cc

selected_first :
    (client : Client) (m : Mailbox) (xs : List ℕ) (k : ℕ)
    → IsValid m
    → str_mem "\\Noselect" m.attributes ≡ false
    → ((k : ℕ) → has "unseen" k m.sequences ≡ true → mem k m.msg_keys ≡ true)
    → has "unseen" k m.sequences ≡ true
    → sorted (members "unseen" m.sequences) ≡ xs
    → (i : ℕ) × ((selected client m).0 ≡ ok (opening (first_unseen (i + 1) ∷ []) m))
      × IsFirstUnseen m i
selected_first client m [] k v sel known u e = absurd (
    no_head k (sorted (members "unseen" m.sequences)) e
      (mem-sorted k (members "unseen" m.sequences) ∙ u))
selected_first client m (a ∷ rest) k v sel known u e =
    let there : has "unseen" a m.sequences ≡ true =
      sym (mem-sorted a (members "unseen" m.sequences)) ∙ ap (mem a) e ∙ self_mem a rest in
    let (i, line, first) = first_lem m a rest v e (known a there) in
    (
      i,
      selected_lines client m sel
          ∙ ap (λ (l : List ℕ). ok (opening (unseen_lines l m.key_to_idx) m)) e
          ∙ ap (λ (l : List Untagged). ok (opening l m)) line,
      first,
    )

-- On a valid mailbox that can be selected, whose unseen messages are its own and of which there is
-- one, SELECT sends the counts, the number of the first unseen message, the UID values and the flags.
pub selected_unseen :
    (client : Client) (m : Mailbox) (k : ℕ)
    → IsValid m
    → str_mem "\\Noselect" m.attributes ≡ false
    → ((k : ℕ) → has "unseen" k m.sequences ≡ true → mem k m.msg_keys ≡ true)
    → has "unseen" k m.sequences ≡ true
    → (i : ℕ) × ((selected client m).0 ≡ ok (opening (first_unseen (i + 1) ∷ []) m))
      × IsFirstUnseen m i
selected_unseen client m k v sel known u =
    selected_first client m (sorted (members "unseen" m.sequences)) k v sel known u refl
