-- ===== src/Mbox/Conflict/Admission.antt =====
-- What `would_conflict` keeps apart, along every history of a mailbox.
use asimap.Prelude.{
  ℕ, ◌≡◌, refl, ap, Bool, true, false, not, ◌&&◌, ◌||◌, List, [], ◌∷◌, arith, Bool-cases, Bool-ext,
  inl, inr, ◌==◌, ==_iff,
}
use asimap.Prelude.Lists.{All, mem, any_of}
use asimap.Result.{ok, ok-injective}
use asimap.Mbox.Conflict.{
  ImapCommand, copy, fetch, search, store, Command, is_conflicting, Kind, searches, copies, fetches,
  stores, others, kind_of, messages, intersect, stops_copy, stops_fetch, stops_search, stops_store,
  conflict_of, would_conflict, is_searches, is_stores,
}

abbrev is_copies : Kind → Bool
is_copies copies = true
is_copies _ = false

abbrev is_fetches : Kind → Bool
is_fetches fetches = true
is_fetches _ = false

-- A STORE, or a FETCH that sets `\Seen`.
abbrev pub changes_flags : Command → Bool
changes_flags c =
    is_stores (kind_of c.command) || is_fetches (kind_of c.command) && not c.fetch_peek

abbrev pub is_search : Command → Bool
is_search c = is_searches (kind_of c.command)

-- Works on the messages that it names.
abbrev pub works_on_messages : Command → Bool
works_on_messages c =
    is_copies (kind_of c.command)
    || (is_fetches (kind_of c.command) || is_stores (kind_of c.command))

-- `a` changes flags that `b` depends on: any search; a copy, and another command that changes flags,
-- on a common message; and for STORE also a peeking FETCH on a common message. It is about flags
-- only: a command that removes messages does not count as disturbing another.
abbrev pub disturbs : Command → Command → Bool
disturbs a b =
    changes_flags a && is_search b
    || (changes_flags a && ((is_copies (kind_of b.command) || changes_flags b) && intersect a b)
        || is_stores (kind_of a.command) && (works_on_messages b && intersect a b))

abbrev pub Compatible : Command → Command → Type 0
Compatible a b =
    (is_conflicting a.command ≡ false) × (disturbs a b ≡ false) × (disturbs b a ≡ false)

any_of-mem :
    (x : ℕ) (xs ys : List ℕ) → mem x xs ≡ true → mem x ys ≡ true → any_of (λ z. mem z ys) xs ≡ true
any_of-mem x [] ys h k = cc
any_of-mem x (y ∷ xs) ys h k = elim (Bool-cases (x == y)) [
  | inl e ↦ let same : x ≡ y = (==_iff x y).0 e in ground (arith, same)
  | inr e ↦ ground (arith, any_of-mem x xs ys)
]

any_of-weaken :
    (x : ℕ) (xs ys : List ℕ)
    → any_of (λ z. mem z xs) ys ≡ true
    → any_of (λ z. mem z (x ∷ xs)) ys ≡ true
any_of-weaken x xs [] h = h
any_of-weaken x xs (y ∷ ys) h = ground (arith, any_of-weaken x xs ys)

any_of-swap : (xs ys : List ℕ) → any_of (λ z. mem z ys) xs ≡ true → any_of (λ z. mem z xs) ys ≡ true
any_of-swap [] ys h = cc
any_of-swap (x ∷ xs) ys h = elim (Bool-cases (mem x ys)) [
  | inl e ↦ any_of-mem x ys (x ∷ xs) e (ground arith)
  | inr e ↦ any_of-weaken x xs ys (any_of-swap xs ys (ground arith))
]

intersect_comm : (a b : Command) → intersect a b ≡ intersect b a
unfolding intersect
intersect_comm a b =
    Bool-ext _ _ (any_of-swap (messages a) (messages b)) (any_of-swap (messages b) (messages a))

any_of-false {ℓ} :
    {A : Type ℓ} (p : A → Bool) (xs : List A) → any_of p xs ≡ false → All (λ x. p x ≡ false) xs
any_of-false p [] h = tt
any_of-false p (x ∷ xs) h = (ground arith, any_of-false p xs (ground arith))

pub map_All {ℓ} :
    {A : Type ℓ} {P R : A → Type 0} (xs : List A) → ((x : A) → P x → R x) → All P xs → All R xs
map_All [] f p = tt
map_All (x ∷ xs) f p = (f x p.0, map_All xs f p.1)

abbrev Apart : Command → Command → Type 0
Apart c r = (disturbs r c ≡ false) × (disturbs c r ≡ false)

Apart-of_others : (c r : Command) → kind_of c.command ≡ others → Apart c r
Apart-of_others c r e = ground arith

Apart-of_copies :
    (c r : Command)
    → kind_of c.command ≡ copies
    → stops_copy c r (kind_of r.command) ≡ false
    → Apart c r
Apart-of_copies c r e h = ground (arith, intersect_comm c r)

Apart-of_searches :
    (c r : Command)
    → kind_of c.command ≡ searches
    → stops_search r (kind_of r.command) ≡ false
    → Apart c r
Apart-of_searches c r e h = ground (arith, intersect_comm c r)

Apart-of_stores :
    (c r : Command)
    → kind_of c.command ≡ stores
    → stops_store c r (kind_of r.command) ≡ false
    → Apart c r
Apart-of_stores c r e h = ground (arith, intersect_comm c r)

Apart-of_peek :
    (c r : Command)
    → kind_of c.command ≡ fetches
    → c.fetch_peek ≡ true
    → (is_stores (kind_of r.command) && intersect c r) ≡ false
    → Apart c r
Apart-of_peek c r e p h = ground (arith, intersect_comm c r)

Apart-of_fetch :
    (c r : Command)
    → kind_of c.command ≡ fetches
    → c.fetch_peek ≡ false
    → (is_searches (kind_of r.command) || stops_fetch c r (kind_of r.command)) ≡ false
    → Apart c r
Apart-of_fetch c r e p h = ground (arith, intersect_comm c r)

All-others :
    (c : Command) (running : List Command) → kind_of c.command ≡ others → All (Apart c) running
All-others c [] e = tt
All-others c (r ∷ running) e = (Apart-of_others c r e, All-others c running e)

conflict_of-Apart :
    (c : Command) (deleted : Bool) (running : List Command) (k : ImapCommand)
    → c.command ≡ k
    → conflict_of c deleted running k ≡ ok false
    → All (Apart c) running
unfolding conflict_of kind_of intersect
conflict_of-Apart c deleted running copy e h =
    map_All running (λ r. Apart-of_copies c r (ap kind_of e))
      (any_of-false _ running (ok-injective h))
conflict_of-Apart c deleted running search e h =
    map_All running (λ r. Apart-of_searches c r (ap kind_of e))
      (any_of-false _ running (ok-injective h))
conflict_of-Apart c deleted running store e h =
    map_All running (λ r. Apart-of_stores c r (ap kind_of e))
      (any_of-false _ running (ok-injective h))
conflict_of-Apart c deleted running fetch e h = elim (Bool-cases c.fetch_peek) [
  | inl p ↦
      map_All running (λ r. Apart-of_peek c r (ap kind_of e) p)
        (any_of-false _ running (ok-injective (rw p at h)))
  | inr p ↦
      map_All running (λ r. Apart-of_fetch c r (ap kind_of e) p)
        (any_of-false _ running (ok-injective (rw p at h)))
]
conflict_of-Apart c deleted running _ e h = All-others c running (ap kind_of e)

zip_All {ℓ} :
    {A : Type ℓ} {P Q R : A → Type 0} (xs : List A)
    → ((x : A) → P x → Q x → R x)
    → All P xs
    → All Q xs
    → All R xs
zip_All [] f p q = tt
zip_All (x ∷ xs) f p q = (f x p.0 q.0, zip_All xs f p.1 q.1)

-- A command that `would_conflict` lets in finds no conflicting command running, and neither changes
-- the flags that a running command depends on nor the other way about.
pub would_conflict-Compatible :
    (c : Command) (deleted : Bool) (running : List Command)
    → would_conflict c deleted running ≡ ok false
    → All (λ r. Compatible r c) running
unfolding would_conflict
would_conflict-Compatible c deleted [] h = tt
would_conflict-Compatible c deleted (r ∷ running) h =
    elim (Bool-cases (any_of (λ x. is_conflicting x.command) (r ∷ running))) [
      | inl e ↦ absurd (ground arith)
      | inr e ↦
          let h' : conflict_of c deleted (r ∷ running) c.command ≡ ok false = ground arith in
          zip_All (r ∷ running) (λ x p q. (p, q.0, q.1)) (any_of-false _ (r ∷ running) e)
            (conflict_of-Apart c deleted (r ∷ running) c.command refl h')
    ]
