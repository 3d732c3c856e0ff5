-- ===== src/Parse/Grammar/Sets.antt =====
-- asimap/parse.py: what is written by the grammar, its message sets read.
use asimap.Prelude.{
  ℕ, ◌≡◌, refl, ap, ◌∙◌, true, false, Option, none, some, List, [], ◌∷◌, ◌++◌, ◌==◌, Bool-cases,
  inl, inr, arith,
}
use asimap.Prelude.Lists.{All, All-append}
use asimap.SeqSet.{SeqNum, star, num, SeqElt, one, pair}
use asimap.Parse.{Bytes, Parsed, parsed, next, is_digit, int}
use asimap.Parse.Sets.{
  is_set_char, split_on, all_digits, is_seq_num, seq_pair, seq_elt, seq_elts, set_or_bad, p_msg_set,
}
use asimap.Parse.Grammar.{decimal, IsSome, num_text, elt_text, set_text}
use asimap.Parse.Grammar.Tokens.{Stops, p_re-append, IsDecimal, decimal-IsDecimal, IsSome-append}

all_digits_lem : (s : Bytes) → All (λ c. is_digit c ≡ true) s → all_digits s ≡ true
all_digits_lem [] h = refl
all_digits_lem (c ∷ s) h = rw (h.0, all_digits_lem s h.1) refl

is_seq_num-num : (n : SeqNum) → is_seq_num (num_text n) ≡ some n
unfolding is_seq_num
is_seq_num-num star = refl
is_seq_num-num (num n) = go (decimal n) d.some_digit d.digits ∙ ap (λ k. some (num k)) d.value
  where
    d : IsDecimal n (decimal n)
    d = decimal-IsDecimal n

    go :
        (ds : Bytes)
        → IsSome ds
        → All (λ c. is_digit c ≡ true) ds
        → is_seq_num ds ≡ some (num (int ds))
    go [] h k = absurd h
    go (c ∷ []) h k = rw (k.0) refl
    go (c ∷ e ∷ ds) h k = rw (all_digits_lem (c ∷ e ∷ ds) k) refl

-- A text without the separator is one part.
split_on-none : (sep : ℕ) (s : Bytes) → All (λ c. (c == sep) ≡ false) s → split_on sep s ≡ s ∷ []
unfolding split_on
split_on-none sep [] h = refl
split_on-none sep (c ∷ s) h = rw (split_on-none sep s h.1, h.0) refl

split_lem :
    (sep : ℕ) (t : Bytes) → (part : Bytes) × (parts : List Bytes) × (split_on sep t ≡ part ∷ parts)
unfolding split_on
split_lem sep [] = ([], [], refl)
split_lem sep (c ∷ t) =
    let (part, parts, e) = split_lem sep t in
    elim (Bool-cases (c == sep)) [
      | inl h ↦ ([], part ∷ parts, rw (e, h) refl)
      | inr h ↦ (c ∷ part, parts, rw (e, h) refl)
    ]

split_on-append :
    (sep : ℕ) (s t : Bytes)
    → All (λ c. (c == sep) ≡ false) s
    → split_on sep (s ++ sep ∷ t) ≡ s ∷ split_on sep t
unfolding split_on
split_on-append sep [] t h =
    let (part, parts, e) = split_lem sep t in
    let self : (sep == sep) ≡ true = ground arith in rw (e, self) refl
split_on-append sep (c ∷ s) t h = rw (split_on-append sep s t h.1, h.0) refl

pub All-map : (P Q : ℕ → Type 0) (s : Bytes) → ((c : ℕ) → P c → Q c) → All P s → All Q s
All-map P Q [] f h = tt
All-map P Q (c ∷ s) f h = (f c h.0, All-map P Q s f h.1)

num_text-All :
    (P : ℕ → Type 0) (n : SeqNum) → P 42 → ((c : ℕ) → is_digit c ≡ true → P c) → All P (num_text n)
num_text-All P star s f = (s, tt)
num_text-All P (num n) s f =
    All-map (λ c. is_digit c ≡ true) P (decimal n) f (decimal-IsDecimal n).digits

num_text-IsSome : (n : SeqNum) → IsSome (num_text n)
num_text-IsSome star = tt
num_text-IsSome (num n) = (decimal-IsDecimal n).some_digit

all_digits-colon : (s t : Bytes) → all_digits (s ++ 58 ∷ t) ≡ false
all_digits-colon [] t = refl
all_digits-colon (c ∷ s) t = ground (arith, all_digits-colon s t)

no_seq_num : (s t : Bytes) → IsSome s → is_seq_num (s ++ 58 ∷ t) ≡ none
unfolding is_seq_num
no_seq_num [] t h = absurd h
no_seq_num (c ∷ []) t h = rw (all_digits-colon (c ∷ []) t) refl
no_seq_num (c ∷ d ∷ s) t h = rw (all_digits-colon (c ∷ d ∷ s) t) refl

seq_pair-parts :
    (s t : Bytes) (a b : SeqNum)
    → is_seq_num s ≡ some a
    → is_seq_num t ≡ some b
    → seq_pair (s ∷ t ∷ []) ≡ some (pair a b)
seq_pair-parts s t a b h k = rw (seq_pair, h, k) refl

seq_elt-text : (elt : SeqElt) → seq_elt (elt_text elt) ≡ some elt
unfolding seq_elt
seq_elt-text (one n) = rw (is_seq_num-num n, seq_elt) refl
seq_elt-text (pair a b) =
    let other : (c : ℕ) → is_digit c ≡ true → (c == 58) ≡ false = λ c h. ground (arith, h) in
    let parts : split_on 58 (num_text a ++ 58 ∷ num_text b) ≡ num_text a ∷ num_text b ∷ [] =
      split_on-append 58 (num_text a) (num_text b)
        (num_text-All (λ c. (c == 58) ≡ false) a refl other)
      ∙ ap (λ (l : List Bytes). num_text a ∷ l)
          (split_on-none 58 (num_text b) (num_text-All (λ c. (c == 58) ≡ false) b refl other)) in
    rw (no_seq_num (num_text a) (num_text b) (num_text-IsSome a), seq_elt, parts)
      (seq_pair-parts (num_text a) (num_text b) a b (is_seq_num-num a) (is_seq_num-num b))

elt_text-All :
    (P : ℕ → Type 0) (elt : SeqElt)
    → P 42
    → P 58
    → ((c : ℕ) → is_digit c ≡ true → P c)
    → All P (elt_text elt)
elt_text-All P (one n) s k f = num_text-All P n s f
elt_text-All P (pair a b) s k f =
    All-append P (num_text a) (58 ∷ num_text b) (num_text-All P a s f) (k, num_text-All P b s f)

elt_text-IsSome : (elt : SeqElt) → IsSome (elt_text elt)
elt_text-IsSome (one n) = num_text-IsSome n
elt_text-IsSome (pair a b) = IsSome-append (num_text a) (58 ∷ num_text b) (num_text-IsSome a)

seq_elts-text :
    (elt : SeqElt) (elts : List SeqElt)
    → seq_elts (split_on 44 (set_text elt elts)) ≡ some (elt ∷ elts)
unfolding seq_elts
seq_elts-text elt [] =
    let whole =
      split_on-none 44 (elt_text elt)
        (elt_text-All (λ c. (c == 44) ≡ false) elt refl refl (λ c h. ground (arith, h))) in
    rw (whole, seq_elt-text elt) refl
seq_elts-text elt (more ∷ elts) =
    let parts =
      split_on-append 44 (elt_text elt) (set_text more elts)
        (elt_text-All (λ c. (c == 44) ≡ false) elt refl refl (λ c h. ground (arith, h))) in
    rw (parts, seq_elt-text elt, seq_elts-text more elts) refl

pub set_text-All :
    (elt : SeqElt) (elts : List SeqElt) → All (λ c. is_set_char c ≡ true) (set_text elt elts)
set_text-All elt [] = elt_text-All (λ c. is_set_char c ≡ true) elt refl refl (λ c h. rw h refl)
set_text-All elt (more ∷ elts) =
    All-append (λ c. is_set_char c ≡ true) (elt_text elt) (44 ∷ set_text more elts)
      (elt_text-All (λ c. is_set_char c ≡ true) elt refl refl (λ c h. rw h refl))
      (refl, set_text-All more elts)

pub set_text-IsSome : (elt : SeqElt) (elts : List SeqElt) → IsSome (set_text elt elts)
set_text-IsSome elt [] = elt_text-IsSome elt
set_text-IsSome elt (more ∷ elts) =
    IsSome-append (elt_text elt) (44 ∷ set_text more elts) (elt_text-IsSome elt)

pub p_msg_set-text :
    (elt : SeqElt) (elts : List SeqElt) (rest : Bytes)
    → Stops is_set_char rest
    → p_msg_set (set_text elt elts ++ rest) ≡ parsed (elt ∷ elts) rest
unfolding p_msg_set
p_msg_set-text elt elts rest e =
    let token =
      p_re-append is_set_char (set_text elt elts) rest (set_text-IsSome elt elts)
        (set_text-All elt elts) e in
    ap (λ (r : Parsed Bytes). next r (λ msg_set. set_or_bad (seq_elts (split_on 44 msg_set)))) token
    ∙ ap (λ (o : Option (List SeqElt)). set_or_bad o rest) (seq_elts-text elt elts)
