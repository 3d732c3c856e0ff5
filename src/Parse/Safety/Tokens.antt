-- ===== src/Parse/Safety/Tokens.antt =====
-- asimap/parse.py: what the parsers of texts, tokens and lists leave of their input.
use mathlib.Core.Path.{subst}
use asimap.Prelude.{
  ℕ, zero, suc, ◌+◌, ◌<◌, ◌≤◌, ◌≡◌, refl, sym, String, Bool, true, false, Option, none, some, [],
  ◌∷◌, if◌then◌else◌, inl, inr, ◌⊎◌, arith,
}
use asimap.Prelude.Lists.{length}
use asimap.Parse.{
  Bytes, codes, no_match, Parsed, raised, parsed, Parser, next, ◌>>=◌, ◌>>◌, pure, match_string,
  expect, skip, peek, span_of, some_of, some_of?, p_re, p_re?, p_number, int, is_digit, items_of,
  paren_items_of, p_list_of, p_paren_list_of,
}
use asimap.Parse.Safety.{Fine, Safe, Fine-weaken, next-Fine, >>=-Safe, pure-Safe, if-Safe}

length-match_string :
    (string input rest : Bytes)
    → match_string string input ≡ some rest
    → length string + length rest ≡ length input
unfolding match_string
length-match_string [] input rest h = ground (arith, h)
length-match_string (d ∷ string) [] rest h = ground (arith, h)
length-match_string (d ∷ string) (c ∷ input) rest h =
    ground (arith, h, length-match_string string input rest)

Found : Bytes → Bytes → Type 0
Found string input =
    (rest : Bytes) × (match_string string input ≡ some rest)
    × (length string + length rest ≡ length input)

match_string_cases :
    (string input : Bytes) → (match_string string input ≡ none) ⊎ Found string input
unfolding Found
match_string_cases string input = split (match_string string input) refl
  where
    split :
        (o : Option Bytes)
        → match_string string input ≡ o
        → (match_string string input ≡ none) ⊎ Found string input
    split none e = inl e
    split (some rest) e = inr (rest, e, length-match_string string input rest e)

-- What is found leaves so much less.
abbrev Left : {A : Type 0} → A → String → Bytes → Parsed A → Type 0
Left a string input r =
    (rest : Bytes) × (r ≡ parsed a rest) × (length (codes string) + length rest ≡ length input)

expect_cases :
    (string : String) (input : Bytes)
    → (expect string input ≡ raised no_match) ⊎ Left tt string input (expect string input)
unfolding expect Found
expect_cases string input = elim (match_string_cases (codes string) input) [
  | inl e ↦ inl (rw (e, expect) refl)
  | inr (rest, e, l) ↦ inr (rest, rw (e, expect) refl, l)
]

skip_cases :
    (string : String) (input : Bytes)
    → (skip string input ≡ parsed false input) ⊎ Left true string input (skip string input)
unfolding skip Found
skip_cases string input = elim (match_string_cases (codes string) input) [
  | inl e ↦ inl (rw (e, skip) refl)
  | inr (rest, e, l) ↦ inr (rest, rw (e, skip) refl, l)
]

peek_lem : (string : String) (input : Bytes) → (b : Bool) × (peek string input ≡ parsed b input)
unfolding peek Found
peek_lem string input = elim (match_string_cases (codes string) input) [
  | inl e ↦ (false, rw (e, peek) refl)
  | inr (rest, e, l) ↦ (true, rw (e, peek) refl)
]

-- After a text that is not empty there is less input.
pub expect-then-Safe :
    {A : Type 0} {n : ℕ} {q : Parser A} (string : String)
    → 0 < length (codes string)
    → Safe n q
    → Safe (suc n) (expect string >> q)
expect-then-Safe {A} {n} {q} string pos h = record {
  at = λ input lt.
      let F = λ (r : Parsed (Unit {0})). Fine (length input) (next r (λ _. q)) in
      elim (expect_cases string input) [
        | inl e ↦ subst F (sym e) refl
        | inr (rest, e, l) ↦ subst F (sym e) (
            Fine-weaken (length rest) (length input) (q rest) (omega arith)
              (h.at rest (omega arith)))
      ];
}

pub expect-Safe : (n : ℕ) (string : String) → Safe n (expect string)
expect-Safe n string = record {
  at = λ input lt. elim (expect_cases string input) [
    | inl e ↦ subst (Fine (length input)) (sym e) refl
    | inr (rest, e, l) ↦ subst (Fine (length input)) (sym e) (omega arith)
  ];
}

pub skip-Safe : (n : ℕ) (string : String) → Safe n (skip string)
skip-Safe n string = record {
  at = λ input lt. elim (skip_cases string input) [
    | inl e ↦ subst (Fine (length input)) (sym e) (omega arith)
    | inr (rest, e, l) ↦ subst (Fine (length input)) (sym e) (omega arith)
  ];
}

pub peek-Safe : (n : ℕ) (string : String) → Safe n (peek string)
peek-Safe n string = record {
  at = λ input lt.
      let (b, e) = peek_lem string input in subst (Fine (length input)) (sym e) (omega arith);
}

pub skip-then-Safe :
    {A : Type 0} {n : ℕ} {q r : Parser A} (string : String)
    → 0 < length (codes string)
    → Safe n q
    → Safe (suc n) r
    → Safe (suc n) (skip string >>= λ b. if b then q else r)
skip-then-Safe {A} {n} {q} {r} string pos h k = record {
  at = λ input lt.
      let F = λ (o : Parsed Bool). Fine (length input) (next o (λ b. if b then q else r)) in
      elim (skip_cases string input) [
        | inl e ↦ subst F (sym e) (k.at input lt)
        | inr (rest, e, l) ↦ subst F (sym e) (
            Fine-weaken (length rest) (length input) (q rest) (omega arith)
              (h.at rest (omega arith)))
      ];
}

length-span_of : (p : ℕ → Bool) (input : Bytes) → length (span_of p input).1 ≤ length input
unfolding span_of
length-span_of p [] = omega arith
length-span_of p (c ∷ input) = ground (arith, length-span_of p input)

some_of-Fine : (n : ℕ) (s : Bytes × Bytes) → length s.1 ≤ n → Fine n (some_of s)
some_of-Fine n ([], rest) h = refl
some_of-Fine n (c ∷ token, rest) h = h

some_of?-Fine : (n : ℕ) (s : Bytes × Bytes) → length s.1 ≤ n → Fine n (some_of? s)
some_of?-Fine n ([], rest) h = h
some_of?-Fine n (c ∷ token, rest) h = h

pub p_re-Safe : (n : ℕ) (p : ℕ → Bool) → Safe n (p_re p)
unfolding p_re
p_re-Safe n p = record {
  at = λ input lt. some_of-Fine (length input) (span_of p input) (length-span_of p input);
}

pub p_re?-Safe : (n : ℕ) (p : ℕ → Bool) → Safe n (p_re? p)
unfolding p_re?
p_re?-Safe n p = record {
  at = λ input lt. some_of?-Fine (length input) (span_of p input) (length-span_of p input);
}

pub p_number-Safe : (n : ℕ) → Safe n p_number
unfolding p_number
p_number-Safe n = >>=-Safe (p_re-Safe n is_digit) (λ ds. pure-Safe (int ds))

pub Safe-weaken : {A : Type 0} {p : Parser A} (m n : ℕ) → m ≤ n → Safe n p → Safe m p
Safe-weaken m n h k = record { at = λ input lt. k.at input (omega arith) }

Safe-zero : {A : Type 0} (p : Parser A) → Safe 0 p
Safe-zero p = record { at = λ input lt. absurd (omega arith) }

module _ {A : Type 0} (p : Parser A) where
  items_of-Safe : (fuel n : ℕ) → n ≤ fuel → Safe n p → Safe n (items_of fuel p)
  unfolding items_of
  items_of-Safe fuel zero le safe = Safe-zero (items_of fuel p)
  items_of-Safe zero (suc n) le safe = absurd (omega arith)
  items_of-Safe (suc fuel) (suc n) le safe =
      let rest = items_of-Safe fuel n (omega arith) (Safe-weaken n (suc n) (omega arith) safe) in
      let turn : (a : A)
          → Safe (suc n) (
              skip " " >>= λ space.
              if space then (items_of fuel p >>= λ result. pure (a ∷ result)) else pure (a ∷ [])) =
        λ a.
          skip-then-Safe " " (omega arith) (>>=-Safe rest (λ result. pure-Safe (a ∷ result)))
            (pure-Safe (a ∷ [])) in
      record {
        at = λ input lt. next-Fine (suc n) (length input) (p input) _ lt (safe.at input lt) turn;
      }

  paren_items_of-Safe : (fuel n : ℕ) → n ≤ fuel → Safe n p → Safe n (paren_items_of fuel p)
  unfolding paren_items_of
  paren_items_of-Safe fuel zero le safe = Safe-zero (paren_items_of fuel p)
  paren_items_of-Safe zero (suc n) le safe = absurd (omega arith)
  paren_items_of-Safe (suc fuel) (suc n) le safe =
      let rest =
        paren_items_of-Safe fuel n (omega arith) (Safe-weaken n (suc n) (omega arith) safe) in
      let turn : (a : A)
          → Safe (suc n) (
              skip ")" >>= λ closed.
              if closed
              then pure (a ∷ [])
              else (expect " " >> paren_items_of fuel p >>= λ result. pure (a ∷ result))) =
        λ a. >>=-Safe (skip-Safe (suc n) ")") λ closed.
          if-Safe closed (pure-Safe (a ∷ [])) (
            >>=-Safe (expect-then-Safe " " (omega arith) rest)
              (λ result. pure-Safe (a ∷ result))) in
      record {
        at = λ input lt. next-Fine (suc n) (length input) (p input) _ lt (safe.at input lt) turn;
      }

  pub p_list_of-Safe : (n : ℕ) → Safe n p → Safe n (p_list_of p)
  unfolding p_list_of
  p_list_of-Safe n safe = record {
    at = λ input lt.
        let k = suc (length input) in
        (items_of-Safe k k (omega arith) (Safe-weaken k n (omega arith) safe)).at input
          (omega arith);
  }

  -- The key point of a list in parentheses: its items are read from less input.
  pub p_paren_list_of-Safe : (n : ℕ) → Safe n p → Safe (suc n) (p_paren_list_of p)
  unfolding p_paren_list_of
  p_paren_list_of-Safe n safe =
      let items : Safe n (λ input. paren_items_of (suc (length input)) p input) = record {
        at = λ input lt.
            let k = suc (length input) in
            (paren_items_of-Safe k k (omega arith) (Safe-weaken k n (omega arith) safe)).at input
              (omega arith);
      } in
      expect-then-Safe "(" (omega arith)
        (>>=-Safe (skip-Safe n ")") λ empty. if-Safe empty (pure-Safe []) items)
