-- ===== src/Parse/Grammar/Tokens.antt =====
-- asimap/parse.py: what is written by the grammar, its tokens read: words, numbers, astrings and
-- sets.
use mathlib.Core.List.{append_assoc, append-nil}
use asimap.Prelude.{
  ℕ, zero, suc, ◌+◌, ◌-◌, ◌*◌, ◌/◌, ◌%◌, ◌≡◌, ◌<◌, refl, sym, ap, ◌∙◌, Bool, true, false, ◌||◌,
  Option, none, some, [], ◌∷◌, ◌++◌, ltb, ◌==◌, if◌then◌else◌, Bool-cases, inl, inr, arith,
}
use asimap.Prelude.Lists.{length, All, All-append, take, drop}
use asimap.Parse.{
  Bytes, Parser, Parsed, raised, parsed, bad_literal, next, lower, match_string, expect, skip,
  span_of, some_of, some_of?, p_re, p_re?, p_number, is_digit, is_atom, int, int_from, ◌>>=◌, ◌>>◌,
  pure,
}
use asimap.Parse.Strings.{
  is_quotable, quoted_rest, match_quoted, p_lit_ref, p_literal, or_literal, p_string, p_astring,
}
use asimap.Parse.Grammar.{
  decimal_before, decimal, AString, atom, quoted, literal, value_of, plus_text, astring_text,
  IsSome, IsAString,
}

-- Nothing of the class stands at the beginning.
abbrev pub Stops : (ℕ → Bool) → Bytes → Type 0
Stops p [] = Unit
Stops p (c ∷ rest) = p c ≡ false

-- What may follow a key: nothing, a space, a parenthesis or a line end.
abbrev pub IsEnd : Bytes → Type 0
IsEnd [] = Unit
IsEnd (c ∷ rest) = (c == 32 || (c == 41 || c == 13)) ≡ true

pub span_of-append :
    (p : ℕ → Bool) (s rest : Bytes)
    → All (λ c. p c ≡ true) s
    → Stops p rest
    → span_of p (s ++ rest) ≡ (s, rest)
unfolding span_of
span_of-append p [] [] h e = refl
span_of-append p [] (c ∷ rest) h e = rw e refl
span_of-append p (c ∷ s) rest h e = rw (h.0, span_of-append p s rest h.1 e) refl

pub p_re-append :
    (p : ℕ → Bool) (s rest : Bytes)
    → IsSome s
    → All (λ c. p c ≡ true) s
    → Stops p rest
    → p_re p (s ++ rest) ≡ parsed s rest
unfolding p_re
p_re-append p [] rest n h e = absurd n
p_re-append p (c ∷ s) rest n h e = ap some_of (span_of-append p (c ∷ s) rest h e)

pub p_re?-append :
    (p : ℕ → Bool) (s rest : Bytes)
    → IsSome s
    → All (λ c. p c ≡ true) s
    → Stops p rest
    → p_re? p (s ++ rest) ≡ parsed (some s) rest
unfolding p_re?
p_re?-append p [] rest n h e = absurd n
p_re?-append p (c ∷ s) rest n h e = ap some_of? (span_of-append p (c ∷ s) rest h e)

-- Decimals
int_from-append : (n : ℕ) (s t : Bytes) → int_from n (s ++ t) ≡ int_from (int_from n s) t
int_from-append n [] t = refl
int_from-append n (c ∷ s) t = int_from-append (n * 10 + (c - 48)) s t

pub IsSome-append : (s t : Bytes) → IsSome s → IsSome (s ++ t)
IsSome-append [] t h = absurd h
IsSome-append (c ∷ s) t h = tt

-- The digits of a number before others are those that make it from zero.
decimal_before_lem :
    (fuel n : ℕ) (out : Bytes)
    → n < fuel
    → (ds : Bytes) × (decimal_before fuel n out ≡ ds ++ out)
      × IsSome ds
      × All (λ c. is_digit c ≡ true) ds
      × (int ds ≡ n)
unfolding decimal_before
decimal_before_lem zero n out h = absurd (omega arith)
decimal_before_lem (suc fuel) n out h = elim (Bool-cases (ltb n 10)) [
  | inl e ↦ ((48 + n) ∷ [], rw e refl, tt, (ground (arith, e), tt), omega arith)
  | inr e ↦
      let (ds, eq, some_digit, digits, value) =
        decimal_before_lem fuel (n / 10) ((48 + n % 10) ∷ out) (ground (arith, e)) in
      (
        ds ++ (48 + n % 10) ∷ [],
        rw e (eq ∙ sym (append_assoc ds ((48 + n % 10) ∷ []) out)),
        IsSome-append ds ((48 + n % 10) ∷ []) some_digit,
        All-append (λ c. is_digit c ≡ true) ds ((48 + n % 10) ∷ []) digits (ground arith, tt),
        int_from-append 0 ds ((48 + n % 10) ∷ []) ∙ omega (arith, value),
      )
]

pub record IsDecimal (n : ℕ) (ds : Bytes) : Type 0 where
  pub some_digit : IsSome ds
  pub digits : All (λ c. is_digit c ≡ true) ds
  pub value : int ds ≡ n

pub decimal-IsDecimal : (n : ℕ) → IsDecimal n (decimal n)
unfolding decimal
decimal-IsDecimal n =
    let (ds, eq, some_digit, digits, value) = decimal_before_lem (suc n) n [] (omega arith) in
    rw (eq ∙ append-nil ds) record { some_digit = some_digit; digits = digits; value = value }

pub p_number-decimal :
    (n : ℕ) (rest : Bytes) → Stops is_digit rest → p_number (decimal n ++ rest) ≡ parsed n rest
unfolding p_number
p_number-decimal n rest e =
    let d = decimal-IsDecimal n in
    ap (λ (r : Parsed Bytes). next r (λ ds. pure (int ds)))
      (p_re-append is_digit (decimal n) rest d.some_digit d.digits e)
    ∙ ap (λ k. parsed k rest) d.value

-- Texts in quotes and literals
quoted_rest-append :
    (s rest : Bytes)
    → All (λ c. is_quotable c ≡ true) s
    → quoted_rest (s ++ 34 ∷ rest) ≡ some (s, rest)
unfolding quoted_rest
quoted_rest-append [] [] h = refl
quoted_rest-append [] (c ∷ rest) h = refl
quoted_rest-append (c ∷ []) rest h = ground (arith, h.0, quoted_rest-append [] rest tt)
quoted_rest-append (c ∷ d ∷ s) rest h = ground (arith, h.0, quoted_rest-append (d ∷ s) rest h.1)

take-append : (s t : Bytes) → take (length s) (s ++ t) ≡ s
take-append [] t = refl
take-append (c ∷ s) t = ap (λ r. c ∷ r) (take-append s t)

drop-append : (s t : Bytes) → drop (length s) (s ++ t) ≡ t
drop-append [] t = refl
drop-append (c ∷ s) t = drop-append s t

length-append_le : (s t : Bytes) → ltb (length (s ++ t)) (length s) ≡ false
length-append_le [] t = ground arith
length-append_le (c ∷ s) t = ground (arith, length-append_le s t)

-- `{`, the length, perhaps a `+`, `}`, the line end
p_lit_ref-decimal :
    (n : ℕ) (plus : Bool) (rest : Bytes)
    → p_lit_ref (123 ∷ decimal n ++ plus_text plus (125 ∷ 13 ∷ 10 ∷ rest)) ≡ parsed n rest
unfolding p_lit_ref expect skip match_string lower
p_lit_ref-decimal n true rest =
    ap (λ (r : Parsed ℕ). next r (λ k. skip "+" >>= λ plus. expect "}\r\n" >> pure k))
      (p_number-decimal n (43 ∷ 125 ∷ 13 ∷ 10 ∷ rest) refl)
p_lit_ref-decimal n false rest =
    ap (λ (r : Parsed ℕ). next r (λ k. skip "+" >>= λ plus. expect "}\r\n" >> pure k))
      (p_number-decimal n (125 ∷ 13 ∷ 10 ∷ rest) refl)

after_length : ℕ → Parser Bytes
after_length n input =
    if ltb (length input) n then raised bad_literal else parsed (take n input) (drop n input)

p_literal-append :
    (plus : Bool) (s rest : Bytes)
    → p_literal (123 ∷ decimal (length s) ++ plus_text plus (125 ∷ 13 ∷ 10 ∷ s ++ rest))
      ≡ parsed s rest
unfolding p_literal after_length
p_literal-append plus s rest =
    ap (λ (r : Parsed ℕ). next r after_length) (p_lit_ref-decimal (length s) plus (s ++ rest))
    ∙ rw (length-append_le s rest, take-append s rest, drop-append s rest) refl

pub p_astring-text :
    (a : AString) (rest : Bytes)
    → IsAString a
    → Stops is_atom rest
    → p_astring (astring_text a rest) ≡ parsed (value_of a) rest
unfolding p_astring astring_text p_string match_quoted
p_astring-text (atom s) rest h e =
    ap (λ (r : Parsed (Option Bytes)). next r (λ o. elim o [ none ↦ p_string | some b ↦ pure b ]))
      (p_re?-append is_atom s rest h.0 h.1 e)
p_astring-text (quoted s) rest h e =
    ap (or_literal (34 ∷ s ++ 34 ∷ rest)) (quoted_rest-append s rest h)
p_astring-text (literal plus s) rest h e = p_literal-append plus s rest
