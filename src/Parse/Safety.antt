-- ===== src/Parse/Safety.antt =====
-- asimap/parse.py: what a parser leaves of its input.
pub mod Tokens
use mathlib.Core.Path.{subst}
use asimap.Prelude.{
  ℕ, zero, suc, ◌+◌, ◌<◌, ◌≤◌, ◌≡◌, refl, sym, String, Bool, true, false, Option, none, some, [],
  ◌∷◌, if◌then◌else◌, inl, inr, ◌⊎◌, arith,
}
use asimap.Prelude.Lists.{length}
use asimap.Parse.{
  Bytes, codes, ParseError, bad_command, no_match, unknown_command, bad_literal, bad_syntax,
  unknown_search_key, value_error, out_of_fuel, Parsed, raised, parsed, Parser, next, ◌>>=◌, ◌>>◌,
  pure, raise, match_string, expect, skip, peek, span_of, some_of, some_of?, p_re, p_re?, p_number,
  int, is_digit, items_of, paren_items_of, p_list_of, p_paren_list_of,
}

abbrev pub is_fuel : ParseError → Bool
is_fuel out_of_fuel = true
is_fuel bad_command = false
is_fuel no_match = false
is_fuel unknown_command = false
is_fuel bad_literal = false
is_fuel bad_syntax = false
is_fuel unknown_search_key = false
is_fuel value_error = false

abbrev pub Fine : {A : Type 0} → ℕ → Parsed A → Type 0
Fine n (raised e) = is_fuel e ≡ false
Fine n (parsed a rest) = length rest ≤ n

-- On inputs shorter than the bound
pub record Safe {A : Type 0} (n : ℕ) (p : Parser A) : Type 0 where
  pub at : (input : Bytes) → length input < n → Fine (length input) (p input)

pub Fine-weaken : {A : Type 0} (m n : ℕ) (r : Parsed A) → m ≤ n → Fine m r → Fine n r
Fine-weaken m n (raised e) h f = f
Fine-weaken m n (parsed a rest) h f = omega arith

pub next-Fine :
    {A B : Type 0} (n m : ℕ) (r : Parsed A) (f : A → Parser B)
    → m < n
    → Fine m r
    → ((a : A) → Safe n (f a))
    → Fine m (next r f)
next-Fine n m (raised e) f lt h k = h
next-Fine n m (parsed a rest) f lt h k =
    Fine-weaken (length rest) m (f a rest) h ((k a).at rest (omega arith))

module _ {A : Type 0} {n : ℕ} where
  pub >>=-Safe :
      {B : Type 0} {p : Parser A} {f : A → Parser B}
      → Safe n p
      → ((a : A) → Safe n (f a))
      → Safe n (p >>= f)
  >>=-Safe {p} {f} h k = record {
    at = λ input lt. next-Fine n (length input) (p input) f lt (h.at input lt) k;
  }

  pub pure-Safe : (a : A) → Safe n (pure a)
  pure-Safe a = record { at = λ input lt. omega arith }

  pub raise-Safe : (e : ParseError) → is_fuel e ≡ false → Safe {A = A} n (raise e)
  raise-Safe e h = record { at = λ input lt. h }

  pub if-Safe : {p q : Parser A} (b : Bool) → Safe n p → Safe n q → Safe n (if b then p else q)
  if-Safe true h k = h
  if-Safe false h k = k

  pub option-Safe :
      {B : Type 0} {p : Parser A} {q : B → Parser A} (o : Option B)
      → Safe n p
      → ((b : B) → Safe n (q b))
      → Safe n (elim o [ none ↦ p | some b ↦ q b ])
  option-Safe none h k = h
  option-Safe (some b) h k = k b
