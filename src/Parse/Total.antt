-- ===== src/Parse/Total.antt =====
-- asimap/parse.py: what the parsers of strings, sets and dates leave of their input.
pub mod Keys
pub mod Fetches
pub mod Listing
pub mod Commands
use asimap.Prelude.{
  ℕ, zero, suc, ◌+◌, ◌<◌, ◌≤◌, ◌≡◌, refl, sym, ap, ◌∙◌, String, Bool, true, false, Option, none,
  some, List, [], ◌∷◌, ◌++◌, if◌then◌else◌, ◌==◌, ◌⊎◌, inl, inr, ltb, leb, not, ◌||◌, ◌&&◌,
  Bool-cases, arith,
}
use asimap.Prelude.Lists.{length, length-drop, drop, take}
use asimap.SeqSet.{SeqElt}
use asimap.Search.{Search}
use asimap.Parse.{
  Bytes, codes, ParseError, no_match, Parsed, raised, parsed, Parser, next, ◌>>=◌, ◌>>◌, pure,
  raise, bad_literal, bad_syntax, unknown_search_key, unknown_command, value_error, expect, skip,
  peek, p_re, p_re?, p_number, is_digit, is_atom, is_list_atom, is_alpha, is_tag, p_list_of,
  p_paren_list_of, lower_all, out_of_fuel,
}
use asimap.Parse.Strings.{
  more_quoted, is_quotable, quoted_rest, match_quoted, p_lit_ref, p_literal, or_literal, p_string,
  p_astring, p_list_mailbox, p_mailbox, p_flag, p_string_nstring_pair, normal_name,
}
use asimap.Parse.Sets.{
  is_set_char, seq_elts, split_on, set_or_bad, p_msg_set, p_char, p_two, p_four, p_month_from,
  p_day, p_date, date_ordinal, skip_classes, day_fixed, time_and_zone, month_names, p_date_time,
}
use asimap.Parse.Safety.{
  Fine, Safe, Fine-weaken, next-Fine, >>=-Safe, pure-Safe, raise-Safe, if-Safe, option-Safe,
}
use asimap.Parse.Safety.Tokens.{
  expect-then-Safe, expect-Safe, skip-Safe, peek-Safe, skip-then-Safe, p_re-Safe, p_re?-Safe,
  p_number-Safe, Safe-weaken, p_list_of-Safe, p_paren_list_of-Safe,
}

pub ruleset safe_rules = (
  >>=-Safe, pure-Safe, if-Safe, option-Safe, expect-Safe, skip-Safe, peek-Safe, p_re-Safe,
  p_re?-Safe, p_number-Safe,
)

pub p_lit_ref-Safe : (n : ℕ) → Safe n p_lit_ref
unfolding p_lit_ref
p_lit_ref-Safe n = search safe_rules

pub p_literal-Safe : (n : ℕ) → Safe n p_literal
unfolding p_literal
p_literal-Safe n = >>=-Safe (p_lit_ref-Safe n) λ k. record {
  at = λ input lt. elim (Bool-cases (ltb (length input) k)) [
    | inl e ↦ rw (e, Fine) refl
    | inr e ↦ rw (e, Fine) (omega (arith, length-drop k input))
  ];
}

-- What is left after a quoted text
IsLess : ℕ → Option (Bytes × Bytes) → Type 0
IsLess n none = Unit
IsLess n (some (inner, rest)) = length rest ≤ n

more_quoted-IsLess :
    (n m : ℕ) (s : Bytes) (o : Option (Bytes × Bytes))
    → m ≤ n
    → IsLess m o
    → IsLess n (more_quoted s o)
unfolding IsLess
more_quoted-IsLess n m s none le h = tt
more_quoted-IsLess n m s (some (inner, rest)) le h = omega arith

if-IsLess :
    (n : ℕ) (b : Bool) (o o' : Option (Bytes × Bytes))
    → IsLess n o
    → IsLess n o'
    → IsLess n (if b then o else o')
if-IsLess n true o o' h k = h
if-IsLess n false o o' h k = k

quoted_rest-IsLess : (input : Bytes) → IsLess (length input) (quoted_rest input)
unfolding quoted_rest IsLess
quoted_rest-IsLess [] = tt
quoted_rest-IsLess (c ∷ []) = if-IsLess 1 (c == 34) (some ([], [])) none (omega arith) tt
quoted_rest-IsLess (c ∷ d ∷ input) =
    let n = length (c ∷ d ∷ input) in
    if-IsLess n (c == 34) _ _ (omega arith) (
      if-IsLess n (c == 92) _ _
        (if-IsLess n (d == 34 || d == 92) _ _
          (more_quoted-IsLess n (length input) (c ∷ d ∷ []) (quoted_rest input) (omega arith)
            (quoted_rest-IsLess input))
          tt)
        (if-IsLess n (is_quotable c) _ _
          (more_quoted-IsLess n (suc (length input)) (c ∷ []) (quoted_rest (d ∷ input))
            (omega arith) (quoted_rest-IsLess (d ∷ input)))
          tt))

match_quoted-IsLess : (input : Bytes) → IsLess (length input) (match_quoted input)
unfolding match_quoted IsLess
match_quoted-IsLess [] = tt
match_quoted-IsLess (c ∷ input) =
    if-IsLess (suc (length input)) (c == 34) _ _
      (weaker (quoted_rest input) (quoted_rest-IsLess input)) tt
  where
    weaker : (o : Option (Bytes × Bytes)) → IsLess (length input) o → IsLess (suc (length input)) o
    weaker none h = tt
    weaker (some (inner, rest)) h = omega arith

string-Fine :
    (input : Bytes) (o : Option (Bytes × Bytes)) (n : ℕ)
    → length input < n
    → IsLess (length input) o
    → Fine (length input) (or_literal input o)
unfolding IsLess
string-Fine input none n lt h = (p_literal-Safe n).at input lt
string-Fine input (some (inner, rest)) n lt h = h

pub p_string-Safe : (n : ℕ) → Safe n p_string
unfolding p_string
p_string-Safe n = record {
  at = λ input lt. string-Fine input (match_quoted input) n lt (match_quoted-IsLess input);
}

pub p_astring-Safe : (n : ℕ) → Safe n p_astring
unfolding p_astring
p_astring-Safe n =
    >>=-Safe (p_re?-Safe n is_atom) λ atom. option-Safe atom (p_string-Safe n) (λ a. pure-Safe a)

pub p_list_mailbox-Safe : (n : ℕ) → Safe n p_list_mailbox
unfolding p_list_mailbox
p_list_mailbox-Safe n =
    >>=-Safe (p_re?-Safe n is_list_atom)
      λ atom. option-Safe atom (p_string-Safe n) (λ a. pure-Safe a)

pub p_mailbox-Safe : (n : ℕ) → Safe n p_mailbox
unfolding p_mailbox
p_mailbox-Safe n = search (safe_rules, p_astring-Safe)

pub p_flag-Safe : (n : ℕ) → Safe n p_flag
unfolding p_flag
p_flag-Safe n = search safe_rules

pub pair-Safe : (n : ℕ) → Safe n p_string_nstring_pair
unfolding p_string_nstring_pair
pair-Safe n = search (safe_rules, p_string-Safe)

pub set_or_bad-Safe : (n : ℕ) (o : Option (List SeqElt)) → Safe n (set_or_bad o)
set_or_bad-Safe n none = raise-Safe bad_syntax refl
set_or_bad-Safe n (some r) = pure-Safe r

pub p_msg_set-Safe : (n : ℕ) → Safe n p_msg_set
unfolding p_msg_set
p_msg_set-Safe n =
    >>=-Safe (p_re-Safe n is_set_char) λ msg_set. set_or_bad-Safe n (seq_elts (split_on 44 msg_set))

pub p_char-Safe : (n : ℕ) (p : ℕ → Bool) → Safe n (p_char p)
unfolding p_char
p_char-Safe n p = record { at = char_fine }
  where
    char_fine : (input : Bytes) → length input < n → Fine (length input) (p_char p input)
    char_fine [] lt = refl
    char_fine (c ∷ input) lt = elim (Bool-cases (p c)) [
      | inl e ↦ rw (e, Fine) (omega arith)
      | inr e ↦ rw (e, Fine) refl
    ]

pub p_two-Safe : (n : ℕ) → Safe n p_two
unfolding p_two
p_two-Safe n = search (safe_rules, p_char-Safe)

pub p_four-Safe : (n : ℕ) → Safe n p_four
unfolding p_four
p_four-Safe n = search (safe_rules, p_two-Safe)

pub p_month_from-Safe : (n k : ℕ) (names : List String) → Safe n (p_month_from k names)
unfolding p_month_from
p_month_from-Safe n k [] = raise-Safe no_match refl
p_month_from-Safe n k (name ∷ names) =
    let h : Safe n (skip name >>= λ here. if here then pure k else p_month_from (suc k) names) =
      >>=-Safe (skip-Safe n name)
        λ here. if-Safe here (pure-Safe k) (p_month_from-Safe n (suc k) names) in
    record { at = λ input lt. h.at input lt }

pub p_day-Safe : (n : ℕ) → Safe n p_day
unfolding p_day
p_day-Safe n = record { at = day_fine }
  where
    day_fine : (input : Bytes) → length input < n → Fine (length input) (p_day input)
    day_fine [] lt = refl
    day_fine (a ∷ []) lt = refl
    day_fine (a ∷ b ∷ input) lt = elim (Bool-cases (is_digit a)) [
      | inr e ↦ rw (e, Fine) refl
      | inl e ↦ elim (Bool-cases (is_digit b)) [
        | inl f ↦ rw (e, f, Fine) (omega arith)
        | inr f ↦ rw (e, f, Fine) (omega arith)
      ]
    ]

pub p_date-Safe : (n : ℕ) → Safe n p_date
unfolding p_date
p_date-Safe n = >>=-Safe (skip-Safe n "\"") λ quoted. >>=-Safe (p_day-Safe n) λ day.
    >>=-Safe (>>=-Safe (expect-Safe n "-") (λ _. p_month_from-Safe n 1 month_names)) λ month.
      >>=-Safe (>>=-Safe (expect-Safe n "-") (λ _. p_four-Safe n)) λ year.
        >>=-Safe (if-Safe quoted (expect-Safe n "\"") (pure-Safe tt)) λ _.
          option-Safe (date_ordinal year month day) (raise-Safe value_error refl) (λ d. pure-Safe d)

pub skip_classes-Safe : (n : ℕ) (classes : List (ℕ → Bool)) → Safe n (skip_classes classes)
unfolding skip_classes
skip_classes-Safe n [] = pure-Safe tt
skip_classes-Safe n (p ∷ classes) = >>=-Safe (p_char-Safe n p) (λ c. skip_classes-Safe n classes)

pub p_date_time-Safe : (n : ℕ) → Safe n p_date_time
unfolding p_date_time
p_date_time-Safe n = record {
  at = λ input lt.
      let opened = >>=-Safe (expect-Safe n "\"") (λ _. skip_classes-Safe n day_fixed) in
      let dated = >>=-Safe opened (λ _. p_month_from-Safe n 1 month_names) in
      let rest = λ (month : ℕ).
        >>=-Safe (>>=-Safe (expect-Safe n "-") (λ _. skip_classes-Safe n time_and_zone))
          (λ _. pure-Safe (take 26 (drop 1 input))) in
      (>>=-Safe dated rest).at input lt;
}
