-- ===== src/Parse/Sets.antt =====
-- asimap/parse.py: `_p_msg_set`, `is_seq_num`, `_p_date`, `_p_date_time`.
use asimap.Prelude.{
  ℕ, zero, suc, ◌+◌, ◌-◌, ◌*◌, ◌/◌, ◌%◌, String, Bool, true, ◌&&◌, ◌||◌, not, Option, none, some,
  List, [], ◌∷◌, leb, ◌==◌, if◌then◌else◌,
}
use asimap.Prelude.Lists.{take, drop}
use asimap.SeqSet.{SeqNum, star, num, SeqElt, one, pair}
use asimap.Parse.{
  Bytes, Parser, raised, parsed, next, ◌>>=◌, ◌>>◌, pure, raise, no_match, bad_syntax, value_error,
  expect, skip, p_re, is_digit, int,
}

-- `_msg_set`
abbrev pub is_set_char : ℕ → Bool
is_set_char c = is_digit c || (c == 44 || (c == 58 || c == 42))

-- `text.split(c)`
abbrev pub split_first : ℕ → ℕ → List Bytes → List Bytes
split_first separator c [] = []
split_first separator c (part ∷ parts) =
    if c == separator then [] ∷ part ∷ parts else (c ∷ part) ∷ parts

unfoldable pub split_on : ℕ → Bytes → List Bytes
split_on separator [] = [] ∷ []
split_on separator (c ∷ text) = split_first separator c (split_on separator text)

-- `val.isdigit()`, of a text of digits, `,`, `:` and `*`
abbrev pub all_digits : Bytes → Bool
all_digits [] = true
all_digits (c ∷ val) = is_digit c && all_digits val

unfoldable pub is_seq_num : Bytes → Option SeqNum
is_seq_num [] = none
is_seq_num (c ∷ []) =
    if is_digit c then some (num (int (c ∷ []))) else if c == 42 then some star else none
is_seq_num (c ∷ d ∷ val) = if all_digits (c ∷ d ∷ val) then some (num (int (c ∷ d ∷ val))) else none

-- `_msg_set_pair`: two sequence numbers with one colon between them
abbrev pub seq_pair : List Bytes → Option SeqElt
seq_pair [] = none
seq_pair (from ∷ []) = none
seq_pair (from ∷ to ∷ []) = elim (is_seq_num from) [
  | none ↦ none
  | some a ↦ elim (is_seq_num to) [ none ↦ none | some b ↦ some (pair a b) ]
]
seq_pair (from ∷ to ∷ more ∷ parts) = none

unfoldable pub seq_elt : Bytes → Option SeqElt
unfolding is_seq_num split_on
seq_elt seq_num = elim (is_seq_num seq_num) [
  | some n ↦ some (one n)
  | none ↦ seq_pair (split_on 58 seq_num)
]

-- The loop over the parts between the commas
abbrev pub cons_elt : Option SeqElt → Option (List SeqElt) → Option (List SeqElt)
cons_elt none result = none
cons_elt (some elt) none = none
cons_elt (some elt) (some result) = some (elt ∷ result)

unfoldable pub seq_elts : List Bytes → Option (List SeqElt)
unfolding seq_elt
seq_elts [] = some []
seq_elts (seq ∷ seqs) = cons_elt (seq_elt seq) (seq_elts seqs)

abbrev pub set_or_bad : Option (List SeqElt) → Parser (List SeqElt)
set_or_bad none = raise bad_syntax
set_or_bad (some result) = pure result

unfoldable pub p_msg_set : Parser (List SeqElt)
unfolding p_re seq_elts split_on
p_msg_set = p_re is_set_char >>= λ msg_set. set_or_bad (seq_elts (split_on 44 msg_set))

-- `_date` and `_date_time`: one character of a class, and the month
unfoldable pub p_char : (ℕ → Bool) → Parser ℕ
p_char p [] = raised no_match
p_char p (c ∷ input) = if p c then parsed c input else raised no_match

-- Two and four digits
unfoldable pub p_two : Parser ℕ
unfolding p_char
p_two = p_char is_digit >>= λ a. p_char is_digit >>= λ b. pure (int (a ∷ b ∷ []))

unfoldable pub p_four : Parser ℕ
unfolding p_two
p_four = p_two >>= λ a. p_two >>= λ b. pure (a * 100 + b)

abbrev pub month_names : List String
month_names =
    "jan" ∷ "feb" ∷ "mar" ∷ "apr" ∷ "may" ∷ "jun" ∷ "jul" ∷ "aug" ∷ "sep" ∷ "oct" ∷ "nov" ∷ "dec"
    ∷ []

unfoldable pub p_month_from : ℕ → List String → Parser ℕ
unfolding skip
p_month_from n [] input = raised no_match
p_month_from n (name ∷ names) input =
    next (skip name input) λ here. if here then pure n else p_month_from (suc n) names

-- The day of the month: one or two digits before the `-`
unfoldable pub p_day : Parser ℕ
unfolding p_char
p_day [] = raised no_match
p_day (a ∷ []) = raised no_match
p_day (a ∷ b ∷ input) =
    if not (is_digit a)
    then raised no_match
    else if is_digit b
    then parsed (int (a ∷ b ∷ [])) input
    else parsed (int (a ∷ [])) (b ∷ input)

-- `datetime.date`: its ordinal, where there is such a day
abbrev pub is_leap : ℕ → Bool
is_leap year = year % 4 == 0 && (not (year % 100 == 0) || year % 400 == 0)

abbrev pub month_days : ℕ → ℕ → ℕ
month_days year month =
    if month == 2
    then (if is_leap year then 29 else 28)
    else if month == 4 || (month == 6 || (month == 9 || month == 11))
    then 30
    else 31

abbrev pub days_before_month : ℕ → ℕ → ℕ
days_before_month year zero = 0
days_before_month year (suc month) =
    if month == 0 then 0 else days_before_month year month + month_days year month

unfoldable pub date_ordinal : ℕ → ℕ → ℕ → Option ℕ
date_ordinal year month day =
    if (leb 1 year && (leb 1 day && leb day (month_days year month)))
    then some (
        (year - 1) * 365
        + (year - 1) / 4
        - (year - 1) / 100
        + (year - 1) / 400
        + days_before_month year month
        + day)
    else none

-- `_p_date`, with its quotes or without; `date(year, month, day)` raises where there is no such day.
abbrev pub date_or_error : Option ℕ → Parser ℕ
date_or_error none = raise value_error
date_or_error (some d) = pure d

unfoldable pub p_date : Parser ℕ
unfolding expect skip p_day p_month_from p_four date_ordinal
p_date = skip "\"" >>= λ quoted. p_day >>= λ day.
    expect "-" >> p_month_from 1 month_names >>= λ month. expect "-" >> p_four >>= λ year.
    (if quoted then expect "\"" else pure tt) >> date_or_error (date_ordinal year month day)

-- `_date_time`: what stands between its quotes.
unfoldable pub skip_classes : List (ℕ → Bool) → Parser (Unit {0})
unfolding p_char
skip_classes [] = pure tt
skip_classes (p ∷ classes) = p_char p >>= λ c. skip_classes classes

abbrev pub is_char : ℕ → ℕ → Bool
is_char d c = c == d

abbrev pub time_and_zone : List (ℕ → Bool)
time_and_zone =
    is_digit
    ∷ is_digit
    ∷ is_digit
    ∷ is_digit
    ∷ is_char 32
    ∷ is_digit
    ∷ is_digit
    ∷ is_char 58
    ∷ is_digit
    ∷ is_digit
    ∷ is_char 58
    ∷ is_digit
    ∷ is_digit
    ∷ is_char 32
    ∷ (λ c. c == 43 || c == 45)
    ∷ is_digit
    ∷ is_digit
    ∷ is_digit
    ∷ is_digit
    ∷ is_char 34
    ∷ []

-- `_date_day_fixed` and a `-`
abbrev pub day_fixed : List (ℕ → Bool)
day_fixed = (λ c. c == 32 || is_digit c) ∷ is_digit ∷ is_char 45 ∷ []

unfoldable pub p_date_time : Parser Bytes
unfolding skip_classes expect p_month_from
p_date_time input =
    (expect "\"" >> skip_classes day_fixed >> p_month_from 1 month_names >>= λ month.
    expect "-" >> skip_classes time_and_zone >> pure (take 26 (drop 1 input)))
      input
