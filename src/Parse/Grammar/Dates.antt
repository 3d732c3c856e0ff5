-- ===== src/Parse/Grammar/Dates.antt =====
-- asimap/parse.py: what is written by the grammar, its dates read.
use mathlib.Core.Path.{subst}
use asimap.Prelude.{
  ℕ, zero, suc, ◌+◌, ◌*◌, ◌/◌, ◌%◌, ◌≡◌, ◌<◌, ◌≤◌, refl, sym, ap, ◌∙◌, String, Bool, true, false,
  not, ◌&&◌, List, [], ◌∷◌, ◌++◌, ltb, ◌==◌, if◌then◌else◌, Bool-cases, inl, inr, arith,
}
use asimap.Prelude.Lists.{length}
use asimap.Parse.{
  Bytes, Parser, Parsed, parsed, next, codes, lower, lower_all, match_string, expect, skip,
  is_digit, ◌>>=◌, ◌>>◌, pure,
}
use asimap.Parse.Keys.{same_bytes}
use asimap.Parse.Sets.{
  p_char, p_two, p_four, p_month_from, month_names, p_day, date_ordinal, p_date, date_or_error,
}
use asimap.Parse.Grammar.{Spells, Date, two_digits, quote, day_text, date_text, name_of, IsDate}
use asimap.Parse.Grammar.Spelling.{is_lowered, match_spelled, length-lower_all}

two_digits_char : (n : ℕ) → n < 10 → is_digit (48 + n) ≡ true
two_digits_char n h = ground arith

p_two-text : (n : ℕ) (rest : Bytes) → n < 100 → p_two (two_digits n rest) ≡ parsed n rest
unfolding p_two p_char
p_two-text n rest h =
    let a = two_digits_char (n / 10) (omega (arith, h)) in
    let b = two_digits_char (n % 10) (omega arith) in
    rw (a, b) (ap (λ k. parsed k rest) (omega arith))

p_four-text :
    (y : ℕ) (rest : Bytes)
    → y < 10000
    → p_four (two_digits (y / 100) (two_digits (y % 100) rest)) ≡ parsed y rest
unfolding p_four
p_four-text y rest h =
    ap (λ (r : Parsed ℕ). next r (λ a. p_two >>= λ b. pure (a * 100 + b)))
      (p_two-text (y / 100) (two_digits (y % 100) rest) (omega (arith, h)))
    ∙ ap (λ (r : Parsed ℕ). next r (λ b. pure (y / 100 * 100 + b)))
        (p_two-text (y % 100) rest (omega arith))
    ∙ ap (λ k. parsed k rest) (omega arith)

p_day-text :
    (padded : Bool) (d : ℕ) (rest : Bytes)
    → d < 100
    → p_day (day_text padded d (45 ∷ rest)) ≡ parsed d (45 ∷ rest)
unfolding p_day
p_day-text padded d rest h = elim (Bool-cases (not padded && ltb d 10)) [
  | inl e ↦
      let a = two_digits_char d (ground (arith, e)) in
      rw (e, a) (ap (λ k. parsed k (45 ∷ rest)) (omega arith))
  | inr e ↦
      let a = two_digits_char (d / 10) (omega (arith, h)) in
      let b = two_digits_char (d % 10) (omega arith) in
      rw (e, a, b) (ap (λ k. parsed k (45 ∷ rest)) (omega arith))
]

-- A month is found by its spelling: the names before it are other words of its length.
fits : String → Bytes → Bool
fits name w = is_lowered (codes name) && length (codes name) == length w

comes : ℕ → List String → Bytes → Bool
unfolding fits
comes m [] w = false
comes zero (name ∷ names) w = fits name w && same_bytes w (codes name)
comes (suc m) (name ∷ names) w = fits name w && (not (same_bytes w (codes name)) && comes m names w)

skip-fits :
    (name : String) (s rest : Bytes)
    → fits name (lower_all s) ≡ true
    → skip name (s ++ rest) ≡ (
        if same_bytes (lower_all s) (codes name)
        then parsed true rest
        else parsed false (s ++ rest))
unfolding skip fits
skip-fits name s rest h =
    let low : is_lowered (codes name) ≡ true = ground (arith, h) in
    let long : length (codes name) ≡ length s = ground (arith, h, length-lower_all s) in
    rw (skip, match_spelled (codes name) s rest long low)
      (elim (Bool-cases (same_bytes (lower_all s) (codes name))) [
        | inl e ↦ rw e refl
        | inr e ↦ rw e refl
      ])

p_month_from-text :
    (n m : ℕ) (names : List String) (s rest : Bytes)
    → comes m names (lower_all s) ≡ true
    → p_month_from n names (s ++ rest) ≡ parsed (n + m) rest
unfolding p_month_from comes
p_month_from-text n m [] s rest h = absurd (ground (arith, h))
p_month_from-text n zero (name ∷ names) s rest h =
    let here : fits name (lower_all s) ≡ true = ground (arith, h) in
    let same : same_bytes (lower_all s) (codes name) ≡ true = ground (arith, h) in
    rw (skip-fits name s rest here, same) (ap (λ k. parsed k rest) (omega arith))
p_month_from-text n (suc m) (name ∷ names) s rest h =
    let here : fits name (lower_all s) ≡ true = ground (arith, h) in
    let other : same_bytes (lower_all s) (codes name) ≡ false = ground (arith, h) in
    let later : comes m names (lower_all s) ≡ true = ground (arith, h) in
    rw (skip-fits name s rest here, other)
      (p_month_from-text (suc n) m names s rest later ∙ ap (λ k. parsed k rest) (omega arith))

below : (ℕ → Bool) → ℕ → Bool
below p zero = true
below p (suc n) = p n && below p n

below_lem : (p : ℕ → Bool) (n m : ℕ) → below p n ≡ true → m < n → p m ≡ true
unfolding below
below_lem p zero m h l = absurd (omega (arith, l))
below_lem p (suc n) m h l = elim (Bool-cases (m == n)) [
  | inl e ↦
      let same : m ≡ n = ground (arith, e) in subst (λ k. p k ≡ true) (sym same) (ground (arith, h))
  | inr e ↦ below_lem p n m (ground (arith, h)) (ground (arith, l, e))
]

comes-month : (m : ℕ) → m < 12 → comes m month_names (codes (name_of (suc m) month_names)) ≡ true
unfolding below comes fits lower
comes-month m h =
    below_lem (λ m. comes m month_names (codes (name_of (suc m) month_names))) 12 m refl h

p_month-text :
    (m : ℕ) (s rest : Bytes)
    → 0 < m
    → m ≤ 12
    → Spells (name_of m month_names) s
    → p_month_from 1 month_names (s ++ rest) ≡ parsed m rest
p_month-text zero s rest h l e = absurd (omega (arith, h))
p_month-text (suc m) s rest h l e =
    p_month_from-text 1 m month_names s rest (rw e (comes-month m (omega (arith, l))))
    ∙ ap (λ k. parsed k rest) (omega arith)

skip-quote :
    (q padded : Bool) (d : ℕ) (rest : Bytes)
    → skip "\"" (quote q (day_text padded d rest)) ≡ parsed q (day_text padded d rest)
unfolding skip match_string lower
skip-quote true padded d rest = refl
skip-quote false padded d rest = elim (Bool-cases (not padded && ltb d 10)) [
  | inl e ↦ rw e (ground (arith, e))
  | inr e ↦ rw e (ground (arith, e))
]

end_quote :
    (q : Bool) (rest : Bytes) → (if q then expect "\"" else pure tt) (quote q rest) ≡ parsed tt rest
unfolding expect match_string lower
end_quote true rest = refl
end_quote false rest = refl

-- What is left of `_p_date` behind the day, the month and the year
abbrev after_year : Bool → ℕ → ℕ → ℕ → Parser ℕ
after_year quoted day month year =
    (if quoted then expect "\"" else pure tt) >> date_or_error (date_ordinal year month day)

abbrev after_month : Bool → ℕ → ℕ → Parser ℕ
after_month quoted day month = expect "-" >> p_four >>= λ year. after_year quoted day month year

abbrev after_day : Bool → ℕ → Parser ℕ
after_day quoted day =
    expect "-" >> p_month_from 1 month_names >>= λ month. after_month quoted day month

pub p_date-text :
    (d : Date) (rest : Bytes) → IsDate d → p_date (date_text d rest) ≡ parsed d.ordinal rest
unfolding p_date expect match_string lower
p_date-text d rest h =
    ap (λ (r : Parsed Bool). next r (λ quoted. p_day >>= λ day. after_day quoted day))
      (skip-quote d.in_quotes d.padded d.day after)
    ∙ ap (λ (r : Parsed ℕ). next r (λ day. after_day d.in_quotes day))
        (p_day-text d.padded d.day behind h.day_short)
    ∙ ap (λ (r : Parsed ℕ). next r (λ month. after_month d.in_quotes d.day month))
        (p_month-text d.month d.month_text (45 ∷ year) h.month_pos h.month_last h.spelled)
    ∙ ap (λ (r : Parsed ℕ). next r (λ year. after_year d.in_quotes d.day d.month year))
        (p_four-text d.year end h.short_year)
    ∙ ap
        (λ (r : Parsed (Unit {0})). next r (λ _. date_or_error (date_ordinal d.year d.month d.day)))
        (end_quote d.in_quotes rest)
    ∙ ap (λ o. date_or_error o rest) h.there_is
  where
    end : Bytes
    end = quote d.in_quotes rest

    year : Bytes
    year = two_digits (d.year / 100) (two_digits (d.year % 100) end)

    behind : Bytes
    behind = d.month_text ++ 45 ∷ year

    after : Bytes
    after = 45 ∷ behind
