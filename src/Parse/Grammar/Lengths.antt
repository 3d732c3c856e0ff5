-- ===== src/Parse/Grammar/Lengths.antt =====
-- asimap/parse.py: the lengths of the texts of the grammar.
use asimap.Prelude.{
  ℕ, ◌/◌, ◌%◌, ◌<◌, ◌≤◌, Bool, true, false, not, ◌&&◌, ◌∷◌, ◌++◌, ltb, Bool-cases, inl, inr, arith,
}
use asimap.Prelude.Lists.{length, length-append}
use asimap.Parse.{Bytes}
use asimap.Parse.Grammar.{
  decimal, AString, atom, quoted, literal, plus_text, astring_text, set_text, two_digits, quote,
  Date, day_text, date_text, Query, Queries, plain, about, header_has, dated, larger_than,
  smaller_than, with_keyword, without_keyword, uid_in, number_in, negated, either, together, done,
  also, query_text, queries_text,
}

pub behind_le : (s rest : Bytes) → length rest ≤ length (s ++ rest)
behind_le s rest = omega (arith, length-append s rest)

pub word_le :
    (s tail rest : Bytes) → length rest ≤ length tail → length rest < length (s ++ 32 ∷ tail)
word_le s tail rest h = omega (arith, length-append s (32 ∷ tail), h)

plus_text_le : (plus : Bool) (rest : Bytes) → length rest ≤ length (plus_text plus rest)
plus_text_le true rest = omega arith
plus_text_le false rest = omega arith

astring_text_le : (a : AString) (rest : Bytes) → length rest ≤ length (astring_text a rest)
unfolding astring_text
astring_text_le (atom s) rest = behind_le s rest
astring_text_le (quoted s) rest = omega (arith, behind_le s (34 ∷ rest))
astring_text_le (literal plus s) rest = omega (
  arith,
  behind_le s rest,
  plus_text_le plus (125 ∷ 13 ∷ 10 ∷ s ++ rest),
  behind_le (decimal (length s)) (plus_text plus (125 ∷ 13 ∷ 10 ∷ s ++ rest)),
)

quote_le : (q : Bool) (rest : Bytes) → length rest ≤ length (quote q rest)
quote_le true rest = omega arith
quote_le false rest = omega arith

day_text_le : (padded : Bool) (d : ℕ) (rest : Bytes) → length rest ≤ length (day_text padded d rest)
day_text_le padded d rest = elim (Bool-cases (not padded && ltb d 10)) [
  | inl e ↦ rw e (omega arith)
  | inr e ↦ rw e (omega arith)
]

date_text_le : (d : Date) (rest : Bytes) → length rest ≤ length (date_text d rest)
date_text_le d rest = omega (
  arith,
  quote_le d.in_quotes rest,
  behind_le d.month_text (45 ∷ year),
  day_text_le d.padded d.day (45 ∷ d.month_text ++ 45 ∷ year),
  quote_le d.in_quotes (day_text d.padded d.day (45 ∷ d.month_text ++ 45 ∷ year)),
)
  where
    year : Bytes
    year = two_digits (d.year / 100) (two_digits (d.year % 100) (quote d.in_quotes rest))

mutual
  unfolding query_text queries_text

  pub query_text_le : (q : Query) (rest : Bytes) → length rest ≤ length (query_text q rest)
  query_text_le (plain k s) rest = behind_le s rest
  query_text_le (about k s a) rest =
      omega (arith, word_le s (astring_text a rest) rest (astring_text_le a rest))
  query_text_le (header_has s name a) rest = omega (
    arith,
    astring_text_le a rest,
    astring_text_le name (32 ∷ astring_text a rest),
    behind_le s (32 ∷ astring_text name (32 ∷ astring_text a rest)),
  )
  query_text_le (dated k s d) rest =
      omega (arith, word_le s (date_text d rest) rest (date_text_le d rest))
  query_text_le (larger_than s n) rest =
      omega (arith, word_le s (decimal n ++ rest) rest (behind_le (decimal n) rest))
  query_text_le (smaller_than s n) rest =
      omega (arith, word_le s (decimal n ++ rest) rest (behind_le (decimal n) rest))
  query_text_le (with_keyword s flag) rest =
      omega (arith, word_le s (flag ++ rest) rest (behind_le flag rest))
  query_text_le (without_keyword s flag) rest =
      omega (arith, word_le s (flag ++ rest) rest (behind_le flag rest))
  query_text_le (uid_in s elt elts) rest =
      omega (arith, word_le s (set_text elt elts ++ rest) rest (behind_le (set_text elt elts) rest))
  query_text_le (number_in elt elts) rest = behind_le (set_text elt elts) rest
  query_text_le (negated s q) rest =
      omega (arith, word_le s (query_text q rest) rest (query_text_le q rest))
  query_text_le (either s q r) rest = omega (
    arith,
    query_text_le r rest,
    query_text_le q (32 ∷ query_text r rest),
    behind_le s (32 ∷ query_text q (32 ∷ query_text r rest)),
  )
  query_text_le (together q qs) rest =
      omega (arith, query_text_le q (queries_text qs rest), queries_text_lt qs rest)

  pub queries_text_lt : (qs : Queries) (rest : Bytes) → length rest < length (queries_text qs rest)
  queries_text_lt done rest = omega arith
  queries_text_lt (also q qs) rest =
      omega (arith, query_text_le q (queries_text qs rest), queries_text_lt qs rest)
