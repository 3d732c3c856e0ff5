-- ===== src/Parse/Grammar.antt =====
-- asimap/parse.py: the grammar of search keys, as texts that stand for search keys. It is that of
-- RFC 3501 without the key UNDRAFT, which the parser does not know, and without escapes in quoted
-- strings, which the parser leaves in.
pub mod Tokens
pub mod Sets
pub mod Spelling
pub mod Dates
pub mod Words
pub mod Lengths
pub mod Tables
pub mod Arguments
pub mod Opens
pub mod Reads
pub mod Lines
pub mod SearchLines
pub mod Inbox
pub mod Names
pub use asimap.Parse.Grammar.Names.{
  PlainKey, all, answered, deleted, draft, flagged, new, old, recent, seen, unanswered, undeleted,
  unflagged, unseen, plain_name, plain_meaning, TextKey, bcc, body_key, cc, from, subject, text_key,
  to, text_name, text_meaning, DayKey, before_key, on_key, since_key, sentbefore_key, senton_key,
  sentsince_key, day_name, day_meaning,
}
use asimap.Prelude.{
  ℕ, zero, suc, ◌+◌, ◌-◌, ◌*◌, ◌/◌, ◌%◌, ◌≡◌, ◌<◌, ◌≤◌, String, Bool, true, false, not, ◌&&◌,
  Option, none, some, List, [], ◌∷◌, ◌++◌, ltb, ◌==◌, if◌then◌else◌,
}
use asimap.Prelude.Lists.{length, All}
use asimap.SeqSet.{SeqNum, star, num, SeqElt, one, pair}
use asimap.Search.{
  Search, all_messages, and_keys, or_keys, not_key, before, on, since, sentbefore, senton,
  sentsince, keyword, larger, smaller, message_set, uid, header, body, text, Searches, nil, cons,
}
use asimap.Parse.{Bytes, codes, lower_all, is_atom}
use asimap.Parse.Strings.{text_of, is_quotable}
use asimap.Parse.Sets.{month_names, date_ordinal}

-- A number in decimal; the fuel is more than it has digits.
unfoldable pub decimal_before : ℕ → ℕ → Bytes → Bytes
decimal_before zero n out = out
decimal_before (suc fuel) n out =
    let more = decimal_before fuel (n / 10) ((48 + n % 10) ∷ out) in
    if ltb n 10 then (48 + n) ∷ out else more

unfoldable pub decimal : ℕ → Bytes
unfolding decimal_before
decimal n = decimal_before (suc n) n []

-- astring: an atom, a text in quotes, or a literal, with a `+` or without.
pub data AString : Type 0 where
  atom quoted : Bytes → AString
  literal : (plus : Bool) → Bytes → AString

abbrev pub value_of : AString → Bytes
value_of (atom s) = s
value_of (quoted s) = s
value_of (literal plus s) = s

-- Each text is written before what follows it.
abbrev pub plus_text : Bool → Bytes → Bytes
plus_text true rest = 43 ∷ rest
plus_text false rest = rest

unfoldable pub astring_text : AString → Bytes → Bytes
unfolding decimal
astring_text (atom s) rest = s ++ rest
astring_text (quoted s) rest = 34 ∷ s ++ 34 ∷ rest
astring_text (literal plus s) rest =
    123 ∷ decimal (length s) ++ plus_text plus (125 ∷ 13 ∷ 10 ∷ s ++ rest)

abbrev pub IsSome : Bytes → Type 0
IsSome [] = ⊥
IsSome (c ∷ s) = Unit

abbrev pub IsAString : AString → Type 0
IsAString (atom s) = IsSome s × All (λ c. is_atom c ≡ true) s
IsAString (quoted s) = All (λ c. is_quotable c ≡ true) s
IsAString (literal plus s) = Unit

-- set
abbrev pub num_text : SeqNum → Bytes
num_text star = 42 ∷ []
num_text (num n) = decimal n

abbrev pub elt_text : SeqElt → Bytes
elt_text (one n) = num_text n
elt_text (pair a b) = num_text a ++ 58 ∷ num_text b

abbrev pub set_text : SeqElt → List SeqElt → Bytes
set_text elt [] = elt_text elt
set_text elt (more ∷ elts) = elt_text elt ++ 44 ∷ set_text more elts

-- A word, in any case of its letters
abbrev pub Spells : String → Bytes → Type 0
Spells name s = lower_all s ≡ codes name

-- date, in quotes or without; the month as it is spelled.
pub record Date : Type 0 where
  pub in_quotes : Bool
  pub padded : Bool
  pub day : ℕ
  pub month : ℕ
  pub month_text : Bytes
  pub year : ℕ
  pub ordinal : ℕ

abbrev pub two_digits : ℕ → Bytes → Bytes
two_digits n rest = (48 + n / 10) ∷ (48 + n % 10) ∷ rest

abbrev pub quote : Bool → Bytes → Bytes
quote true rest = 34 ∷ rest
quote false rest = rest

abbrev pub day_text : Bool → ℕ → Bytes → Bytes
day_text padded d rest = if not padded && ltb d 10 then (48 + d) ∷ rest else two_digits d rest

abbrev pub date_text : Date → Bytes → Bytes
date_text d rest = quote d.in_quotes (
    day_text d.padded d.day (
      45 ∷ d.month_text
      ++ 45 ∷ two_digits (d.year / 100) (two_digits (d.year % 100) (quote d.in_quotes rest))))

-- The number of the month of this name
abbrev pub name_of : ℕ → List String → String
name_of n [] = ""
name_of zero (name ∷ names) = ""
name_of (suc zero) (name ∷ names) = name
name_of (suc (suc n)) (name ∷ names) = name_of (suc n) names

pub record IsDate (d : Date) : Type 0 where
  pub spelled : Spells (name_of d.month month_names) d.month_text
  pub month_pos : 0 < d.month
  pub month_last : d.month ≤ 12
  pub short_year : d.year < 10000
  pub day_short : d.day < 100
  pub there_is : date_ordinal d.year d.month d.day ≡ some d.ordinal

-- search-key, each word as it is spelled
mutual
  pub data Query : Type 0 where
    plain : PlainKey → Bytes → Query
    about : TextKey → Bytes → AString → Query
    header_has : Bytes → (name : AString) → AString → Query
    dated : DayKey → Bytes → Date → Query
    larger_than smaller_than : Bytes → ℕ → Query
    with_keyword without_keyword : Bytes → (flag : Bytes) → Query
    uid_in : Bytes → SeqElt → List SeqElt → Query
    number_in : SeqElt → List SeqElt → Query
    negated : Bytes → Query → Query
    either : Bytes → Query → Query → Query
    together : Query → Queries → Query

  pub data Queries : Type 0 where
    done : Queries
    also : Query → Queries → Queries

abbrev pub lowered : AString → String
lowered a = text_of (lower_all (value_of a))

unfoldable mutual
  unfolding astring_text decimal

  pub query_text : Query → Bytes → Bytes
  query_text (plain k s) rest = s ++ rest
  query_text (about k s a) rest = s ++ 32 ∷ astring_text a rest
  query_text (header_has s name a) rest = s ++ 32 ∷ astring_text name (32 ∷ astring_text a rest)
  query_text (dated k s d) rest = s ++ 32 ∷ date_text d rest
  query_text (larger_than s n) rest = s ++ 32 ∷ (decimal n ++ rest)
  query_text (smaller_than s n) rest = s ++ 32 ∷ (decimal n ++ rest)
  query_text (with_keyword s flag) rest = s ++ 32 ∷ (flag ++ rest)
  query_text (without_keyword s flag) rest = s ++ 32 ∷ (flag ++ rest)
  query_text (uid_in s elt elts) rest = s ++ 32 ∷ (set_text elt elts ++ rest)
  query_text (number_in elt elts) rest = set_text elt elts ++ rest
  query_text (negated s q) rest = s ++ 32 ∷ query_text q rest
  query_text (either s q r) rest = s ++ 32 ∷ query_text q (32 ∷ query_text r rest)
  query_text (together q qs) rest = 40 ∷ query_text q (queries_text qs rest)

  -- The rest of a list in parentheses
  pub queries_text : Queries → Bytes → Bytes
  queries_text done rest = 41 ∷ rest
  queries_text (also q qs) rest = 32 ∷ query_text q (queries_text qs rest)

-- Keys in parentheses are to hold together; one alone stands for itself.
abbrev pub all_of_them : Search → Searches → Search
all_of_them key nil = key
all_of_them key (cons more keys) = and_keys (cons key (cons more keys))

unfoldable mutual
  pub meaning : Query → Search
  meaning (plain k s) = plain_meaning k
  meaning (about k s a) = text_meaning k (lowered a)
  meaning (header_has s name a) = header (lowered name) (lowered a)
  meaning (dated k s d) = day_meaning k d.ordinal
  meaning (larger_than s n) = larger n
  meaning (smaller_than s n) = smaller n
  meaning (with_keyword s flag) = keyword (text_of flag)
  meaning (without_keyword s flag) = not_key (keyword (text_of flag))
  meaning (uid_in s elt elts) = uid (elt ∷ elts)
  meaning (number_in elt elts) = message_set (elt ∷ elts)
  meaning (negated s q) = not_key (meaning q)
  meaning (either s q r) = or_keys (cons (meaning q) (cons (meaning r) nil))
  meaning (together q qs) = all_of_them (meaning q) (meanings qs)

  pub meanings : Queries → Searches
  meanings done = nil
  meanings (also q qs) = cons (meaning q) (meanings qs)

-- The words are spelled, and the arguments are atoms, texts in quotes and dates as they should be.
unfoldable mutual
  pub IsQuery : Query → Type 0
  IsQuery (plain k s) = Spells (plain_name k) s
  IsQuery (about k s a) = Spells (text_name k) s × IsAString a
  IsQuery (header_has s name a) = Spells "header" s × IsAString name × IsAString a
  IsQuery (dated k s d) = Spells (day_name k) s × IsDate d
  IsQuery (larger_than s n) = Spells "larger" s
  IsQuery (smaller_than s n) = Spells "smaller" s
  IsQuery (with_keyword s flag) = Spells "keyword" s × IsAString (atom flag)
  IsQuery (without_keyword s flag) = Spells "unkeyword" s × IsAString (atom flag)
  IsQuery (uid_in s elt elts) = Spells "uid" s
  IsQuery (number_in elt elts) = Unit
  IsQuery (negated s q) = Spells "not" s × IsQuery q
  IsQuery (either s q r) = Spells "or" s × IsQuery q × IsQuery r
  IsQuery (together q qs) = IsQuery q × AreQueries qs

  pub AreQueries : Queries → Type 0
  AreQueries done = Unit
  AreQueries (also q qs) = IsQuery q × AreQueries qs
