-- ===== src/Parse/Grammar/Opens.antt =====
-- asimap/parse.py: what is written by the grammar of search keys, its first characters.
use asimap.Prelude.{
  ℕ, ◌≡◌, Bool, none, Bool-cases, inl, inr, if◌then◌else◌, refl, String, true, false, [], ◌∷◌, ◌++◌,
  ◌==◌, arith,
}
use asimap.Prelude.Lists.{All}
use asimap.Parse.{Bytes, parsed, codes, lower, lower_all, match_string, skip}
use asimap.Parse.Sets.{is_set_char}
use asimap.Parse.Grammar.{
  decimal, astring_text, IsSome, set_text, Spells, date_text, plain_name, text_name, day_name,
  PlainKey, TextKey, DayKey, all, answered, deleted, draft, flagged, new, old, recent, seen,
  unanswered, undeleted, unflagged, unseen, bcc, body_key, cc, from, subject, text_key, to,
  before_key, on_key, since_key, sentbefore_key, senton_key, sentsince_key, Query, plain, about,
  header_has, dated, larger_than, smaller_than, with_keyword, without_keyword, uid_in, number_in,
  negated, either, together, query_text, queries_text, IsQuery,
}
use asimap.Parse.Grammar.Sets.{set_text-All, set_text-IsSome}
use asimap.Parse.Grammar.Spelling.{is_lowered, is_lowered-cons}
use asimap.Parse.Grammar.Words.{is_word}
use asimap.Parse.Grammar.Tables.{plain_is_word, about_is_word, dated_is_word}

-- A character of the word is another one.
abbrev pub differs : Bytes → Bytes → Bool
differs [] s = false
differs (d ∷ word) [] = false
differs (d ∷ word) (c ∷ s) = if c == d then differs word s else true

match_string-differs :
    (word s tail : Bytes)
    → is_lowered word ≡ true
    → differs word (lower_all s) ≡ true
    → match_string word (s ++ tail) ≡ none
unfolding match_string
match_string-differs [] s tail l h = absurd (ground (arith, h))
match_string-differs (d ∷ word) [] tail l h = absurd (ground (arith, h))
match_string-differs (d ∷ word) (c ∷ s) tail l h =
    let (low, lows) = is_lowered-cons d word l in
    elim (Bool-cases (lower c == d)) [
      | inl e ↦
          let later = match_string-differs word s tail lows (ground (arith, e, h)) in
          ground (arith, e, low, later)
      | inr e ↦ ground (arith, e, low)
    ]

skip-differs :
    (word : String) (s tail : Bytes)
    → is_lowered (codes word) ≡ true
    → differs (codes word) (lower_all s) ≡ true
    → skip word (s ++ tail) ≡ parsed false (s ++ tail)
unfolding skip
skip-differs word s tail l h = rw (skip, match_string-differs (codes word) s tail l h) refl

-- A word with which no key begins
pub record IsApart (word : String) : Type 0 where
  pub low : is_lowered (codes word) ≡ true
  pub plain_apart : (k : PlainKey) → differs (codes word) (codes (plain_name k)) ≡ true
  pub about_apart : (k : TextKey) → differs (codes word) (codes (text_name k)) ≡ true
  pub dated_apart : (k : DayKey) → differs (codes word) (codes (day_name k)) ≡ true
  pub header_apart : differs (codes word) (codes "header") ≡ true
  pub larger_apart : differs (codes word) (codes "larger") ≡ true
  pub smaller_apart : differs (codes word) (codes "smaller") ≡ true
  pub keyword_apart : differs (codes word) (codes "keyword") ≡ true
  pub unkeyword_apart : differs (codes word) (codes "unkeyword") ≡ true
  pub uid_apart : differs (codes word) (codes "uid") ≡ true
  pub not_apart : differs (codes word) (codes "not") ≡ true
  pub or_apart : differs (codes word) (codes "or") ≡ true
  pub paren_apart : differs (codes word) (40 ∷ []) ≡ true
  pub set_apart :
      (c : ℕ) (s : Bytes) → is_set_char c ≡ true → differs (codes word) (lower c ∷ s) ≡ true

module _ (word : String) (a : IsApart word) where
  word-opens :
      (name : String) (s tail : Bytes)
      → differs (codes word) (codes name) ≡ true
      → Spells name s
      → skip word (s ++ tail) ≡ parsed false (s ++ tail)
  word-opens name s tail h e = skip-differs word s tail a.low (rw e h)

  set-opens :
      (s tail : Bytes)
      → IsSome s
      → All (λ c. is_set_char c ≡ true) s
      → skip word (s ++ tail) ≡ parsed false (s ++ tail)
  set-opens [] tail h k = absurd h
  set-opens (c ∷ s) tail h k =
      skip-differs word (c ∷ s) tail a.low (a.set_apart c (lower_all s) k.0)

  pub query-opens :
      (q : Query) (rest : Bytes)
      → IsQuery q
      → skip word (query_text q rest) ≡ parsed false (query_text q rest)
  unfolding query_text IsQuery lower
  query-opens (plain k s) rest h = word-opens (plain_name k) s rest (a.plain_apart k) h
  query-opens (about k s t) rest h =
      word-opens (text_name k) s (32 ∷ astring_text t rest) (a.about_apart k) h.0
  query-opens (header_has s name t) rest h =
      word-opens "header" s (32 ∷ astring_text name (32 ∷ astring_text t rest)) a.header_apart h.0
  query-opens (dated k s d) rest h =
      word-opens (day_name k) s (32 ∷ date_text d rest) (a.dated_apart k) h.0
  query-opens (larger_than s n) rest h =
      word-opens "larger" s (32 ∷ (decimal n ++ rest)) a.larger_apart h
  query-opens (smaller_than s n) rest h =
      word-opens "smaller" s (32 ∷ (decimal n ++ rest)) a.smaller_apart h
  query-opens (with_keyword s flag) rest h =
      word-opens "keyword" s (32 ∷ (flag ++ rest)) a.keyword_apart h.0
  query-opens (without_keyword s flag) rest h =
      word-opens "unkeyword" s (32 ∷ (flag ++ rest)) a.unkeyword_apart h.0
  query-opens (uid_in s elt elts) rest h =
      word-opens "uid" s (32 ∷ (set_text elt elts ++ rest)) a.uid_apart h
  query-opens (number_in elt elts) rest h =
      set-opens (set_text elt elts) rest (set_text-IsSome elt elts) (set_text-All elt elts)
  query-opens (negated s q) rest h = word-opens "not" s (32 ∷ query_text q rest) a.not_apart h.0
  query-opens (either s q r) rest h =
      word-opens "or" s (32 ∷ query_text q (32 ∷ query_text r rest)) a.or_apart h.0
  query-opens (together q qs) rest h =
      skip-differs word (40 ∷ []) (query_text q (queries_text qs rest)) a.low a.paren_apart

small-differs : (name : Bytes) → is_word name ≡ true → differs (41 ∷ []) name ≡ true
small-differs [] h = absurd (ground (arith, h))
small-differs (c ∷ name) h = ground (arith, h)

-- No key begins with a closing parenthesis.
pub paren-IsApart : IsApart ")"
unfolding lower
paren-IsApart = record {
  low = refl;
  plain_apart = λ k. small-differs (codes (plain_name k)) (plain_is_word k);
  about_apart = λ k. small-differs (codes (text_name k)) (about_is_word k);
  dated_apart = λ k. small-differs (codes (day_name k)) (dated_is_word k);
  header_apart = refl;
  larger_apart = refl;
  smaller_apart = refl;
  keyword_apart = refl;
  unkeyword_apart = refl;
  uid_apart = refl;
  not_apart = refl;
  or_apart = refl;
  paren_apart = refl;
  set_apart = λ c s h. ground (arith, h);
}

plain_other : (k : PlainKey) → differs (codes "charset") (codes (plain_name k)) ≡ true
plain_other all = refl
plain_other answered = refl
plain_other deleted = refl
plain_other draft = refl
plain_other flagged = refl
plain_other new = refl
plain_other old = refl
plain_other recent = refl
plain_other seen = refl
plain_other unanswered = refl
plain_other undeleted = refl
plain_other unflagged = refl
plain_other unseen = refl

about_other : (k : TextKey) → differs (codes "charset") (codes (text_name k)) ≡ true
about_other bcc = refl
about_other body_key = refl
about_other cc = refl
about_other from = refl
about_other subject = refl
about_other text_key = refl
about_other to = refl

dated_other : (k : DayKey) → differs (codes "charset") (codes (day_name k)) ≡ true
dated_other before_key = refl
dated_other on_key = refl
dated_other since_key = refl
dated_other sentbefore_key = refl
dated_other senton_key = refl
dated_other sentsince_key = refl

-- No key begins with `charset`.
pub charset-IsApart : IsApart "charset"
unfolding lower
charset-IsApart = record {
  low = refl;
  plain_apart = plain_other;
  about_apart = about_other;
  dated_apart = dated_other;
  header_apart = refl;
  larger_apart = refl;
  smaller_apart = refl;
  keyword_apart = refl;
  unkeyword_apart = refl;
  uid_apart = refl;
  not_apart = refl;
  or_apart = refl;
  paren_apart = refl;
  set_apart = λ c s h. ground (arith, h);
}
