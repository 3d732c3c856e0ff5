-- ===== src/Parse/Grammar/Words.antt =====
-- asimap/parse.py: what is written by the grammar, the word of a key read.
use mathlib.Core.Path.{subst}
use asimap.Prelude.{
  ℕ, suc, ◌≡◌, refl, sym, ap, ◌∙◌, String, Bool, true, false, ◌&&◌, Option, none, some, [], ◌∷◌,
  ◌++◌, leb, ◌==◌, if◌then◌else◌, Bool-cases, inl, inr, arith,
}
use asimap.Prelude.Lists.{All}
use asimap.Search.{Search}
use asimap.Parse.{
  Bytes, Parser, Parsed, parsed, next, codes, lower, lower_all, match_string, peek, p_re?, span_of,
  is_alpha, ◌>>=◌, pure, p_paren_list_of,
}
use asimap.Parse.Sets.{is_set_char}
use asimap.Parse.Keys.{
  find_word, search_words, SearchWord, p_srchkey, p_search_token, p_key, and_of,
}
use asimap.Parse.Grammar.{IsSome, Spells}
use asimap.Parse.Grammar.Tokens.{Stops, IsEnd, p_re?-append}

-- A key is followed by none of the characters of its last token.
pub IsEnd-Stops :
    (p : ℕ → Bool) (rest : Bytes)
    → p 32 ≡ false
    → p 41 ≡ false
    → p 13 ≡ false
    → IsEnd rest
    → Stops p rest
IsEnd-Stops p [] a b c h = tt
IsEnd-Stops p (d ∷ rest) a b c h = elim (Bool-cases (d == 32)) [
  | inl e ↦ let same : d ≡ 32 = ground (arith, e) in rw same a
  | inr e ↦ elim (Bool-cases (d == 41)) [
    | inl k ↦ let same : d ≡ 41 = ground (arith, k) in rw same b
    | inr k ↦ let same : d ≡ 13 = ground (arith, e, k, h) in rw same c
  ]
]

-- Small letters, at least one
abbrev pub all_small : Bytes → Bool
all_small [] = true
all_small (c ∷ s) = (leb 97 c && leb c 122) && all_small s

abbrev pub is_word : Bytes → Bool
is_word [] = false
is_word (c ∷ s) = all_small (c ∷ s)

pub all_small-All : (s : Bytes) → all_small (lower_all s) ≡ true → All (λ c. is_alpha c ≡ true) s
unfolding lower
all_small-All [] h = tt
all_small-All (c ∷ s) h = (ground (arith, h), all_small-All s (ground (arith, h)))

after_paren : ℕ → Bool → Parser Search
unfolding p_search_token p_key
after_paren fuel paren =
    if paren
    then (p_paren_list_of (p_key fuel) >>= λ keys. pure (and_of keys))
    else (p_re? is_alpha >>= λ search_tok. p_search_token (p_key fuel) search_tok)

peek-other : (c : ℕ) (s : Bytes) → (c == 40) ≡ false → peek "(" (c ∷ s) ≡ parsed false (c ∷ s)
unfolding peek match_string lower
peek-other c s h = ground (arith, h)

-- Where there is no parenthesis, a key is a word and what follows it, or a message set.
without_paren : ℕ → Parser Search
without_paren fuel = p_re? is_alpha >>= λ search_tok. p_search_token (p_key fuel) search_tok

p_key-other :
    (fuel : ℕ) (c : ℕ) (s : Bytes)
    → (c == 40) ≡ false
    → p_key (suc fuel) (c ∷ s) ≡ without_paren fuel (c ∷ s)
unfolding p_key without_paren after_paren
p_key-other fuel c s h = ap (λ (r : Parsed Bool). next r (after_paren fuel)) (peek-other c s h)

p_search_token-word :
    (key : Parser Search) (name s : Bytes) (word : SearchWord) (tail : Bytes)
    → lower_all s ≡ name
    → find_word name search_words ≡ some word
    → p_search_token key (some s) tail ≡ p_srchkey key word tail
unfolding p_search_token
p_search_token-word key name s word tail h found = rw (p_search_token, h, found) refl

pub p_key-word :
    (fuel : ℕ) (name : String) (word : SearchWord) (s tail : Bytes)
    → is_word (codes name) ≡ true
    → find_word (codes name) search_words ≡ some word
    → Spells name s
    → Stops is_alpha tail
    → p_key (suc fuel) (s ++ tail) ≡ p_srchkey (p_key fuel) word tail
unfolding without_paren
p_key-word fuel name word [] tail small found h e =
    absurd (ground (arith, subst (λ w. is_word w ≡ true) (sym h) small))
p_key-word fuel name word (c ∷ s) tail small found h e =
    let letters = all_small-All (c ∷ s) (subst (λ w. is_word w ≡ true) (sym h) small) in
    p_key-other fuel c (s ++ tail) (ground (arith, letters.0))
    ∙ ap (λ (r : Parsed (Option Bytes)). next r (p_search_token (p_key fuel)))
        (p_re?-append is_alpha (c ∷ s) tail tt letters e)
    ∙ p_search_token-word (p_key fuel) (codes name) (c ∷ s) word tail h found

p_re?-none :
    (p : ℕ → Bool) (c : ℕ) (s : Bytes) → p c ≡ false → p_re? p (c ∷ s) ≡ parsed none (c ∷ s)
unfolding p_re? span_of
p_re?-none p c s h = rw h refl

pub p_key-set :
    (fuel : ℕ) (s rest : Bytes)
    → IsSome s
    → All (λ c. is_set_char c ≡ true) s
    → p_key (suc fuel) (s ++ rest) ≡ p_search_token (p_key fuel) none (s ++ rest)
unfolding without_paren
p_key-set fuel [] rest h k = absurd h
p_key-set fuel (c ∷ s) rest h k =
    p_key-other fuel c (s ++ rest) (ground (arith, k.0))
    ∙ ap (λ (r : Parsed (Option Bytes)). next r (p_search_token (p_key fuel)))
        (p_re?-none is_alpha c (s ++ rest) (ground (arith, k.0)))
