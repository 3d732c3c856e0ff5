-- ===== src/Parse/Grammar/Reads.antt =====
-- asimap/parse.py: what is written by the grammar of search keys, read by `_p_search_key`.
use asimap.Prelude.{ℕ, suc, ◌≡◌, ◌<◌, refl, ap, Bool, List, [], ◌∷◌, if◌then◌else◌}
use asimap.Prelude.Lists.{length}
use asimap.Search.{Search, cons}
use asimap.Parse.{Bytes, Parser, parsed, expect, skip, ◌>>=◌, ◌>>◌, pure, paren_items_of}
use asimap.Parse.Keys.{p_key, searches_of}
use asimap.Parse.Grammar.{
  Query, Queries, done, also, query_text, queries_text, meaning, meanings, IsQuery,
}
use asimap.Parse.Grammar.Tokens.{IsEnd}

queries-IsEnd : (qs : Queries) (rest : Bytes) → IsEnd (queries_text qs rest)
unfolding queries_text
queries-IsEnd done rest = refl
queries-IsEnd (also q qs) rest = refl

abbrev pub list_of : Queries → List Search
list_of done = []
list_of (also q qs) = meaning q ∷ list_of qs

pub searches_of-list_of : (qs : Queries) → searches_of (list_of qs) ≡ meanings qs
unfolding meanings
searches_of-list_of done = refl
searches_of-list_of (also q qs) = ap (cons (meaning q)) (searches_of-list_of qs)

IsRead : ℕ → Parser Search → Type 0
unfolding IsQuery
IsRead fuel p =
    (q : Query) (rest : Bytes)
    → IsQuery q
    → IsEnd rest
    → length (query_text q rest) < fuel
    → p (query_text q rest) ≡ parsed (meaning q) rest

-- The loop over the keys in parentheses, with more turns than it has characters
after_item : ℕ → Parser Search → Search → Parser (List Search)
after_item items p a = skip ")" >>= λ closed.
    if closed
    then pure (a ∷ [])
    else (expect " " >> paren_items_of items p >>= λ result. pure (a ∷ result))

paren_rest : ℕ → Bool → Parser (List Search)
paren_rest fuel empty =
    if empty then pure [] else λ input. paren_items_of (suc (length input)) (p_key fuel) input
