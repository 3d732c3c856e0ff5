-- ===== src/Parse/Keys.antt =====
-- asimap/parse.py: `_p_search_key` and the `_p_srchkey_` methods.
use asimap.Prelude.{
  ℕ, zero, suc, String, Bool, true, false, ◌&&◌, Option, none, some, List, [], ◌∷◌, ◌==◌,
  if◌then◌else◌,
}
use asimap.Prelude.Lists.{length}
use asimap.Search.{
  Search, all_messages, and_keys, or_keys, not_key, before, on, since, sentbefore, senton,
  sentsince, keyword, larger, smaller, message_set, uid, header, body, text, Searches, nil, cons,
}
use asimap.Parse.{
  Bytes, Parser, raised, next, ◌>>=◌, ◌>>◌, pure, raise, unknown_search_key, out_of_fuel, lower_all,
  expect, peek, p_re, p_re?, p_number, is_atom, is_alpha, codes, p_paren_list_of,
}
use asimap.Parse.Strings.{p_astring, text_of}
use asimap.Parse.Sets.{p_msg_set, p_date}

-- The names behind `_p_srchkey_`
pub data SearchWord : Type 0 where
  srchkey_all srchkey_answered srchkey_bcc srchkey_before srchkey_body srchkey_cc srchkey_deleted
        srchkey_draft srchkey_flagged srchkey_from :
      SearchWord
  srchkey_header srchkey_keyword srchkey_larger srchkey_new srchkey_not srchkey_old srchkey_on
        srchkey_or srchkey_recent srchkey_seen :
      SearchWord
  srchkey_sentbefore srchkey_senton srchkey_sentsince srchkey_since srchkey_smaller srchkey_subject
        srchkey_text srchkey_to :
      SearchWord
  srchkey_uid srchkey_unanswered srchkey_undeleted srchkey_unflagged srchkey_unkeyword
        srchkey_unseen :
      SearchWord

abbrev pub search_words : List (String × SearchWord)
search_words =
    ("all", srchkey_all)
    ∷ ("answered", srchkey_answered)
    ∷ ("bcc", srchkey_bcc)
    ∷ ("before", srchkey_before)
    ∷ ("body", srchkey_body)
    ∷ ("cc", srchkey_cc)
    ∷ ("deleted", srchkey_deleted)
    ∷ ("draft", srchkey_draft)
    ∷ ("flagged", srchkey_flagged)
    ∷ ("from", srchkey_from)
    ∷ ("header", srchkey_header)
    ∷ ("keyword", srchkey_keyword)
    ∷ ("larger", srchkey_larger)
    ∷ ("new", srchkey_new)
    ∷ ("not", srchkey_not)
    ∷ ("old", srchkey_old)
    ∷ ("on", srchkey_on)
    ∷ ("or", srchkey_or)
    ∷ ("recent", srchkey_recent)
    ∷ ("seen", srchkey_seen)
    ∷ ("sentbefore", srchkey_sentbefore)
    ∷ ("senton", srchkey_senton)
    ∷ ("sentsince", srchkey_sentsince)
    ∷ ("since", srchkey_since)
    ∷ ("smaller", srchkey_smaller)
    ∷ ("subject", srchkey_subject)
    ∷ ("text", srchkey_text)
    ∷ ("to", srchkey_to)
    ∷ ("uid", srchkey_uid)
    ∷ ("unanswered", srchkey_unanswered)
    ∷ ("undeleted", srchkey_undeleted)
    ∷ ("unflagged", srchkey_unflagged)
    ∷ ("unkeyword", srchkey_unkeyword)
    ∷ ("unseen", srchkey_unseen)
    ∷ []

abbrev pub same_bytes : Bytes → Bytes → Bool
same_bytes [] [] = true
same_bytes [] (d ∷ t) = false
same_bytes (c ∷ s) [] = false
same_bytes (c ∷ s) (d ∷ t) = c == d && same_bytes s t

-- `hasattr(self, f"_p_srchkey_{search_tok}")`, and the method
unfoldable pub find_word {ℓ} : {A : Type ℓ} → Bytes → List (String × A) → Option A
find_word tok [] = none
find_word tok ((name, word) ∷ words) =
    if same_bytes tok (codes name) then some word else find_word tok words

abbrev pub searches_of : List Search → Searches
searches_of [] = nil
searches_of (key ∷ keys) = cons key (searches_of keys)

-- A list of one key is that key.
abbrev pub and_of : List Search → Search
and_of [] = and_keys nil
and_of (key ∷ []) = key
and_of (key ∷ more ∷ keys) = and_keys (searches_of (key ∷ more ∷ keys))

abbrev pub recent_key : Search
recent_key = keyword "\\Recent"

abbrev pub unseen_key : Search
unseen_key = not_key (keyword "\\Seen")

-- The arguments of the keys, behind a space
unfoldable pub p_lowered : Parser String
unfolding expect p_astring
p_lowered = expect " " >> p_astring >>= λ string. pure (text_of (lower_all string))

unfoldable pub p_day_of : Parser ℕ
unfolding expect p_date
p_day_of = expect " " >> p_date

unfoldable pub p_size : Parser ℕ
unfolding expect p_number
p_size = expect " " >> p_number

unfoldable pub p_keyword : Parser Search
unfolding expect p_re
p_keyword = expect " " >> p_re is_atom >>= λ flag. pure (keyword (text_of flag))

-- The methods; the argument is `_p_search_key`.
unfoldable pub p_srchkey : Parser Search → SearchWord → Parser Search
unfolding p_lowered p_day_of p_size p_keyword expect p_msg_set
p_srchkey key srchkey_all = pure all_messages
p_srchkey key srchkey_answered = pure (keyword "\\Answered")
p_srchkey key srchkey_bcc = p_lowered >>= λ s. pure (header "bcc" s)
p_srchkey key srchkey_before = p_day_of >>= λ d. pure (before d)
p_srchkey key srchkey_body = p_lowered >>= λ s. pure (body s)
p_srchkey key srchkey_cc = p_lowered >>= λ s. pure (header "cc" s)
p_srchkey key srchkey_deleted = pure (keyword "\\Deleted")
p_srchkey key srchkey_draft = pure (keyword "\\Draft")
p_srchkey key srchkey_flagged = pure (keyword "\\Flagged")
p_srchkey key srchkey_from = p_lowered >>= λ s. pure (header "from" s)
p_srchkey key srchkey_header = p_lowered >>= λ name. p_lowered >>= λ s. pure (header name s)
p_srchkey key srchkey_keyword = p_keyword
p_srchkey key srchkey_larger = p_size >>= λ n. pure (larger n)
p_srchkey key srchkey_new = pure (and_keys (cons recent_key (cons unseen_key nil)))
p_srchkey key srchkey_not = expect " " >> key >>= λ k. pure (not_key k)
p_srchkey key srchkey_old = pure (not_key recent_key)
p_srchkey key srchkey_on = p_day_of >>= λ d. pure (on d)
p_srchkey key srchkey_or = expect " " >> key >>= λ search_key1.
    expect " " >> key >>= λ search_key2. pure (or_keys (cons search_key1 (cons search_key2 nil)))
p_srchkey key srchkey_recent = pure recent_key
p_srchkey key srchkey_seen = pure (keyword "\\Seen")
p_srchkey key srchkey_sentbefore = p_day_of >>= λ d. pure (sentbefore d)
p_srchkey key srchkey_senton = p_day_of >>= λ d. pure (senton d)
p_srchkey key srchkey_sentsince = p_day_of >>= λ d. pure (sentsince d)
p_srchkey key srchkey_since = p_day_of >>= λ d. pure (since d)
p_srchkey key srchkey_smaller = p_size >>= λ n. pure (smaller n)
p_srchkey key srchkey_subject = p_lowered >>= λ s. pure (header "subject" s)
p_srchkey key srchkey_text = p_lowered >>= λ s. pure (text s)
p_srchkey key srchkey_to = p_lowered >>= λ s. pure (header "to" s)
p_srchkey key srchkey_uid = expect " " >> p_msg_set >>= λ msg_set. pure (uid msg_set)
p_srchkey key srchkey_unanswered = pure (not_key (keyword "\\Answered"))
p_srchkey key srchkey_undeleted = pure (not_key (keyword "\\Deleted"))
p_srchkey key srchkey_unflagged = pure (not_key (keyword "\\Flagged"))
p_srchkey key srchkey_unkeyword = p_keyword >>= λ k. pure (not_key k)
p_srchkey key srchkey_unseen = pure unseen_key

-- What follows a search token, or a message set where there is none
unfoldable pub p_search_token : Parser Search → Option Bytes → Parser Search
unfolding p_srchkey p_msg_set find_word
p_search_token key none = p_msg_set >>= λ msg_set. pure (message_set msg_set)
p_search_token key (some search_tok) = elim (find_word (lower_all search_tok) search_words) [
  | none ↦ raise unknown_search_key
  | some word ↦ p_srchkey key word
]

-- A key consumes input before it reads another one, so the length of the input is enough fuel.
unfoldable pub p_key : ℕ → Parser Search
unfolding peek p_paren_list_of p_search_token p_re?
p_key zero input = raised out_of_fuel
p_key (suc fuel) input = next (peek "(" input) λ paren.
    if paren
    then (p_paren_list_of (p_key fuel) >>= λ keys. pure (and_of keys))
    else (p_re? is_alpha >>= λ search_tok. p_search_token (p_key fuel) search_tok)

unfoldable pub p_search_key : Parser Search
unfolding p_key
p_search_key input = p_key (suc (length input)) input
