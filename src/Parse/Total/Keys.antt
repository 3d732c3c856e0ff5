-- ===== src/Parse/Total/Keys.antt =====
-- asimap/parse.py: what the parsers of the search keys leave of their input.
use asimap.Prelude.{ℕ, zero, suc, refl, Option, none, some, if◌then◌else◌, arith}
use asimap.Prelude.Lists.{length}
use asimap.Search.{Search}
use asimap.Parse.{
  Bytes, Parser, ◌>>=◌, ◌>>◌, pure, unknown_search_key, expect, peek, p_re?, is_alpha,
  p_paren_list_of, lower_all,
}
use asimap.Parse.Keys.{
  SearchWord, srchkey_all, srchkey_answered, srchkey_bcc, srchkey_before, srchkey_body, srchkey_cc,
  srchkey_deleted, srchkey_draft, srchkey_flagged, srchkey_from, srchkey_header, srchkey_keyword,
  srchkey_larger, srchkey_new, srchkey_not, srchkey_old, srchkey_on, srchkey_or, srchkey_recent,
  srchkey_seen, srchkey_sentbefore, srchkey_senton, srchkey_sentsince, srchkey_since,
  srchkey_smaller, srchkey_subject, srchkey_text, srchkey_to, srchkey_uid, srchkey_unanswered,
  srchkey_undeleted, srchkey_unflagged, srchkey_unkeyword, srchkey_unseen, p_lowered, p_day_of,
  p_size, p_keyword, p_srchkey, p_search_token, p_key, p_search_key, find_word, search_words,
  and_of,
}
use asimap.Parse.Safety.{Safe, >>=-Safe, pure-Safe, raise-Safe, if-Safe, option-Safe}
use asimap.Parse.Safety.Tokens.{expect-then-Safe, peek-Safe, p_re?-Safe, p_paren_list_of-Safe}
use asimap.Parse.Total.{safe_rules, p_astring-Safe, p_msg_set-Safe, p_date-Safe}

p_lowered-Safe : (n : ℕ) → Safe n p_lowered
unfolding p_lowered
p_lowered-Safe n = search (safe_rules, p_astring-Safe)

p_day_of-Safe : (n : ℕ) → Safe n p_day_of
unfolding p_day_of
p_day_of-Safe n = search (safe_rules, p_date-Safe)

p_size-Safe : (n : ℕ) → Safe n p_size
unfolding p_size
p_size-Safe n = search safe_rules

p_keyword-Safe : (n : ℕ) → Safe n p_keyword
unfolding p_keyword
p_keyword-Safe n = search safe_rules

ruleset srchkey_rules =
    (safe_rules, p_lowered-Safe, p_day_of-Safe, p_size-Safe, p_keyword-Safe, p_msg_set-Safe)

-- A key within a key is read from less input.
module _ (n : ℕ) (key : Parser Search) (safe : Safe n key) where
  nested-Safe : Safe (suc n) (expect " " >> key)
  nested-Safe = expect-then-Safe " " (omega arith) safe

  p_srchkey-Safe : (word : SearchWord) → Safe (suc n) (p_srchkey key word)
  unfolding p_srchkey
  p_srchkey-Safe srchkey_all = search (srchkey_rules, nested-Safe)
  p_srchkey-Safe srchkey_answered = search (srchkey_rules, nested-Safe)
  p_srchkey-Safe srchkey_bcc = search (srchkey_rules, nested-Safe)
  p_srchkey-Safe srchkey_before = search (srchkey_rules, nested-Safe)
  p_srchkey-Safe srchkey_body = search (srchkey_rules, nested-Safe)
  p_srchkey-Safe srchkey_cc = search (srchkey_rules, nested-Safe)
  p_srchkey-Safe srchkey_deleted = search (srchkey_rules, nested-Safe)
  p_srchkey-Safe srchkey_draft = search (srchkey_rules, nested-Safe)
  p_srchkey-Safe srchkey_flagged = search (srchkey_rules, nested-Safe)
  p_srchkey-Safe srchkey_from = search (srchkey_rules, nested-Safe)
  p_srchkey-Safe srchkey_header = search (srchkey_rules, nested-Safe)
  p_srchkey-Safe srchkey_keyword = search (srchkey_rules, nested-Safe)
  p_srchkey-Safe srchkey_larger = search (srchkey_rules, nested-Safe)
  p_srchkey-Safe srchkey_new = search (srchkey_rules, nested-Safe)
  p_srchkey-Safe srchkey_not = search (srchkey_rules, nested-Safe)
  p_srchkey-Safe srchkey_old = search (srchkey_rules, nested-Safe)
  p_srchkey-Safe srchkey_on = search (srchkey_rules, nested-Safe)
  p_srchkey-Safe srchkey_or = search (srchkey_rules, nested-Safe)
  p_srchkey-Safe srchkey_recent = search (srchkey_rules, nested-Safe)
  p_srchkey-Safe srchkey_seen = search (srchkey_rules, nested-Safe)
  p_srchkey-Safe srchkey_sentbefore = search (srchkey_rules, nested-Safe)
  p_srchkey-Safe srchkey_senton = search (srchkey_rules, nested-Safe)
  p_srchkey-Safe srchkey_sentsince = search (srchkey_rules, nested-Safe)
  p_srchkey-Safe srchkey_since = search (srchkey_rules, nested-Safe)
  p_srchkey-Safe srchkey_smaller = search (srchkey_rules, nested-Safe)
  p_srchkey-Safe srchkey_subject = search (srchkey_rules, nested-Safe)
  p_srchkey-Safe srchkey_text = search (srchkey_rules, nested-Safe)
  p_srchkey-Safe srchkey_to = search (srchkey_rules, nested-Safe)
  p_srchkey-Safe srchkey_uid = search (srchkey_rules, nested-Safe)
  p_srchkey-Safe srchkey_unanswered = search (srchkey_rules, nested-Safe)
  p_srchkey-Safe srchkey_undeleted = search (srchkey_rules, nested-Safe)
  p_srchkey-Safe srchkey_unflagged = search (srchkey_rules, nested-Safe)
  p_srchkey-Safe srchkey_unkeyword = search (srchkey_rules, nested-Safe)
  p_srchkey-Safe srchkey_unseen = search (srchkey_rules, nested-Safe)

  p_search_token-Safe : (search_tok : Option Bytes) → Safe (suc n) (p_search_token key search_tok)
  unfolding p_search_token
  p_search_token-Safe none = search srchkey_rules
  p_search_token-Safe (some search_tok) =
      option-Safe (find_word (lower_all search_tok) search_words)
        (raise-Safe unknown_search_key refl) p_srchkey-Safe

p_key-Safe : (fuel : ℕ) → Safe fuel (p_key fuel)
unfolding p_key
p_key-Safe zero = record { at = λ input lt. absurd (omega arith) }
p_key-Safe (suc n) =
    let h : Safe (suc n) (
        peek "(" >>= λ paren.
        if paren
        then (p_paren_list_of (p_key n) >>= λ keys. pure (and_of keys))
        else (p_re? is_alpha >>= λ search_tok. p_search_token (p_key n) search_tok)) =
      >>=-Safe (peek-Safe (suc n) "(") λ paren.
        if-Safe paren
          (>>=-Safe (p_paren_list_of-Safe (p_key n) n (p_key-Safe n))
            (λ keys. pure-Safe (and_of keys)))
          (>>=-Safe (p_re?-Safe (suc n) is_alpha)
            (p_search_token-Safe n (p_key n) (p_key-Safe n))) in
    record { at = λ input lt. h.at input lt }

pub p_search_key-Safe : (n : ℕ) → Safe n p_search_key
unfolding p_search_key
p_search_key-Safe n = record {
  at = λ input lt. (p_key-Safe (suc (length input))).at input (omega arith);
}
