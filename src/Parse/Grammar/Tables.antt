-- ===== src/Parse/Grammar/Tables.antt =====
-- asimap/parse.py: the words of the search keys, and the methods that they name.
use asimap.Prelude.{◌≡◌, refl, true, some}
use asimap.Parse.{codes}
use asimap.Parse.Keys.{
  SearchWord, search_words, find_word, srchkey_all, srchkey_answered, srchkey_bcc, srchkey_before,
  srchkey_body, srchkey_cc, srchkey_deleted, srchkey_draft, srchkey_flagged, srchkey_from,
  srchkey_new, srchkey_old, srchkey_on, srchkey_recent, srchkey_seen, srchkey_sentbefore,
  srchkey_senton, srchkey_sentsince, srchkey_since, srchkey_subject, srchkey_text, srchkey_to,
  srchkey_unanswered, srchkey_undeleted, srchkey_unflagged, srchkey_unseen,
}
use asimap.Parse.Grammar.{
  PlainKey, all, answered, deleted, draft, flagged, new, old, recent, seen, unanswered, undeleted,
  unflagged, unseen, plain_name, TextKey, bcc, body_key, cc, from, subject, text_key, to, text_name,
  DayKey, before_key, on_key, since_key, sentbefore_key, senton_key, sentsince_key, day_name,
}
use asimap.Parse.Grammar.Words.{is_word}

unfoldable pub plain_word : PlainKey → SearchWord
plain_word all = srchkey_all
plain_word answered = srchkey_answered
plain_word deleted = srchkey_deleted
plain_word draft = srchkey_draft
plain_word flagged = srchkey_flagged
plain_word new = srchkey_new
plain_word old = srchkey_old
plain_word recent = srchkey_recent
plain_word seen = srchkey_seen
plain_word unanswered = srchkey_unanswered
plain_word undeleted = srchkey_undeleted
plain_word unflagged = srchkey_unflagged
plain_word unseen = srchkey_unseen

pub plain_found :
    (k : PlainKey) → find_word (codes (plain_name k)) search_words ≡ some (plain_word k)
unfolding plain_word find_word
plain_found all = refl
plain_found answered = refl
plain_found deleted = refl
plain_found draft = refl
plain_found flagged = refl
plain_found new = refl
plain_found old = refl
plain_found recent = refl
plain_found seen = refl
plain_found unanswered = refl
plain_found undeleted = refl
plain_found unflagged = refl
plain_found unseen = refl

pub plain_is_word : (k : PlainKey) → is_word (codes (plain_name k)) ≡ true
plain_is_word all = refl
plain_is_word answered = refl
plain_is_word deleted = refl
plain_is_word draft = refl
plain_is_word flagged = refl
plain_is_word new = refl
plain_is_word old = refl
plain_is_word recent = refl
plain_is_word seen = refl
plain_is_word unanswered = refl
plain_is_word undeleted = refl
plain_is_word unflagged = refl
plain_is_word unseen = refl

unfoldable pub about_word : TextKey → SearchWord
about_word bcc = srchkey_bcc
about_word body_key = srchkey_body
about_word cc = srchkey_cc
about_word from = srchkey_from
about_word subject = srchkey_subject
about_word text_key = srchkey_text
about_word to = srchkey_to

pub about_found : (k : TextKey) → find_word (codes (text_name k)) search_words ≡ some (about_word k)
unfolding about_word find_word
about_found bcc = refl
about_found body_key = refl
about_found cc = refl
about_found from = refl
about_found subject = refl
about_found text_key = refl
about_found to = refl

pub about_is_word : (k : TextKey) → is_word (codes (text_name k)) ≡ true
about_is_word bcc = refl
about_is_word body_key = refl
about_is_word cc = refl
about_is_word from = refl
about_is_word subject = refl
about_is_word text_key = refl
about_is_word to = refl

unfoldable pub dated_word : DayKey → SearchWord
dated_word before_key = srchkey_before
dated_word on_key = srchkey_on
dated_word since_key = srchkey_since
dated_word sentbefore_key = srchkey_sentbefore
dated_word senton_key = srchkey_senton
dated_word sentsince_key = srchkey_sentsince

pub dated_found : (k : DayKey) → find_word (codes (day_name k)) search_words ≡ some (dated_word k)
unfolding dated_word find_word
dated_found before_key = refl
dated_found on_key = refl
dated_found since_key = refl
dated_found sentbefore_key = refl
dated_found senton_key = refl
dated_found sentsince_key = refl

pub dated_is_word : (k : DayKey) → is_word (codes (day_name k)) ≡ true
dated_is_word before_key = refl
dated_is_word on_key = refl
dated_is_word since_key = refl
dated_is_word sentbefore_key = refl
dated_is_word senton_key = refl
dated_is_word sentsince_key = refl
