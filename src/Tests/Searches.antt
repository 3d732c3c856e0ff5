-- ===== src/Tests/Searches.antt =====
-- Searches of the mailbox of three messages, and the theorems about them.
use asimap.Prelude.{◌+◌, ◌≡◌, refl, true, false, some, [], ◌∷◌}
use asimap.Prelude.Dict.{index_of?, lookup}
use asimap.Constants.{flag_to_seq}
use asimap.Result.{ok, err, type_error}
use asimap.SeqSet.{pair, num, star}
use asimap.Search.{
  Search, and_keys, or_keys, not_key, keyword, message_set, nil, cons, SearchMessage, match_set,
  match_search,
}
use asimap.Mbox.Sequences.{msg_sequences}
use asimap.Mbox.State.{get_uid_from_msg}
use asimap.Mbox.Find.{Disk, search}
use asimap.Mbox.Find.Hits.{Content}
use asimap.Tests.Mailboxes.{three}

abbrev plain_message : SearchMessage
plain_message = record {
  has_header = λ name. false;
  header_contains = λ name string. false;
  sent = some (ok 20);
  size = 512;
  leaf_parts = 1;
  contains = λ headers string. true;
}

abbrev disk : Disk
disk = record { modified = λ key. ok (key + 10); read = λ key. ok plain_message }

abbrev content : Content
content = record { date = λ key. key + 10; sent = λ key. some 20; message = λ key. plain_message }

-- `OR (UNSEEN NOT 2:3) 3:*`
abbrev key : Search
key = or_keys (
    cons
      (and_keys
        (cons (keyword "unseen") (cons (not_key (message_set (pair (num 2) (num 3) ∷ []))) nil)))
      (cons (message_set (pair (num 3) star ∷ [])) nil))

search_third : search disk key true three ≡ ok (14 ∷ [])
unfolding search match_search get_uid_from_msg msg_sequences index_of? lookup flag_to_seq match_set
search_third = refl

-- A range cannot begin with `*`.
star_first : match_set 1 3 (pair star (num 1) ∷ []) ≡ err type_error
unfolding match_set
star_first = refl
