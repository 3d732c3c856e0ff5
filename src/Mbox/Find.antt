-- ===== src/Mbox/Find.antt =====
-- `Mailbox.search` of asimap/mbox.py: the SEARCH command on a mailbox.
pub mod Hits
use asimap.Prelude.{
  ℕ, zero, suc, ◌+◌, Bool, true, false, Option, none, some, List, [], ◌∷◌, ◌==◌, if◌then◌else◌,
}
use asimap.Prelude.Lists.{get_last?}
use asimap.Result.{Result, ok, err, index_error, assertion_error, ◌>>=◌}
use asimap.Search.{Search, SearchMessage, SearchContext, match_search}
use asimap.Mbox.Sequences.{msg_sequences}
use asimap.Mbox.State.{Mailbox, or_raise, get_uid_from_msg}

-- What is on the disk for a message key: the day that the file was modified, and the message; or the
-- exception that reading it raises.
pub record Disk : Type 0 where
  pub modified : ℕ → Result ℕ
  pub read : ℕ → Result SearchMessage

-- The context of the message at an index.
abbrev pub context_of : Disk → Mailbox → ℕ → ℕ → ℕ → SearchContext
context_of disk m uid_max idx key = record {
  msg_number = idx + 1;
  seq_max = m.num_msgs;
  uid_max = uid_max;
  sequences = msg_sequences key m.sequences;
  uid_of = get_uid_from_msg key m;
  internal_date = disk.modified key;
  msg = disk.read key;
}

-- `assert uid`
abbrev pub asserted : Option ℕ → Result ℕ
asserted none = err assertion_error
asserted (some zero) = err assertion_error
asserted (some (suc n)) = ok (suc n)

-- What is appended to the results for a message that matches.
abbrev pub answer : Bool → SearchContext → Result ℕ
answer true ctx = ctx.uid_of >>= λ uid. asserted uid
answer false ctx = ok ctx.msg_number

-- The loop over the messages.
unfoldable pub search_loop : Disk → Search → Bool → Mailbox → ℕ → ℕ → List ℕ → Result (List ℕ)
search_loop disk search uid_cmd m uid_max idx [] = ok []
search_loop disk search uid_cmd m uid_max idx (key ∷ keys) =
    let ctx = context_of disk m uid_max idx key in
    match_search search ctx >>= λ hit. elim hit [
      | false ↦ search_loop disk search uid_cmd m uid_max (idx + 1) keys
      | true ↦ answer uid_cmd ctx >>= λ r.
          search_loop disk search uid_cmd m uid_max (idx + 1) keys >>= λ results. ok (r ∷ results)
    ]

unfoldable pub search : Disk → Search → Bool → Mailbox → Result (List ℕ)
unfolding search_loop
search disk key uid_cmd m =
    if m.num_msgs == 0
    then ok []
    else (or_raise (get_last? m.uids) index_error >>= λ uid_max.
        search_loop disk key uid_cmd m uid_max 0 m.msg_keys)
