-- ===== src/Client/Selected.antt =====
-- `Authenticated` of asimap/client.py: the commands on the selected mailbox.
use asimap.Prelude.{
  ℕ, ◌+◌, String, Bool, true, false, not, Option, none, some, List, [], ◌∷◌, map, ltb,
  if◌then◌else◌,
}
use asimap.Prelude.Sorting.{sorted}
use asimap.Result.{Result, ok, err, bad, rejected, inconsistent, attribute_error}
use asimap.Mbox.State.{Notice}
use asimap.Client.{
  Session, is_selected, Untagged, notice, search_results, fetch_response, ok_code, copy_uid, Call,
  get_mailbox, wait_for, resync, expunge, search, fetch, store, copy, Answer, Reply, done,
  with_code, kept, held, pending_expunges,
}
use asimap.Client.Action.{
  Action, pure, raise, now, ◌>>=◌, ◌>>◌, on_some, set_fetches, push, send_pending_notifications,
  log, tried, call, unceremonious_bye, as_idling,
}

-- The guards that these commands begin with.
unfoldable pub with_mailbox : (String → Action Reply) → Action Reply
with_mailbox rest = now λ s.
    if not (is_selected s.state)
    then raise rejected
    else on_some s.mbox (unceremonious_bye >> pure done) rest

abbrev pub or_empty : Option (List ℕ) → List ℕ
or_empty none = []
or_empty (some msg_set) = sorted msg_set

unfoldable pub do_check : Answer Unit → Action Reply
do_check ready = with_mailbox λ mbox.
    send_pending_notifications
    >> log (resync mbox)
    >> call (wait_for mbox) (kept ready)
    >> send_pending_notifications
    >> pure done

-- `msg_set_as_set` if this is a UID command and it is not empty
abbrev pub uid_msg_set : Bool → Option (List ℕ) → Option (List ℕ)
uid_msg_set true (some (n ∷ msg_set)) = some (n ∷ msg_set)
uid_msg_set _ _ = none

unfoldable pub do_expunge : Bool → Option (List ℕ) → Bool → Answer Unit → Answer Unit → Action Reply
do_expunge uid_command msg_set_as_set has_deleted ready expunged = with_mailbox λ mbox.
    send_pending_notifications
    >> now λ s.
      if s.examine
      then pure done
      else as_idling (
          call (wait_for mbox) (kept ready)
          >> (if has_deleted
              then (call (expunge mbox (uid_msg_set uid_command msg_set_as_set) true)
                    (held expunged)
                  >> pure done)
              else pure done))

-- A `MailboxInconsistency` ends the search with no response to it.
abbrev pub found_messages : Result (List ℕ) → Action Reply
found_messages (ok results) = push (search_results results ∷ []) >> pure done
found_messages (err inconsistent) = pure done
found_messages (err e) = raise e

unfoldable pub do_search : Bool → Answer Unit → Answer (List ℕ) → Action Reply
do_search uid_command ready searched = with_mailbox λ mbox. now λ s.
    let rest =
      call (wait_for mbox) (kept ready) >> tried (search mbox) (held searched) found_messages in
    if pending_expunges s
    then if uid_command then (send_pending_notifications >> rest) else raise rejected
    else rest

abbrev pub max_fetches : ℕ
max_fetches = 3

abbrev pub fetch_lines : List (ℕ × List String) → List Untagged
fetch_lines [] = []
fetch_lines ((idx, results) ∷ fetched) = fetch_response idx results ∷ fetch_lines fetched

abbrev pub after_fetch : String → Result (Unit {0}) → Action Reply
after_fetch mbox (ok t) = send_pending_notifications >> pure done
after_fetch mbox (err inconsistent) = log (resync mbox) >> raise bad
after_fetch mbox (err e) = raise e

-- The messages are sent as `fetch` yields them; then it ends, or raises.
unfoldable pub run_fetch :
    String → Option (List ℕ) → List (ℕ × List String) → Answer Unit → Answer Unit → Action Reply
run_fetch mbox msg_set_as_set fetched ready ended =
    set_fetches 0
    >> call (wait_for mbox) (kept ready)
    >> push (fetch_lines fetched)
    >> tried (fetch mbox (or_empty msg_set_as_set)) (held ended) (after_fetch mbox)

-- FETCH while an EXPUNGE waits: refused, and too often it ends the session.
unfoldable pub fetch_too_early : Action Reply
fetch_too_early = now λ s.
    set_fetches (s.fetch_while_pending_count + 1)
    >> (if ltb max_fetches (s.fetch_while_pending_count + 1)
        then (unceremonious_bye >> pure done)
        else raise rejected)

unfoldable pub do_fetch :
    Bool → Option (List ℕ) → List (ℕ × List String) → Answer Unit → Answer Unit → Action Reply
do_fetch uid_command msg_set_as_set fetched ready ended = with_mailbox λ mbox. now λ s.
    let rest = run_fetch mbox msg_set_as_set fetched ready ended in
    if pending_expunges s
    then if uid_command then (send_pending_notifications >> rest) else fetch_too_early
    else (send_pending_notifications >> rest)

abbrev pub stored_messages : Bool → Result (List Notice) → Action Reply
stored_messages true (ok notices) = pure done
stored_messages false (ok notices) = push (map notice notices) >> pure done
stored_messages is_silent (err inconsistent) = raise bad
stored_messages is_silent (err e) = raise e

unfoldable pub do_store :
    Bool → Bool → Option (List ℕ) → Answer Unit → Answer (List Notice) → Action Reply
do_store uid_command is_silent msg_set_as_set ready stored = with_mailbox λ mbox. now λ s.
    let storing =
      call (wait_for mbox) (kept ready)
      >> tried (store mbox (or_empty msg_set_as_set)) (held stored) (stored_messages is_silent) in
    if pending_expunges s
    then if uid_command then (send_pending_notifications >> storing) else raise rejected
    else (send_pending_notifications >> storing)

-- What `Mailbox.copy` returns, where a message that is gone has no UID.
pub record Copied : Type 0 where
  pub uid_vv : ℕ  -- of the destination
  pub src_uids : List (Option ℕ)
  pub dst_uids : List (Option ℕ)

-- `[u for u in uids if u is not None]`
abbrev pub present : List (Option ℕ) → List ℕ
present [] = []
present (none ∷ uids) = present uids
present (some u ∷ uids) = u ∷ present uids

abbrev pub copyuid : Copied → asimap.Client.Code
copyuid c = copy_uid c.uid_vv (present c.src_uids) (present c.dst_uids)

-- The mailbox is let go of during a copy.
unfoldable pub run_copy :
    String → String → Answer Unit → Answer Unit → Answer Copied → Action Copied
run_copy mbox name ready found copied =
    send_pending_notifications
    >> call (wait_for mbox) (kept ready)
    >> call (get_mailbox name) found
    >> call (copy mbox) copied

unfoldable pub do_copy : String → Answer Unit → Answer Unit → Answer Copied → Action Reply
do_copy name ready found copied =
    with_mailbox λ mbox. run_copy mbox name ready found copied >>= λ c. pure (with_code (copyuid c))

-- The second half of MOVE: an EXPUNGE of its own.
unfoldable pub expunge_moved : List ℕ → Answer Unit → Answer Unit → Action Reply
expunge_moved src_uids ready expunged = now λ s. on_some s.mbox (raise attribute_error) λ mbox.
    call (wait_for mbox) (kept ready)
    >> call (expunge mbox (some src_uids) false) (held expunged)
    >> pure done

unfoldable pub do_move :
    String → Answer Unit → Answer Unit → Answer Copied → Answer Unit → Answer Unit → Action Reply
do_move name ready found copied ready_again expunged = with_mailbox λ mbox. now λ s.
    if s.examine
    then raise rejected
    else run_copy mbox name ready found copied >>= λ c.
        push (ok_code (copyuid c) ∷ [])
        >> as_idling (expunge_moved (present c.src_uids) ready_again expunged)
