-- ===== src/Tests/Clients.antt =====
-- Sessions of a client, and the theorems about them.
use asimap.Prelude.{◌≡◌, refl, true, false, not, ◌&&◌, some, none, [], ◌∷◌, ◌++◌, map}
use asimap.Result.{ok}
use asimap.Throttle.{empty}
use asimap.Mbox.State.{expunged, fetched, exists}
use asimap.Client.{
  Session, Untagged, notice, untagged, tagged, completed, completed_with, read_write, no_response,
  Answer, wait_for, Call, not_authenticated, pending_expunges, is_within, starts_with,
}
use asimap.Client.Action.{
  pure, raise, now, ◌>>=◌, push, push_tagged, send_pending_notifications, call, set_idling,
  clear_pending,
}
use asimap.Client.Select.{do_select, enter, set_mailbox}
use asimap.Client.Selected.{or_empty, fetch_lines}
use asimap.Client.Dispatch.{Request, select, search, store, fetch, close, handle, command}
use asimap.Client.Speaks.{IsAnswered, command-IsAnswered}
use asimap.Client.Coherence.{IsCoherent}
use asimap.Client.Coherence.Commands.{
  Reach, first, next, receive, notify, logged_in, Reach-IsCoherent,
}
use asimap.Client.Quiet.{SendsNoExpunge, command-SendsNoExpunge}
use asimap.Client.Waiting.{at_ease, during, fetch_sends_arrived}
use asimap.Client.ReadOnly.{RemovesNothing, examine-RemovesNothing, examine_store}
use asimap.Client.Login.{
  Visitor, do_login, is_authenticated, is_good, is_locked_out, do_login-authenticates,
}

abbrev select_inbox : Request
select_inbox = select "inbox" false (during []) (during []) (ok (notice (exists 3) ∷ []))

abbrev phone : Session
phone = (command "a1" select_inbox (logged_in "phone")).0

select_answered :
    phone.pushed ≡ untagged (notice (exists 3)) ∷ tagged "a1" (completed_with read_write) ∷ []
unfolding command handle do_select enter clear_pending set_idling now ◌>>=◌ call push push_tagged
    set_mailbox pure asimap.Client.Action.log
select_answered = refl

command-IsAnswered_example :
    IsAnswered "a1" select_inbox (logged_in "phone") (command "a1" select_inbox (logged_in "phone"))
command-IsAnswered_example = command-IsAnswered "a1" select_inbox (logged_in "phone")

abbrev phone_later : Session
phone_later = asimap.Client.arrive (expunged 2 ∷ []) phone

phone_later-Reach : Reach "phone" phone_later
phone_later-Reach =
    next (next first (receive "a1" select_inbox (logged_in "phone") refl refl))
      (notify (expunged 2 ∷ []) phone)

Reach-IsCoherent_example : IsCoherent phone_later
Reach-IsCoherent_example = Reach-IsCoherent "phone" phone_later phone_later-Reach

abbrev watching : Session
watching = at_ease "inbox" (logged_in "phone")

-- A search for which an EXPUNGE comes while it waits
abbrev busy_search : Request
busy_search =
    search false (during (expunged 1 ∷ []))
      (record { arrived = []; own_deleted = false; result = ok [] })

command-SendsNoExpunge_example : SendsNoExpunge watching (command "a2" busy_search watching).0
command-SendsNoExpunge_example = command-SendsNoExpunge "a2" busy_search watching refl tt

fetch_sends_arrived_example :
    (command "a3"
      (fetch false
        (some (1 ∷ []))
        ((1, "FLAGS ()" ∷ []) ∷ [])
        (during (expunged 2 ∷ []))
        (during []))
      watching).0.pushed
    ≡ watching.pushed
      ++ map untagged (fetch_lines ((1, "FLAGS ()" ∷ []) ∷ []))
      ++ map untagged (map notice ((expunged 2 ∷ []) ++ []))
      ++ tagged "a3" completed ∷ []
fetch_sends_arrived_example =
    fetch_sends_arrived "a3" "inbox" false (some (1 ∷ [])) ((1, "FLAGS ()" ∷ []) ∷ [])
      (expunged 2 ∷ []) [] (logged_in "phone")

abbrev reader : Session
reader = record watching { examine = true }

examine-RemovesNothing_example :
    RemovesNothing reader (command "a4" (close true (during []) (during [])) reader).0
examine-RemovesNothing_example =
    examine-RemovesNothing "a4" (close true (during []) (during [])) reader refl tt

abbrev read_only_phone : Session
read_only_phone = record (logged_in "phone") {
  state = asimap.Client.selected;
  mbox = some "inbox";
  examine = true;
}

examine_store_example :
    (command "a5"
      (store false true
        (some (2 ∷ []))
        (during (expunged 1 ∷ []))
        (record { arrived = []; own_deleted = false; result = ok (fetched 2 [] none ∷ []) }))
      read_only_phone).0.calls
    ≡ (logged_in "phone").calls
      ++ wait_for "inbox" ∷ Call.store "inbox" (or_empty (some (2 ∷ []))) ∷ []
unfolding pending_expunges
examine_store_example =
    examine_store "a5" "inbox" false true (some (2 ∷ [])) (expunged 1 ∷ [])
      (record { arrived = []; own_deleted = false; result = ok (fetched 2 [] none ∷ []) })
      (logged_in "phone") refl

abbrev visitor : Visitor
visitor = record {
  session = record (logged_in "phone") { state = not_authenticated };
  rem_addr = "10.0.0.7";
  throttle = empty;
}

do_login-authenticates_example :
    is_authenticated (do_login "bob" 100 101 (ok true) visitor).0.session.state
    ≡ (not (is_locked_out "bob" 100 visitor) && is_good (ok true))
do_login-authenticates_example = do_login-authenticates "bob" 100 101 (ok true) visitor refl

-- A keyword that contains the word counts as an EXPUNGE.
keyword_expunge :
    pending_expunges (record watching { pending = fetched 1 ("NOEXPUNGE" ∷ []) none ∷ [] }) ≡ true
unfolding pending_expunges is_within starts_with
keyword_expunge = refl
