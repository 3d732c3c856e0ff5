-- ===== src/Client/Waiting.antt =====
-- What FETCH sends of the notices that come while it waits and runs.
use asimap.Prelude.{ℕ, String, ◌≡◌, Bool, true, false, Option, some, List, [], ◌∷◌, ◌++◌, map}
use mathlib.Core.List.{append-nil}
use asimap.Result.{ok}
use asimap.Mbox.State.{Notice}
use asimap.Client.{
  Session, selected, notice, untagged, tagged, completed, Answer, pending_expunges, counts, put_off,
}
use asimap.Client.Action.{
  pure, now, ◌>>=◌, set_fetches, push, push_tagged, send_pending_notifications, tried, call,
}
use asimap.Client.Selected.{with_mailbox, fetch_lines, run_fetch, do_fetch}
use asimap.Client.Dispatch.{fetch, handle, command}

-- A session with a mailbox selected, for which nothing waits.
abbrev pub at_ease : String → Session → Session
at_ease mbox s = record s {
  state = selected;
  mbox = some mbox;
  pending = [];
  idling = false;
  listening = true;
}

-- A call that succeeds, during which notices come.
abbrev pub during : List Notice → Answer Unit
during notices = record { arrived = notices; own_deleted = false; result = ok tt }

-- A FETCH, by message numbers or by UIDs, that succeeds sends the notices that have come while it
-- waited for its turn and while it ran, EXPUNGE responses too, before its tagged OK; only EXISTS and
-- RECENT are sent as they come.
pub fetch_sends_arrived :
    (tag mbox : String) (uid_command : Bool) (msg_set : Option (List ℕ))
    (fetched : List (ℕ × List String)) (before after : List Notice) (s : Session)
    → (command tag
        (fetch uid_command msg_set fetched (during before) (during after))
        (at_ease mbox s)).0.pushed
      ≡ s.pushed
        ++ map untagged (map notice (counts before))
        ++ map untagged (fetch_lines fetched)
        ++ map untagged (map notice (counts after))
        ++ map untagged (map notice (put_off before ++ put_off after))
        ++ tagged tag completed ∷ []
unfolding command handle do_fetch with_mailbox run_fetch now ◌>>=◌ pure set_fetches push push_tagged
    send_pending_notifications tried call pending_expunges
fetch_sends_arrived tag mbox uid_command msg_set fetched before after s = rw append-nil
