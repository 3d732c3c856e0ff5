-- ===== src/Client/Dispatch.antt =====
-- `BaseClientHandler.command` of asimap/client.py: a command that has been parsed is handled, and
-- answered by a tagged response.
use asimap.Prelude.{ℕ, String, Bool, Option, none, some, List}
use asimap.Result.{Error, Result, ok, err, bad, rejected, no_such_mailbox, timed_out, cancelled}
use asimap.Mbox.State.{Notice}
use asimap.Client.{
  Session, StatusAtt, Untagged, Tagged, completed, completed_with, no_response, bad_response,
  Answer, Reply, done, silent, with_code,
}
use asimap.Client.Action.{Action, raise, push_tagged}
use asimap.Client.Anytime.{do_noop, do_capability, do_namespace, do_id, do_idle, do_logout}
use asimap.Client.Select.{do_select, do_unselect, do_close}
use asimap.Client.Folders.{
  refuse_login, do_create, do_delete, do_rename, do_subscribe, do_status, do_append,
}
use asimap.Client.Selected.{
  do_check, do_expunge, do_search, do_fetch, do_store, Copied, do_copy, do_move,
}

-- A command of a client that is logged in, with what the calls that it makes come to. `select` is
-- EXAMINE too, `subscribe` UNSUBSCRIBE, and `login` AUTHENTICATE.
pub data Request : Type 0 where
  noop : (ready : Answer Unit) → Request
  capability : (all_capabilities : List String) → Request
  namespace idle logout unselect login unknown : Request
  identify : List (String × String) → Request
  select :
      (name : String)
      → (examine : Bool) → (found : Answer Unit) → (ready : Answer Unit)
      → (msgs : Result (List Untagged)) → Request
  close : (has_deleted : Bool) → (ready : Answer Unit) → (expunged : Answer Unit) → Request
  create : (created : Answer Unit) → Request
  delete rename :
      (name : String)
      → (found : Answer Unit) → (ready : Answer Unit) → (done : Answer Unit) → Request
  subscribe :
      (name : String)
      → (subscribed : Bool) → (found : Answer Unit) → (committed : Answer Unit) → Request
  status :
      (name : String)
      → (counts : List (StatusAtt × ℕ)) → (found : Answer Unit) → (ready : Answer Unit) → Request
  append :
      (name : String)
      → (uid_vv : ℕ) → (found : Answer Unit) → (ready : Answer Unit) → (appended : Answer ℕ)
      → Request
  check : (ready : Answer Unit) → Request
  expunge :
      (uid_command : Bool)
      → (msg_set_as_set : Option (List ℕ)) → (has_deleted : Bool) → (ready : Answer Unit)
      → (expunged : Answer Unit) → Request
  search : (uid_command : Bool) → (ready : Answer Unit) → (searched : Answer (List ℕ)) → Request
  fetch :
      (uid_command : Bool)
      → (msg_set_as_set : Option (List ℕ)) → (fetched : List (ℕ × List String))
      → (ready : Answer Unit) → (ended : Answer Unit) → Request
  store :
      (uid_command : Bool)
      → (is_silent : Bool) → (msg_set_as_set : Option (List ℕ)) → (ready : Answer Unit)
      → (stored : Answer (List Notice)) → Request
  copy :
      (name : String)
      → (ready : Answer Unit) → (found : Answer Unit) → (copied : Answer Copied) → Request
  move :
      (name : String)
      → (ready : Answer Unit) → (found : Answer Unit) → (copied : Answer Copied)
      → (ready_again : Answer Unit) → (expunged : Answer Unit) → Request

-- `getattr(self, f"do_{…}")`; what has no such method is refused before.
unfoldable pub handle : Request → Action Reply
handle (noop ready) = do_noop ready
handle (capability all_capabilities) = do_capability all_capabilities
handle namespace = do_namespace
handle idle = do_idle
handle logout = do_logout
handle unselect = do_unselect
handle login = refuse_login
handle unknown = raise bad
handle (identify id_dict) = do_id id_dict
handle (select name examine found ready msgs) = do_select name examine found ready msgs
handle (close has_deleted ready expunged) = do_close has_deleted ready expunged
handle (create created) = do_create created
handle (delete name found ready deleted) = do_delete name found ready deleted
handle (rename name found ready renamed) = do_rename name found ready renamed
handle (subscribe name subscribed found committed) = do_subscribe name subscribed found committed
handle (status name counts found ready) = do_status name counts found ready
handle (append name uid_vv found ready appended) = do_append name uid_vv found ready appended
handle (check ready) = do_check ready
handle (expunge uid_command msg_set_as_set has_deleted ready expunged) =
    do_expunge uid_command msg_set_as_set has_deleted ready expunged
handle (search uid_command ready searched) = do_search uid_command ready searched
handle (fetch uid_command msg_set_as_set fetched ready ended) =
    do_fetch uid_command msg_set_as_set fetched ready ended
handle (store uid_command is_silent msg_set_as_set ready stored) =
    do_store uid_command is_silent msg_set_as_set ready stored
handle (copy name ready found copied) = do_copy name ready found copied
handle (move name ready found copied ready_again expunged) =
    do_move name ready found copied ready_again expunged

-- The tagged response to what a handler returned or raised; IDLE has none until DONE, and a command
-- that is cancelled has none.
abbrev pub response : Result Reply → Option Tagged
response (ok done) = some completed
response (ok silent) = none
response (ok (with_code c)) = some (completed_with c)
response (err rejected) = some no_response
response (err no_such_mailbox) = some no_response
response (err cancelled) = none
response (err e) = some bad_response

-- Whether `command` raises what the handler did: all but `No`, `Bad` and a timeout.
abbrev pub raises : Result Reply → Option Error
raises (ok r) = none
raises (err rejected) = none
raises (err no_such_mailbox) = none
raises (err bad) = none
raises (err timed_out) = none
raises (err e) = some e

abbrev pub respond : Option Tagged → Session → Session
respond none s = s
respond (some t) s = (push_tagged t s).0

unfoldable pub command : String → Request → Session → Session × Option Error
unfolding handle
command tag request s =
    let r = handle request (record s { tag = tag }) in (respond (response r.1) r.0, raises r.1)
