-- ===== src/Client/Steps.antt =====
-- What each step of the handlers keeps, every command keeps.
use asimap.Prelude.{ℕ, String, Bool, true, false, List}
use asimap.Result.{Result, ok, err, inconsistent}
use asimap.Mbox.State.{Notice}
use asimap.Client.{Session, logged_out, Untagged, Call, Answer}
use asimap.Client.Action.{
  Action, set_idling, clear_pending, set_state, set_client_id, set_fetches, push,
  send_pending_notifications, log, call, leave_mailbox, disconnect, as_idling,
}
use asimap.Client.Select.{do_select, do_unselect, do_close}
use asimap.Client.Anytime.{do_noop, do_capability, do_namespace, do_id, do_idle, do_logout}
use asimap.Client.Folders.{
  refuse_login, do_create, do_delete, do_rename, do_subscribe, do_status, do_append,
}
use asimap.Client.Selected.{
  with_mailbox, do_check, do_expunge, found_messages, do_search, after_fetch, run_fetch,
  fetch_too_early, do_fetch, stored_messages, do_store, run_copy, do_copy, expunge_moved, do_move,
}
use asimap.Client.Dispatch.{Request, idle, handle}
use asimap.Client.Keeps.{Keeps, keeps_rules}

-- The steps, and the handlers that change what is selected or count.
pub record KeepsSteps (P : Session → Type 0) : Type 1 where
  pub idling : (b : Bool) → Keeps P (set_idling b)
  pub pending : Keeps P clear_pending
  pub client_id : (id_dict : List (String × String)) → Keeps P (set_client_id id_dict)
  pub pushing : (lines : List Untagged) → Keeps P (push lines)
  pub sending : Keeps P send_pending_notifications
  pub logging : (c : Call) → Keeps P (log c)
  pub calling : (A : Type 0) (c : Call) (a : Answer A) → Keeps P (call c a)
  pub as_idle : (A : Type 0) (m : Action A) → Keeps P m → Keeps P (as_idling m)
  pub leaving : Keeps P leave_mailbox
  pub parting : Keeps P disconnect
  pub no_fetches : Keeps P (set_fetches 0)
  pub logging_out : Keeps P (set_state logged_out)
  pub early : Keeps P fetch_too_early
  pub selecting :
      (name : String)
      → (examine : Bool) → (found : Answer Unit) → (ready : Answer Unit)
      → (msgs : Result (List Untagged)) → Keeps P (do_select name examine found ready msgs)
  pub unselecting : Keeps P do_unselect
  pub closing :
      (has_deleted : Bool)
      → (ready : Answer Unit) → (expunged : Answer Unit)
      → Keeps P (do_close has_deleted ready expunged)

module _ {P : Session → Type 0} (k : KeepsSteps P) where
  call-Keeps : {A : Type 0} (c : Call) (a : Answer A) → Keeps P (call c a)
  call-Keeps {A} c a = k.calling A c a

  as_idling-Keeps : {A : Type 0} (m : Action A) → Keeps P m → Keeps P (as_idling m)
  as_idling-Keeps {A} m h = k.as_idle A m h

  set_idling-Keeps : (b : Bool) → Keeps P (set_idling b)
  set_idling-Keeps = k.idling

  clear_pending-Keeps : Keeps P clear_pending
  clear_pending-Keeps = k.pending

  set_client_id-Keeps : (id_dict : List (String × String)) → Keeps P (set_client_id id_dict)
  set_client_id-Keeps = k.client_id

  push-Keeps : (lines : List Untagged) → Keeps P (push lines)
  push-Keeps = k.pushing

  send_pending-Keeps : Keeps P send_pending_notifications
  send_pending-Keeps = k.sending

  log-Keeps : (c : Call) → Keeps P (log c)
  log-Keeps = k.logging

  leave_mailbox-Keeps : Keeps P leave_mailbox
  leave_mailbox-Keeps = k.leaving

  disconnect-Keeps : Keeps P disconnect
  disconnect-Keeps = k.parting

  no_fetches-Keeps : Keeps P (set_fetches 0)
  no_fetches-Keeps = k.no_fetches

  log_out-Keeps : Keeps P (set_state logged_out)
  log_out-Keeps = k.logging_out

  found-Keeps : (r : Result (List ℕ)) → Keeps P (found_messages r)
  found-Keeps (ok results) = search (keeps_rules, push-Keeps)
  found-Keeps (err inconsistent) = search keeps_rules
  found-Keeps (err e) = search keeps_rules

  after_fetch-Keeps : (mbox : String) (r : Result (Unit {0})) → Keeps P (after_fetch mbox r)
  after_fetch-Keeps mbox (ok t) = search (keeps_rules, send_pending-Keeps)
  after_fetch-Keeps mbox (err inconsistent) = search (keeps_rules, log-Keeps)
  after_fetch-Keeps mbox (err e) = search keeps_rules

  stored-Keeps : (b : Bool) (r : Result (List Notice)) → Keeps P (stored_messages b r)
  stored-Keeps true (ok notices) = search keeps_rules
  stored-Keeps false (ok notices) = search (keeps_rules, push-Keeps)
  stored-Keeps b (err inconsistent) = search keeps_rules
  stored-Keeps b (err e) = search keeps_rules

  early-Keeps : Keeps P fetch_too_early
  early-Keeps = k.early

  do_select-Keeps :
      (name : String) (examine : Bool) (found ready : Answer Unit) (msgs : Result (List Untagged))
      → Keeps P (do_select name examine found ready msgs)
  do_select-Keeps = k.selecting

  do_unselect-Keeps : Keeps P do_unselect
  do_unselect-Keeps = k.unselecting

  do_close-Keeps :
      (has_deleted : Bool) (ready expunged : Answer Unit)
      → Keeps P (do_close has_deleted ready expunged)
  do_close-Keeps = k.closing

  pub handle-Keeps : (request : Request) → Keeps P (handle request)
  unfolding handle do_noop do_capability do_namespace do_id do_idle do_logout refuse_login do_create
      do_delete do_rename do_subscribe do_status do_append do_check do_expunge do_search do_fetch
      do_store do_copy do_move with_mailbox run_fetch run_copy expunge_moved
  handle-Keeps idle = search (keeps_rules, push-Keeps, send_pending-Keeps, set_idling-Keeps)
  handle-Keeps _ =
      search
        (
          keeps_rules, early-Keeps, do_select-Keeps, do_unselect-Keeps, do_close-Keeps,
          set_idling-Keeps, clear_pending-Keeps, set_client_id-Keeps, push-Keeps,
          send_pending-Keeps, log-Keeps, call-Keeps, as_idling-Keeps, leave_mailbox-Keeps,
          disconnect-Keeps, no_fetches-Keeps, log_out-Keeps, found-Keeps, after_fetch-Keeps,
          stored-Keeps,
        )
        depth 24
