-- ===== src/Client/Folders.antt =====
-- `Authenticated` of asimap/client.py: the commands that name a mailbox.
use asimap.Prelude.{ℕ, String, Bool, List, [], ◌∷◌}
use asimap.Result.{rejected}
use asimap.Client.{
  append_uid, StatusAtt, status_response, get_mailbox, wait_for, create, delete, rename, subscribe,
  append, Answer, Reply, done, with_code,
}
use asimap.Client.Action.{Action, pure, raise, ◌>>=◌, ◌>>◌, push, send_pending_notifications, call}

-- AUTHENTICATE and LOGIN of a client that is logged in.
unfoldable pub refuse_login : Action Reply
refuse_login = send_pending_notifications >> raise rejected

unfoldable pub do_create : Answer Unit → Action Reply
do_create created = send_pending_notifications >> call create created >> pure done

unfoldable pub do_delete : String → Answer Unit → Answer Unit → Answer Unit → Action Reply
do_delete name found ready deleted =
    send_pending_notifications
    >> call (get_mailbox name) found
    >> call (wait_for name) ready
    >> call delete deleted
    >> pure done

unfoldable pub do_rename : String → Answer Unit → Answer Unit → Answer Unit → Action Reply
do_rename name found ready renamed =
    send_pending_notifications
    >> call (get_mailbox name) found
    >> call (wait_for name) ready
    >> call rename renamed
    >> send_pending_notifications
    >> pure done

-- SUBSCRIBE and UNSUBSCRIBE, with `commit_to_db`
unfoldable pub do_subscribe : String → Bool → Answer Unit → Answer Unit → Action Reply
do_subscribe name subscribed found committed =
    send_pending_notifications
    >> call (get_mailbox name) found
    >> call (subscribe subscribed) committed
    >> pure done

-- `counts` are the values of the attributes when the mailbox is ready.
unfoldable pub do_status : String → List (StatusAtt × ℕ) → Answer Unit → Answer Unit → Action Reply
do_status name counts found ready =
    send_pending_notifications
    >> call (get_mailbox name) found
    >> call (wait_for name) ready
    >> push (status_response name counts ∷ [])
    >> pure done

-- `NoSuchMailbox` becomes a `No` with TRYCREATE, which it is already by its class.
unfoldable pub do_append : String → ℕ → Answer Unit → Answer Unit → Answer ℕ → Action Reply
do_append name uid_vv found ready appended =
    send_pending_notifications
    >> call (get_mailbox name) found
    >> call (wait_for name) ready
    >> call append appended
    >>= λ uid. send_pending_notifications >> pure (with_code (append_uid uid_vv uid))
