-- ===== src/Client/Action.antt =====
-- asimap/client.py: the steps that the command handlers are made of.
use asimap.Prelude.{ℕ, String, Bool, true, false, Option, none, some, List, [], ◌∷◌, ◌++◌, map}
use asimap.Result.{Error, cancelled, Result, ok, err}
use asimap.Client.{
  Session, ClientState, logged_out, Untagged, notice, bye, Tagged, untagged, tagged, Call, Answer,
  arrive, lose, leave_any,
}

-- What a handler does: the session afterwards, and what it returns or raises.
abbrev pub Action : Type 0 → Type 0
Action A = Session → Session × Result A

unfoldable pub pure : {A : Type 0} → A → Action A
pure a s = (s, ok a)

unfoldable pub raise : {A : Type 0} → Error → Action A
raise e s = (s, err e)

-- The rest of a handler that reads the session.
unfoldable pub now : {A : Type 0} → (Session → Action A) → Action A
now f s = f s s

abbrev pub continue : {A B : Type 0} → (A → Action B) → Session → Result A → Session × Result B
continue f s (ok a) = f a s
continue f s (err e) = (s, err e)

infixl 5 ◌>>=◌ ◌>>◌
unfoldable pub ◌>>=◌ : {A B : Type 0} → Action A → (A → Action B) → Action B
unfolding pure raise now
◌>>=◌ m f s = continue f (m s).0 (m s).1

abbrev pub ◌>>◌ : {B : Type 0} → Action Unit → Action B → Action B
m >> n = m >>= λ _. n

-- `if self.mbox`
abbrev pub on_some : {A B : Type 0} → Option A → Action B → (A → Action B) → Action B
on_some none m f = m
on_some (some a) m f = f a

-- Assignments to attributes of the session
unfoldable pub set_idling : Bool → Action Unit
set_idling b s = (record s { idling = b }, ok tt)

unfoldable pub clear_pending : Action Unit
clear_pending s = (record s { pending = [] }, ok tt)

unfoldable pub set_state : ClientState → Action Unit
set_state st s = (record s { state = st }, ok tt)

unfoldable pub set_client_id : List (String × String) → Action Unit
set_client_id id_dict s = (record s { client_id = id_dict }, ok tt)

unfoldable pub set_fetches : ℕ → Action Unit
set_fetches n s = (record s { fetch_while_pending_count = n }, ok tt)

unfoldable pub set_selects : ℕ → Action Unit
set_selects n s = (record s { select_while_selected_count = n }, ok tt)

-- `client.push`
unfoldable pub push : List Untagged → Action Unit
push lines s = (record s { pushed = s.pushed ++ map untagged lines }, ok tt)

unfoldable pub push_tagged : Tagged → Action Unit
push_tagged t s = (record s { pushed = s.pushed ++ tagged s.tag t ∷ [] }, ok tt)

unfoldable pub send_pending_notifications : Action Unit
send_pending_notifications s =
    (record s { pushed = s.pushed ++ map untagged (map notice s.pending); pending = [] }, ok tt)

-- A call that does not wait
unfoldable pub log : Call → Action Unit
log c s = (record s { calls = s.calls ++ c ∷ [] }, ok tt)

abbrev pub after_call : {A : Type 0} → Call → Answer A → Session → Session
after_call c a s = lose a.own_deleted (arrive a.arrived (record s { calls = s.calls ++ c ∷ [] }))

-- A call, where what it raises is caught
unfoldable pub tried : {A B : Type 0} → Call → Answer A → (Result A → Action B) → Action B
tried c a handler s = handler a.result (after_call c a s)

unfoldable pub call : {A : Type 0} → Call → Answer A → Action A
call c a s = (after_call c a s, a.result)

unfoldable pub leave_mailbox : Action Unit
unfolding leave_any
leave_mailbox s = (leave_any s, ok tt)

-- What `unceremonious_bye` ends by: `close` cancels the task that reads and runs the commands of the
-- client, which is the running one, so nothing after it is done.
unfoldable pub disconnect : Action Unit
disconnect s = (
  record s {
    pushed = s.pushed ++ untagged bye ∷ [];
    connected = false;
    idling = false;
    state = logged_out;
  },
  err cancelled,
)

abbrev pub unceremonious_bye : Action Unit
unceremonious_bye = leave_mailbox >> disconnect

-- The client counts as idling during an action, so its notices are pushed at once.
unfoldable pub as_idling : {A : Type 0} → Action A → Action A
as_idling m s = (
  record (m (record s { idling = true })).0 { idling = s.idling },
  (m (record s { idling = true })).1,
)
