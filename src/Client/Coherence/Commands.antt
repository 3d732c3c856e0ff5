-- ===== src/Client/Coherence/Commands.antt =====
-- Every command and every event keep a session coherent.
use asimap.Prelude.{String, ◌≡◌, refl, true, false, Option, none, some, List, [], arith}
use asimap.Mbox.State.{Notice}
use asimap.Client.{Session, authenticated, arrive, lose, Tagged}
use asimap.Client.Action.{
  set_idling, clear_pending, set_state, set_client_id, set_fetches, push, push_tagged,
  send_pending_notifications, log, leave_mailbox, as_idling, pure, ◌>>=◌,
}
use asimap.Client.Anytime.{do_done}
use asimap.Client.Dispatch.{Request, handle, response, respond, command}
use asimap.Client.Steps.{KeepsSteps, handle-Keeps}
use asimap.Client.Coherence.{
  IsCoherent, is_logged_out, arrive-IsCoherent, lose-IsCoherent, call-IsCoherent,
  leave_any-IsCoherent, weaker, disconnect-IsCoherent, early-IsCoherent, do_select-IsCoherent,
  do_unselect-IsCoherent, do_close-IsCoherent,
}

-- A change of what is not mentioned
same-IsCoherent :
    (s t : Session)
    → t.listening ≡ s.listening
    → t.mbox ≡ s.mbox
    → t.state ≡ s.state
    → t.select_while_selected_count ≡ s.select_while_selected_count
    → IsCoherent s
    → IsCoherent t
same-IsCoherent s t l m st n h = record {
  listened = ground (arith, l, m, h.listened);
  chosen = ground (arith, m, st, h.chosen);
  few_selects = omega (arith, n, h.few_selects);
}

steps-IsCoherent : KeepsSteps IsCoherent
unfolding set_idling clear_pending set_state set_client_id set_fetches push
    send_pending_notifications log leave_mailbox as_idling
steps-IsCoherent = record {
  idling = λ b. record { at = λ s. same-IsCoherent s _ refl refl refl refl };
  pending = record { at = λ s. same-IsCoherent s _ refl refl refl refl };
  client_id = λ d. record { at = λ s. same-IsCoherent s _ refl refl refl refl };
  pushing = λ lines. record { at = λ s. same-IsCoherent s _ refl refl refl refl };
  sending = record { at = λ s. same-IsCoherent s _ refl refl refl refl };
  logging = λ c. record { at = λ s. same-IsCoherent s _ refl refl refl refl };
  calling = call-IsCoherent;
  as_idle = λ A m k. record {
    at = λ s h.
        let s' = record s { idling = true } in
        same-IsCoherent (m s').0 _ refl refl refl refl
          (k.at s' (same-IsCoherent s s' refl refl refl refl h));
  };
  leaving = record { at = λ s h. leave_any-IsCoherent s (weaker s h) };
  parting = disconnect-IsCoherent;
  no_fetches = record { at = λ s. same-IsCoherent s _ refl refl refl refl };
  logging_out = record { at = λ s h. ground arith };
  early = early-IsCoherent;
  selecting = do_select-IsCoherent;
  unselecting = do_unselect-IsCoherent;
  closing = do_close-IsCoherent;
}

respond-IsCoherent : (t : Option Tagged) (s : Session) → IsCoherent s → IsCoherent (respond t s)
unfolding push_tagged
respond-IsCoherent none s h = h
respond-IsCoherent (some t) s h = same-IsCoherent s _ refl refl refl refl h

command-IsCoherent :
    (tag : String) (request : Request) (s : Session)
    → IsCoherent s
    → IsCoherent (command tag request s).0
unfolding command
command-IsCoherent tag request s h =
    let s' = record s { tag = tag } in
    respond-IsCoherent (response (handle request s').1) (handle request s').0
      ((handle-Keeps steps-IsCoherent request).at s' (same-IsCoherent s s' refl refl refl refl h))

-- `Authenticated.__init__`
abbrev pub logged_in : String → Session
logged_in name = record {
  name = name;
  state = authenticated;
  mbox = none;
  tag = "";
  client_id = [];
  excluded_capabilities = [];
  idling = false;
  pending = [];
  examine = false;
  fetch_while_pending_count = 0;
  select_while_selected_count = 0;
  pushed = [];
  connected = true;
  listening = false;
  calls = [];
}

-- What happens in a session: a command, the DONE of an IDLE, notices of a mailbox between commands,
-- and the deletion of the selected mailbox. No command is read once the client has logged out, nor
-- while it is idling.
pub data Event : Session → Session → Type 0 where
  receive :
      (tag : String) (request : Request) (s : Session)
      → is_logged_out s.state ≡ false
      → s.idling ≡ false
      → Event s (command tag request s).0
  finish : (s : Session) → s.idling ≡ true → Event s (do_done s).0
  notify : (notices : List Notice) (s : Session) → Event s (arrive notices s)
  delete : (s : Session) → Event s (lose true s)

pub data Reach (name : String) : Session → Type 0 where
  first : Reach name (logged_in name)
  next : {s t : Session} → Reach name s → Event s t → Reach name t

do_done-IsCoherent : (s : Session) → IsCoherent s → IsCoherent (do_done s).0
unfolding do_done set_idling send_pending_notifications push_tagged pure ◌>>=◌
do_done-IsCoherent s h = same-IsCoherent s _ refl refl refl refl h

Event-IsCoherent : {s t : Session} → Event s t → IsCoherent s → IsCoherent t
Event-IsCoherent (receive tag request s live awake) h = command-IsCoherent tag request s h
Event-IsCoherent (finish s e) h = do_done-IsCoherent s h
Event-IsCoherent (notify notices s) h = arrive-IsCoherent notices s h
Event-IsCoherent (delete s) h = lose-IsCoherent true s h

-- After any events since the login the mailbox has the client among its own exactly if it is the
-- client's selected one, a client with a mailbox is in the selected state or has logged out, and
-- the count of repeated SELECTs is at most its limit.
pub Reach-IsCoherent : (name : String) (s : Session) → Reach name s → IsCoherent s
Reach-IsCoherent name s first = record { listened = refl; chosen = refl; few_selects = omega arith }
Reach-IsCoherent name s (next {s = t} r e) = Event-IsCoherent e (Reach-IsCoherent name t r)
