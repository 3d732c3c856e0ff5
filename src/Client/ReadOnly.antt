-- ===== src/Client/ReadOnly.antt =====
-- What a client can change in a mailbox that it has opened with EXAMINE.
use asimap.Prelude.{
  ℕ, String, ◌≡◌, refl, sym, ap, ◌∙◌, Bool, true, false, not, ◌||◌, if◌then◌else◌, Option, none,
  some, List, [], ◌∷◌, ◌++◌, arith,
}
use mathlib.Core.List.{append_assoc, append-nil}
use asimap.Prelude.Lists.{any_of, any_of-append}
use asimap.Result.{Result, ok, err, inconsistent, rejected}
use asimap.Mbox.State.{Notice}
use asimap.Client.{
  Session, selected, Answer, held, arrive, lose, Call, unselect_it, wait_for, pending_expunges,
  leave_at, is_selected, authenticated, Tagged, Reply, done,
}
use asimap.Client.Action.{
  Action, pure, raise, now, ◌>>=◌, set_state, clear_pending, push, push_tagged,
  send_pending_notifications, tried, call, leave_mailbox, disconnect, unceremonious_bye, ◌>>◌,
}
use asimap.Client.Select.{do_close}
use asimap.Client.Selected.{with_mailbox, do_expunge, or_empty, do_store, do_move, stored_messages}
use asimap.Client.Dispatch.{
  Request, close, expunge, move, store, handle, respond, response, command,
}
use asimap.Client.Keeps.{if_lands, on_some_lands, with_mailbox_lands}
use asimap.Client.Waiting.{during}

abbrev pub is_expunging : Call → Bool
is_expunging (Call.expunge mbox uid_msg_set check_deleted) = true
is_expunging _ = false

true_or_false : (b : Bool) → b ≡ true → b ≡ false → ⊥
true_or_false b p q = cc

-- The commands that remove messages from the selected mailbox.
abbrev pub Removes : Request → Type 0
Removes (close has_deleted ready expunged) = Unit
Removes (expunge uid_command msg_set has_deleted ready expunged) = Unit
Removes (move name ready found copied ready_again expunged) = Unit
Removes _ = ⊥

-- Calls have been made, with no expunge among them.
pub record RemovesNothing (s s' : Session) : Type 0 where
  pub added : List Call
  pub made : s'.calls ≡ s.calls ++ added
  pub no_expunge : any_of is_expunging added ≡ false

same_calls : (s0 s t : Session) → t.calls ≡ s.calls → RemovesNothing s0 s → RemovesNothing s0 t
same_calls s0 s t e h = record { added = h.added; made = e ∙ h.made; no_expunge = h.no_expunge }

one_more :
    (s0 s t : Session) (c : Call)
    → is_expunging c ≡ false
    → t.calls ≡ s.calls ++ c ∷ []
    → RemovesNothing s0 s
    → RemovesNothing s0 t
one_more s0 s t c q e h = record {
  added = h.added ++ c ∷ [];
  made = e ∙ ap (λ (l : List Call). l ++ c ∷ []) h.made ∙ append_assoc s0.calls h.added (c ∷ []);
  no_expunge = ground (arith, any_of-append is_expunging h.added (c ∷ []), h.no_expunge, q);
}

leave_at-RemovesNothing :
    (s0 : Session) (o : Option String) (s : Session)
    → RemovesNothing s0 s
    → RemovesNothing s0 (leave_at o s)
leave_at-RemovesNothing s0 none s h = h
leave_at-RemovesNothing s0 (some b) s h = one_more s0 s _ (unselect_it b) refl refl h

bye-RemovesNothing :
    (s0 s : Session)
    → RemovesNothing s0 s
    → RemovesNothing s0 ((unceremonious_bye >> pure done) s).0
unfolding ◌>>=◌ pure leave_mailbox disconnect
bye-RemovesNothing s0 s h =
    same_calls s0 (leave_mailbox s).0 _ refl (leave_at-RemovesNothing s0 s.mbox s h)

handle-RemovesNothing :
    (request : Request) (s0 s : Session)
    → s.examine ≡ true
    → Removes request
    → RemovesNothing s0 s
    → RemovesNothing s0 (handle request s).0
unfolding handle do_close do_expunge do_move now ◌>>=◌ pure raise clear_pending set_state
    send_pending_notifications leave_mailbox
handle-RemovesNothing (close has_deleted ready expunged) s0 s e r h =
    let s' = record s { pending = []; state = authenticated } in
    if_lands (RemovesNothing s0) (not (is_selected s.state)) (raise rejected) _ s (λ _. h)
      (λ _.
        on_some_lands (RemovesNothing s0) s.mbox _ _ s' (λ _. same_calls s0 s s' refl h)
          (λ mbox _.
            if_lands (RemovesNothing s0) s.examine (pure done) _ (leave_mailbox s').0
              (λ _. leave_at-RemovesNothing s0 s.mbox s' (same_calls s0 s s' refl h))
              (λ e'. absurd (true_or_false s.examine e e'))))
handle-RemovesNothing (expunge uid_command msg_set has_deleted ready expunged) s0 s e r h =
    with_mailbox_lands (RemovesNothing s0) _ s h (bye-RemovesNothing s0 s h) (λ mbox.
      if_lands (RemovesNothing s0) s.examine (pure done) _ (send_pending_notifications s).0
        (λ _. same_calls s0 s _ refl h) (λ e'. absurd (true_or_false s.examine e e')))
handle-RemovesNothing (move name ready found copied ready_again expunged) s0 s e r h =
    with_mailbox_lands (RemovesNothing s0) _ s h (bye-RemovesNothing s0 s h) (λ mbox.
      if_lands (RemovesNothing s0) s.examine (raise rejected) _ s (λ _. h)
        (λ e'. absurd (true_or_false s.examine e e')))
handle-RemovesNothing _ s0 s e r h = absurd r

respond-RemovesNothing :
    (t : Option Tagged) (s0 s : Session) → RemovesNothing s0 s → RemovesNothing s0 (respond t s)
unfolding push_tagged
respond-RemovesNothing none s0 s h = h
respond-RemovesNothing (some t) s0 s h = same_calls s0 s _ refl h

-- In a session whose mailbox was opened with EXAMINE neither CLOSE nor EXPUNGE nor MOVE calls
-- the expunge of a mailbox.
pub examine-RemovesNothing :
    (tag : String) (request : Request) (s : Session)
    → s.examine ≡ true
    → Removes request
    → RemovesNothing s (command tag request s).0
unfolding command
examine-RemovesNothing tag request s e r =
    let s' = record s { tag = tag } in
    respond-RemovesNothing (response (handle request s').1) s (handle request s').0 (
      handle-RemovesNothing request s s' e r
        (record { added = []; made = sym (append-nil s.calls); no_expunge = refl }))

arrive-calls : (notices : List Notice) (s : Session) → (arrive notices s).calls ≡ s.calls
arrive-calls notices s = ground arith

lose-calls : (b : Bool) (s : Session) → (lose b s).calls ≡ s.calls
lose-calls true s = refl
lose-calls false s = refl

respond-calls : (t : Option Tagged) (s : Session) → (respond t s).calls ≡ s.calls
unfolding push_tagged
respond-calls none s = refl
respond-calls (some t) s = refl

stored-calls :
    (is_silent : Bool) (r : Result (List Notice)) (s : Session)
    → (stored_messages is_silent r s).0.calls ≡ s.calls
unfolding pure raise push ◌>>=◌
stored-calls true (ok notices) s = refl
stored-calls false (ok notices) s = refl
stored-calls is_silent (err inconsistent) s = refl
stored-calls is_silent (err e) s = refl

-- The wait for the mailbox, and the STORE
storing-calls :
    (mbox : String) (is_silent : Bool) (msg_set : List ℕ) (before : List Notice)
    (stored : Answer (List Notice)) (s : Session)
    → ((call (wait_for mbox) (during before)
          >> tried (Call.store mbox msg_set) (held stored) (stored_messages is_silent))
        s).0.calls
      ≡ s.calls ++ wait_for mbox ∷ Call.store mbox msg_set ∷ []
unfolding call tried ◌>>=◌
storing-calls mbox is_silent msg_set before stored s =
    let waiting = record s { calls = s.calls ++ wait_for mbox ∷ [] } in
    let waited = arrive before waiting in
    let running = record waited { calls = waited.calls ++ Call.store mbox msg_set ∷ [] } in
    stored-calls is_silent stored.result (arrive stored.arrived running)
    ∙ arrive-calls stored.arrived running
    ∙ ap (λ (l : List Call). l ++ Call.store mbox msg_set ∷ []) (arrive-calls before waiting)
    ∙ append_assoc s.calls (wait_for mbox ∷ []) (Call.store mbox msg_set ∷ [])

unless_refused :
    (pending uid_command : Bool) (m n : Action Reply) (s : Session) (made : List Call)
    → (uid_command || not pending) ≡ true
    → (m s).0.calls ≡ made
    → ((if pending then if uid_command then m else n else m) s).0.calls ≡ made
unless_refused true true m n s made h e = e
unless_refused true false m n s made h e = cc h
unless_refused false uid_command m n s made h e = e

-- In a session whose mailbox was opened with EXAMINE a STORE that is not refused for a pending
-- EXPUNGE, by message numbers or by UIDs, calls the STORE of the mailbox all the same, whatever comes
-- meanwhile and whether or not that succeeds.
pub examine_store :
    (tag mbox : String) (uid_command is_silent : Bool) (msg_set : Option (List ℕ))
    (before : List Notice) (stored : Answer (List Notice)) (s : Session)
    → (uid_command || not (pending_expunges s)) ≡ true
    → (command tag
        (store uid_command is_silent msg_set (during before) stored)
        (record s { state = selected; mbox = some mbox; examine = true })).0.calls
      ≡ s.calls ++ wait_for mbox ∷ Call.store mbox (or_empty msg_set) ∷ []
unfolding command handle do_store with_mailbox now ◌>>=◌ send_pending_notifications pending_expunges
    raise
examine_store tag mbox uid_command is_silent msg_set before stored s h =
    let opened = record s { tag = tag; state = selected; mbox = some mbox; examine = true } in
    let request = store uid_command is_silent msg_set (during before) stored in
    respond-calls (response (handle request opened).1) (handle request opened).0
    ∙ unless_refused (pending_expunges s) uid_command _ (raise rejected) opened
        (s.calls ++ wait_for mbox ∷ Call.store mbox (or_empty msg_set) ∷ []) h
        (storing-calls mbox is_silent (or_empty msg_set) before stored
          (send_pending_notifications opened).0)
