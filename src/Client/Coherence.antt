-- ===== src/Client/Coherence.antt =====
-- What holds of a session between two commands: how SELECT, UNSELECT and CLOSE keep it.
pub mod Commands
use text.Mathlib.Text.{◌==◌ as str_eq}
use asimap.Prelude.{
  ℕ, ◌+◌, ◌≤◌, String, ◌≡◌, refl, Bool, true, false, not, ◌||◌, Option, none, some, List, [], ◌∷◌,
  ◌++◌, arith, leb, ltb, if◌then◌else◌,
}
use asimap.Result.{Result, ok, err, bad, rejected}
use asimap.Client.{
  Session, wait_for, expunge, ClientState, authenticated, selected, logged_out, is_selected,
  is_some, Untagged, Call, Answer, Reply, done, arrive, lose, leave_at,
}
use asimap.Client.Action.{
  Action, pure, raise, now, ◌>>=◌, ◌>>◌, on_some, set_idling, clear_pending, set_state,
  set_client_id, set_fetches, set_selects, push, send_pending_notifications, log, call, after_call,
  leave_mailbox, unceremonious_bye, disconnect, as_idling,
}
use asimap.Client.Select.{
  set_mailbox, opened, enter, select_again, max_selects, do_select, do_unselect, do_close,
}
use asimap.Client.Selected.{fetch_too_early, max_fetches}
use asimap.Client.Keeps.{Keeps, if_lands, on_some_lands, keeps_rules}

abbrev pub is_logged_out : ClientState → Bool
is_logged_out logged_out = true
is_logged_out _ = false

-- The mailbox has the client among its own exactly if it is the selected one, and then the state is
-- selected, unless the client has logged out; and SELECT has not been repeated too often.
pub record IsCoherent (s : Session) : Type 0 where
  pub listened : s.listening ≡ is_some s.mbox
  pub chosen : (not (is_some s.mbox) || is_selected s.state || is_logged_out s.state) ≡ true
  pub few_selects : s.select_while_selected_count ≤ max_selects

-- The same while the state is set before the mailbox is left.
pub record IsLeaving (s : Session) : Type 0 where
  pub listened : s.listening ≡ is_some s.mbox
  pub few_selects : s.select_while_selected_count ≤ max_selects

pub arrive-IsCoherent :
    (notices : List asimap.Mbox.State.Notice) (s : Session)
    → IsCoherent s
    → IsCoherent (arrive notices s)
arrive-IsCoherent notices s h = ground arith

pub lose-IsCoherent : (b : Bool) (s : Session) → IsCoherent s → IsCoherent (lose b s)
lose-IsCoherent true s h = ground arith
lose-IsCoherent false s h = h

leave_at-IsCoherent :
    (o : Option String) (s : Session) → o ≡ s.mbox → IsLeaving s → IsCoherent (leave_at o s)
leave_at-IsCoherent none s e h = ground (arith, e)
leave_at-IsCoherent (some b) s e h = ground (arith, e)

pub leave_any-IsCoherent : (s : Session) → IsLeaving s → IsCoherent (leave_mailbox s).0
unfolding leave_mailbox
leave_any-IsCoherent s h = leave_at-IsCoherent s.mbox s refl h

pub weaker : (s : Session) → IsCoherent s → IsLeaving s
weaker s h = record { listened = h.listened; few_selects = h.few_selects }

pub call-IsCoherent : (A : Type 0) (c : Call) (a : Answer A) → Keeps IsCoherent (call c a)
unfolding call
call-IsCoherent A c a = record {
  at = λ s h.
      let s' = record s { calls = s.calls ++ c ∷ [] } in
      lose-IsCoherent a.own_deleted (arrive a.arrived s') (
        arrive-IsCoherent a.arrived s'
          (record { listened = h.listened; chosen = h.chosen; few_selects = h.few_selects }));
}

-- An action that ends well when the mailbox is about to be left
record Lands {A : Type 0} (m : Action A) : Type 0 where
  at : (s : Session) → IsLeaving s → IsCoherent (m s).0

resume-Lands :
    (n : ℕ) (rest : Action Reply)
    → n ≤ max_selects
    → Keeps IsCoherent rest
    → Lands (set_selects n >> leave_mailbox >> rest)
unfolding ◌>>=◌ set_selects leave_mailbox
resume-Lands n rest le k = record {
  at = λ s h.
      let s' = record s { select_while_selected_count = n } in
      k.at (leave_mailbox s').0
        (leave_any-IsCoherent s' (record { listened = h.listened; few_selects = le }));
}

pub disconnect-IsCoherent : Keeps IsCoherent disconnect
unfolding disconnect
disconnect-IsCoherent = record { at = λ s h. ground arith }

bye_at : (s : Session) → IsLeaving s → IsCoherent ((unceremonious_bye >> pure done) s).0
unfolding ◌>>=◌ pure leave_mailbox disconnect
bye_at s h = disconnect-IsCoherent.at (leave_mailbox s).0 (leave_any-IsCoherent s h)

bye-Lands : Lands (set_selects 0 >> (unceremonious_bye >> pure done))
unfolding ◌>>=◌ set_selects
bye-Lands = record {
  at = λ s h. bye_at _ (record { listened = h.listened; few_selects = omega arith });
}

Lands-if :
    {A : Type 0} (b : Bool) (m n : Action A)
    → (b ≡ true → Lands m)
    → (b ≡ false → Lands n)
    → Lands (if b then m else n)
Lands-if true m n km kn = km refl
Lands-if false m n km kn = kn refl

select_again-IsCoherent :
    (mbox name : String) (rest : Action Reply)
    → Keeps IsCoherent rest
    → Keeps IsCoherent (select_again mbox name rest)
unfolding select_again now ◌>>=◌ set_state set_selects leave_mailbox
select_again-IsCoherent mbox name rest k = record {
  at = λ s h.
      let count = s.select_while_selected_count + 1 in
      (Lands-if (str_eq mbox name) _ _
          (λ _.
            Lands-if (ltb max_selects count) _ _ (λ _. bye-Lands)
              (λ e. resume-Lands count rest (ground arith) k))
          (λ _. resume-Lands 0 rest (omega arith) k)).at
        (record s { state = authenticated })
        (record { listened = h.listened; few_selects = h.few_selects });
}

-- With no mailbox any state will do.
idle_session :
    (s : Session)
    → s.mbox ≡ none
    → s.listening ≡ false
    → s.select_while_selected_count ≤ max_selects
    → IsCoherent s
idle_session s e l n = record {
  listened = ground (arith, e, l);
  chosen = ground (arith, e);
  few_selects = n;
}

opened-IsCoherent :
    (name : String) (examine : Bool) (msgs : Result (List Untagged))
    → Keeps IsCoherent (opened name examine msgs)
unfolding log push set_mailbox ◌>>=◌ pure raise
opened-IsCoherent name examine (ok msgs) = record { at = λ s h. ground arith }
opened-IsCoherent name examine (err e) = record { at = λ s h. ground arith }

enter-IsCoherent :
    (name : String) (examine : Bool) (found ready : Answer Unit) (msgs : Result (List Untagged))
    → Keeps IsCoherent (enter name examine found ready msgs)
unfolding enter
enter-IsCoherent name examine found ready msgs =
    search (keeps_rules, call-IsCoherent Unit, opened-IsCoherent)

pub do_select-IsCoherent :
    (name : String) (examine : Bool) (found ready : Answer Unit) (msgs : Result (List Untagged))
    → Keeps IsCoherent (do_select name examine found ready msgs)
unfolding do_select clear_pending set_idling set_state now ◌>>=◌
do_select-IsCoherent name examine found ready msgs = record {
  at = λ s h.
      let rest = enter name examine found ready msgs in
      let k = enter-IsCoherent name examine found ready msgs in
      let s' = record s { pending = []; idling = false } in
      let h' : IsCoherent s' = record {
        listened = h.listened;
        chosen = h.chosen;
        few_selects = h.few_selects;
      } in
      if_lands IsCoherent (is_selected s.state) _ rest s'
        (λ _.
          on_some_lands IsCoherent s.mbox _ _ s'
            (λ e.
              k.at (record s' { state = authenticated })
                (idle_session _ e (ground (arith, e, h.listened)) h.few_selects))
            (λ mbox _. (select_again-IsCoherent mbox name rest k).at s' h'))
        (λ _. k.at s' h');
}

without_mailbox :
    (o : Option String) (s : Session)
    → o ≡ s.mbox
    → s.listening ≡ is_some s.mbox
    → ((leave_at o s).mbox ≡ none)
      × ((leave_at o s).listening ≡ false)
      × ((leave_at o s).select_while_selected_count ≡ s.select_while_selected_count)
without_mailbox none s e h = ground (arith, e)
without_mailbox (some b) s e h = ground (arith, e)

pub do_unselect-IsCoherent : Keeps IsCoherent do_unselect
unfolding do_unselect set_selects leave_mailbox clear_pending set_idling set_state now ◌>>=◌ pure
    raise
do_unselect-IsCoherent = record {
  at = λ s h.
      let (gone, unheard, count) =
        without_mailbox s.mbox (record s { select_while_selected_count = 0 }) refl h.listened in
      if_lands IsCoherent (not (is_selected s.state)) (raise bad) _ s (λ _. h)
        (λ _. idle_session _ gone unheard (omega (arith, count)));
}

closed-IsCoherent :
    (mbox : String) (examine has_deleted : Bool) (ready expunged : Answer Unit)
    → Keeps IsCoherent (
        if examine
        then pure done
        else if has_deleted
        then (call (wait_for mbox) ready >> call (expunge mbox none true) expunged >> pure done)
        else pure done)
closed-IsCoherent mbox examine has_deleted ready expunged =
    search (keeps_rules, call-IsCoherent Unit)

pub do_close-IsCoherent :
    (has_deleted : Bool) (ready expunged : Answer Unit)
    → Keeps IsCoherent (do_close has_deleted ready expunged)
unfolding do_close clear_pending set_state leave_mailbox now ◌>>=◌ pure raise
do_close-IsCoherent has_deleted ready expunged = record {
  at = λ s h.
      let s' = record s { pending = []; state = authenticated } in
      let h' : IsLeaving s' = record { listened = h.listened; few_selects = h.few_selects } in
      if_lands IsCoherent (not (is_selected s.state)) (raise rejected) _ s (λ _. h)
        (λ _.
          on_some_lands IsCoherent s.mbox _ _ s'
            (λ e. idle_session s' e (ground (arith, e, h.listened)) h.few_selects)
            (λ mbox _.
              (closed-IsCoherent mbox s.examine has_deleted ready expunged).at (leave_mailbox s').0
                (leave_any-IsCoherent s' h')));
}

pub early-IsCoherent : Keeps IsCoherent fetch_too_early
unfolding fetch_too_early set_fetches now ◌>>=◌ raise
early-IsCoherent = record {
  at = λ s h.
      let s' = record s { fetch_while_pending_count = s.fetch_while_pending_count + 1 } in
      if_lands IsCoherent (ltb max_fetches (s.fetch_while_pending_count + 1)) _ (raise rejected) s'
        (λ _. bye_at s' (record { listened = h.listened; few_selects = h.few_selects }))
        (λ _. record { listened = h.listened; chosen = h.chosen; few_selects = h.few_selects });
}
