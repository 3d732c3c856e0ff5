-- ===== src/Client/Answered.antt =====
-- What a command adds to the lines that are sent to the client.
use asimap.Prelude.{
  ℕ, String, ◌≡◌, refl, ap, sym, ◌∙◌, Bool, true, false, Option, none, some, List, [], ◌∷◌, ◌++◌,
  map, if◌then◌else◌,
}
use mathlib.Core.List.{append_assoc, append-nil, map-append}
use asimap.Result.{Result, ok, err, inconsistent}
use asimap.Mbox.State.{Notice}
use asimap.Client.{
  Session, ClientState, Untagged, bye, Line, untagged, Call, Answer, arrive, lose, leave_at, notice,
  push_notices, pend_notices, counts, put_off,
}
use asimap.Client.Action.{
  Action, set_idling, clear_pending, set_state, set_client_id, set_fetches, set_selects, push,
  send_pending_notifications, log, call, leave_mailbox, disconnect, as_idling,
}
use asimap.Client.Select.{
  set_mailbox, opened, enter, select_again, do_select, do_unselect, do_close,
}
use asimap.Client.Anytime.{do_noop, do_capability, do_namespace, do_id, do_idle, do_logout}
use asimap.Client.Folders.{
  refuse_login, do_create, do_delete, do_rename, do_subscribe, do_status, do_append,
}
use asimap.Client.Selected.{
  with_mailbox, do_check, do_expunge, found_messages, do_search, after_fetch, run_fetch,
  fetch_too_early, do_fetch, stored_messages, do_store, run_copy, do_copy, expunge_moved, do_move,
}
use asimap.Client.Dispatch.{Request, idle, handle}
use asimap.Client.Keeps.{Keeps, if_keeps, keeps_rules}

-- Untagged lines have been added, and no other.
pub record Extends (s s' : Session) : Type 0 where
  pub added : List Untagged
  pub lines : s'.pushed ≡ s.pushed ++ map untagged added
  pub same_tag : s'.tag ≡ s.tag

pub Extends-self : (s : Session) → Extends s s
Extends-self s = record { added = []; lines = sym (append-nil s.pushed); same_tag = refl }

module _ (s0 : Session) where
  -- A change that leaves the lines alone.
  same_lines :
      (s s' : Session) → s'.pushed ≡ s.pushed → s'.tag ≡ s.tag → Extends s0 s → Extends s0 s'
  same_lines s s' e t h = record { added = h.added; lines = e ∙ h.lines; same_tag = t ∙ h.same_tag }

  more_lines :
      (s s' : Session) (more : List Untagged)
      → s'.pushed ≡ s.pushed ++ map untagged more
      → s'.tag ≡ s.tag
      → Extends s0 s
      → Extends s0 s'
  more_lines s s' more e t h = record {
    added = h.added ++ more;
    lines =
        e ∙ ap (λ (l : List Line). l ++ map untagged more) h.lines ∙ rw (map-append, append_assoc);
    same_tag = t ∙ h.same_tag;
  }

  arrive-Extends :
      (notices : List Notice) (s : Session) → Extends s0 s → Extends s0 (arrive notices s)
  arrive-Extends notices s h =
      let shown = push_notices notices s in
      let counted = push_notices (counts notices) s in
      let kept = pend_notices (put_off notices) counted in
      if_keeps (Extends s0) s.listening (if s.idling then shown else kept) s
        (if_keeps (Extends s0) s.idling shown kept
          (more_lines s shown (map notice notices) refl refl h)
          (same_lines counted kept refl refl
            (more_lines s counted (map notice (counts notices)) refl refl h)))
        h

  lose-Extends : (b : Bool) (s : Session) → Extends s0 s → Extends s0 (lose b s)
  lose-Extends true s h = same_lines s _ refl refl h
  lose-Extends false s h = h

  leave_at-Extends : (o : Option String) (s : Session) → Extends s0 s → Extends s0 (leave_at o s)
  leave_at-Extends none s h = h
  leave_at-Extends (some b) s h = same_lines s _ refl refl h

  set_idling-Extends : (b : Bool) → Keeps (Extends s0) (set_idling b)
  unfolding set_idling
  set_idling-Extends b = record { at = λ s h. same_lines s _ refl refl h }

  clear_pending-Extends : Keeps (Extends s0) clear_pending
  unfolding clear_pending
  clear_pending-Extends = record { at = λ s h. same_lines s _ refl refl h }

  set_state-Extends : (st : ClientState) → Keeps (Extends s0) (set_state st)
  unfolding set_state
  set_state-Extends st = record { at = λ s h. same_lines s _ refl refl h }

  set_client_id-Extends :
      (id_dict : List (String × String)) → Keeps (Extends s0) (set_client_id id_dict)
  unfolding set_client_id
  set_client_id-Extends id_dict = record { at = λ s h. same_lines s _ refl refl h }

  set_fetches-Extends : (n : ℕ) → Keeps (Extends s0) (set_fetches n)
  unfolding set_fetches
  set_fetches-Extends n = record { at = λ s h. same_lines s _ refl refl h }

  set_selects-Extends : (n : ℕ) → Keeps (Extends s0) (set_selects n)
  unfolding set_selects
  set_selects-Extends n = record { at = λ s h. same_lines s _ refl refl h }

  set_mailbox-Extends :
      (name : String) (examine : Bool) → Keeps (Extends s0) (set_mailbox name examine)
  unfolding set_mailbox
  set_mailbox-Extends name examine = record { at = λ s h. same_lines s _ refl refl h }

  log-Extends : (c : Call) → Keeps (Extends s0) (log c)
  unfolding log
  log-Extends c = record { at = λ s h. same_lines s _ refl refl h }

  push-Extends : (lines : List Untagged) → Keeps (Extends s0) (push lines)
  unfolding push
  push-Extends lines = record { at = λ s h. more_lines s _ lines refl refl h }

  send_pending-Extends : Keeps (Extends s0) send_pending_notifications
  unfolding send_pending_notifications
  send_pending-Extends = record { at = λ s h. more_lines s _ (map notice s.pending) refl refl h }

  call-Extends : {A : Type 0} (c : Call) (a : Answer A) → Keeps (Extends s0) (call c a)
  unfolding call
  call-Extends c a = record {
    at = λ s h.
        let s' = record s { calls = s.calls ++ c ∷ [] } in
        lose-Extends a.own_deleted (arrive a.arrived s')
          (arrive-Extends a.arrived s' (same_lines s s' refl refl h));
  }

  leave_mailbox-Extends : Keeps (Extends s0) leave_mailbox
  unfolding leave_mailbox
  leave_mailbox-Extends = record { at = λ s h. leave_at-Extends s.mbox s h }

  disconnect-Extends : Keeps (Extends s0) disconnect
  unfolding disconnect
  disconnect-Extends = record { at = λ s h. more_lines s _ (bye ∷ []) refl refl h }

  as_idling-Extends :
      {A : Type 0} (m : Action A) → Keeps (Extends s0) m → Keeps (Extends s0) (as_idling m)
  unfolding as_idling
  as_idling-Extends m k = record {
    at = λ s h. same_lines _ _ refl refl (k.at _ (same_lines s _ refl refl h));
  }

ruleset extends_rules = (
  keeps_rules, set_idling-Extends, clear_pending-Extends, set_state-Extends, set_client_id-Extends,
  set_fetches-Extends, set_selects-Extends, set_mailbox-Extends, log-Extends, push-Extends,
  send_pending-Extends, call-Extends, leave_mailbox-Extends, disconnect-Extends, as_idling-Extends,
)

module _ (s0 : Session) where
  opened-Extends :
      (name : String) (examine : Bool) (msgs : Result (List Untagged))
      → Keeps (Extends s0) (opened name examine msgs)
  opened-Extends name examine (ok msgs) = search extends_rules
  opened-Extends name examine (err e) = search extends_rules

  found-Extends : (r : Result (List ℕ)) → Keeps (Extends s0) (found_messages r)
  found-Extends (ok results) = search extends_rules
  found-Extends (err inconsistent) = search extends_rules
  found-Extends (err e) = search extends_rules

  after_fetch-Extends :
      (mbox : String) (r : Result (Unit {0})) → Keeps (Extends s0) (after_fetch mbox r)
  after_fetch-Extends mbox (ok t) = search extends_rules
  after_fetch-Extends mbox (err inconsistent) = search extends_rules
  after_fetch-Extends mbox (err e) = search extends_rules

  stored-Extends : (b : Bool) (r : Result (List Notice)) → Keeps (Extends s0) (stored_messages b r)
  stored-Extends true (ok notices) = search extends_rules
  stored-Extends false (ok notices) = search extends_rules
  stored-Extends b (err inconsistent) = search extends_rules
  stored-Extends b (err e) = search extends_rules

  pub handle-Extends : (request : Request) → Keeps (Extends s0) (handle request)
  unfolding handle do_noop do_capability do_namespace do_id do_idle do_logout do_select do_unselect
      do_close refuse_login do_create do_delete do_rename do_subscribe do_status do_append do_check
      do_expunge do_search do_fetch do_store do_copy do_move enter select_again with_mailbox
      run_fetch fetch_too_early run_copy expunge_moved
  handle-Extends idle = search extends_rules
  handle-Extends _ =
      search (extends_rules, opened-Extends, found-Extends, after_fetch-Extends, stored-Extends)
        depth 24
