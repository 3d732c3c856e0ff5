-- ===== src/Client/Quiet.antt =====
-- EXPUNGE responses during SEARCH, STORE and FETCH by message numbers.
use asimap.Prelude.{
  ℕ, String, ◌≡◌, refl, ap, sym, ◌∙◌, Bool, true, false, Option, none, some, List, [], ◌∷◌, ◌++◌,
  map, arith, if◌then◌else◌,
}
use mathlib.Core.Path.{subst}
use mathlib.Core.List.{append_assoc, append-nil, map-append}
use asimap.Prelude.Lists.{any_of, all_of, any_of-append}
use asimap.Result.{Result, ok, err, inconsistent, rejected}
use asimap.Mbox.State.{Notice}
use asimap.Client.{
  Session, Untagged, notice, bye, search_results, Line, untagged, tagged, Tagged, Call, wait_for,
  Answer, kept, held, arrive, lose, leave_at, counts, put_off, push_notices, pend_notices,
  is_expunge, pending_expunges, done,
}
use asimap.Client.Action.{
  Action, pure, raise, now, ◌>>=◌, ◌>>◌, push, push_tagged, send_pending_notifications, tried, call,
  after_call, leave_mailbox, unceremonious_bye, disconnect,
}
use asimap.Client.Selected.{found_messages, do_search, stored_messages, or_empty, do_store}
use asimap.Client.Dispatch.{Request, handle, response, respond, command}
use asimap.Client.Keeps.{Keeps, if_keeps, if_lands, with_mailbox_lands, Keeps-bind, keeps_rules}

abbrev pub is_expunged : Notice → Bool
is_expunged (Notice.expunged n) = true
is_expunged _ = false

abbrev pub is_expunge_line : Untagged → Bool
is_expunge_line (notice n) = is_expunged n
is_expunge_line _ = false

abbrev pub is_tagged : Line → Bool
is_tagged (tagged tag t) = true
is_tagged (untagged u) = false

-- Untagged lines have been added, no EXPUNGE among them, and the client is still not idling.
pub record IsQuiet (s s' : Session) : Type 0 where
  pub added : List Untagged
  pub lines : s'.pushed ≡ s.pushed ++ map untagged added
  pub no_expunge : any_of is_expunge_line added ≡ false
  pub awake : s'.idling ≡ false

quiet_notices :
    (notices : List Notice)
    → any_of is_expunged notices ≡ false
    → any_of is_expunge_line (map notice notices) ≡ false
quiet_notices [] h = refl
quiet_notices (n ∷ notices) h = ground (arith, quiet_notices notices)

-- What `pending_expunges` looks for is there for every EXPUNGE.
no_expunged :
    (notices : List Notice) → any_of is_expunge notices ≡ false → any_of is_expunged notices ≡ false
no_expunged [] h = refl
no_expunged (Notice.expunged n ∷ notices) h = cc
no_expunged (Notice.fetched n f u ∷ notices) h = no_expunged notices (ground arith)
no_expunged (Notice.exists n ∷ notices) h = no_expunged notices h
no_expunged (Notice.recent n ∷ notices) h = no_expunged notices h

quiet_counts :
    (notices : List Notice) → any_of is_expunge_line (map notice (counts notices)) ≡ false
quiet_counts [] = refl
quiet_counts (Notice.exists n ∷ notices) = quiet_counts notices
quiet_counts (Notice.recent n ∷ notices) = quiet_counts notices
quiet_counts (Notice.expunged n ∷ notices) = quiet_counts notices
quiet_counts (Notice.fetched n f u ∷ notices) = quiet_counts notices

-- What `Mailbox.store` returns are FETCH responses.
abbrev pub IsFlagsOnly : Result (List Notice) → Type 0
IsFlagsOnly (ok notices) = any_of is_expunged notices ≡ false
IsFlagsOnly (err e) = Unit

module _ (s0 : Session) where
  IsQuiet-more :
      (s t : Session) (more : List Untagged)
      → t.pushed ≡ s.pushed ++ map untagged more
      → any_of is_expunge_line more ≡ false
      → t.idling ≡ false
      → IsQuiet s0 s
      → IsQuiet s0 t
  IsQuiet-more s t more e q i h = record {
    added = h.added ++ more;
    lines =
        e ∙ ap (λ (l : List Line). l ++ map untagged more) h.lines ∙ rw (map-append, append_assoc);
    no_expunge = ground (arith, any_of-append is_expunge_line h.added more, q, h.no_expunge);
    awake = i;
  }

  IsQuiet-same :
      (s t : Session) → t.pushed ≡ s.pushed → t.idling ≡ false → IsQuiet s0 s → IsQuiet s0 t
  IsQuiet-same s t e i h = record {
    added = h.added;
    lines = e ∙ h.lines;
    no_expunge = h.no_expunge;
    awake = i;
  }

  arrive-IsQuiet :
      (notices : List Notice) (s : Session) → IsQuiet s0 s → IsQuiet s0 (arrive notices s)
  arrive-IsQuiet notices s h =
      let counted = push_notices (counts notices) s in
      let kept = pend_notices (put_off notices) counted in
      if_keeps (IsQuiet s0) s.listening (if s.idling then push_notices notices s else kept) s
        (subst (λ b. IsQuiet s0 (if b then push_notices notices s else kept)) (sym h.awake)
          (IsQuiet-same counted kept refl h.awake (
            IsQuiet-more s counted (map notice (counts notices)) refl (quiet_counts notices) h.awake
              h)))
        h

  lose-IsQuiet : (b : Bool) (s : Session) → IsQuiet s0 s → IsQuiet s0 (lose b s)
  lose-IsQuiet true s h = IsQuiet-same s _ refl h.awake h
  lose-IsQuiet false s h = h

  leave_at-IsQuiet : (o : Option String) (s : Session) → IsQuiet s0 s → IsQuiet s0 (leave_at o s)
  leave_at-IsQuiet none s h = h
  leave_at-IsQuiet (some b) s h = IsQuiet-same s _ refl h.awake h

  call-IsQuiet : {A : Type 0} (c : Call) (a : Answer A) → Keeps (IsQuiet s0) (call c a)
  unfolding call
  call-IsQuiet c a = record {
    at = λ s h.
        let s' = record s { calls = s.calls ++ c ∷ [] } in
        lose-IsQuiet a.own_deleted (arrive a.arrived s')
          (arrive-IsQuiet a.arrived s' (IsQuiet-same s s' refl h.awake h));
  }

  bye-IsQuiet : Keeps (IsQuiet s0) (unceremonious_bye >> pure done)
  unfolding ◌>>=◌ pure leave_mailbox disconnect
  bye-IsQuiet = record {
    at = λ s h.
        IsQuiet-more (leave_mailbox s).0 _ (bye ∷ []) refl refl refl (leave_at-IsQuiet s.mbox s h);
  }

  push-IsQuiet :
      (lines : List Untagged)
      → any_of is_expunge_line lines ≡ false
      → Keeps (IsQuiet s0) (push lines)
  unfolding push
  push-IsQuiet lines q = record { at = λ s h. IsQuiet-more s _ lines refl q h.awake h }

  send-IsQuiet :
      (s : Session)
      → pending_expunges s ≡ false
      → IsQuiet s0 s
      → IsQuiet s0 (send_pending_notifications s).0
  unfolding send_pending_notifications pending_expunges
  send-IsQuiet s q h =
      IsQuiet-more s _ (map notice s.pending) refl
        (quiet_notices s.pending (no_expunged s.pending q)) h.awake h

  found-IsQuiet : (r : Result (List ℕ)) → Keeps (IsQuiet s0) (found_messages r)
  found-IsQuiet (ok results) = search (keeps_rules, push-IsQuiet (search_results results ∷ []) refl)
  found-IsQuiet (err inconsistent) = search keeps_rules
  found-IsQuiet (err e) = search keeps_rules

  stored-IsQuiet :
      (b : Bool) (r : Result (List Notice))
      → IsFlagsOnly r
      → Keeps (IsQuiet s0) (stored_messages b r)
  stored-IsQuiet true (ok notices) q = search keeps_rules
  stored-IsQuiet false (ok notices) q =
      search (keeps_rules, push-IsQuiet (map notice notices) (quiet_notices notices q))
  stored-IsQuiet b (err inconsistent) q = search keeps_rules
  stored-IsQuiet b (err e) q = search keeps_rules

  search-IsQuiet :
      (ready : Answer Unit) (searched : Answer (List ℕ)) (s : Session)
      → IsQuiet s0 s
      → IsQuiet s0 (do_search false ready searched s).0
  unfolding do_search now raise
  search-IsQuiet ready searched s h =
      with_mailbox_lands (IsQuiet s0) _ s h (bye-IsQuiet.at s h) (λ mbox.
        if_lands (IsQuiet s0) (pending_expunges s) (raise rejected) _ s (λ _. h)
          (λ _. (searching mbox).at s h))
    where
      searching :
          (mbox : String)
          → Keeps (IsQuiet s0) (
              call (wait_for mbox) (kept ready)
              >> tried (Call.search mbox) (held searched) found_messages)
      searching mbox = search (keeps_rules, call-IsQuiet, found-IsQuiet)

  tried-IsQuiet :
      {A B : Type 0} (c : Call) (a : Answer A) (handler : Result A → Action B)
      → Keeps (IsQuiet s0) (handler a.result)
      → Keeps (IsQuiet s0) (tried c a handler)
  unfolding tried call
  tried-IsQuiet c a handler k = record {
    at = λ s h. k.at (after_call c a s) ((call-IsQuiet c a).at s h);
  }

  storing-IsQuiet :
      (is_silent : Bool) (msg_set : Option (List ℕ)) (ready : Answer Unit)
      (stored : Answer (List Notice)) (mbox : String)
      → IsFlagsOnly stored.result
      → Keeps (IsQuiet s0) (
          call (wait_for mbox) (kept ready)
          >> tried (Call.store mbox (or_empty msg_set)) (held stored) (stored_messages is_silent))
  storing-IsQuiet is_silent msg_set ready stored mbox q =
      Keeps-bind _ _ (call-IsQuiet _ _)
        (λ _. tried-IsQuiet _ _ _ (stored-IsQuiet is_silent stored.result q))

  store-IsQuiet :
      (is_silent : Bool) (msg_set : Option (List ℕ)) (ready : Answer Unit)
      (stored : Answer (List Notice)) (s : Session)
      → IsFlagsOnly stored.result
      → IsQuiet s0 s
      → IsQuiet s0 (do_store false is_silent msg_set ready stored s).0
  unfolding do_store now raise ◌>>=◌ send_pending_notifications
  store-IsQuiet is_silent msg_set ready stored s q h =
      with_mailbox_lands (IsQuiet s0) _ s h (bye-IsQuiet.at s h) (λ mbox.
        if_lands (IsQuiet s0) (pending_expunges s) (raise rejected) _ s (λ _. h)
          (λ e.
            (storing-IsQuiet is_silent msg_set ready stored mbox q).at
              (send_pending_notifications s).0 (send-IsQuiet s e h)))

-- A SEARCH or STORE by message numbers.
abbrev pub IsByNumber : Request → Type 0
IsByNumber (Request.search false ready searched) = Unit
IsByNumber (Request.store false is_silent msg_set ready stored) = IsFlagsOnly stored.result
IsByNumber _ = ⊥

handle-IsQuiet :
    (request : Request) (s0 s : Session)
    → IsByNumber request
    → IsQuiet s0 s
    → IsQuiet s0 (handle request s).0
unfolding handle
handle-IsQuiet (Request.search false ready searched) s0 s q h = search-IsQuiet s0 ready searched s h
handle-IsQuiet (Request.store false is_silent msg_set ready stored) s0 s q h =
    store-IsQuiet s0 is_silent msg_set ready stored s q h
handle-IsQuiet (Request.search true ready searched) s0 s q h = absurd q
handle-IsQuiet _ s0 s q h = absurd q

-- What a command sends: untagged lines with no EXPUNGE among them, and at most one tagged line.
pub record SendsNoExpunge (s s' : Session) : Type 0 where
  pub added : List Untagged
  pub answer : List Line
  pub lines : s'.pushed ≡ s.pushed ++ map untagged added ++ answer
  pub no_expunge : any_of is_expunge_line added ≡ false
  pub only_tagged : all_of is_tagged answer ≡ true

respond_lem : (t : Option Tagged) (s s' : Session) → IsQuiet s s' → SendsNoExpunge s (respond t s')
unfolding push_tagged
respond_lem none s s' h = record {
  added = h.added;
  answer = [];
  lines = h.lines ∙ sym (append-nil (s.pushed ++ map untagged h.added));
  no_expunge = h.no_expunge;
  only_tagged = refl;
}
respond_lem (some t) s s' h = record {
  added = h.added;
  answer = tagged s'.tag t ∷ [];
  lines = rw h.lines refl;
  no_expunge = h.no_expunge;
  only_tagged = refl;
}

-- A SEARCH or STORE by message numbers, of a client that is not idling, sends it no EXPUNGE
-- response, whatever happens to its mailbox while the command waits and runs.
pub command-SendsNoExpunge :
    (tag : String) (request : Request) (s : Session)
    → s.idling ≡ false
    → IsByNumber request
    → SendsNoExpunge s (command tag request s).0
unfolding command
command-SendsNoExpunge tag request s awake q =
    let s' = record s { tag = tag } in
    let start : IsQuiet s s' = record {
      added = [];
      lines = sym (append-nil s.pushed);
      no_expunge = refl;
      awake = awake;
    } in
    respond_lem (response (handle request s').1) s (handle request s').0
      (handle-IsQuiet request s s' q start)
