-- ===== src/Client/Speaks.antt =====
-- Every command is answered by one tagged response, IDLE by none until DONE.
use asimap.Prelude.{
  ℕ, String, ◌≡◌, refl, sym, ◌∙◌, ◌⊎◌, inl, inr, Bool, true, false, Option, none, some, List, [],
  ◌∷◌, ◌++◌, map, if◌then◌else◌,
}
use mathlib.Core.List.{append-nil}
use asimap.Result.{
  Error, Result, ok, err, bad, timed_out, cancelled, inconsistent, rejected, no_such_mailbox,
}
use asimap.Mbox.State.{Notice}
use asimap.Client.{
  Session, Untagged, Tagged, Line, untagged, tagged, Reply, done, with_code, Code, Call, Answer,
}
use asimap.Client.Action.{
  Action, pure, raise, now, ◌>>=◌, on_some, continue, tried, as_idling, push, push_tagged,
  send_pending_notifications, set_idling, after_call,
}
use asimap.Client.Select.{opened, enter, select_again, do_select, do_unselect, do_close}
use asimap.Client.Anytime.{do_noop, do_capability, do_namespace, do_id, do_idle, do_logout}
use asimap.Client.Folders.{
  refuse_login, do_create, do_delete, do_rename, do_subscribe, do_status, do_append,
}
use asimap.Client.Selected.{
  with_mailbox, do_check, do_expunge, found_messages, do_search, after_fetch, run_fetch,
  fetch_too_early, do_fetch, stored_messages, do_store, do_copy, expunge_moved, do_move,
}
use asimap.Client.Dispatch.{Request, idle, handle, response, raises, command}
use asimap.Client.Answered.{Extends, Extends-self, handle-Extends}

-- A handler that does not leave the answer for later: there is a response, or it is cancelled.
abbrev Answers : Result Reply → Type 0
Answers r = ((t : Tagged) × (response r ≡ some t)) ⊎ (r ≡ err cancelled)

record Speaks (m : Action Reply) : Type 0 where
  at : (s : Session) → Answers (m s).1

Speaks-done : Speaks (pure done)
unfolding pure
Speaks-done = record { at = λ s. inl (Tagged.completed, refl) }

Speaks-with_code : (c : Code) → Speaks (pure (with_code c))
unfolding pure
Speaks-with_code c = record { at = λ s. inl (Tagged.completed_with c, refl) }

error_response : (e : Error) → Answers (err e)
error_response rejected = inl (_, refl)
error_response no_such_mailbox = inl (_, refl)
error_response cancelled = inr refl
error_response _ = inl (_, refl)

Speaks-raise : (e : Error) → Speaks (raise e)
unfolding raise
Speaks-raise e = record { at = λ s. error_response e }

Speaks-now : (f : Session → Action Reply) → ((s : Session) → Speaks (f s)) → Speaks (now f)
unfolding now
Speaks-now f k = record { at = λ s. (k s).at s }

Speaks-if : (b : Bool) (m n : Action Reply) → Speaks m → Speaks n → Speaks (if b then m else n)
Speaks-if true m n km kn = km
Speaks-if false m n km kn = kn

Speaks-on_some :
    {A : Type 0} (o : Option A) (m : Action Reply) (f : A → Action Reply)
    → Speaks m
    → ((a : A) → Speaks (f a))
    → Speaks (on_some o m f)
Speaks-on_some none m f km kf = km
Speaks-on_some (some a) m f km kf = kf a

continue-Speaks :
    {A : Type 0} (f : A → Action Reply) (s : Session) (r : Result A)
    → ((a : A) → Speaks (f a))
    → Answers (continue f s r).1
continue-Speaks f s (ok a) kf = (kf a).at s
continue-Speaks f s (err e) kf = error_response e

Speaks-bind :
    {A : Type 0} (m : Action A) (f : A → Action Reply) → ((a : A) → Speaks (f a)) → Speaks (m >>= f)
unfolding ◌>>=◌
Speaks-bind m f kf = record { at = λ s. continue-Speaks f (m s).0 (m s).1 kf }

Speaks-tried :
    {A : Type 0} (c : Call) (a : Answer A) (handler : Result A → Action Reply)
    → ((r : Result A) → Speaks (handler r))
    → Speaks (tried c a handler)
unfolding tried
Speaks-tried c a handler kh = record { at = λ s. (kh a.result).at (after_call c a s) }

Speaks-as_idling : (m : Action Reply) → Speaks m → Speaks (as_idling m)
unfolding as_idling
Speaks-as_idling m k = record { at = λ s. k.at (record s { idling = true }) }

ruleset speaks_rules = (
  Speaks-done, Speaks-with_code, Speaks-raise, Speaks-now, Speaks-if, Speaks-on_some, Speaks-bind,
  Speaks-tried, Speaks-as_idling,
)

opened-Speaks :
    (name : String) (examine : Bool) (msgs : Result (List Untagged))
    → Speaks (opened name examine msgs)
opened-Speaks name examine (ok msgs) = search speaks_rules
opened-Speaks name examine (err e) = search speaks_rules

found-Speaks : (r : Result (List ℕ)) → Speaks (found_messages r)
found-Speaks (ok results) = search speaks_rules
found-Speaks (err inconsistent) = search speaks_rules
found-Speaks (err e) = search speaks_rules

after_fetch-Speaks : (mbox : String) (r : Result (Unit {0})) → Speaks (after_fetch mbox r)
after_fetch-Speaks mbox (ok t) = search speaks_rules
after_fetch-Speaks mbox (err inconsistent) = search speaks_rules
after_fetch-Speaks mbox (err e) = search speaks_rules

stored-Speaks : (b : Bool) (r : Result (List Notice)) → Speaks (stored_messages b r)
stored-Speaks true (ok notices) = search speaks_rules
stored-Speaks false (ok notices) = search speaks_rules
stored-Speaks b (err inconsistent) = search speaks_rules
stored-Speaks b (err e) = search speaks_rules

abbrev IsIdle : Request → Type 0
IsIdle idle = Unit
IsIdle _ = ⊥

handle-Speaks : (request : Request) → ¬ IsIdle request → Speaks (handle request)
unfolding handle do_noop do_capability do_namespace do_id do_logout do_select do_unselect do_close
    refuse_login do_create do_delete do_rename do_subscribe do_status do_append do_check do_expunge
    do_search do_fetch do_store do_copy do_move enter select_again with_mailbox run_fetch
    fetch_too_early expunge_moved
handle-Speaks idle h = absurd (h tt)
handle-Speaks _ h =
    search (speaks_rules, opened-Speaks, found-Speaks, after_fetch-Speaks, stored-Speaks) depth 24

-- The tagged line of a command, which IDLE does not have.
abbrev pub tagged_lines : Request → String → Tagged → List Line
tagged_lines idle tag t = []
tagged_lines _ tag t = tagged tag t ∷ []

tagged_lines_lem :
    (request : Request) (tag : String) (t : Tagged)
    → ¬ IsIdle request
    → tagged_lines request tag t ≡ tagged tag t ∷ []
tagged_lines_lem idle tag t h = absurd (h tt)
tagged_lines_lem _ tag t h = refl

-- A command that is cancelled is not answered.
abbrev pub is_cancelled : Option Error → Bool
is_cancelled (some cancelled) = true
is_cancelled _ = false

abbrev pub last_lines : Option Error → Request → String → Tagged → List Line
last_lines raised request tag t = if is_cancelled raised then [] else tagged_lines request tag t

-- What a command adds to the lines: untagged ones, and then its tagged line.
pub record IsAnswered (tag : String) (request : Request) (s : Session) (r : Session × Option Error)
    : Type 0 where
  pub added : List Untagged
  pub answer : Tagged
  pub lines : r.0.pushed ≡ s.pushed ++ map untagged added ++ last_lines r.1 request tag answer

respond_lem :
    (tag : String) (t : Tagged) (s s' : Session)
    → Extends (record s { tag = tag }) s'
    → (added : List Untagged) × ((push_tagged t s').0.pushed
        ≡ s.pushed ++ map untagged added ++ tagged tag t ∷ [])
unfolding push_tagged
respond_lem tag t s s' h = (h.added, rw (h.lines, h.same_tag) refl)

-- IDLE is not answered.
waits :
    (tag : String) (s : Session)
    → (command tag idle s).0.pushed ≡ (handle idle (record s { tag = tag })).0.pushed
unfolding command do_idle pure push send_pending_notifications set_idling ◌>>=◌
waits tag s = refl

-- What has a response is not cancelled.
not_cancelled :
    (r : Result Reply) (t : Tagged) → response r ≡ some t → is_cancelled (raises r) ≡ false
not_cancelled (ok r) t h = refl
not_cancelled (err cancelled) t h = cc
not_cancelled (err bad) t h = refl
not_cancelled (err timed_out) t h = refl
not_cancelled (err rejected) t h = refl
not_cancelled (err no_such_mailbox) t h = refl
not_cancelled (err _) t h = refl

answers_at_once :
    (tag : String) (request : Request) (s : Session)
    → ¬ IsIdle request
    → IsAnswered tag request s (command tag request s)
unfolding command
answers_at_once tag request s h =
    let s' = record s { tag = tag } in
    let k = (handle-Extends s' request).at s' (Extends-self s') in
    elim ((handle-Speaks request h).at s') [
      | inl (t, e) ↦
          let (added, lines) = respond_lem tag t s (handle request s').0 k in
          record {
            added = added;
            answer = t;
            lines =
                rw (not_cancelled (handle request s').1 t e, e, tagged_lines_lem request tag t h)
                  lines;
          }
      | inr e ↦ record {
        added = k.added;
        answer = Tagged.completed;
        lines = rw e (k.lines ∙ sym (append-nil (s.pushed ++ map untagged k.added)));
      }
    ]

-- Whatever its mailbox and the user server do, a command, but for LIST and LSUB, adds untagged lines
-- to what is sent to the client and then exactly one tagged line, with its tag. IDLE adds none, and
-- neither does a command that is cancelled, as it is when it ends the session with a BYE.
pub command-IsAnswered :
    (tag : String) (request : Request) (s : Session)
    → IsAnswered tag request s (command tag request s)
unfolding command do_idle pure push send_pending_notifications set_idling ◌>>=◌
command-IsAnswered tag idle s =
    let s' = record s { tag = tag } in
    let h = (handle-Extends s' idle).at s' (Extends-self s') in
    record {
      added = h.added;
      answer = Tagged.completed;
      lines = waits tag s ∙ h.lines ∙ sym (append-nil (s.pushed ++ map untagged h.added));
    }
command-IsAnswered tag request s = answers_at_once tag request s (λ h. h)
