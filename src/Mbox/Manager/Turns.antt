-- ===== src/Mbox/Manager/Turns.antt =====
-- Which queued commands come to run.
use asimap.Prelude.{
  ℕ, ◌≡◌, refl, ap, ◌∙◌, Bool, true, false, Option, none, List, [], ◌∷◌, ◌++◌, arith, Bool-cases,
  inl, inr,
}
use asimap.Prelude.Lists.{any_of, All}
use asimap.Result.{Error, Result, ok, err}
use asimap.Mbox.State.{Mailbox}
use asimap.Mbox.Conflict.{
  Command, ImapCommand, append, check, close, copy, delete, examine, expunge, fetch, move, noop,
  rename, search, select, status, store, would_conflict, conflict_of, is_conflicting,
  cleanup_executing_tasks,
}
use asimap.Mbox.MsgSet.{msg_set_to_msg_seq_set}
use asimap.Mbox.Resync.{Scan, check_new_msgs_and_flags}
use asimap.Mbox.Manager.{
  Queued, Round, after_round, has_deleted, Waited, clear, wait_clear, wait_empty,
  command_can_proceed, Turn, started, failed, numbered, renumbered, proceed, turn,
}

-- The commands that the session handlers put into the queue of a mailbox.
abbrev pub is_queued : ImapCommand → Bool
is_queued append = true
is_queued check = true
is_queued close = true
is_queued copy = true
is_queued delete = true
is_queued examine = true
is_queued expunge = true
is_queued fetch = true
is_queued move = true
is_queued noop = true
is_queued rename = true
is_queued search = true
is_queued select = true
is_queued status = true
is_queued store = true
is_queued _ = false

conflict_of_total :
    (c : Command) (deleted : Bool) (running : List Command) (k : ImapCommand)
    → is_queued k ≡ true
    → (b : Bool) × (conflict_of c deleted running k ≡ ok b)
unfolding conflict_of
conflict_of_total c deleted running append h = (_, refl)
conflict_of_total c deleted running check h = (_, refl)
conflict_of_total c deleted running close h = (_, refl)
conflict_of_total c deleted running copy h = (_, refl)
conflict_of_total c deleted running delete h = (_, refl)
conflict_of_total c deleted running examine h = (_, refl)
conflict_of_total c deleted running expunge h = (_, refl)
conflict_of_total c deleted running fetch h = (_, refl)
conflict_of_total c deleted running move h = (_, refl)
conflict_of_total c deleted running noop h = (_, refl)
conflict_of_total c deleted running rename h = (_, refl)
conflict_of_total c deleted running search h = (_, refl)
conflict_of_total c deleted running select h = (_, refl)
conflict_of_total c deleted running status h = (_, refl)
conflict_of_total c deleted running store h = (_, refl)
conflict_of_total c deleted running _ h = absurd (cc h)

would_conflict_total :
    (c : Command) (deleted : Bool) (running : List Command)
    → is_queued c.command ≡ true
    → (b : Bool) × (would_conflict c deleted running ≡ ok b)
unfolding would_conflict
would_conflict_total c deleted [] h = (false, refl)
would_conflict_total c deleted (r ∷ running) h =
    elim (Bool-cases (any_of (λ (x : Command). is_conflicting x.command) (r ∷ running))) [
      | inl e ↦ (true, rw e)
      | inr e ↦ let (b, f) = conflict_of_total c deleted (r ∷ running) c.command h in (b, rw (e, f))
    ]

-- In this round all the running commands complete.
abbrev pub IsLast : Round → Type 0
IsLast r = (c : Command) → r.finished c ≡ true

after_last : (r : Round) (running : List Command) → IsLast r → after_round r running ≡ []
unfolding cleanup_executing_tasks
after_last r [] h = refl
after_last r (c ∷ running) h = ground (arith, h c, after_last r running h)

alone : (c : Command) (deleted : Bool) → would_conflict c deleted [] ≡ ok false
unfolding would_conflict
alone c deleted = refl

-- A wait that ends, with no exception and with a mailbox that has the property.
abbrev Ends : (Mailbox → Type 0) → Waited → Type 0
Ends P w = (m : Mailbox) × (running : List Command) × (w ≡ clear m running) × P m

-- The mailboxes that the rounds leave have the property.
abbrev pub AllLeave : (Mailbox → Type 0) → List Round → Type 0
AllLeave P rounds = All (λ (r : Round). P r.mailbox) rounds

wait_clear_now :
    (c : Command) (m : Mailbox) (running : List Command) (rounds : List Round)
    → would_conflict c (has_deleted m) running ≡ ok false
    → wait_clear c m running rounds ≡ clear m running
unfolding wait_clear
wait_clear_now c m running [] e = rw (e, wait_clear)
wait_clear_now c m running (r ∷ rounds) e = rw (e, wait_clear)

wait_clear_later :
    (c : Command) (m : Mailbox) (running : List Command) (r : Round) (rounds : List Round)
    → would_conflict c (has_deleted m) running ≡ ok true
    → wait_clear c m running (r ∷ rounds) ≡ wait_clear c r.mailbox (after_round r running) rounds
unfolding wait_clear
wait_clear_later c m running r rounds e = rw (e, wait_clear)

module _ (P : Mailbox → Type 0) where
  wait_clear-Ends :
      (c : Command) (m : Mailbox) (running : List Command) (before : List Round) (r : Round)
      → is_queued c.command ≡ true
      → IsLast r
      → P m
      → AllLeave P before
      → P r.mailbox
      → Ends P (wait_clear c m running (before ++ r ∷ []))
  wait_clear-Ends c m running [] r q last pm ps pr =
      let (b, e) = would_conflict_total c (has_deleted m) running q in
      elim (Bool-cases b) [
        | inr f ↦ (m, running, wait_clear_now c m running (r ∷ []) (e ∙ ap ok f), pm)
        | inl t ↦
            let gone = after_last r running last in
            (
              r.mailbox,
              after_round r running,
              wait_clear_later c m running r [] (e ∙ ap ok t)
                  ∙ wait_clear_now c r.mailbox (after_round r running) [] (
                      ap (would_conflict c (has_deleted r.mailbox)) gone
                      ∙ alone c (has_deleted r.mailbox)),
              pr,
            )
      ]
  wait_clear-Ends c m running (s ∷ before) r q last pm ps pr =
      let (b, e) = would_conflict_total c (has_deleted m) running q in
      elim (Bool-cases b) [
        | inr f ↦ (m, running, wait_clear_now c m running (s ∷ before ++ r ∷ []) (e ∙ ap ok f), pm)
        | inl t ↦
            let (m', running', h, p) =
              wait_clear-Ends c s.mailbox (after_round s running) before r q last ps.0 ps.1 pr in
            (m', running', wait_clear_later c m running s (before ++ r ∷ []) (e ∙ ap ok t) ∙ h, p)
      ]

  wait_empty-Ends :
      (m : Mailbox) (running : List Command) (before : List Round) (r : Round)
      → IsLast r
      → P m
      → AllLeave P before
      → P r.mailbox
      → Ends P (wait_empty m running (before ++ r ∷ []))
  unfolding wait_empty
  wait_empty-Ends m [] before r last pm ps pr = (m, [], refl, pm)
  wait_empty-Ends m (c ∷ running) [] r last pm ps pr =
      (r.mailbox, [], ap (λ rs. wait_empty r.mailbox rs []) (after_last r (c ∷ running) last), pr)
  wait_empty-Ends m (c ∷ running) (s ∷ before) r last pm ps pr =
      wait_empty-Ends s.mailbox (after_round s (c ∷ running)) before r last ps.0 ps.1 pr

  can_proceed-Ends :
      (c : Command) (stale : Bool) (before more_before : List Round) (r : Round) (m : Mailbox)
      (running : List Command)
      → is_queued c.command ≡ true
      → IsLast r
      → P m
      → AllLeave P before
      → AllLeave P more_before
      → P r.mailbox
      → Ends P (command_can_proceed c stale (before ++ r ∷ []) (more_before ++ r ∷ []) m running)
  unfolding command_can_proceed
  can_proceed-Ends c stale before more_before r m running q last pm ps qs pr =
      let (m', running', e, p) =
        wait_clear-Ends c m (cleanup_executing_tasks running).0 before r q last pm ps pr in
      elim (Bool-cases stale) [
        | inl t ↦
            let (m'', running'', f, p') = wait_empty-Ends m' running' more_before r last p qs pr in
            (m'', running'', rw (t, e) f, p')
        | inr t ↦ (m', running', rw (t, e) refl, p)
      ]

-- The numbers of the message set in a mailbox that has them all
abbrev pub Accepts : Queued → Mailbox → Type 0
Accepts q m =
    (numbers : Option (List ℕ)) × (msg_set_to_msg_seq_set q.msg_set q.uid_command m ≡ ok numbers)

-- The mailbox accepts the message set, and a resync of it raises nothing and leaves one that does.
pub record IsSmooth (q : Queued) (scan : Scan) (m : Mailbox) : Type 0 where
  pub accepted : Accepts q m
  pub resynced : (b : Bool) × ((check_new_msgs_and_flags scan none true m).0 ≡ ok b)
  pub accepted_after : Accepts q (check_new_msgs_and_flags scan none true m).1

-- A turn by which the command is made ready.
abbrev pub Starts : Queued → Turn → Type 0
Starts q t =
    (numbers : Option (List ℕ)) × (m : Mailbox) × (running : List Command) × (t
      ≡ started (numbered q numbers) m running)

renumbered-Starts :
    (q : Queued) (numbers : Option (List ℕ)) (scan : Scan) (r : Result Bool) (m : Mailbox)
    (b : Bool)
    → Accepts q m
    → r ≡ ok b
    → Starts q (renumbered q numbers (r, m))
renumbered-Starts q numbers scan (err e) m b h eq = absurd (cc eq)
renumbered-Starts q numbers scan (ok false) m b h eq = (numbers, m, [], refl)
renumbered-Starts q numbers scan (ok true) m b h eq =
    let (numbers', e) = h in (numbers', m, [], rw (e, renumbered))

proceed-Starts :
    (q : Queued) (numbers : Option (List ℕ)) (scan : Scan) (m : Mailbox) (running : List Command)
    → IsSmooth q scan m
    → Starts q (proceed q numbers scan (clear m running))
proceed-Starts q numbers scan m (c ∷ running) h = (numbers, m, c ∷ running, refl)
proceed-Starts q numbers scan m [] h =
    let (b, e) = h.resynced in
    renumbered-Starts q numbers scan (check_new_msgs_and_flags scan none true m).0
      (check_new_msgs_and_flags scan none true m).1 b h.accepted_after e

pub turn-proceed :
    (q : Queued) (stale : Bool) (rounds more_rounds : List Round) (scan : Scan) (m : Mailbox)
    (running : List Command) (numbers : Option (List ℕ))
    → msg_set_to_msg_seq_set q.msg_set q.uid_command m ≡ ok numbers
    → turn q stale rounds more_rounds scan m running
      ≡ proceed q numbers scan
          (command_can_proceed (numbered q numbers) stale rounds more_rounds m running)
unfolding turn
turn-proceed q stale rounds more_rounds scan m running numbers e = rw (e, turn)

pub turn-failed :
    (q : Queued) (stale : Bool) (rounds more_rounds : List Round) (scan : Scan) (m : Mailbox)
    (running : List Command) (e : Error)
    → msg_set_to_msg_seq_set q.msg_set q.uid_command m ≡ err e
    → turn q stale rounds more_rounds scan m running ≡ failed e
unfolding turn
turn-failed q stale rounds more_rounds scan m running e h = rw (h, turn)

-- A command of a kind that is queued is made ready once the commands that were running have all
-- completed, if not before, however long that takes and whatever they do to the mailbox, provided
-- its message set is accepted in the mailbox that it begins with and in each that they leave, also
-- after a resync, and no resync of these raises.
pub turn-Starts :
    (q : Queued) (stale : Bool) (before more_before : List Round) (r : Round) (scan : Scan)
    (m : Mailbox) (running : List Command)
    → is_queued q.command.command ≡ true
    → IsLast r
    → IsSmooth q scan m
    → AllLeave (IsSmooth q scan) before
    → AllLeave (IsSmooth q scan) more_before
    → IsSmooth q scan r.mailbox
    → Starts q (turn q stale (before ++ r ∷ []) (more_before ++ r ∷ []) scan m running)
turn-Starts q stale before more_before r scan m running k last h hs ks hr =
    let (numbers, e) = h.accepted in
    let (m', running', w, h') =
      can_proceed-Ends (IsSmooth q scan) (numbered q numbers) stale before more_before r m running k
        last h hs ks hr in
    let (numbers', m'', running'', p) = proceed-Starts q numbers scan m' running' h' in
    (
      numbers',
      m'',
      running'',
      turn-proceed q stale (before ++ r ∷ []) (more_before ++ r ∷ []) scan m running numbers e
          ∙ ap (proceed q numbers scan) w
          ∙ p,
    )
