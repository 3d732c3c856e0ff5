-- ===== src/Mbox/Manager/Numbering.antt =====
-- The message numbers with which queued commands come to run, and the commands that never do.
use asimap.Prelude.{
  ℕ, ◌≡◌, refl, ap, sym, ◌∙◌, Bool, true, false, Option, none, some, List, [], ◌∷◌, ◌++◌, arith,
  inl, inr,
}
use asimap.Prelude.Lists.{All}
use asimap.Prelude.Ascending.{sorted_set}
use asimap.Result.{Error, Result, ok, err, bad, runtime_error, Result-cases}
use asimap.SeqSet.{SeqElt, sequence_set_to_list, collect, elt_numbers, one, pair, num, star}
use asimap.SeqSet.Numbers.{Fits, sequence_set_to_list-Fits}
use asimap.Mbox.State.{Mailbox}
use asimap.Mbox.Conflict.{Command}
use asimap.Mbox.MsgSet.{msg_set_to_msg_seq_set}
use asimap.Mbox.Resync.{Scan, check_new_msgs_and_flags}
use asimap.Mbox.Manager.{
  Queued, Round, Waited, still_waiting, raised, clear, command_can_proceed, Turn, dropped, started,
  failed, numbered, renumbered, proceed, turn,
}
use asimap.Mbox.Manager.Turns.{turn-proceed, turn-failed}

elt_error :
    (seq_max : ℕ) (uid_cmd : Bool) (elt : SeqElt) (e : Error)
    → elt_numbers seq_max uid_cmd elt ≡ err e
    → e ≡ bad
unfolding elt_numbers
elt_error seq_max uid_cmd (one star) e h = ground arith
elt_error seq_max uid_cmd (one (num n)) e h = ground arith
elt_error seq_max uid_cmd (pair a b) e h = ground arith

collect_error :
    (seq_max : ℕ) (uid_cmd : Bool) (acc : List ℕ) (elts : List SeqElt) (e : Error)
    → collect seq_max uid_cmd acc elts ≡ err e
    → e ≡ bad
unfolding collect
collect_error seq_max uid_cmd acc [] e h = cc
collect_error seq_max uid_cmd acc (elt ∷ elts) e h =
    elim (Result-cases (elt_numbers seq_max uid_cmd elt)) [
      | inl (e', f) ↦ ground (arith, f, elt_error seq_max uid_cmd elt e' f)
      | inr (xs, f) ↦ collect_error seq_max uid_cmd (acc ++ xs) elts e (ground (arith, f))
    ]

refused :
    (msg_set : List SeqElt) (m : Mailbox)
    → ¬ All (Fits m.num_msgs) msg_set
    → msg_set_to_msg_seq_set (some msg_set) false m ≡ err bad
unfolding msg_set_to_msg_seq_set sequence_set_to_list
refused msg_set m n = elim (Result-cases (collect m.num_msgs false [] msg_set)) [
  | inl (e, f) ↦ ground (arith, f, collect_error m.num_msgs false [] msg_set e f)
  | inr (xs, f) ↦
      absurd (n ((sequence_set_to_list-Fits msg_set m.num_msgs).0 (sorted_set xs) (rw f)))
]

-- A command whose message set names a number that the mailbox does not have when the command is taken
-- from the queue is never made ready, whatever happens: the exception is logged and ignored.
pub turn_drops :
    (q : Queued) (msg_set : List SeqElt) (stale : Bool) (rounds more_rounds : List Round)
    (scan : Scan) (m : Mailbox) (running : List Command)
    → q.msg_set ≡ some msg_set
    → q.uid_command ≡ false
    → ¬ All (Fits m.num_msgs) msg_set
    → turn q stale rounds more_rounds scan m running ≡ dropped bad
turn_drops q msg_set stale rounds more_rounds scan m running s u n =
    turn-failed q stale rounds more_rounds scan m running bad (rw (s, u) (refused msg_set m n))

-- The numbers of a command that is made ready.
abbrev numbers_of : Turn → Option (List ℕ)
numbers_of (started c m running) = c.msg_set_as_set
numbers_of _ = none

abbrev mailbox_of : Mailbox → Turn → Mailbox
mailbox_of m' (started c m running) = m
mailbox_of m' _ = m'

failed_starts_not :
    (e : Error) (c : Command) (m : Mailbox) (running : List Command)
    → failed e ≡ started c m running
    → ⊥
failed_starts_not runtime_error c m running h = cc h
failed_starts_not _ c m running h = cc h

-- The wait has ended with no command running, and the resync of the mailbox that it has ended with
-- finds a change.
pub record FindsChange (scan : Scan) (w : Waited) (before : Mailbox) : Type 0 where
  pub idle : w ≡ clear before []
  pub changes : (check_new_msgs_and_flags scan none true before).0 ≡ ok true

-- The numbers of a command are those from before the wait, and no resync has found a change; or it
-- has, and they are those of the mailbox that it has led to.
pub data HasNumbers (q : Queued) (scan : Scan) (w : Waited) (numbers : Option (List ℕ))
    (c : Command) (m : Mailbox) : Type 0 where
  kept :
      ¬ ((before : Mailbox) × FindsChange scan w before)
      → c.msg_set_as_set ≡ numbers
      → HasNumbers q scan w numbers c m
  renewed :
      (before : Mailbox)
      → FindsChange scan w before
      → m ≡ (check_new_msgs_and_flags scan none true before).1
      → msg_set_to_msg_seq_set q.msg_set q.uid_command m ≡ ok c.msg_set_as_set
      → HasNumbers q scan w numbers c m

renumbered-failed :
    (q : Queued) (numbers : Option (List ℕ)) (m : Mailbox) (e : Error)
    → msg_set_to_msg_seq_set q.msg_set q.uid_command m ≡ err e
    → renumbered q numbers (ok true, m) ≡ failed e
renumbered-failed q numbers m e f = rw (f, renumbered)

renumbered-new :
    (q : Queued) (numbers numbers' : Option (List ℕ)) (m : Mailbox)
    → msg_set_to_msg_seq_set q.msg_set q.uid_command m ≡ ok numbers'
    → renumbered q numbers (ok true, m) ≡ started (numbered q numbers') m []
renumbered-new q numbers numbers' m f = rw (f, renumbered)

abbrev left_by : Mailbox → Waited → Mailbox
left_by m' (clear m running) = m
left_by m' _ = m'

abbrev is_clear_with : Waited → Bool
is_clear_with (clear m (c ∷ running)) = true
is_clear_with _ = false

abbrev is_change : Result Bool → Bool
is_change (ok true) = true
is_change _ = false

-- The resync after the wait has found nothing.
no_change :
    (scan : Scan) (before m : Mailbox)
    → (check_new_msgs_and_flags scan none true before).0 ≡ ok false
    → ¬ FindsChange scan (clear before []) m
no_change scan before m s f =
    let same : before ≡ m = ap (left_by before) f.idle in
    let found : (check_new_msgs_and_flags scan none true before).0 ≡ ok true = rw same f.changes in
    cc (ap is_change (sym s ∙ found))

renumbered_numbers :
    (q : Queued) (numbers : Option (List ℕ)) (scan : Scan) (before : Mailbox) (r : Result Bool)
    (m m' : Mailbox) (c : Command) (running : List Command)
    → (check_new_msgs_and_flags scan none true before).0 ≡ r
    → (check_new_msgs_and_flags scan none true before).1 ≡ m
    → renumbered q numbers (r, m) ≡ started c m' running
    → HasNumbers q scan (clear before []) numbers c m'
renumbered_numbers q numbers scan before (err e) m m' c running s k h =
    absurd (failed_starts_not e c m' running h)
renumbered_numbers q numbers scan before (ok false) m m' c running s k h =
    kept (λ (b, f). no_change scan before b s f) (sym (ap numbers_of h))
renumbered_numbers q numbers scan before (ok true) m m' c running s k h =
    elim (Result-cases (msg_set_to_msg_seq_set q.msg_set q.uid_command m)) [
      | inl (e, f) ↦
          absurd (failed_starts_not e c m' running (sym (renumbered-failed q numbers m e f) ∙ h))
      | inr (numbers', f) ↦
          let t = sym (renumbered-new q numbers numbers' m f) ∙ h in
          let same : m ≡ m' = ap (mailbox_of m) t in
          renewed before (record { idle = refl; changes = s }) (sym same ∙ sym k)
            (ap (msg_set_to_msg_seq_set q.msg_set q.uid_command) (sym same)
              ∙ f
              ∙ ap ok (ap numbers_of t))
    ]

proceed_numbers :
    (q : Queued) (numbers : Option (List ℕ)) (scan : Scan) (w : Waited) (c : Command) (m : Mailbox)
    (running : List Command)
    → proceed q numbers scan w ≡ started c m running
    → HasNumbers q scan w numbers c m
proceed_numbers q numbers scan still_waiting c m running h = absurd (cc h)
proceed_numbers q numbers scan (raised e) c m running h = absurd (failed_starts_not e c m running h)
proceed_numbers q numbers scan (clear m' (d ∷ running')) c m running h =
    kept (λ (b, f). cc (ap is_clear_with f.idle)) (sym (ap numbers_of h))
proceed_numbers q numbers scan (clear m' []) c m running h =
    renumbered_numbers q numbers scan m' (check_new_msgs_and_flags scan none true m').0
      (check_new_msgs_and_flags scan none true m').1 m c running refl refl h

-- The message numbers of a command that is made ready are those that its set has in the mailbox when
-- it is taken from the queue, whatever others do to the mailbox while it waits, unless no command
-- runs after the wait and the resync of the mailbox then finds a change of the folder; then they
-- are those of the mailbox after that resync.
pub turn_numbers :
    (q : Queued) (stale : Bool) (rounds more_rounds : List Round) (scan : Scan) (m m' : Mailbox)
    (running running' : List Command) (c : Command)
    → turn q stale rounds more_rounds scan m running ≡ started c m' running'
    → (numbers : Option (List ℕ)) × (msg_set_to_msg_seq_set q.msg_set q.uid_command m ≡ ok numbers)
      × HasNumbers q scan
          (command_can_proceed (numbered q numbers) stale rounds more_rounds m running)
          numbers
          c
          m'
turn_numbers q stale rounds more_rounds scan m m' running running' c t =
    elim (Result-cases (msg_set_to_msg_seq_set q.msg_set q.uid_command m)) [
      | inl (e, f) ↦ absurd (
          failed_starts_not e c m' running'
            (sym (turn-failed q stale rounds more_rounds scan m running e f) ∙ t))
      | inr (numbers, f) ↦ (
        numbers,
        f,
        proceed_numbers q numbers scan
            (command_can_proceed (numbered q numbers) stale rounds more_rounds m running) c m'
            running' (sym (turn-proceed q stale rounds more_rounds scan m running numbers f) ∙ t),
      )
    ]
