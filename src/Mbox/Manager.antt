-- ===== src/Mbox/Manager.antt =====
-- `Mailbox.management_task` and `command_can_proceed` of asimap/mbox.py: how a queued command comes to
-- run. What other commands do while it waits is a list of rounds, one for each sleep.
pub mod Turns
pub mod Numbering
use asimap.Prelude.{
  ℕ, ◌||◌, Bool, true, false, not, Option, none, some, List, [], ◌∷◌, ◌++◌, map, if◌then◌else◌,
}
use asimap.Result.{Error, Result, ok, err, runtime_error}
use asimap.SeqSet.{SeqElt}
use asimap.Mbox.Sequences.{members}
use asimap.Mbox.State.{Mailbox}
use asimap.Mbox.Conflict.{Command, would_conflict, cleanup_executing_tasks}
use asimap.Mbox.MsgSet.{msg_set_to_msg_seq_set}
use asimap.Mbox.Resync.{Scan, is_empty, check_new_msgs_and_flags}

-- A command in `task_queue`, with its message set as it was parsed.
pub record Queued : Type 0 where
  pub command : Command
  pub msg_set : Option (List SeqElt)
  pub uid_command : Bool

-- While the task sleeps: the mailbox afterwards, and which of the running commands have completed.
pub record Round : Type 0 where
  pub mailbox : Mailbox
  pub finished : Command → Bool

abbrev pub after_round : Round → List Command → List Command
after_round r running =
    (cleanup_executing_tasks
      (map (λ (c : Command). record c { completed = c.completed || r.finished c }) running)).0

-- `self.sequences.get("Deleted", [])`
abbrev pub has_deleted : Mailbox → Bool
has_deleted m = not (is_empty (members "Deleted" m.sequences))

-- A wait goes on after the given rounds, ends by an exception, or ends with a mailbox and the
-- commands that are still running.
pub data Waited : Type 0 where
  still_waiting : Waited
  raised : Error → Waited
  clear : Mailbox → (running : List Command) → Waited

-- `while self.would_conflict(imap_cmd)`
unfoldable pub wait_clear : Command → Mailbox → List Command → List Round → Waited
wait_clear c m running [] = elim (would_conflict c (has_deleted m) running) [
  | err e ↦ raised e
  | ok b ↦ if b then still_waiting else clear m running
]
wait_clear c m running (r ∷ rounds) = elim (would_conflict c (has_deleted m) running) [
  | err e ↦ raised e
  | ok false ↦ clear m running
  | ok true ↦ wait_clear c r.mailbox (after_round r running) rounds
]

-- `while self.executing_tasks`
unfoldable pub wait_empty : Mailbox → List Command → List Round → Waited
wait_empty m [] rounds = clear m []
wait_empty m (c ∷ running) [] = still_waiting
wait_empty m (c ∷ running) (r ∷ rounds) = wait_empty r.mailbox (after_round r (c ∷ running)) rounds

abbrev pub then_empty : Bool → List Round → Waited → Waited
then_empty true rounds (clear m running) = wait_empty m running rounds
then_empty stale rounds waited = waited

-- `stale`: no resync for ten seconds.
unfoldable pub command_can_proceed :
    Command → Bool → List Round → List Round → Mailbox → List Command → Waited
unfolding wait_clear wait_empty
command_can_proceed c stale rounds more_rounds m running =
    then_empty stale more_rounds (wait_clear c m (cleanup_executing_tasks running).0 rounds)

-- What becomes of the command: it is made ready, with its message numbers; or it is never, since the
-- task has logged an exception and gone on, or has ended.
pub data Turn : Type 0 where
  waiting : Turn
  dropped : Error → Turn
  stopped : Turn
  started : (command : Command) → Mailbox → (running : List Command) → Turn

-- The `except` clauses of the loop
abbrev pub failed : Error → Turn
failed runtime_error = stopped
failed e = dropped e

abbrev pub numbered : Queued → Option (List ℕ) → Command
numbered q numbers = record q.command { msg_set_as_set = numbers }

abbrev pub renumbered : Queued → Option (List ℕ) → Result Bool × Mailbox → Turn
renumbered q numbers (err e, m) = failed e
renumbered q numbers (ok false, m) = started (numbered q numbers) m []
renumbered q numbers (ok true, m) = elim (msg_set_to_msg_seq_set q.msg_set q.uid_command m) [
  | err e ↦ failed e
  | ok numbers' ↦ started (numbered q numbers') m []
]

-- After the wait: a resync if nothing runs.
abbrev pub proceed : Queued → Option (List ℕ) → Scan → Waited → Turn
proceed q numbers scan still_waiting = waiting
proceed q numbers scan (raised e) = failed e
proceed q numbers scan (clear m (c ∷ running)) = started (numbered q numbers) m (c ∷ running)
proceed q numbers scan (clear m []) =
    renumbered q numbers (check_new_msgs_and_flags scan none true m)

-- One turn of the loop, for a command from the queue.
unfoldable pub turn : Queued → Bool → List Round → List Round → Scan → Mailbox → List Command → Turn
unfolding command_can_proceed
turn q stale rounds more_rounds scan m running =
    elim (msg_set_to_msg_seq_set q.msg_set q.uid_command m) [
      | err e ↦ failed e
      | ok numbers ↦
          proceed q numbers scan
            (command_can_proceed (numbered q numbers) stale rounds more_rounds m running)
    ]
