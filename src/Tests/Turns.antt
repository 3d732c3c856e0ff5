-- ===== src/Tests/Turns.antt =====
-- Commands that wait for the mailbox of three messages, and the theorems about them.
use asimap.Prelude.{◌≡◌, ℕ, List, Option, refl, true, false, some, none, [], ◌∷◌, ◌++◌, arith}
use asimap.Prelude.Lists.{All}
use asimap.Prelude.Dict.{index_of?}
use asimap.Prelude.Ascending.{sorted_set, insert}
use asimap.Result.{ok, bad}
use asimap.SeqSet.{one, num, sequence_set_to_list, collect, elt_numbers}
use asimap.SeqSet.Numbers.{Fits}
use asimap.Mbox.State.{Mailbox}
use asimap.Mbox.Conflict.{
  Command, store, fetch, expunge, is_conflicting, would_conflict, cleanup_executing_tasks,
}
use asimap.Mbox.MsgSet.{msg_set_to_msg_seq_set, numbers_of_uids}
use asimap.Mbox.Resync.{Scan, check_new_msgs_and_flags}
use asimap.Mbox.Manager.{
  Queued, Round, Turn, dropped, started, numbered, turn, command_can_proceed, wait_clear,
}
use asimap.Mbox.Manager.Turns.{IsLast, IsSmooth, Starts, turn-Starts}
use asimap.Mbox.Manager.Numbering.{HasNumbers, turn_drops, turn_numbers}
use asimap.Tests.Mailboxes.{three}

abbrev running_expunge : Command
running_expunge = record {
  command = expunge;
  fetch_peek = false;
  msg_set_as_set = none;
  completed = false;
}

abbrev fetch_uid : Queued
fetch_uid = record {
  command = record { command = fetch; fetch_peek = true; msg_set_as_set = none; completed = false };
  msg_set = some (one (num 11) ∷ []);
  uid_command = true;
}

-- The EXPUNGE has removed the first message.
abbrev two : Mailbox
two = record three {
  num_msgs = 2;
  msg_keys = 3 ∷ 7 ∷ [];
  uids = 11 ∷ 14 ∷ [];
  key_to_idx = (3, 0) ∷ (7, 1) ∷ [];
  uid_to_idx = (11, 0) ∷ (14, 1) ∷ [];
  files = 3 ∷ 7 ∷ [];
}

abbrev last_round : Round
last_round = record { mailbox = two; finished = λ c. true }

abbrev same_scan : Scan
same_scan = record { start_mtime = 0; keys = []; sequences = []; end_mtime = 0 }

fetch_turn : Turn
fetch_turn = turn fetch_uid false (last_round ∷ []) [] same_scan three (running_expunge ∷ [])

-- UID FETCH 11 waits for an EXPUNGE; then it fetches message 2, whose UID is 14, where the message
-- with UID 11 is the first.
wrong_message : fetch_turn ≡ started (numbered fetch_uid (some (2 ∷ []))) two []
unfolding fetch_turn turn command_can_proceed wait_clear would_conflict is_conflicting
    cleanup_executing_tasks msg_set_to_msg_seq_set sequence_set_to_list collect elt_numbers
    numbers_of_uids index_of? check_new_msgs_and_flags sorted_set insert
wrong_message = refl

right_number : msg_set_to_msg_seq_set fetch_uid.msg_set true two ≡ ok (some (1 ∷ []))
unfolding msg_set_to_msg_seq_set sequence_set_to_list collect elt_numbers numbers_of_uids index_of?
    sorted_set insert
right_number = refl

turn_numbers_example :
    (numbers : Option (List ℕ)) × (msg_set_to_msg_seq_set fetch_uid.msg_set true three ≡ ok numbers)
    × HasNumbers fetch_uid same_scan
        (command_can_proceed
          (numbered fetch_uid numbers)
          false
          (last_round ∷ [])
          []
          three
          (running_expunge ∷ []))
        numbers
        (numbered fetch_uid (some (2 ∷ [])))
        two
unfolding fetch_turn
turn_numbers_example =
    turn_numbers fetch_uid false (last_round ∷ []) [] same_scan three two (running_expunge ∷ []) []
      (numbered fetch_uid (some (2 ∷ []))) wrong_message

abbrev fetch_nine : Queued
fetch_nine = record fetch_uid { msg_set = some (one (num 9) ∷ []); uid_command = false }

nine_unfit : ¬ All (Fits three.num_msgs) (one (num 9) ∷ [])
nine_unfit h = omega arith

turn_drops_example : turn fetch_nine false [] [] same_scan three [] ≡ dropped bad
turn_drops_example =
    turn_drops fetch_nine (one (num 9) ∷ []) false [] [] same_scan three [] refl refl nine_unfit

-- A STORE of message 2, which the mailbox has before the EXPUNGE and after it
abbrev store_two : Queued
store_two = record fetch_uid {
  command = record {
    command = store;
    fetch_peek = false;
    msg_set_as_set = none;
    completed = false;
  };
  msg_set = some (one (num 2) ∷ []);
  uid_command = false;
}

abbrev two_scan : Scan
two_scan = record { start_mtime = 0; keys = 3 ∷ 7 ∷ []; sequences = []; end_mtime = 0 }

three-IsSmooth : IsSmooth store_two two_scan three
unfolding msg_set_to_msg_seq_set check_new_msgs_and_flags sequence_set_to_list
three-IsSmooth = record { accepted = (_, refl); resynced = (_, refl); accepted_after = (_, refl) }

two-IsSmooth : IsSmooth store_two two_scan two
unfolding msg_set_to_msg_seq_set check_new_msgs_and_flags sequence_set_to_list
two-IsSmooth = record { accepted = (_, refl); resynced = (_, refl); accepted_after = (_, refl) }

every-IsLast : IsLast last_round
every-IsLast c = refl

turn-Starts_example : Starts store_two (
    turn store_two true
      ([] ++ last_round ∷ [])
      ([] ++ last_round ∷ [])
      two_scan
      three
      (running_expunge ∷ []))
turn-Starts_example =
    turn-Starts store_two true [] [] last_round two_scan three (running_expunge ∷ []) refl
      every-IsLast three-IsSmooth tt tt two-IsSmooth
