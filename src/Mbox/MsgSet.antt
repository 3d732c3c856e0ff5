-- ===== src/Mbox/MsgSet.antt =====
-- `msg_set_to_msg_seq_set` of asimap/mbox.py: the message numbers of a command's message set, which
-- may be one of UIDs. `Mailbox.num_msgs` and the UIDs give the largest number.
pub mod Uids
use asimap.Prelude.{ℕ, ◌+◌, Bool, true, false, Option, none, some, List, [], ◌∷◌}
use asimap.Prelude.Lists.{get_last?}
use asimap.Prelude.Ascending.{sorted_set}
use asimap.Prelude.Dict.{index_of?}
use asimap.Result.{Result, ok, ◌>>=◌}
use asimap.SeqSet.{SeqElt, sequence_set_to_list}
use asimap.Mbox.State.{Mailbox}

-- `seq_max`
abbrev pub largest : Bool → Mailbox → ℕ
largest true m = elim (get_last? m.uids) [ none ↦ 1 | some uid ↦ uid ]
largest false m = m.num_msgs

-- The numbers of the messages with these UIDs; a UID that the mailbox does not have is dropped.
unfoldable pub numbers_of_uids : List (ℕ × ℕ) → List ℕ → List ℕ
numbers_of_uids uid_to_idx [] = []
numbers_of_uids uid_to_idx (uid ∷ uids) = elim (index_of? uid uid_to_idx) [
  | none ↦ numbers_of_uids uid_to_idx uids
  | some idx ↦ (idx + 1) ∷ numbers_of_uids uid_to_idx uids
]

unfoldable pub msg_set_to_msg_seq_set :
    Option (List SeqElt) → Bool → Mailbox → Result (Option (List ℕ))
unfolding numbers_of_uids
msg_set_to_msg_seq_set none from_uids m = ok none
msg_set_to_msg_seq_set (some msg_set) true m =
    sequence_set_to_list msg_set (largest true m) true >>= λ msgs.
    ok (some (sorted_set (numbers_of_uids m.uid_to_idx msgs)))
msg_set_to_msg_seq_set (some msg_set) false m =
    sequence_set_to_list msg_set (largest false m) false >>= λ msgs. ok (some (sorted_set msgs))
