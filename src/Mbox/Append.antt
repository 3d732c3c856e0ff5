-- ===== src/Mbox/Append.antt =====
-- `Mailbox.append` of asimap/mbox.py: the APPEND command on a mailbox.
pub mod Uid
use asimap.Prelude.{
  ℕ, String, Bool, true, false, Option, none, some, List, [], ◌∷◌, ◌++◌, if◌then◌else◌,
}
use asimap.Prelude.Ascending.{insert}
use asimap.Prelude.Dict.{str_mem}
use asimap.Constants.{flags_to_seqs}
use asimap.Result.{Error, Result, ok, err, bad, ◌>>=◌}
use asimap.Mbox.Sequences.{Sequences, add_to}
use asimap.Mbox.State.{Mailbox, get_uid_from_msg}
use asimap.Mbox.Resync.{Scan, check_new_msgs_and_flags}

-- The sequences of the new message, but for `Recent`.
abbrev pub seqs_of : Option (List String) → List String
seqs_of flags =
    let seqs = flags_to_seqs flags in if str_mem "Seen" seqs then seqs else seqs ++ "unseen" ∷ []

abbrev pub add_to_each : List String → ℕ → Sequences → Sequences
add_to_each [] key seqs = seqs
add_to_each (name ∷ names) key seqs = add_to_each names key (add_to name key seqs)

-- The message file has been added under a key, and the sequences are written to the folder.
unfoldable pub added : Option (List String) → ℕ → Mailbox → Mailbox
added flags msg_key m =
    let seqs = add_to_each (seqs_of flags) msg_key (add_to "Recent" msg_key m.sequences) in
    record m { sequences = seqs; folder_sequences = seqs; files = insert msg_key m.files }

abbrev pub uid_or_bad : Option ℕ → Result ℕ
uid_or_bad none = err bad
uid_or_bad (some uid) = ok uid

abbrev pub after_resync : ℕ → Result Bool × Mailbox → Result ℕ × Mailbox
after_resync msg_key (err e, m) = (err e, m)
after_resync msg_key (ok changed, m) = (get_uid_from_msg msg_key m >>= λ uid. uid_or_bad uid, m)

-- `msg_key` is the key that the folder gives the message; `scan` is what the resync reads.
unfoldable pub append : Option (List String) → ℕ → Scan → Mailbox → Result ℕ × Mailbox
unfolding added
append flags msg_key scan m =
    after_resync msg_key (check_new_msgs_and_flags scan none false (added flags msg_key m))
