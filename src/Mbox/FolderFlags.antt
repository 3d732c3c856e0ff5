-- ===== src/Mbox/FolderFlags.antt =====
-- `_get_sequences_update_seen` of asimap/mbox.py: the sequences of the folder, with `Seen` brought in
-- line with `unseen`.
pub mod Agreement
use asimap.Prelude.{
  ℕ, String, Bool, true, false, not, ◌||◌, Option, none, some, List, [], ◌∷◌, if◌then◌else◌,
}
use asimap.Prelude.Ascending.{sorted_set, difference, insert_all}
use asimap.Prelude.Dict.{put}
use asimap.Result.{Result, ok, err, inconsistent}
use asimap.Mbox.Sequences.{Sequences, members}
use asimap.Mbox.State.{Mailbox, marked}
use asimap.Mbox.Resync.{same_items, is_empty}

-- Whether `Seen` was changed, and the sequences.
unfoldable pub update_seen : List ℕ → Sequences → Bool × Sequences
unfolding put
update_seen msg_keys seq =
    let unseen = members "unseen" seq in
    let new_seen =
      if is_empty unseen then sorted_set msg_keys else sorted_set (difference msg_keys unseen) in
    if same_items new_seen (members "Seen" seq)
    then (false, seq)
    else (true, put "Seen" new_seen seq)

unfoldable pub add_recent : List ℕ → Sequences → Sequences
unfolding put insert_all
add_recent recent_msg_keys seq =
    if is_empty recent_msg_keys
    then seq
    else put "Recent" (insert_all recent_msg_keys (members "Recent" seq)) seq

-- `_get_sequences_update_seen`, on what `get_sequences_from_folder` returns; none if that raises
-- `FormatError`.
unfoldable pub get_sequences_update_seen :
    Option Sequences → List ℕ → Mailbox → Result Sequences × Mailbox
unfolding update_seen add_recent marked
get_sequences_update_seen none recent_msg_keys m = (err inconsistent, m)
get_sequences_update_seen (some folder) recent_msg_keys m =
    let (modified, updated) = update_seen m.msg_keys folder in
    let seq = add_recent recent_msg_keys updated in
    let mark = not (is_empty (members "unseen" seq)) || not (is_empty (members "Recent" seq)) in
    let m' = (marked mark m).1 in
    (
      ok seq,
      if modified || not (is_empty recent_msg_keys)
          then record m' { folder_sequences = seq }
          else m',
    )
