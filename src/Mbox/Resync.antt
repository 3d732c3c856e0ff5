-- ===== src/Mbox/Resync.antt =====
-- `Mailbox.check_new_msgs_and_flags`: how a mailbox takes in what has happened to its folder. Not
-- modelled: `get_msg` of a new message fails if its file has vanished since the scan;
-- `check_set_haschildren_attr` (it looks at subfolders); the write to the database.
pub mod Assign
pub mod Settle
pub mod Uids
pub mod Grown
use asimap.Prelude.{
  ℕ, zero, suc, ◌+◌, ◌-◌, String, Bool, true, false, not, ◌&&◌, ◌||◌, Option, none, some, List, [],
  ◌∷◌, ◌++◌, map, ltb, leb, ◌==◌, if◌then◌else◌,
}
use asimap.Prelude.Lists.{length, drop, keep, range, get_last?}
use asimap.Prelude.Ascending.{sorted_set, difference}
use asimap.Prelude.Dict.{str_mem, str_add, str_discard}
use asimap.Result.{Result, ok, err, traverse}
use asimap.Mbox.Sequences.{Sequences, members, msg_sequences}
use asimap.Mbox.State.{
  Mailbox, Client, Notice, exists, recent, marked, rebuild_index_dicts, generate_fetch_msg_for,
  dispatch_or_pend,
}
use asimap.Mbox.Flags.{add_to_all, discard_from_all}

-- What one resync reads of the folder: its mtime, its message keys and its sequences, and the mtime
-- once the new sequences are written.
pub record Scan : Type 0 where
  pub start_mtime : ℕ
  pub keys : List ℕ
  pub sequences : Sequences
  pub end_mtime : ℕ

abbrev pub same_items : List ℕ → List ℕ → Bool
same_items [] [] = true
same_items [] (y ∷ ys) = false
same_items (x ∷ xs) [] = false
same_items (x ∷ xs) (y ∷ ys) = x == y && same_items xs ys

abbrev pub is_empty {ℓ} : {A : Type ℓ} → List A → Bool
is_empty [] = true
is_empty (x ∷ xs) = false

-- The mailbox as new, but for `next_uid`.
abbrev pub cleared : ℕ → Mailbox → Mailbox
cleared mtime m = record m {
  msg_keys = [];
  uids = [];
  num_msgs = 0;
  num_recent = 0;
  sequences = [];
  mtime = mtime;
}

-- `xs[-n:]`; at `n = 0` that is `xs[0:]`.
abbrev pub last_items : ℕ → List ℕ → List ℕ
last_items zero xs = xs
last_items (suc n) xs = drop (length xs - suc n) xs

-- A folder that has shrunk, or lists that do not match.
unfoldable pub reset : Scan → Mailbox → Mailbox
reset scan m =
    if ltb (length scan.keys) m.num_msgs
    then cleared scan.start_mtime m
    else if length m.msg_keys == length m.uids
    then m
    else if ltb (length m.msg_keys) (length m.uids)
    then record m { uids = last_items (length m.msg_keys) m.uids }
    else cleared scan.start_mtime m

abbrev pub new_keys : Scan → Mailbox → List ℕ
new_keys scan m = sorted_set (difference scan.keys m.msg_keys)

abbrev pub after_last : ℕ → List ℕ → ℕ
after_last next_uid uids = elim (get_last? uids) [ none ↦ next_uid | some uid ↦ uid + 1 ]

-- New messages get the next UIDs, in the order of their keys.
unfoldable pub assign_uids : List ℕ → Mailbox → Mailbox
unfolding rebuild_index_dicts
assign_uids new m =
    let uids = m.uids ++ range m.next_uid (m.next_uid + length new) in
    rebuild_index_dicts (record m {
      msg_keys = m.msg_keys ++ new;
      uids = uids;
      next_uid = after_last m.next_uid uids;
    })

-- The sequences that a new message is put in, from those of the folder.
unfoldable pub new_msg_sequences : ℕ → Sequences → List String
unfolding msg_sequences str_add str_discard
new_msg_sequences key seqs =
    let names = str_add "Recent" (msg_sequences key seqs) in
    if str_mem "unseen" names then str_discard "Seen" names else str_add "Seen" names

unfoldable pub merge_new_msg : Sequences → ℕ → Sequences → Sequences
unfolding new_msg_sequences add_to_all discard_from_all
merge_new_msg folder key seqs =
    let names = new_msg_sequences key folder in
    let seqs' = add_to_all names key seqs in
    discard_from_all (keep (λ s. not (str_mem s names)) (map (λ e. e.0) seqs')) key seqs'

unfoldable pub merge_new_msgs : Sequences → List ℕ → Sequences → Sequences
unfolding merge_new_msg
merge_new_msgs folder [] seqs = seqs
merge_new_msgs folder (key ∷ keys) seqs = merge_new_msgs folder keys (merge_new_msg folder key seqs)

-- EXISTS and RECENT go to every client at once.
abbrev pub push_counts : ℕ → ℕ → Client → Client
push_counts num_msgs num_recent c = record c {
  pushed = c.pushed ++ exists num_msgs ∷ recent num_recent ∷ [];
}

-- The part under `mh_sequences_lock`, and the new counts.
unfoldable pub take_in : Scan → List ℕ → Mailbox → Mailbox
unfolding marked merge_new_msgs
take_in scan new m =
    let seqs = merge_new_msgs scan.sequences new m.sequences in
    let num_msgs = length scan.keys in
    let num_recent = length (members "Recent" seqs) in
    record (marked true m).1 {
      sequences = seqs;
      folder_sequences = seqs;
      clients = map (push_counts num_msgs num_recent) m.clients;
      num_msgs = num_msgs;
      num_recent = num_recent;
    }

-- A FETCH for each new message.
unfoldable pub announce : Scan → List ℕ → Option String → Mailbox → Result Bool × Mailbox
announce scan new dont_notify m = elim (traverse (λ key. generate_fetch_msg_for key false m) new) [
  | err e ↦ (err e, m)
  | ok fetches ↦ (
    ok true,
    record (dispatch_or_pend (map (λ f. f.0) fetches) dont_notify m) { mtime = scan.end_mtime },
  )
]

-- The resync proper, of a folder that differs from the mailbox.
unfoldable pub resync_changed : Scan → Option String → Mailbox → Result Bool × Mailbox
unfolding reset assign_uids take_in announce
resync_changed scan dont_notify m =
    let m' = reset scan m in
    let new = new_keys scan m' in
    announce scan new dont_notify (take_in scan new (assign_uids new m'))

-- Nothing new: the mtime is noted and the mailbox marked if it has unseen or recent messages.
unfoldable pub resync_same : Scan → Mailbox → Mailbox
unfolding marked
resync_same scan m =
    (marked
      (not (is_empty (members "unseen" m.sequences))
        || not (is_empty (members "Recent" m.sequences)))
      (record m { mtime = scan.start_mtime })).1

-- Whether the mailbox changed.
unfoldable pub check_new_msgs_and_flags :
    Scan → Option String → Bool → Mailbox → Result Bool × Mailbox
unfolding resync_same resync_changed
check_new_msgs_and_flags scan dont_notify optional m =
    if str_mem "\\Noselect" m.attributes
    then (ok false, record m { mtime = scan.start_mtime })
    else if leb scan.start_mtime m.mtime && (m.optional_resync && optional)
    then (ok false, m)
    else let m' = record m { optional_resync = true } in
      if same_items scan.keys m.msg_keys && length m.uids == m.num_msgs
      then (ok false, resync_same scan m')
      else resync_changed scan dont_notify m'
