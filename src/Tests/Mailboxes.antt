-- ===== src/Tests/Mailboxes.antt =====
-- A mailbox of three messages, and the theorems about it.
use text.Mathlib.Text.{◌==◌ as str_eq}
use asimap.Prelude.{
  ℕ, ◌||◌, ◌&&◌, not, String, ◌≡◌, refl, true, false, none, some, List, [], ◌∷◌, map, arith, inl,
}
use asimap.Prelude.Lists.{mem}
use asimap.Prelude.Dict.{index_of?, lookup, enumerate_from}
use asimap.Result.{ok}
use asimap.Mbox.Sequences.{Sequences, members, has}
use asimap.Mbox.State.{Mailbox, Client, Notice, dispatch_or_pend, rebuild_index_dicts}
use asimap.Mbox.Invariant.{IsValid}
use asimap.Mbox.Expunge.{
  expunge, flagged, delete_all, delete_each, finish_expunge, discard_each, uid_of_key, picks,
  drop_message, remove_file,
}
use asimap.Prelude.Sorting.{sorted}
use asimap.Mbox.Expunge.Outcome.{CanGo, IsExpunged}
use asimap.Mbox.Expunge.Correct.{expunge-IsExpunged}
use asimap.Mbox.Resync.{Scan, check_new_msgs_and_flags}
use asimap.Mbox.Resync.Uids.{IsSound, check_new_msgs-IsSound}
use asimap.Mbox.Store.{add_flags, replace_flags, store}
use asimap.Mbox.Store.Split.{SeenSplit, store-SeenSplit}
use asimap.Mbox.Store.Total.{seq_no, store_total}
use asimap.Mbox.FolderFlags.{get_sequences_update_seen}
use asimap.Mbox.FolderFlags.Agreement.{get_sequences-agree}
use asimap.Mbox.Conflict.{ImapCommand, Command, would_conflict, is_conflicting, kind_of, intersect}
use asimap.Mbox.Conflict.History.{Reach, nothing, later, start, AllCompatible, Reach-AllCompatible}

abbrev pub laptop : Client
laptop = record { name = "laptop"; idling = true; pushed = []; pending = [] }

abbrev pub three_flags : Sequences
three_flags = ("Seen", 1 ∷ []) ∷ ("unseen", 3 ∷ 7 ∷ []) ∷ ("Deleted", 3 ∷ 7 ∷ []) ∷ []

abbrev pub three : Mailbox
three = record {
  uid_vv = 1;
  next_uid = 15;
  num_msgs = 3;
  num_recent = 0;
  mtime = 100;
  msg_keys = 1 ∷ 3 ∷ 7 ∷ [];
  uids = 10 ∷ 11 ∷ 14 ∷ [];
  key_to_idx = (1, 0) ∷ (3, 1) ∷ (7, 2) ∷ [];
  uid_to_idx = (10, 0) ∷ (11, 1) ∷ (14, 2) ∷ [];
  sequences = three_flags;
  folder_sequences = three_flags;
  files = 1 ∷ 3 ∷ 7 ∷ [];
  attributes = "\\Marked" ∷ [];
  clients = laptop ∷ [];
  optional_resync = true;
}

pub three-IsValid : IsValid three
unfolding enumerate_from index_of?
three-IsValid = record {
  keys_ascend = omega arith;
  uids_ascend = omega arith;
  aligned = refl;
  uids_below = omega arith;
  keys_indexed = refl;
  uids_indexed = refl;
  counted = refl;
}

three-CanGo : CanGo (members "Deleted" three.sequences) three
unfolding lookup
three-CanGo = record {
  valid = three-IsValid;
  distinct = (refl, (refl, tt));
  known = λ k h. ground arith;
  on_disk = λ k h. ground arith;
}

expunge-IsExpunged_example :
    (m' : Mailbox) × (expunge none true three ≡ (ok tt, m'))
    × IsExpunged (members "Deleted" three.sequences) three m'
expunge-IsExpunged_example = expunge-IsExpunged three three-CanGo

expunge_runs : (expunge none true three).1.uids ≡ 10 ∷ []
unfolding expunge flagged delete_all delete_each finish_expunge discard_each uid_of_key picks
    drop_message remove_file sorted lookup index_of? dispatch_or_pend rebuild_index_dicts
expunge_runs = refl

abbrev delivery : Scan
delivery = record {
  start_mtime = 200;
  keys = 1 ∷ 3 ∷ 7 ∷ 8 ∷ 9 ∷ [];
  sequences = ("unseen", 3 ∷ 7 ∷ 9 ∷ []) ∷ [];
  end_mtime = 201;
}

check_new_msgs-IsSound_example :
    IsSound delivery true three (check_new_msgs_and_flags delivery none true three)
check_new_msgs-IsSound_example =
    check_new_msgs-IsSound delivery none true three three-IsValid (omega arith)
      (inl (8 ∷ 9 ∷ [], refl))

store-SeenSplit_example :
    SeenSplit (store (2 ∷ []) add_flags ("\\Seen" ∷ []) false none three).1.sequences 3
unfolding lookup
store-SeenSplit_example =
    store-SeenSplit (2 ∷ []) add_flags ("\\Seen" ∷ []) false none three 3 tt refl

store_total_example :
    (ns : List Notice) × ((store (1 ∷ 3 ∷ []) replace_flags ("\\Seen" ∷ []) true none three).0
      ≡ ok ns)
    × (map seq_no ns ≡ 1 ∷ 3 ∷ [])
store_total_example =
    store_total (1 ∷ 3 ∷ []) replace_flags ("\\Seen" ∷ []) true none three three-IsValid
      (omega arith) refl

abbrev fetching : Command
fetching = record {
  command = ImapCommand.fetch;
  fetch_peek = false;
  msg_set_as_set = some (1 ∷ []);
  completed = false;
}

abbrev storing : Command
storing = record fetching { command = ImapCommand.store; msg_set_as_set = some (2 ∷ []) }

abbrev moving : Command
moving = record fetching { command = ImapCommand.move }

both_run : Reach (fetching ∷ storing ∷ [])
unfolding would_conflict is_conflicting kind_of intersect
both_run = later (later nothing (start fetching true refl)) (start storing true refl)

Reach-AllCompatible_example : AllCompatible (fetching ∷ storing ∷ [])
Reach-AllCompatible_example = Reach-AllCompatible both_run

get_sequences-agree_example :
    (seq : Sequences) × (m' : Mailbox) × (get_sequences_update_seen
        (some three_flags)
        (7 ∷ [])
        three
      ≡ (ok seq, m'))
    × ((k : ℕ) → has "Seen" k seq ≡ (mem k three.msg_keys && not (has "unseen" k seq)))
    × ((k : ℕ) → has "Recent" k seq ≡ (mem k (7 ∷ []) || has "Recent" k three_flags))
    × ((j : String) (k : ℕ)
        → (str_eq "Seen" j || str_eq "Recent" j) ≡ false
        → has j k seq ≡ has j k three_flags)
get_sequences-agree_example = get_sequences-agree three_flags (7 ∷ []) three
