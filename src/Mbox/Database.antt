-- ===== src/Mbox/Database.antt =====
-- `Mailbox.commit_to_db` of asimap/mbox.py, and what `_restore_from_db` does with a row that it finds:
-- a mailbox in the database. Not modelled: `last_resync` and `subscribed`.
pub mod Unique
pub mod Rows
pub mod RoundTrip
use asimap.Prelude.{ℕ, String, not, Option, none, some, List, [], ◌∷◌, ◌++◌, if◌then◌else◌}
use asimap.Prelude.Lists.{length, take}
use asimap.Prelude.Dict.{put, remove, str_mem, str_add}
use asimap.Compact.{Spec, compact_sequence, expand_sequence}
use asimap.Mbox.Sequences.{Sequences, members}
use asimap.Mbox.State.{Mailbox, rebuild_index_dicts}

-- The rows of a mailbox in the table `sequences`: its index on the mailbox and the name is unique.
abbrev pub SequenceRows : Type 0
SequenceRows = List (String × List Spec)

-- The row of a mailbox in the table `mailboxes`, and those of its sequences. `attributes` are the
-- comma-separated parts of a text.
pub record Stored : Type 0 where
  pub uid_vv : ℕ
  pub attributes : List String
  pub mtime : ℕ
  pub next_uid : ℕ
  pub num_msgs : ℕ
  pub num_recent : ℕ
  pub uids : List Spec
  pub msg_keys : List Spec
  pub sequences : SequenceRows

-- `",".join(attributes)`, split again: of no attributes the text has one empty part.
abbrev pub joined : List String → List String
joined [] = "" ∷ []
joined (a ∷ attributes) = a ∷ attributes

module _ {ℓ} {V : Type ℓ} where
  abbrev pub names_of : List (String × V) → List String
  names_of [] = []
  names_of ((name, v) ∷ d) = name ∷ names_of d

  abbrev pub remove_all : List String → List (String × V) → List (String × V)
  remove_all [] d = d
  remove_all (name ∷ names) d = remove_all names (remove name d)

-- Those of the names whose sequence is empty, and those whose sequence is not.
unfoldable pub empty_seqs : Sequences → List String → List String
empty_seqs seqs [] = []
empty_seqs seqs (name ∷ names) = elim (members name seqs) [
  | [] ↦ name ∷ empty_seqs seqs names
  | key ∷ keys ↦ empty_seqs seqs names
]

unfoldable pub new_names : Sequences → List String → List String
new_names seqs [] = []
new_names seqs (name ∷ names) = elim (members name seqs) [
  | [] ↦ new_names seqs names
  | key ∷ keys ↦ name ∷ new_names seqs names
]

-- `old_names - new_names`
abbrev pub names_to_delete : List String → List String → List String
names_to_delete [] new = []
names_to_delete (name ∷ old) new =
    let rest = names_to_delete old new in if str_mem name new then rest else name ∷ rest

-- The rows that are inserted, or updated if the name is there.
abbrev pub insert_rows : Sequences → List String → SequenceRows → SequenceRows
insert_rows seqs [] rows = rows
insert_rows seqs (name ∷ names) rows =
    insert_rows seqs names (put name (compact_sequence (members name seqs)) rows)

abbrev pub store_sequences : Sequences → SequenceRows → SequenceRows
store_sequences seqs rows =
    let new = new_names seqs (names_of seqs) in
    insert_rows seqs new (remove_all (names_to_delete (names_of rows) new) rows)

unfoldable pub commit_to_db : Mailbox → Stored → Mailbox × Stored
commit_to_db m db =
    let seqs = remove_all (empty_seqs m.sequences (names_of m.sequences)) m.sequences in
    (
      record m { sequences = seqs },
      record {
        uid_vv = m.uid_vv;
        attributes = joined m.attributes;
        mtime = m.mtime;
        next_uid = m.next_uid;
        num_msgs = m.num_msgs;
        num_recent = m.num_recent;
        uids = compact_sequence m.uids;
        msg_keys = compact_sequence m.msg_keys;
        sequences = store_sequences seqs db.sequences;
      },
    )

-- The loop over the rows of the sequences
unfoldable pub load_sequences : Sequences → SequenceRows → Sequences
load_sequences seqs [] = seqs
load_sequences seqs ((name, []) ∷ rows) = load_sequences seqs rows
load_sequences seqs ((name, spec ∷ specs) ∷ rows) =
    load_sequences (put name (expand_sequence (spec ∷ specs)) seqs) rows

-- A row without message keys is from before they were stored: they are then the folder's first.
abbrev pub migrate : List ℕ → List ℕ → List ℕ → Mailbox → Mailbox
migrate files (key ∷ keys) uids m = m
migrate files [] [] m = m
migrate files [] (uid ∷ uids) m =
    let keys = take (length (uid ∷ uids)) files in
    record m { msg_keys = keys; num_msgs = length keys }

abbrev pub with_special : Option String → List String → List String
with_special none attributes = attributes
with_special (some attribute) attributes = str_add attribute attributes

-- The values of the row. `special` is what `SPECIAL_USE_ATTRS` has for the name of the mailbox.
abbrev pub filled : Option String → Stored → Mailbox → Mailbox
filled special db m = record m {
  uid_vv = db.uid_vv;
  attributes = with_special special db.attributes;
  mtime = db.mtime;
  next_uid = db.next_uid;
  num_msgs = db.num_msgs;
  num_recent = db.num_recent;
  uids = expand_sequence db.uids;
  msg_keys = expand_sequence db.msg_keys;
}

-- The mailbox was just made, with the message files that it finds in the folder.
unfoldable pub restore : Option String → Stored → Mailbox → Mailbox
unfolding load_sequences
restore special db m =
    let row = filled special db m in
    let indexed = rebuild_index_dicts (migrate m.files row.msg_keys row.uids row) in
    record indexed { sequences = load_sequences m.sequences db.sequences }
