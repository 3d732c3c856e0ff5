-- ===== src/Mbox/Find/Hits.antt =====
-- What SEARCH finds in a valid mailbox.
use asimap.Prelude.{ℕ, suc, ◌≤◌, ◌≡◌, Bool, Option, none, some, List, [], ◌∷◌, arith, if◌then◌else◌}
use asimap.Prelude.Lists.{get_elem?, get_last?}
use asimap.Prelude.Dict.{index_of?}
use asimap.Prelude.Position.{position_of_get_elem?, index_of-enumerate}
use asimap.Result.{ok}
use asimap.Search.{Search, SearchMessage}
use asimap.Search.Meaning.{Facts, sent_of}
use asimap.Mbox.Sequences.{msg_sequences}
use asimap.Mbox.State.{Mailbox, get_uid_from_msg}
use asimap.Mbox.Invariant.{IsValid}
use asimap.Mbox.Find.{Disk}

-- A message of a mailbox: its index, its key and its UID.
pub record Spot : Type 0 where
  pub idx : ℕ
  pub key : ℕ
  pub uid : ℕ

abbrev pub spots_from : ℕ → List ℕ → List ℕ → List Spot
spots_from idx [] uids = []
spots_from idx (key ∷ keys) [] = []
spots_from idx (key ∷ keys) (uid ∷ uids) =
    record { idx = idx; key = key; uid = uid } ∷ spots_from (suc idx) keys uids

abbrev pub spots : Mailbox → List Spot
spots m = spots_from 0 m.msg_keys m.uids

-- What can be read of each message.
pub record Content : Type 0 where
  pub date : ℕ → ℕ
  pub sent : ℕ → Option ℕ
  pub message : ℕ → SearchMessage

-- Nothing that a search of the mailbox reads from the disk raises.
pub record IsReadable (disk : Disk) (c : Content) : Type 0 where
  pub dates : (k : ℕ) → disk.modified k ≡ ok (c.date k)
  pub messages : (k : ℕ) → disk.read k ≡ ok (c.message k)
  pub days : (k : ℕ) → (c.message k).sent ≡ sent_of (c.sent k)

-- The largest UID of the mailbox, 0 if it is empty.
abbrev pub last_uid : Mailbox → ℕ
last_uid m = elim (get_last? m.uids) [ none ↦ 0 | some u ↦ u ]

abbrev pub facts_of : Content → Mailbox → ℕ → Spot → Facts
facts_of c m uid_max p = record {
  number = suc p.idx;
  seq_max = m.num_msgs;
  uid_max = uid_max;
  the_uid = p.uid;
  flags = msg_sequences p.key m.sequences;
  date = c.date p.key;
  sent = c.sent p.key;
  message = c.message p.key;
}

-- The UID or the number of a message.
abbrev pub named_by : Bool → Spot → ℕ
named_by uid_cmd p = if uid_cmd then p.uid else suc p.idx

-- The UID of a key of the lists is found.
abbrev HasUids : Mailbox → List ℕ → List ℕ → Type 0
HasUids m keys uids =
    (i k u : ℕ)
    → get_elem? keys i ≡ some k
    → get_elem? uids i ≡ some u
    → (get_uid_from_msg k m ≡ ok (some u)) × (1 ≤ u)

pub uid_of_message :
    (m : Mailbox) (i k u : ℕ)
    → IsValid m
    → get_elem? m.msg_keys i ≡ some k
    → get_elem? m.uids i ≡ some u
    → get_uid_from_msg k m ≡ ok (some u)
unfolding get_uid_from_msg
uid_of_message m i k u v hk hu =
    let found : index_of? k m.key_to_idx ≡ some i =
      rw (v.keys_indexed, index_of-enumerate k m.msg_keys)
        (position_of_get_elem? m.msg_keys i k v.keys_ascend hk) in
    ground (arith, found, hu)
