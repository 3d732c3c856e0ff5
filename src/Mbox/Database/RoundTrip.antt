-- ===== src/Mbox/Database/RoundTrip.antt =====
-- A mailbox that is committed to the database and restored from it is the same.
use asimap.Prelude.{ℕ, String, ◌≡◌, refl, sym, ap, ◌∙◌, Option, List, [], ◌∷◌, arith}
use asimap.Prelude.Lists.{All, length}
use asimap.Prelude.Ascending.{Asc}
use asimap.Prelude.Dict.{enumerate_from}
use asimap.Mbox.Sequences.{Sequences, members}
use asimap.Mbox.State.{Mailbox, rebuild_index_dicts}
use asimap.Mbox.Invariant.{IsValid}
use asimap.Mbox.Resync.Uids.{IsValid-SameNames}
use asimap.Mbox.Database.{
  Stored, joined, names_of, remove_all, empty_seqs, commit_to_db, load_sequences, migrate,
  with_special, filled, restore,
}
use asimap.Mbox.Database.Unique.{IsUnique}
use asimap.Mbox.Database.Rows.{
  members-remove_empty, members-load_store, members-Asc, expand-compact_same,
}

-- A mailbox with as many keys as UIDs is not migrated.
migrate-aligned :
    (files keys uids : List ℕ) (m : Mailbox)
    → length uids ≡ length keys
    → migrate files keys uids m ≡ m
migrate-aligned files (key ∷ keys) uids m h = refl
migrate-aligned files [] [] m h = refl
migrate-aligned files [] (uid ∷ uids) m h = absurd (omega (arith, h))

-- What is restored: a valid mailbox with the messages, the UIDs, the counts, the attributes and the
-- flags that were committed.
pub record IsRestored (m r : Mailbox) : Type 0 where
  pub valid : IsValid r
  pub uid_vv : r.uid_vv ≡ m.uid_vv
  pub next_uid : r.next_uid ≡ m.next_uid
  pub msg_keys : r.msg_keys ≡ m.msg_keys
  pub uids : r.uids ≡ m.uids
  pub num_recent : r.num_recent ≡ m.num_recent
  pub attributes : r.attributes ≡ m.attributes
  pub sequences : (name : String) → members name r.sequences ≡ members name m.sequences

-- A valid mailbox with ascending sequences, which has an attribute and those of its special use, is
-- committed to the database, whatever rows were there before, and restored from it.
pub commit-IsRestored :
    (special : Option String) (m fresh : Mailbox) (db : Stored)
    → IsValid m
    → All (λ e. Asc e.1) m.sequences
    → with_special special (joined m.attributes) ≡ m.attributes
    → IsUnique db.sequences
    → fresh.sequences ≡ []
    → IsRestored m (restore special (commit_to_db m db).1 fresh)
unfolding restore commit_to_db rebuild_index_dicts
commit-IsRestored special m fresh db v a special_ok u empty =
    let row = (commit_to_db m db).1 in
    let f = filled special row fresh in
    let keys = expand-compact_same m.msg_keys v.keys_ascend in
    let uids = expand-compact_same m.uids v.uids_ascend in
    let r = restore special row fresh in
    let same : migrate fresh.files f.msg_keys f.uids f ≡ f =
      migrate-aligned fresh.files f.msg_keys f.uids f
        (ap length uids ∙ v.aligned ∙ ap length (sym keys)) in
    let seqs = remove_all (empty_seqs m.sequences (names_of m.sequences)) m.sequences in
    let r_keys : r.msg_keys ≡ m.msg_keys = ap (λ (x : Mailbox). x.msg_keys) same ∙ keys in
    let r_uids : r.uids ≡ m.uids = ap (λ (x : Mailbox). x.uids) same ∙ uids in
    let r_next : r.next_uid ≡ m.next_uid = ap (λ (x : Mailbox). x.next_uid) same in
    record {
      valid =
          IsValid-SameNames m r v
            (
              r_keys,
              r_uids,
              ap (enumerate_from 0) r_keys ∙ sym v.keys_indexed,
              ap (enumerate_from 0) r_uids ∙ sym v.uids_indexed,
              r_next,
            )
            (ap (λ (x : Mailbox). x.num_msgs) same);
      uid_vv = ap (λ (x : Mailbox). x.uid_vv) same;
      next_uid = r_next;
      msg_keys = r_keys;
      uids = r_uids;
      num_recent = ap (λ (x : Mailbox). x.num_recent) same;
      attributes = ap (λ (x : Mailbox). x.attributes) same ∙ special_ok;
      sequences = λ name.
          ap (λ (s : Sequences). members name (load_sequences s row.sequences)) empty
          ∙ members-load_store name seqs db.sequences u
              (rw (members-remove_empty name m.sequences) (members-Asc name m.sequences a))
          ∙ members-remove_empty name m.sequences;
    }
