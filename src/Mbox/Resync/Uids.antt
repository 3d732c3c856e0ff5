-- ===== src/Mbox/Resync/Uids.antt =====
-- The UIDs that a resync gives.
use asimap.Prelude.{
  ℕ, ◌+◌, ◌<◌, String, ◌≡◌, refl, ap, sym, ◌∙◌, Bool, true, false, ◌&&◌, Option, List, [], ◌∷◌,
  ◌++◌, arith, ltb, leb, ◌==◌, Bool-cases, ◌⊎◌, inl, inr,
}
use mathlib.Core.List.{append-nil}
use asimap.Prelude.Lists.{length, length-append, span}
use asimap.Prelude.Ascending.{Asc}
use asimap.Prelude.Dict.{str_mem, enumerate_from}
use asimap.Result.{Result, ok}
use asimap.Mbox.State.{Mailbox}
use asimap.Mbox.Invariant.{IsValid}
use asimap.Mbox.Resync.{
  Scan, reset, new_keys, cleared, resync_changed, resync_same, check_new_msgs_and_flags, same_items,
}
use asimap.Mbox.Resync.Assign.{difference-append}
use asimap.Mbox.Resync.Settle.{SameNames, settle, marked-SameNames}

-- Why a resync leaves the messages alone: the mailbox cannot be selected, the resync is optional and
-- the folder has not been written to, or the folder has the messages that the mailbox has.
abbrev pub Stays : Scan → Bool → Mailbox → Type 0
Stays scan optional m =
    (str_mem "\\Noselect" m.attributes ≡ true)
    ⊎ ((leb scan.start_mtime m.mtime && (m.optional_resync && optional)) ≡ true)
    ⊎ (scan.keys ≡ m.msg_keys)

-- How a resync that takes in the folder may change the messages of a mailbox and the next UID.
pub data Taken (scan : Scan) (m m' : Mailbox) : Type 0 where
  -- the old messages keep their UIDs, and the new ones get the next numbers
  grown :
      (new : List ℕ)
      → scan.keys ≡ m.msg_keys ++ new
      → m'.msg_keys ≡ scan.keys
      → m'.uids ≡ m.uids ++ span m.next_uid (length new)
      → m'.next_uid ≡ m.next_uid + length new
      → Taken scan m m'
  -- every message of the shrunk folder gets a number that was not given out before
  renewed :
      length scan.keys < m.num_msgs
      → m'.msg_keys ≡ scan.keys
      → m'.uids ≡ span m.next_uid (length scan.keys)
      → m'.next_uid ≡ m.next_uid + length scan.keys
      → Taken scan m m'

pub data UidStep (scan : Scan) (optional : Bool) (m m' : Mailbox) : Type 0 where
  same :
      Stays scan optional m
      → m'.msg_keys ≡ m.msg_keys
      → m'.uids ≡ m.uids
      → m'.next_uid ≡ m.next_uid
      → UidStep scan optional m m'
  taken : Taken scan m m' → UidStep scan optional m m'

pub reset_of_grown :
    (scan : Scan) (new : List ℕ) (m : Mailbox)
    → IsValid m
    → scan.keys ≡ m.msg_keys ++ new
    → reset scan m ≡ m
unfolding reset
reset_of_grown scan new m v e =
    let n : length scan.keys ≡ length m.msg_keys + length new =
      ap length e ∙ length-append m.msg_keys new in
    ground (arith, n, v.counted, v.aligned)

reset_of_shrunk :
    (scan : Scan) (m : Mailbox)
    → length scan.keys < m.num_msgs
    → reset scan m ≡ cleared scan.start_mtime m
unfolding reset
reset_of_shrunk scan m h = let t : ltb (length scan.keys) m.num_msgs ≡ true = ground arith in rw t

-- Of a folder that has grown or shrunk.
resync_changed-UidStep :
    (scan : Scan) (who : Option String) (m : Mailbox)
    → IsValid m
    → Asc scan.keys
    → ((new : List ℕ) × (scan.keys ≡ m.msg_keys ++ new) × (new ≡ [] → m.uids ≡ []))
      ⊎ (length scan.keys < m.num_msgs)
    → ((resync_changed scan who m).0 ≡ ok true)
      × IsValid (resync_changed scan who m).1
      × Taken scan m (resync_changed scan who m).1
unfolding resync_changed
resync_changed-UidStep scan who m v a (inl (new, e, z)) =
    let same_new : new_keys scan m ≡ new = rw e (difference-append m.msg_keys new (rw e at a)) in
    let r = settle scan new who m a e v.aligned v.uids_ascend v.uids_below z in
    rw (reset_of_grown scan new m v e, same_new)
      (r.0, r.1.valid, grown new e (r.1.keys_all ∙ sym e) r.1.uids_all r.1.next_after)
resync_changed-UidStep scan who m v a (inr h) =
    let n = cleared scan.start_mtime m in
    let same_new : new_keys scan n ≡ scan.keys = difference-append [] scan.keys a in
    let r = settle scan scan.keys who n a refl refl tt tt (λ _. refl) in
    rw (reset_of_shrunk scan m h, same_new)
      (r.0, r.1.valid, renewed h r.1.keys_all r.1.uids_all r.1.next_after)

pub IsValid-SameNames :
    (m m' : Mailbox) → IsValid m → SameNames m' m → m'.num_msgs ≡ m.num_msgs → IsValid m'
IsValid-SameNames m m' v s n = record {
  keys_ascend = rw s.0 v.keys_ascend;
  uids_ascend = rw s.1 v.uids_ascend;
  aligned = rw (s.0, s.1) v.aligned;
  uids_below = rw (s.1, s.4) v.uids_below;
  keys_indexed = s.2 ∙ v.keys_indexed ∙ ap (enumerate_from 0) (sym s.0);
  uids_indexed = s.3 ∙ v.uids_indexed ∙ ap (enumerate_from 0) (sym s.1);
  counted = n ∙ v.counted ∙ ap length (sym s.0);
}

pub same_items-eq : (xs ys : List ℕ) → same_items xs ys ≡ true → xs ≡ ys
same_items-eq [] [] h = refl
same_items-eq [] (y ∷ ys) h = cc
same_items-eq (x ∷ xs) [] h = cc
same_items-eq (x ∷ xs) (y ∷ ys) h = ground (arith, same_items-eq xs ys)

same_items_refl : (xs : List ℕ) → same_items xs xs ≡ true
same_items_refl [] = refl
same_items_refl (x ∷ xs) = ground (arith, same_items_refl xs)

resync_same-SameNames :
    (scan : Scan) (m : Mailbox)
    → SameNames (resync_same scan m) m × ((resync_same scan m).num_msgs ≡ m.num_msgs)
unfolding resync_same
resync_same-SameNames scan m = marked-SameNames _ (record m { mtime = scan.start_mtime })

-- The outcome of a resync: it returns, the mailbox is valid, and its UIDs have moved on properly.
abbrev pub IsSound : Scan → Bool → Mailbox → Result Bool × Mailbox → Type 0
IsSound scan optional m r = (b : Bool) × (r.0 ≡ ok b) × IsValid r.1 × UidStep scan optional m r.1

abbrev pub Grows : Scan → Mailbox → Type 0
Grows scan m = (new : List ℕ) × (scan.keys ≡ m.msg_keys ++ new)

IsSound-same :
    (scan : Scan) (optional : Bool) (m m' : Mailbox)
    → Stays scan optional m
    → IsValid m
    → SameNames m' m
    → m'.num_msgs ≡ m.num_msgs
    → IsSound scan optional m (ok false, m')
IsSound-same scan optional m m' why v s n =
    (false, refl, IsValid-SameNames m m' v s n, same why s.0 s.1 s.4)

-- A folder that is not as the mailbox remembers it has new messages, if the mailbox is valid.
none_missing :
    (scan : Scan) (new : List ℕ) (m : Mailbox)
    → IsValid m
    → scan.keys ≡ m.msg_keys ++ new
    → (same_items scan.keys m.msg_keys && length m.uids == m.num_msgs) ≡ false
    → new ≡ []
    → m.uids ≡ []
none_missing scan new m v e s z =
    let same_keys : scan.keys ≡ m.msg_keys =
      e ∙ ap (λ r. m.msg_keys ++ r) z ∙ append-nil m.msg_keys in
    let yes' : same_items scan.keys m.msg_keys ≡ true = rw same_keys (same_items_refl m.msg_keys) in
    absurd (ground (arith, yes', v.aligned, v.counted))

-- What a resync proper comes to.
abbrev HasChanged : Scan → Mailbox → Result Bool × Mailbox → Type 0
HasChanged scan m r = (r.0 ≡ ok true) × IsValid r.1 × Taken scan m r.1

changed-HasChanged :
    (scan : Scan) (who : Option String) (m : Mailbox)
    → IsValid m
    → Asc scan.keys
    → Grows scan m ⊎ (length scan.keys < m.num_msgs)
    → (same_items scan.keys m.msg_keys && length m.uids == m.num_msgs) ≡ false
    → HasChanged scan m (resync_changed scan who m)
changed-HasChanged scan who m v a (inl (new, e)) s =
    resync_changed-UidStep scan who m v a (inl (new, e, none_missing scan new m v e s))
changed-HasChanged scan who m v a (inr h) s = resync_changed-UidStep scan who m v a (inr h)

from_forced :
    (scan : Scan) (optional b : Bool) (m : Mailbox) (r : Result Bool × Mailbox)
    → HasChanged scan (record m { optional_resync = b }) r
    → IsSound scan optional m r
from_forced scan optional b m r (q, v, grown new e k u n) = (true, q, v, taken (grown new e k u n))
from_forced scan optional b m r (q, v, renewed h k u n) = (true, q, v, taken (renewed h k u n))

-- A resync of a valid mailbox, with a folder that has only grown at the end or that has shrunk,
-- succeeds and leaves a valid mailbox. Either the messages and UIDs are as before, and then the
-- mailbox cannot be selected, or the resync was optional and the folder not written to, or the
-- folder has the same messages. Or the messages are those of the folder: if it has grown, the old
-- ones have their UIDs and the new ones the next numbers, from `next_uid` on; if it has shrunk, all
-- have numbers from `next_uid` on. So no UID is given out twice.
pub check_new_msgs-IsSound :
    (scan : Scan) (who : Option String) (optional : Bool) (m : Mailbox)
    → IsValid m
    → Asc scan.keys
    → Grows scan m ⊎ (length scan.keys < m.num_msgs)
    → IsSound scan optional m (check_new_msgs_and_flags scan who optional m)
unfolding check_new_msgs_and_flags
check_new_msgs-IsSound scan who optional m v a f =
    let forced : Mailbox = record m { optional_resync = true } in
    let forced_valid = IsValid-SameNames m forced v (refl, refl, refl, refl, refl) refl in
    elim (Bool-cases (str_mem "\\Noselect" m.attributes)) [
      | inl e ↦ rw e (
          IsSound-same scan optional m (record m { mtime = scan.start_mtime }) (inl e) v
            (refl, refl, refl, refl, refl) refl)
      | inr e ↦
          elim (Bool-cases (leb scan.start_mtime m.mtime && (m.optional_resync && optional))) [
            | inl q ↦
                rw (e, q)
                  (IsSound-same scan optional m m (inr (inl q)) v (refl, refl, refl, refl, refl)
                    refl)
            | inr q ↦
                elim (Bool-cases (same_items scan.keys m.msg_keys && length m.uids == m.num_msgs)) [
                  | inl s ↦
                      let d = resync_same-SameNames scan forced in
                      let same_keys = same_items-eq scan.keys m.msg_keys (ground (arith, s)) in
                      rw (e, q, s)
                        (IsSound-same scan optional m (resync_same scan forced)
                          (inr (inr same_keys)) v d.0 d.1)
                  | inr s ↦
                      rw (e, q, s)
                        (from_forced scan optional true m (resync_changed scan who forced)
                          (changed-HasChanged scan who forced forced_valid a f s))
                ]
          ]
    ]
