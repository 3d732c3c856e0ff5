-- ===== src/Mbox/Append/Uid.antt =====
-- The UID that APPEND returns.
use asimap.Prelude.{
  ℕ, zero, suc, ◌+◌, ◌≤◌, ◌<◌, String, ◌≡◌, refl, ap, sym, ◌∙◌, Bool, true, false, Option, none,
  some, List, [], ◌∷◌, ◌++◌, arith,
}
use asimap.Prelude.Lists.{length, length-append, get_elem?, span}
use asimap.Prelude.Ascending.{Asc}
use asimap.Prelude.Dict.{str_mem}
use asimap.Result.{Result, ok, err}
use asimap.Mbox.State.{Mailbox, get_uid_from_msg}
use asimap.Mbox.Invariant.{IsValid}
use asimap.Mbox.Resync.{Scan, check_new_msgs_and_flags}
use asimap.Mbox.Resync.Uids.{IsValid-SameNames}
use asimap.Mbox.Resync.Grown.{check_new_msgs-HasTaken}
use asimap.Mbox.Find.Hits.{uid_of_message}
use asimap.Mbox.Append.{added, append, after_resync}

get_elem?-append : (xs ys : List ℕ) (i : ℕ) → get_elem? (xs ++ ys) (length xs + i) ≡ get_elem? ys i
get_elem?-append [] ys i = ap (get_elem? ys) (omega arith)
get_elem?-append (x ∷ xs) ys i =
    let e : length (x ∷ xs) + i ≡ suc (length xs + i) = omega arith in
    rw e (get_elem?-append xs ys i)

get_elem?-span : (a n i : ℕ) → i < n → get_elem? (span a n) i ≡ some (a + i)
get_elem?-span a zero i h = absurd (omega arith)
get_elem?-span a (suc n) zero h = ap some (omega arith)
get_elem?-span a (suc n) (suc i) h =
    get_elem?-span (suc a) n i (omega arith) ∙ ap some (omega arith)

-- What APPEND leaves: the mailbox is valid, the new message has the UID that is returned, and the
-- messages before have their UIDs.
pub record IsAppended (m : Mailbox) (msg_key : ℕ) (new : List ℕ) (r : Result ℕ × Mailbox)
    : Type 0 where
  pub uid : ℕ
  pub returned : r.0 ≡ ok uid
  pub fresh : m.next_uid ≤ uid
  pub valid : IsValid r.1
  pub keys : r.1.msg_keys ≡ m.msg_keys ++ new
  pub uids : r.1.uids ≡ m.uids ++ span m.next_uid (length new)
  pub named : get_uid_from_msg msg_key r.1 ≡ ok (some uid)

finish :
    (msg_key uid : ℕ) (r : Result Bool × Mailbox)
    → r.0 ≡ ok true
    → get_uid_from_msg msg_key r.1 ≡ ok (some uid)
    → ((after_resync msg_key r).0 ≡ ok uid) × ((after_resync msg_key r).1 ≡ r.1)
finish msg_key uid (err e, m) h g = absurd (cc h)
finish msg_key uid (ok b, m) h g = (rw g refl, refl)

-- APPEND to a valid mailbox that can be selected, where the resync reads the new message and perhaps
-- others that were delivered before or after it: it returns the UID that the new message has, which
-- was never given out before, and leaves a valid mailbox in which the old messages have their UIDs.
pub append-IsAppended :
    (flags : Option (List String)) (msg_key : ℕ) (before after : List ℕ) (scan : Scan) (m : Mailbox)
    → IsValid m
    → str_mem "\\Noselect" m.attributes ≡ false
    → Asc scan.keys
    → scan.keys ≡ m.msg_keys ++ (before ++ msg_key ∷ after)
    → IsAppended m msg_key (before ++ msg_key ∷ after) (append flags msg_key scan m)
unfolding append added
append-IsAppended flags msg_key before after scan m v sel a e =
    let new = before ++ msg_key ∷ after in
    let size : length new ≡ length before + suc (length after) =
      length-append before (msg_key ∷ after) in
    let m1 = added flags msg_key m in
    let v1 = IsValid-SameNames m m1 v (refl, refl, refl, refl, refl) refl in
    let h = check_new_msgs-HasTaken scan new none m1 v1 sel a e (omega (arith, size)) in
    let r = check_new_msgs_and_flags scan none false m1 in
    let at_key : get_elem? r.1.msg_keys (length m.msg_keys + length before) ≡ some msg_key =
      ap (λ ks. get_elem? ks (length m.msg_keys + length before)) h.keys
      ∙ get_elem?-append m.msg_keys new (length before)
      ∙ ap (get_elem? new) (omega arith)
      ∙ get_elem?-append before (msg_key ∷ after) 0 in
    let at_uid : get_elem? r.1.uids (length m.msg_keys + length before)
        ≡ some (m.next_uid + length before) =
      ap (λ us. get_elem? us (length m.msg_keys + length before)) h.uids
      ∙ ap (λ n. get_elem? (m.uids ++ span m.next_uid (length new)) (n + length before))
          (sym v.aligned)
      ∙ get_elem?-append m.uids (span m.next_uid (length new)) (length before)
      ∙ get_elem?-span m.next_uid (length new) (length before) (omega (arith, size)) in
    let named =
      uid_of_message r.1 (length m.msg_keys + length before) msg_key (m.next_uid + length before)
        h.valid at_key at_uid in
    let (returned, same) = finish msg_key (m.next_uid + length before) r h.returned named in
    record {
      uid = m.next_uid + length before;
      returned = returned;
      fresh = omega arith;
      valid = rw same h.valid;
      keys = rw same h.keys;
      uids = rw same h.uids;
      named = rw same named;
    }
