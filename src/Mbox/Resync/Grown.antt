-- ===== src/Mbox/Resync/Grown.antt =====
-- A forced resync of a folder that has got new messages.
use asimap.Prelude.{
  ℕ, ◌+◌, ◌≤◌, String, ◌≡◌, refl, ap, sym, ◌∙◌, Bool, true, false, ◌&&◌, Option, List, [], ◌++◌,
  arith, leb, ◌==◌, Bool-cases, inl, inr,
}
use asimap.Prelude.Lists.{length, length-append, span}
use asimap.Prelude.Ascending.{Asc}
use asimap.Prelude.Dict.{str_mem}
use asimap.Result.{Result, ok}
use asimap.Mbox.State.{Mailbox}
use asimap.Mbox.Invariant.{IsValid}
use asimap.Mbox.Resync.{Scan, new_keys, resync_changed, check_new_msgs_and_flags, same_items}
use asimap.Mbox.Resync.Assign.{difference-append}
use asimap.Mbox.Resync.Settle.{settle}
use asimap.Mbox.Resync.Uids.{reset_of_grown, IsValid-SameNames, same_items-eq}

-- The mailbox has taken in the new messages, with the next UIDs.
pub record HasTaken (m : Mailbox) (new : List ℕ) (r : Result Bool × Mailbox) : Type 0 where
  pub returned : r.0 ≡ ok true
  pub valid : IsValid r.1
  pub keys : r.1.msg_keys ≡ m.msg_keys ++ new
  pub uids : r.1.uids ≡ m.uids ++ span m.next_uid (length new)
  pub next_uid : r.1.next_uid ≡ m.next_uid + length new

resync_grown :
    (scan : Scan) (new : List ℕ) (who : Option String) (m : Mailbox)
    → IsValid m
    → Asc scan.keys
    → scan.keys ≡ m.msg_keys ++ new
    → 1 ≤ length new
    → HasTaken m new (resync_changed scan who m)
unfolding resync_changed
resync_grown scan new who m v a e pos =
    let same_new : new_keys scan m ≡ new = rw e (difference-append m.msg_keys new (rw e at a)) in
    let z : new ≡ [] → m.uids ≡ [] = λ n. absurd (omega (arith, ap length n)) in
    let r = settle scan new who m a e v.aligned v.uids_ascend v.uids_below z in
    rw (reset_of_grown scan new m v e, same_new)
      (record {
        returned = r.0;
        valid = r.1.valid;
        keys = r.1.keys_all;
        uids = r.1.uids_all;
        next_uid = r.1.next_after;
      })

longer : (xs ys new : List ℕ) → ys ≡ xs ++ new → 1 ≤ length new → same_items ys xs ≡ false
longer xs ys new e pos = elim (Bool-cases (same_items ys xs)) [
  | inr f ↦ f
  | inl t ↦
      absurd (omega (arith, ap length (sym (same_items-eq ys xs t) ∙ e), length-append xs new))
]

-- A forced resync of a valid mailbox that can be selected, whose folder has new messages after the
-- old ones.
pub check_new_msgs-HasTaken :
    (scan : Scan) (new : List ℕ) (who : Option String) (m : Mailbox)
    → IsValid m
    → str_mem "\\Noselect" m.attributes ≡ false
    → Asc scan.keys
    → scan.keys ≡ m.msg_keys ++ new
    → 1 ≤ length new
    → HasTaken m new (check_new_msgs_and_flags scan who false m)
unfolding check_new_msgs_and_flags
check_new_msgs-HasTaken scan new who m v sel a e pos =
    let forced : Mailbox = record m { optional_resync = true } in
    let forced_valid = IsValid-SameNames m forced v (refl, refl, refl, refl, refl) refl in
    let h = resync_grown scan new who forced forced_valid a e pos in
    let f = longer m.msg_keys scan.keys new e pos in
    let q : (leb scan.start_mtime m.mtime && (m.optional_resync && false)) ≡ false = ground arith in
    let s : (same_items scan.keys m.msg_keys && length m.uids == m.num_msgs) ≡ false =
      ground (arith, f) in
    rw (sel, q, s)
      (record {
        returned = h.returned;
        valid = h.valid;
        keys = h.keys;
        uids = h.uids;
        next_uid = h.next_uid;
      })
