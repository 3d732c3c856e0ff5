-- ===== src/Mbox/Resync/Settle.antt =====
-- The steps of a resync that take new messages in, on lists that match.
use asimap.Prelude.{
  ℕ, ◌+◌, ◌-◌, ◌<◌, String, ◌≡◌, refl, ap, sym, ◌∙◌, Bool, true, false, Option, some, List, [], ◌∷◌,
  ◌++◌, map, arith, Bool-cases, inl, inr,
}
use asimap.Prelude.Lists.{
  All, All-append, mem, mem-append, length, length-append, length-span, span, range, All-mem-of,
}
use asimap.Prelude.Ascending.{Asc, Asc-append, span-Asc, span-ge}
use asimap.Prelude.Dict.{str_mem, index_of?, enumerate_from}
use asimap.Prelude.Position.{index_of-enumerate, position_of_mem}
use asimap.Result.{ok, traverse_total, Result-cases}
use asimap.Mbox.State.{Mailbox, Notice, marked, generate_fetch_msg_for, dispatch_or_pend}
use asimap.Mbox.Invariant.{IsValid}
use asimap.Mbox.Resync.{Scan, assign_uids, take_in, announce}
use asimap.Mbox.Resync.Assign.{after_last-span, span-lt, All-lt-le}

-- The fields that name the messages.
abbrev pub SameNames : Mailbox → Mailbox → Type 0
SameNames a b =
    (a.msg_keys ≡ b.msg_keys)
    × (a.uids ≡ b.uids)
    × (a.key_to_idx ≡ b.key_to_idx)
    × (a.uid_to_idx ≡ b.uid_to_idx)
    × (a.next_uid ≡ b.next_uid)

pub marked-SameNames :
    (b : Bool) (m : Mailbox) → SameNames (marked b m).1 m × ((marked b m).1.num_msgs ≡ m.num_msgs)
unfolding marked
marked-SameNames true m = elim (Bool-cases (str_mem "\\Marked" m.attributes)) [
  | inl e ↦ rw e ((refl, refl, refl, refl, refl), refl)
  | inr e ↦ rw e ((refl, refl, refl, refl, refl), refl)
]
marked-SameNames false m = elim (Bool-cases (str_mem "\\Unmarked" m.attributes)) [
  | inl e ↦ rw e ((refl, refl, refl, refl, refl), refl)
  | inr e ↦ rw e ((refl, refl, refl, refl, refl), refl)
]

take_in-SameNames : (scan : Scan) (new : List ℕ) (m : Mailbox) → SameNames (take_in scan new m) m
unfolding take_in
take_in-SameNames scan new m = (marked-SameNames true m).0

dispatch-SameNames :
    (ns : List Notice) (who : Option String) (m : Mailbox)
    → SameNames (dispatch_or_pend ns who m) m × ((dispatch_or_pend ns who m).num_msgs ≡ m.num_msgs)
unfolding dispatch_or_pend
dispatch-SameNames [] who m = ((refl, refl, refl, refl, refl), refl)
dispatch-SameNames (n ∷ ns) who m = ((refl, refl, refl, refl, refl), refl)

generate_fetch_total :
    (key : ℕ) (m : Mailbox)
    → m.key_to_idx ≡ enumerate_from 0 m.msg_keys
    → mem key m.msg_keys ≡ true
    → (f : Notice × Notice) × (generate_fetch_msg_for key false m ≡ ok f)
unfolding generate_fetch_msg_for
generate_fetch_total key m i h =
    let (n, p) = position_of_mem key m.msg_keys h in
    let found : index_of? key m.key_to_idx ≡ some n = rw (i, index_of-enumerate key m.msg_keys) p in
    elim (Result-cases (generate_fetch_msg_for key false m)) [
      | inl (e, q) ↦ absurd (ground (arith, found))
      | inr (f, q) ↦ (f, q)
    ]

announce_lem :
    (scan : Scan) (new : List ℕ) (who : Option String) (m : Mailbox)
    → m.key_to_idx ≡ enumerate_from 0 m.msg_keys
    → ((k : ℕ) → mem k new ≡ true → mem k m.msg_keys ≡ true)
    → ((announce scan new who m).0 ≡ ok true)
      × SameNames (announce scan new who m).1 m
      × ((announce scan new who m).1.num_msgs ≡ m.num_msgs)
unfolding announce
announce_lem scan new who m i h =
    let (fs, t) =
      traverse_total (λ key. generate_fetch_msg_for key false m) new
        (All-mem-of (λ k. (f : Notice × Notice) × (generate_fetch_msg_for k false m ≡ ok f)) new
          (λ k e. generate_fetch_total k m i (h k e))) in
    let d = dispatch-SameNames (map (λ f. f.0) fs) who m in rw (t, announce) (refl, d.0, d.1)

-- What the steps after `reset` make of a mailbox that lacks the messages `new` of the folder.
pub record IsSettled (scan : Scan) (new : List ℕ) (m m' : Mailbox) : Type 0 where
  pub keys_all : m'.msg_keys ≡ m.msg_keys ++ new
  pub uids_all : m'.uids ≡ m.uids ++ span m.next_uid (length new)
  pub next_after : m'.next_uid ≡ m.next_uid + length new
  pub valid : IsValid m'

range-span : (a n : ℕ) → range a (a + n) ≡ span a n
range-span a n = let e : a + n - a ≡ n = omega arith in rw e

assigned-IsValid :
    (scan : Scan) (new : List ℕ) (m m' : Mailbox)
    → Asc scan.keys
    → scan.keys ≡ m.msg_keys ++ new
    → length m.uids ≡ length m.msg_keys
    → Asc m.uids
    → All (λ u. u < m.next_uid) m.uids
    → SameNames m' (assign_uids new m)
    → m'.num_msgs ≡ length scan.keys
    → m'.next_uid ≡ m.next_uid + length new
    → IsSettled scan new m m'
unfolding assign_uids
assigned-IsValid scan new m m' a e l ua ub s n x =
    let us : m'.uids ≡ m.uids ++ span m.next_uid (length new) =
      s.1 ∙ ap (λ r. m.uids ++ r) (range-span m.next_uid (length new)) in
    let ks : m'.msg_keys ≡ m.msg_keys ++ new = s.0 in
    record {
      keys_all = ks;
      uids_all = us;
      next_after = x;
      valid = record {
        keys_ascend = rw ks (rw e at a);
        uids_ascend = rw us (
            Asc-append m.uids (span m.next_uid (length new)) m.next_uid ua
              (span-Asc m.next_uid (length new)) ub
              (span-ge m.next_uid m.next_uid (length new) (omega arith)));
        aligned =
            rw (us, ks)
              (omega (
                arith,
                length-append m.uids (span m.next_uid (length new)),
                length-append m.msg_keys new,
                length-span m.next_uid (length new),
              ));
        uids_below =
            rw (us, x)
              (All-append (λ u. u < m.next_uid + length new) m.uids (span m.next_uid (length new))
                (All-lt-le m.next_uid (m.next_uid + length new) m.uids (omega arith) ub)
                (span-lt m.next_uid (length new) (m.next_uid + length new) (omega arith)));
        keys_indexed = s.2 ∙ ap (enumerate_from 0) (sym s.0);
        uids_indexed = s.3 ∙ ap (enumerate_from 0) (sym s.1);
        counted = n ∙ ap length (e ∙ sym ks);
      };
    }

num_msgs-take_in :
    (scan : Scan) (new : List ℕ) (m : Mailbox) → (take_in scan new m).num_msgs ≡ length scan.keys
unfolding take_in
num_msgs-take_in scan new m = refl

names_trans : (a b c : Mailbox) → SameNames a b → SameNames b c → SameNames a c
names_trans a b c p q = (p.0 ∙ q.0, p.1 ∙ q.1, p.2 ∙ q.2, p.3 ∙ q.3, p.4 ∙ q.4)

assigned_next :
    (new : List ℕ) (m : Mailbox)
    → (new ≡ [] → m.uids ≡ [])
    → (assign_uids new m).next_uid ≡ m.next_uid + length new
unfolding assign_uids
assigned_next [] m h =
    let e : m.uids ≡ [] = h refl in
    let z : m.next_uid + 0 - m.next_uid ≡ 0 = omega arith in rw (z, e) (omega arith)
assigned_next (k ∷ new) m h = after_last-span m.uids m.next_uid (length new)

key_to_idx-assign_uids :
    (new : List ℕ) (m : Mailbox)
    → (assign_uids new m).key_to_idx ≡ enumerate_from 0 (assign_uids new m).msg_keys
unfolding assign_uids
key_to_idx-assign_uids new m = refl

msg_keys-assign_uids :
    (new : List ℕ) (m : Mailbox) → (assign_uids new m).msg_keys ≡ m.msg_keys ++ new
unfolding assign_uids
msg_keys-assign_uids new m = refl

pub settle :
    (scan : Scan) (new : List ℕ) (who : Option String) (m : Mailbox)
    → Asc scan.keys
    → scan.keys ≡ m.msg_keys ++ new
    → length m.uids ≡ length m.msg_keys
    → Asc m.uids
    → All (λ u. u < m.next_uid) m.uids
    → (new ≡ [] → m.uids ≡ [])
    → ((announce scan new who (take_in scan new (assign_uids new m))).0 ≡ ok true)
      × IsSettled scan new m (announce scan new who (take_in scan new (assign_uids new m))).1
settle scan new who m a e l ua ub z =
    let m1 = assign_uids new m in
    let m2 = take_in scan new m1 in
    let t = take_in-SameNames scan new m1 in
    let x = announce_lem scan new who m2 (indexed t) (contained t) in
    (
      x.0,
      assigned-IsValid scan new m (announce scan new who m2).1 a e l ua ub
          (names_trans (announce scan new who m2).1 m2 m1 x.1 t)
          (x.2 ∙ num_msgs-take_in scan new m1) (x.1.4 ∙ t.4 ∙ assigned_next new m z),
    )
  where
    indexed :
        SameNames (take_in scan new (assign_uids new m)) (assign_uids new m)
        → (take_in scan new (assign_uids new m)).key_to_idx
          ≡ enumerate_from 0 (take_in scan new (assign_uids new m)).msg_keys
    indexed t = t.2 ∙ key_to_idx-assign_uids new m ∙ ap (enumerate_from 0) (sym t.0)

    contained :
        SameNames (take_in scan new (assign_uids new m)) (assign_uids new m)
        → (k : ℕ) → mem k new ≡ true
        → mem k (take_in scan new (assign_uids new m)).msg_keys ≡ true
    contained t k h =
        rw (t.0 ∙ msg_keys-assign_uids new m) (ground (arith, mem-append k m.msg_keys new))
