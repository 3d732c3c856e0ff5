-- ===== src/Mbox/Expunge/Correct.antt =====
-- EXPUNGE by the `Deleted` sequence.
use asimap.Prelude.{ℕ, ◌≡◌, refl, ap, sym, ◌∙◌, true, Option, none, some, List, [], ◌∷◌, arith}
use asimap.Prelude.Lists.{mem, keep_with_self, All-mem-of}
use asimap.Prelude.Position.{
  position_of_mem, index_of-enumerate, get_elem?_of_lt, lt-length_of_position,
}
use asimap.Result.{ok, traverse_total}
use asimap.Mbox.Sequences.{members}
use asimap.Mbox.State.{Mailbox}
use asimap.Mbox.Invariant.{IsValid}
use asimap.Mbox.Expunge.{sorted_down, uid_of_key, flagged, delete_all, expunge}
use asimap.Mbox.Expunge.Deletion.{spared}
use asimap.Mbox.Expunge.Outcome.{IsExpunged, CanGo, mem-sorted_down, nothing_gone, delete_all_lem}

uid_of_key_total :
    (m : Mailbox) (key : ℕ)
    → IsValid m
    → mem key m.msg_keys ≡ true
    → (u : ℕ) × (uid_of_key m key ≡ ok u)
unfolding uid_of_key
uid_of_key_total m key v h =
    let (i, p) = position_of_mem key m.msg_keys h in
    let (u, e) =
      get_elem?_of_lt m.uids i
        (omega (arith, lt-length_of_position key i m.msg_keys p, v.aligned)) in
    (u, rw (v.keys_indexed, index_of-enumerate key m.msg_keys) (rw p (rw e refl)))

pub IsExpunged-nil : (m : Mailbox) → IsValid m → IsExpunged [] m m
IsExpunged-nil m v = record {
  keys_left = sym (nothing_gone m.msg_keys m.msg_keys refl) ∙ keep_with_self (spared []) m.msg_keys;
  uids_left = sym (nothing_gone m.msg_keys m.uids v.aligned);
  valid = v;
  flags_left = λ j k. refl;
  files_left = λ k. refl;
  next_uid_same = refl;
  responses = [];
  sent = refl;
  keys_follow = refl;
  uids_follow = refl;
}

expunge_of_some :
    (m : Mailbox) (uid_msg_set : Option (List ℕ)) (d : ℕ) (gone : List ℕ)
    → members "Deleted" m.sequences ≡ d ∷ gone
    → expunge uid_msg_set true m ≡ delete_all (flagged uid_msg_set m) m
unfolding expunge
expunge_of_some m none d gone e = rw (e, expunge) refl
expunge_of_some m (some x) d gone e = rw (e, expunge) refl

-- Without a UID set the flagged messages are all those of `Deleted`.
flagged-none :
    (m : Mailbox)
    → CanGo (members "Deleted" m.sequences) m
    → flagged none m ≡ ok (sorted_down (members "Deleted" m.sequences))
unfolding flagged
flagged-none m c =
    let deleted = members "Deleted" m.sequences in
    let (uids, t) = traverse_total (uid_of_key m) (sorted_down deleted) (
      All-mem-of (λ k. (u : ℕ) × (uid_of_key m k ≡ ok u)) (sorted_down deleted)
        (λ k h. uid_of_key_total m k c.valid (c.known k (sym (mem-sorted_down k deleted) ∙ h)))) in
    rw t refl

-- EXPUNGE of a valid mailbox, whose `Deleted` sequence names messages that it has and whose files
-- are there, succeeds. Exactly those messages go, with their UIDs, flags and files; the others keep
-- their UIDs and their order; the mailbox stays valid and `next_uid` stays; and a client that takes
-- each EXPUNGE response at its word ends with the new list.
pub expunge-IsExpunged :
    (m : Mailbox)
    → CanGo (members "Deleted" m.sequences) m
    → (m' : Mailbox) × (expunge none true m ≡ (ok tt, m'))
      × IsExpunged (members "Deleted" m.sequences) m m'
unfolding expunge
expunge-IsExpunged m c = go (members "Deleted" m.sequences) refl
  where
    go :
        (gone : List ℕ)
        → members "Deleted" m.sequences ≡ gone
        → (m' : Mailbox) × (expunge none true m ≡ (ok tt, m'))
          × IsExpunged (members "Deleted" m.sequences) m m'
    go [] e = (m, rw (e, expunge) refl, rw e (IsExpunged-nil m c.valid))
    go (d ∷ gone) e =
        let (m', q, x) = delete_all_lem (members "Deleted" m.sequences) m c in
        (m', expunge_of_some m none d gone e ∙ ap (λ r. delete_all r m) (flagged-none m c) ∙ q, x)
