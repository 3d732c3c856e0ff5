-- ===== src/Mbox/Expunge/Outcome.antt =====
-- What the loop of EXPUNGE and what follows it leave of a valid mailbox.
use mathlib.Core.Path.{fun_ext}
use text.Mathlib.Text.{◌==◌ as str_eq}
use asimap.Prelude.{
  ℕ, ◌<◌, String, ◌≡◌, refl, ap, sym, ◌∙◌, Bool, true, false, not, ◌&&◌, List, [], ◌∷◌, map, arith,
  ◌==◌, Bool-cases, inl, inr,
}
use asimap.Prelude.Lists.{
  All, mem, length, reverse_onto, keep, keep_with, keep_with_self, mem-reverse_onto, mem-keep,
  All-mem-of,
}
use asimap.Prelude.Ascending.{Asc, keep-Asc, discard}
use asimap.Prelude.Dict.{lookup, enumerate_from}
use asimap.Prelude.Sorting.{sorted, mem-sorted, Distinct, sorted-Asc}
use asimap.Result.{ok}
use asimap.Mbox.Sequences.{Sequences, members, has}
use asimap.Mbox.State.{Mailbox, rebuild_index_dicts}
use asimap.Mbox.Invariant.{IsValid}
use asimap.Mbox.Expunge.{sorted_down, delete_each, discard_each, finish_expunge, delete_all}
use asimap.Mbox.Expunge.Deletion.{spared, reverse_onto-Descends}
use asimap.Mbox.Expunge.Loop.{apply_expunges, send_expunges, IsDone, delete_each_lem}

-- Exactly the messages of `gone` have left `m`, and the clients were told.
pub record IsExpunged (gone : List ℕ) (m m' : Mailbox) : Type 0 where
  pub keys_left : m'.msg_keys ≡ keep (spared gone) m.msg_keys
  pub uids_left : m'.uids ≡ keep_with (spared gone) m.msg_keys m.uids
  pub valid : IsValid m'
  pub flags_left :
      (j : String) (k : ℕ) → has j k m'.sequences ≡ (spared gone k && has j k m.sequences)
  pub files_left : (k : ℕ) → mem k m'.files ≡ (spared gone k && mem k m.files)
  pub next_uid_same : m'.next_uid ≡ m.next_uid
  pub responses : List ℕ
  pub sent : m'.clients ≡ send_expunges responses m.clients
  pub keys_follow : apply_expunges responses m.msg_keys ≡ m'.msg_keys
  pub uids_follow : apply_expunges responses m.uids ≡ m'.uids

mem-discard_each :
    (k : ℕ) (gone s : List ℕ) → mem k (discard_each gone s) ≡ (spared gone k && mem k s)
unfolding discard_each
mem-discard_each k [] s = refl
mem-discard_each k (d ∷ gone) s =
    ground (arith, mem-discard_each k gone (discard d s), mem-keep (λ x. not (d == x)) k s)

discard_each-nil : (gone : List ℕ) → discard_each gone [] ≡ []
unfolding discard_each
discard_each-nil [] = refl
discard_each-nil (d ∷ gone) = discard_each-nil gone

members-map :
    (f : List ℕ → List ℕ) (j : String) (seqs : Sequences)
    → f [] ≡ []
    → members j (map (λ (s : String × List ℕ). (s.0, f s.1)) seqs) ≡ f (members j seqs)
unfolding lookup
members-map f j [] h = sym h
members-map f j ((name, s) ∷ seqs) h = elim (Bool-cases (str_eq name j)) [
  | inl e ↦ ground arith
  | inr e ↦ ground (arith, members-map f j seqs h)
]

module _ (p : ℕ → Bool) where
  keep_with-All : (P : ℕ → Type 0) (ks us : List ℕ) → All P us → All P (keep_with p ks us)
  keep_with-All P [] us h = tt
  keep_with-All P (k ∷ ks) [] h = tt
  keep_with-All P (k ∷ ks) (u ∷ us) h = elim (Bool-cases (p k)) [
    | inl e ↦ rw e (h.0, keep_with-All P ks us h.1)
    | inr e ↦ rw e (keep_with-All P ks us h.1)
  ]

  keep_with-Asc : (ks us : List ℕ) → Asc us → Asc (keep_with p ks us)
  keep_with-Asc [] us h = tt
  keep_with-Asc (k ∷ ks) [] h = tt
  keep_with-Asc (k ∷ ks) (u ∷ us) h = elim (Bool-cases (p k)) [
    | inl e ↦ rw e (keep_with-All (λ v. u < v) ks us h.0, keep_with-Asc ks us h.1)
    | inr e ↦ rw e (keep_with-Asc ks us h.1)
  ]

  length-keep_with :
      (ks us : List ℕ) → length us ≡ length ks → length (keep_with p ks us) ≡ length (keep p ks)
  length-keep_with [] us h = ground arith
  length-keep_with (k ∷ ks) [] h = absurd (omega arith)
  length-keep_with (k ∷ ks) (u ∷ us) h = ground (arith, length-keep_with ks us (omega arith))

-- The test that `gone` is processed by is the test of `gone`.
spared-sorted_down : (gone : List ℕ) → spared (reverse_onto (sorted_down gone) []) ≡ spared gone
spared-sorted_down gone = fun_ext λ k. ground (
  arith,
  mem-reverse_onto k (sorted_down gone) [],
  mem-reverse_onto k (sorted gone) [],
  mem-sorted k gone,
)

-- The premises of an expunge: `gone` are different messages of a valid mailbox whose files are there.
pub record CanGo (gone : List ℕ) (m : Mailbox) : Type 0 where
  pub valid : IsValid m
  pub distinct : Distinct gone
  pub known : (k : ℕ) → mem k gone ≡ true → mem k m.msg_keys ≡ true
  pub on_disk : (k : ℕ) → mem k gone ≡ true → mem k m.files ≡ true

-- What `finish_expunge` makes of the mailbox after the loop.
abbrev finished : List ℕ → Mailbox → Mailbox
finished to_delete m = record m {
  key_to_idx = enumerate_from 0 m.msg_keys;
  uid_to_idx = enumerate_from 0 m.uids;
  sequences = map (λ (s : String × List ℕ). (s.0, discard_each to_delete s.1)) m.sequences;
  num_recent = length (
      members "Recent"
        (map (λ (s : String × List ℕ). (s.0, discard_each to_delete s.1)) m.sequences));
  optional_resync = false;
}

finished-IsValid :
    (p : ℕ → Bool) (to_delete : List ℕ) (m m' : Mailbox)
    → IsValid m
    → m'.msg_keys ≡ keep p m.msg_keys
    → m'.uids ≡ keep_with p m.msg_keys m.uids
    → m'.num_msgs ≡ length m'.msg_keys
    → m'.next_uid ≡ m.next_uid
    → IsValid (finished to_delete m')
finished-IsValid p to_delete m m' v ks us n u = record {
  keys_ascend = rw ks (keep-Asc p m.msg_keys v.keys_ascend);
  uids_ascend = rw us (keep_with-Asc p m.msg_keys m.uids v.uids_ascend);
  aligned = rw (ks, us) (length-keep_with p m.msg_keys m.uids v.aligned);
  uids_below = rw (us, u) (keep_with-All p (λ x. x < m.next_uid) m.msg_keys m.uids v.uids_below);
  keys_indexed = refl;
  uids_indexed = refl;
  counted = n;
}

pub mem-sorted_down : (k : ℕ) (gone : List ℕ) → mem k (sorted_down gone) ≡ mem k gone
mem-sorted_down k gone = ground (arith, mem-reverse_onto k (sorted gone) [], mem-sorted k gone)

pub nothing_gone : (ks us : List ℕ) → length us ≡ length ks → keep_with (spared []) ks us ≡ us
nothing_gone [] [] h = refl
nothing_gone [] (u ∷ us) h = absurd (omega arith)
nothing_gone (k ∷ ks) [] h = absurd (omega arith)
nothing_gone (k ∷ ks) (u ∷ us) h = ap (◌∷◌ u) (nothing_gone ks us (omega arith))

All-tt : (xs : List ℕ) → All (λ d. All (λ g. d < g) []) xs
All-tt [] = tt
All-tt (x ∷ xs) = (tt, All-tt xs)

All-tt' : (xs : List ℕ) → All (λ d. All (λ g. g < d) []) xs
All-tt' [] = tt
All-tt' (x ∷ xs) = (tt, All-tt' xs)

looped :
    (gone : List ℕ) (m : Mailbox) (c : CanGo gone m)
    → (m' : Mailbox) × (delete_each (sorted_down gone) m ≡ (ok tt, m'))
      × IsDone m.msg_keys m.uids c.valid.keys_ascend c.valid.aligned (sorted_down gone) [] m m'
looped gone m c =
    delete_each_lem m.msg_keys m.uids c.valid.keys_ascend c.valid.aligned (sorted_down gone) [] m
      (record {
        keys_left = sym (nothing_gone m.msg_keys m.msg_keys refl);
        uids_left = sym (nothing_gone m.msg_keys m.uids c.valid.aligned);
        indexed = c.valid.keys_indexed;
        count_left = c.valid.counted;
      })
      (reverse_onto-Descends (sorted gone) [] (sorted-Asc gone c.distinct) tt
        (All-tt' (sorted gone)))
      (All-tt (sorted_down gone))
      (All-mem-of (λ d. mem d m.msg_keys ≡ true) (sorted_down gone)
        (λ k e. c.known k (sym (mem-sorted_down k gone) ∙ e)))
      (All-mem-of (λ d. mem d m.files ≡ true) (sorted_down gone)
        (λ k e. c.on_disk k (sym (mem-sorted_down k gone) ∙ e)))

pub delete_all_lem :
    (gone : List ℕ) (m : Mailbox)
    → CanGo gone m
    → (m' : Mailbox) × (delete_all (ok (sorted_down gone)) m ≡ (ok tt, m')) × IsExpunged gone m m'
unfolding delete_all finish_expunge rebuild_index_dicts
delete_all_lem gone m c =
    let (m', q, d) = looped gone m c in
    let ds = sorted_down gone in
    let ks : m'.msg_keys ≡ keep (spared gone) m.msg_keys =
      d.left.keys_left ∙ rw (spared-sorted_down gone) (keep_with_self (spared gone) m.msg_keys) in
    let us : m'.uids ≡ keep_with (spared gone) m.msg_keys m.uids =
      d.left.uids_left ∙ rw (spared-sorted_down gone) refl in
    (
      finished ds m',
      rw q refl,
      record {
        keys_left = ks;
        uids_left = us;
        valid =
            finished-IsValid (spared gone) ds m m' c.valid ks us d.left.count_left d.same_next_uid;
        flags_left = λ j k.
            rw
              (members-map (discard_each ds) j m'.sequences (discard_each-nil ds), d.same_sequences)
              (ground
                (arith, mem-discard_each k ds (members j m.sequences), mem-sorted_down k gone));
        files_left = λ k. ground (arith, d.files_left k, mem-sorted_down k gone);
        next_uid_same = d.same_next_uid;
        responses = d.responses;
        sent = d.sent;
        keys_follow = d.keys_follow;
        uids_follow = d.uids_follow;
      },
    )
