-- ===== src/Mbox/FolderFlags/Agreement.antt =====
-- `Seen` and `unseen` in what is read from a folder.
use text.Mathlib.Text.{◌==◌ as str_eq}
use text.Mathlib.TextEquality.{eq_iff}
use asimap.Prelude.{
  ℕ, String, ◌≡◌, refl, ap, sym, ◌∙◌, true, false, not, ◌&&◌, ◌||◌, some, List, [], ◌∷◌, arith,
  if◌then◌else◌, Bool-cases, inl, inr,
}
use asimap.Prelude.Lists.{mem, mem-keep}
use asimap.Prelude.Ascending.{sorted_set, difference, insert_all, mem-sorted_set, mem-insert_all}
use asimap.Prelude.Dict.{lookup-put, put}
use asimap.Result.{ok}
use asimap.Mbox.Sequences.{Sequences, members, has}
use asimap.Mbox.State.{Mailbox}
use asimap.Mbox.Resync.{same_items, is_empty}
use asimap.Mbox.Resync.Uids.{same_items-eq}
use asimap.Mbox.FolderFlags.{update_seen, add_recent, get_sequences_update_seen}

members-put :
    (j name : String) (s : List ℕ) (seqs : Sequences)
    → members j (put name s seqs) ≡ (if str_eq name j then s else members j seqs)
members-put j name s seqs = ground (arith, lookup-put name j s seqs)

-- The new `Seen`.
abbrev new_seen : List ℕ → Sequences → List ℕ
new_seen msg_keys seq =
    if is_empty (members "unseen" seq)
    then sorted_set msg_keys
    else sorted_set (difference msg_keys (members "unseen" seq))

mem-new_seen :
    (k : ℕ) (msg_keys : List ℕ) (seq : Sequences)
    → mem k (new_seen msg_keys seq) ≡ (mem k msg_keys && not (has "unseen" k seq))
mem-new_seen k msg_keys seq = go (members "unseen" seq)
  where
    go :
        (s : List ℕ)
        → mem k (if is_empty s then sorted_set msg_keys else sorted_set (difference msg_keys s))
          ≡ (mem k msg_keys && not (mem k s))
    go [] = ground (arith, mem-sorted_set k msg_keys)
    go (x ∷ s) = ground (
      arith,
      mem-sorted_set k (difference msg_keys (x ∷ s)),
      mem-keep (λ y. not (mem y (x ∷ s))) k msg_keys,
    )

update_seen_same :
    (msg_keys : List ℕ) (seq : Sequences)
    → same_items (new_seen msg_keys seq) (members "Seen" seq) ≡ true
    → (update_seen msg_keys seq).1 ≡ seq
unfolding update_seen
update_seen_same msg_keys seq e = ground (arith, e)

update_seen_changed :
    (msg_keys : List ℕ) (seq : Sequences)
    → same_items (new_seen msg_keys seq) (members "Seen" seq) ≡ false
    → (update_seen msg_keys seq).1 ≡ put "Seen" (new_seen msg_keys seq) seq
unfolding update_seen
update_seen_changed msg_keys seq e = ground (arith, e)

members-update_seen :
    (j : String) (msg_keys : List ℕ) (seq : Sequences)
    → members j (update_seen msg_keys seq).1
      ≡ (if str_eq "Seen" j then new_seen msg_keys seq else members j seq)
members-update_seen j msg_keys seq =
    elim (Bool-cases (same_items (new_seen msg_keys seq) (members "Seen" seq))) [
      | inl e ↦
          let q = same_items-eq (new_seen msg_keys seq) (members "Seen" seq) e in
          ap (members j) (update_seen_same msg_keys seq e) ∙ kept q
      | inr e ↦
          ap (members j) (update_seen_changed msg_keys seq e)
          ∙ members-put j "Seen" (new_seen msg_keys seq) seq
    ]
  where
    kept :
        new_seen msg_keys seq ≡ members "Seen" seq
        → members j seq ≡ (if str_eq "Seen" j then new_seen msg_keys seq else members j seq)
    kept q = elim (Bool-cases (str_eq "Seen" j)) [
      | inl f ↦
          let sj = (eq_iff "Seen" j).0 f in ap (λ i. members i seq) (sym sj) ∙ sym q ∙ rw f refl
      | inr f ↦ rw f refl
    ]

has-add_recent :
    (j : String) (k : ℕ) (recent : List ℕ) (seq : Sequences)
    → has j k (add_recent recent seq) ≡ (str_eq "Recent" j && mem k recent || has j k seq)
unfolding add_recent
has-add_recent j k [] seq = ground arith
has-add_recent j k (r ∷ rs) seq = elim (Bool-cases (str_eq "Recent" j)) [
  | inl f ↦
      let rj = (eq_iff "Recent" j).0 f in
      ground (
        arith,
        members-put j "Recent" (insert_all (r ∷ rs) (members "Recent" seq)) seq,
        mem-insert_all k (r ∷ rs) (members "Recent" seq),
        ap (λ i. members i seq) rj,
      )
  | inr f ↦ ground (arith, members-put j "Recent" (insert_all (r ∷ rs) (members "Recent" seq)) seq)
]

-- Reading the sequences of a folder that can be read returns sequences in which a message of the
-- mailbox is in `Seen` exactly if it is not in `unseen`, and no other message is; the messages that
-- are named as recent are in `Recent`, with those that were there; and every other sequence has the
-- members that it has in the folder.
pub get_sequences-agree :
    (folder : Sequences) (recent : List ℕ) (m : Mailbox)
    → (seq : Sequences) × (m' : Mailbox) × (get_sequences_update_seen (some folder) recent m
        ≡ (ok seq, m'))
      × ((k : ℕ) → has "Seen" k seq ≡ (mem k m.msg_keys && not (has "unseen" k seq)))
      × ((k : ℕ) → has "Recent" k seq ≡ (mem k recent || has "Recent" k folder))
      × ((j : String) (k : ℕ)
          → (str_eq "Seen" j || str_eq "Recent" j) ≡ false
          → has j k seq ≡ has j k folder)
unfolding get_sequences_update_seen
get_sequences-agree folder recent m =
    let mid = (update_seen m.msg_keys folder).1 in
    let at = λ (j : String) (k : ℕ). has-add_recent j k recent mid in
    let was = λ (j : String). members-update_seen j m.msg_keys folder in
    (
      _,
      _,
      refl,
      λ k. ground (
        arith,
        at "Seen" k,
        was "Seen",
        at "unseen" k,
        was "unseen",
        mem-new_seen k m.msg_keys folder,
      ),
      λ k. ground (arith, at "Recent" k, was "Recent"),
      λ j k h. ground (arith, at j k, was j),
    )
