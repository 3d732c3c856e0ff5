-- ===== src/Mbox/MsgSet/Uids.antt =====
-- Which messages a set of UIDs names.
use asimap.Prelude.{
  ℕ, ◌+◌, ◌≤◌, ◌≡◌, refl, ap, sym, ◌∙◌, true, false, some, List, [], ◌∷◌, arith, ◌==◌, ==_iff,
  Bool-cases, Option-cases, inl, inr,
}
use asimap.Prelude.Lists.{mem, any_of, length, get_elem?}
use asimap.Prelude.Ascending.{Asc, sorted_set, mem-sorted_set, sorted_set-Asc}
use asimap.Prelude.Dict.{index_of?, position}
use asimap.Prelude.Position.{
  position_of_get_elem?, get_elem?_of_position, index_of-enumerate, lt-length_of_position,
}
use asimap.Result.{ok, >>=-eq-ok}
use asimap.SeqSet.{SeqElt, sequence_set_to_list}
use asimap.SeqSet.Numbers.{names, sequence_set_to_list-names}
use asimap.Mbox.State.{Mailbox}
use asimap.Mbox.Invariant.{IsValid}
use asimap.Mbox.MsgSet.{largest, numbers_of_uids, msg_set_to_msg_seq_set}

found_at : (m : Mailbox) (uid : ℕ) → IsValid m → index_of? uid m.uid_to_idx ≡ position uid m.uids
found_at m uid v = rw v.uids_indexed (index_of-enumerate uid m.uids)

-- Different items stand at different places.
apart :
    (xs : List ℕ) (i j x y : ℕ)
    → get_elem? xs i ≡ some x
    → get_elem? xs j ≡ some y
    → x == y ≡ false
    → i == j ≡ false
apart xs i j x y h g e = elim (Bool-cases (i == j)) [
  | inl t ↦
      let ij = (==_iff i j).0 t in let xy : x ≡ y = cc (ij, h, g) in absurd (ground (arith, e, xy))
  | inr t ↦ t
]

-- The number of a message is there exactly if its UID is.
mem-numbers_of_uids :
    (m : Mailbox) (uids : List ℕ) (i u : ℕ)
    → IsValid m
    → get_elem? m.uids i ≡ some u
    → mem (i + 1) (numbers_of_uids m.uid_to_idx uids) ≡ mem u uids
unfolding numbers_of_uids
mem-numbers_of_uids m [] i u v h = refl
mem-numbers_of_uids m (uid ∷ uids) i u v h =
    let rest = mem-numbers_of_uids m uids i u v h in
    let f = found_at m uid v in
    let p = position_of_get_elem? m.uids i u v.uids_ascend h in
    elim (Option-cases (position uid m.uids)) [
      | inl z ↦ elim (Bool-cases (u == uid)) [
        | inl e ↦ let same = (==_iff u uid).0 e in absurd (cc (same, p, z))
        | inr e ↦ ground (arith, f, z, rest, e)
      ]
      | inr (j, z) ↦ elim (Bool-cases (u == uid)) [
        | inl e ↦
            let same = (==_iff u uid).0 e in
            let ij : i ≡ j = cc (same, p, z) in ground (arith, f, z, rest, e, ij)
        | inr e ↦
            let g = get_elem?_of_position m.uids uid j z in
            let other = apart m.uids i j u uid h g e in ground (arith, f, z, rest, e, other)
      ]
    ]

-- And no other number is.
numbers_of_uids-le :
    (m : Mailbox) (uids : List ℕ) (n : ℕ)
    → IsValid m
    → mem n (numbers_of_uids m.uid_to_idx uids) ≡ true
    → (1 ≤ n) × (n ≤ length m.uids)
unfolding numbers_of_uids
numbers_of_uids-le m [] n v h = cc
numbers_of_uids-le m (uid ∷ uids) n v h =
    let f = found_at m uid v in
    elim (Option-cases (position uid m.uids)) [
      | inl z ↦ numbers_of_uids-le m uids n v (ground (arith, f, z, h))
      | inr (j, z) ↦
          let k = lt-length_of_position uid j m.uids z in
          elim (Bool-cases (n == j + 1)) [
            | inl e ↦ ground (arith, e, k)
            | inr e ↦ numbers_of_uids-le m uids n v (ground (arith, f, z, h, e))
          ]
    ]

-- On a valid mailbox a set of UIDs, where it is accepted, becomes the ascending list of the numbers
-- of exactly those messages whose UIDs it names, `"*"` being the largest UID of the mailbox.
pub msg_set_of_uids :
    (elts : List SeqElt) (m : Mailbox) (ns : List ℕ)
    → IsValid m
    → msg_set_to_msg_seq_set (some elts) true m ≡ ok (some ns)
    → Asc ns
      × ((n : ℕ) → mem n ns ≡ true → (1 ≤ n) × (n ≤ length m.uids))
      × ((i u : ℕ)
          → get_elem? m.uids i ≡ some u
          → mem (i + 1) ns ≡ any_of (names (largest true m) u) elts)
unfolding msg_set_to_msg_seq_set
msg_set_of_uids elts m ns v h =
    let (msgs, e, q) = >>=-eq-ok (sequence_set_to_list elts (largest true m) true) _ h in
    let all = numbers_of_uids m.uid_to_idx msgs in
    let same : sorted_set all ≡ ns = cc q in
    let (_, named) = sequence_set_to_list-names elts (largest true m) true msgs e in
    (
      rw (← same) (sorted_set-Asc all),
      λ n k. numbers_of_uids-le m msgs n v (sym (mem-sorted_set n all) ∙ ap (mem n) same ∙ k),
      λ i u g.
          sym (ap (mem (i + 1)) same)
          ∙ mem-sorted_set (i + 1) all
          ∙ mem-numbers_of_uids m msgs i u v g
          ∙ named u,
    )
