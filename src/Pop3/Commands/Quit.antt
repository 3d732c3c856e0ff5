-- ===== src/Pop3/Commands/Quit.antt =====
-- What QUIT does to the mailbox.
use asimap.Prelude.{
  ℕ, ◌-◌, ◌≡◌, refl, ap, sym, ◌∙◌, true, false, not, List, [], ◌∷◌, map, some, arith, ◌==◌,
  Bool-cases, inl, inr, ==_iff,
}
use asimap.Prelude.Lists.{All, length, mem, keep, get_elem?}
use asimap.Prelude.Ascending.{Asc}
use asimap.Prelude.Position.{position_of_get_elem?, get_elem?_of_lt}
use asimap.Prelude.Sorting.{sorted, Distinct, Asc→Distinct, sorted_of_Asc}
use asimap.Result.{ok, ok_or, traverse}
use asimap.Mbox.State.{Mailbox, item_before}
use asimap.Mbox.Invariant.{IsValid}
use asimap.Mbox.Expunge.{expunge}
use asimap.Mbox.Expunge.Forced.{expunge-forced}
use asimap.Mbox.Store.Total.{item_before_of_some}
use asimap.Pop3.Session.{Session, bye}
use asimap.Pop3.Commands.{do_quit}
use asimap.Pop3.Commands.Listing.{item_for, item_before-item_for, Within}

-- The item for a number stands before it in the list.
get_elem?-item_for :
    (n : ℕ) (xs : List ℕ) → Within (length xs) n → get_elem? xs (n - 1) ≡ some (item_for n xs)
get_elem?-item_for n xs w =
    let (x, e) = get_elem?_of_lt xs (n - 1) (omega arith) in
    let q = item_before_of_some n xs w.0 e in e ∙ sym (ap (λ r. some (ok_or 0 r)) q)

-- Different numbers have different items, where the list ascends.
item_for_eq :
    (n k : ℕ) (xs : List ℕ)
    → Asc xs
    → Within (length xs) n
    → Within (length xs) k
    → item_for n xs == item_for k xs ≡ n == k
item_for_eq n k xs a wn wk = elim (Bool-cases (n == k)) [
  | inl e ↦ let nk = (==_iff n k).0 e in ground (arith, ap (λ j. item_for j xs) nk)
  | inr e ↦ elim (Bool-cases (item_for n xs == item_for k xs)) [
    | inr f ↦ ground arith
    | inl f ↦
        let same = (==_iff (item_for n xs) (item_for k xs)).0 f in
        let pn = position_of_get_elem? xs (n - 1) (item_for n xs) a (get_elem?-item_for n xs wn) in
        let pk =
          position_of_get_elem? xs (k - 1) (item_for n xs) a
            (get_elem?-item_for k xs wk ∙ ap some (sym same)) in
        let places : n - 1 ≡ k - 1 = cc (pn, pk) in ground (arith, places)
  ]
]

mem-map-item_for :
    (n : ℕ) (ns xs : List ℕ)
    → Asc xs
    → Within (length xs) n
    → All (Within (length xs)) ns
    → mem (item_for n xs) (map (λ k. item_for k xs) ns) ≡ mem n ns
mem-map-item_for n [] xs a w ws = refl
mem-map-item_for n (k ∷ ns) xs a w ws =
    ground (arith, item_for_eq n k xs a w ws.0, mem-map-item_for n ns xs a w ws.1)

map-item_for-Distinct :
    (ns xs : List ℕ)
    → Asc xs
    → All (Within (length xs)) ns
    → Distinct ns
    → Distinct (map (λ k. item_for k xs) ns)
map-item_for-Distinct [] xs a ws d = tt
map-item_for-Distinct (n ∷ ns) xs a ws d =
    (mem-map-item_for n ns xs a ws.0 ws.1 ∙ d.0, map-item_for-Distinct ns xs a ws.1 d.1)

pub traverse-item_for :
    (ns xs : List ℕ)
    → All (Within (length xs)) ns
    → traverse (λ n. item_before n xs) ns ≡ ok (map (λ n. item_for n xs) ns)
traverse-item_for [] xs ws = refl
traverse-item_for (n ∷ ns) xs ws =
    rw (item_before-item_for n xs ws.0, traverse-item_for ns xs ws.1) refl

-- The UIDs of the marked messages.
abbrev pub marked_uids : Session → List ℕ
marked_uids s = map (λ n. item_for n s.snapshot_uids) s.deleted

-- The marks are a set of message numbers, and the UIDs of the snapshot ascend.
pub record IsMarked (s : Session) : Type 0 where
  pub uids_ascend : Asc s.snapshot_uids
  pub marks_ascend : Asc s.deleted
  pub marks_within : All (Within (length s.snapshot_uids)) s.deleted

keep_all : (xs : List ℕ) → keep (λ u. not (mem u [])) xs ≡ xs
keep_all [] = refl
keep_all (x ∷ xs) = ap (λ ys. x ∷ ys) (keep_all xs)

quit_of_marks :
    (s : Session) (m m' : Mailbox) (uids : List ℕ) (n : ℕ) (ns : List ℕ)
    → s.deleted ≡ n ∷ ns
    → traverse (λ j. item_before j s.snapshot_uids) (sorted s.deleted) ≡ ok uids
    → expunge (some uids) false m ≡ (ok tt, m')
    → do_quit s m ≡ (ok bye, m')
unfolding do_quit
quit_of_marks s m m' uids n ns e t q = ground (arith, e, t, q)

-- QUIT says `+OK Bye` and expunges exactly the messages of the mailbox whose UIDs were those of
-- marked messages, if the mailbox is valid and its files are there. What came into the mailbox or
-- left it during the session does not matter.
pub quit_expunges :
    (s : Session) (m : Mailbox)
    → IsMarked s
    → IsValid m
    → ((k : ℕ) → mem k m.msg_keys ≡ true → mem k m.files ≡ true)
    → (m' : Mailbox) × (do_quit s m ≡ (ok bye, m'))
      × IsValid m'
      × (m'.uids ≡ keep (λ u. not (mem u (marked_uids s))) m.uids)
unfolding do_quit
quit_expunges s m k w files = go s.deleted refl
  where
    go :
        (marks : List ℕ)
        → s.deleted ≡ marks
        → (m' : Mailbox) × (do_quit s m ≡ (ok bye, m'))
          × IsValid m'
          × (m'.uids ≡ keep (λ u. not (mem u (marked_uids s))) m.uids)
    go [] e = (m, rw (e, do_quit) refl, w, rw e (sym (keep_all m.uids)))
    go (n ∷ ns) e =
        let d =
          map-item_for-Distinct s.deleted s.snapshot_uids k.uids_ascend k.marks_within
            (Asc→Distinct s.deleted k.marks_ascend) in
        let (gone, m', q, x, u) = expunge-forced (marked_uids s) m w d files in
        let t =
          ap (traverse (λ j. item_before j s.snapshot_uids))
            (sorted_of_Asc s.deleted k.marks_ascend)
          ∙ traverse-item_for s.deleted s.snapshot_uids k.marks_within in
        (m', quit_of_marks s m m' (marked_uids s) n ns e t q, x.valid, u)
