-- ===== src/Mbox/Expunge/Forced.antt =====
-- Expunge by UID, whatever the flags: what MOVE and a POP3 QUIT ask for.
use asimap.Prelude.{
  ℕ, suc, ◌≡◌, refl, sym, ap, ◌∙◌, true, false, not, none, some, List, [], ◌∷◌, arith, ◌==◌, ==_iff,
  Bool-cases, Option-cases, inl, inr,
}
use asimap.Prelude.Lists.{mem, length, get_elem?, keep, keep_with}
use asimap.Prelude.Ascending.{Asc}
use asimap.Prelude.Dict.{index_of?, position}
use asimap.Prelude.Sorting.{Distinct}
use asimap.Prelude.Position.{
  position_of_get_elem?, get_elem?_of_position, mem_of_get_elem?, position_of_mem,
  index_of-enumerate, get_elem?_of_lt, lt-length_of_position,
}
use asimap.Result.{ok, ◌>>=◌}
use asimap.Mbox.State.{Mailbox}
use asimap.Mbox.Invariant.{IsValid}
use asimap.Mbox.Expunge.{forced, delete_all, sorted_down, expunge}
use asimap.Mbox.Expunge.Deletion.{spared}
use asimap.Mbox.Expunge.Outcome.{CanGo, IsExpunged, delete_all_lem}

-- The messages of `keys` are those whose UIDs are in `uids`.
abbrev Picked : List ℕ → List ℕ → Mailbox → Type 0
Picked uids keys m =
    (i k u : ℕ)
    → get_elem? m.msg_keys i ≡ some k
    → get_elem? m.uids i ≡ some u
    → mem k keys ≡ mem u uids

-- An item of one list of the mailbox stands at one place, so it fixes that of the other.
same_item :
    (xs ys : List ℕ) (i j x y z : ℕ)
    → Asc xs
    → get_elem? xs i ≡ some x
    → get_elem? xs j ≡ some x
    → get_elem? ys i ≡ some y
    → get_elem? ys j ≡ some z
    → y ≡ z
same_item xs ys i j x y z a hi hj hy hz =
    let pi = position_of_get_elem? xs i x a hi in
    let pj = position_of_get_elem? xs j x a hj in let ij : i ≡ j = cc (pi, pj) in cc (ij, hy, hz)

-- Two messages have the same key exactly if they have the same UID.
same_message :
    (m : Mailbox) (i j k l u v : ℕ)
    → IsValid m
    → get_elem? m.msg_keys i ≡ some k
    → get_elem? m.uids i ≡ some u
    → get_elem? m.msg_keys j ≡ some l
    → get_elem? m.uids j ≡ some v
    → k == l ≡ u == v
same_message m i j k l u v w hk hu hl hv = elim (Bool-cases (k == l)) [
  | inl e ↦
      let kl = (==_iff k l).0 e in
      let uv : u ≡ v =
        same_item m.msg_keys m.uids i j k u v w.keys_ascend hk (hl ∙ ap some (sym kl)) hu hv in
      ground arith
  | inr e ↦ elim (Bool-cases (u == v)) [
    | inl f ↦
        let uv = (==_iff u v).0 f in
        let kl : k ≡ l =
          same_item m.uids m.msg_keys i j u k l w.uids_ascend hu (hv ∙ ap some (sym uv)) hk hl in
        ground arith
    | inr f ↦ ground arith
  ]
]

absent : (k : ℕ) (xs : List ℕ) → position k xs ≡ none → mem k xs ≡ false
absent k xs h = elim (Bool-cases (mem k xs)) [
  | inl e ↦ let (i, p) = position_of_mem k xs e in absurd (cc (h, p))
  | inr e ↦ e
]

forced_lem :
    (uids : List ℕ) (m : Mailbox)
    → IsValid m
    → Distinct uids
    → (keys : List ℕ) × (forced uids m ≡ ok keys)
      × Picked uids keys m
      × Distinct keys
      × ((k : ℕ) → mem k keys ≡ true → mem k m.msg_keys ≡ true)
unfolding forced
forced_lem [] m w d = ([], refl, (λ i k u hk hu. refl), tt, λ k h. cc)
forced_lem (uid ∷ uids) m w d =
    let (keys, e, p, dk, kn) = forced_lem uids m w d.1 in
    let found : index_of? uid m.uid_to_idx ≡ position uid m.uids =
      rw w.uids_indexed (index_of-enumerate uid m.uids) in
    elim (Option-cases (position uid m.uids)) [
      | inl z ↦ (
        keys,
        ground (arith, found, z, e),
        (λ i k u hk hu. ground (
          arith,
          p i k u hk hu,
          mem_of_get_elem? m.uids i hu,
          absent uid m.uids z,
          ==_iff u uid,
        )),
        dk,
        kn,
      )
      | inr (j, z) ↦
          let v = get_elem?_of_position m.uids uid j z in
          let (key, h) =
            get_elem?_of_lt m.msg_keys j
              (omega (arith, lt-length_of_position uid j m.uids z, w.aligned)) in
          let new : mem key keys ≡ false = p j key uid h v ∙ d.0 in
          (
            key ∷ keys,
            ground (arith, found, z, e, h),
            (λ i k u hk hu.
                ground (arith, p i k u hk hu, same_message m i j k key u uid w hk hu h v)),
            (new, dk),
            λ k g. ground (arith, kn k, mem_of_get_elem? m.msg_keys j h, ==_iff k key),
          )
    ]

-- The UIDs that stay, if the keys that go are those of the UIDs that go.
keep_with-Picked :
    (keys uids gone : List ℕ) (set : List ℕ)
    → length uids ≡ length keys
    → ((i k u : ℕ) → get_elem? keys i ≡ some k → get_elem? uids i ≡ some u → mem k gone ≡ mem u set)
    → keep_with (spared gone) keys uids ≡ keep (λ u. not (mem u set)) uids
keep_with-Picked [] [] gone set n p = refl
keep_with-Picked [] (u ∷ uids) gone set n p = absurd (omega arith)
keep_with-Picked (k ∷ keys) [] gone set n p = absurd (omega arith)
keep_with-Picked (k ∷ keys) (u ∷ uids) gone set n p =
    let rest = keep_with-Picked keys uids gone set (omega arith) (λ i. p (suc i)) in
    let same : spared gone k ≡ not (mem u set) = ap not (p 0 k u refl refl) in
    ground (arith, rest, same)

-- An expunge that ignores the flags, of different UIDs, on a valid mailbox whose files are there,
-- succeeds: exactly the messages with those UIDs go; a UID that the mailbox does not have is passed
-- over.
pub expunge-forced :
    (uids : List ℕ) (m : Mailbox)
    → IsValid m
    → Distinct uids
    → ((k : ℕ) → mem k m.msg_keys ≡ true → mem k m.files ≡ true)
    → (gone : List ℕ) × (m' : Mailbox) × (expunge (some uids) false m ≡ (ok tt, m'))
      × IsExpunged gone m m'
      × (m'.uids ≡ keep (λ u. not (mem u uids)) m.uids)
unfolding expunge
expunge-forced uids m w d files =
    let (gone, e, p, dk, kn) = forced_lem uids m w d in
    let c : CanGo gone m = record {
      valid = w;
      distinct = dk;
      known = kn;
      on_disk = λ k h. files k (kn k h);
    } in
    let (m', q, x) = delete_all_lem gone m c in
    (
      gone,
      m',
      ap (λ r. delete_all (r >>= λ keys. ok (sorted_down keys)) m) e ∙ q,
      x,
      x.uids_left ∙ keep_with-Picked m.msg_keys m.uids gone uids w.aligned p,
    )
