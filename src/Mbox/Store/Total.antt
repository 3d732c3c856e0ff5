-- ===== src/Mbox/Store/Total.antt =====
-- Whether STORE succeeds, and its responses.
use asimap.Prelude.{
  ℕ, zero, suc, ◌-◌, ◌≤◌, String, ◌≡◌, refl, Bool, true, false, Option, some, List, [], ◌∷◌, map,
  arith, inl, inr,
}
use mathlib.Core.List.{map-map}
use asimap.Prelude.Lists.{All, get_elem?, length}
use asimap.Prelude.Ascending.{Asc}
use asimap.Prelude.Dict.{index_of?, enumerate_from, str_mem}
use asimap.Prelude.Position.{position_of_get_elem?, index_of-enumerate, get_elem?_of_lt}
use asimap.Constants.{flag_to_seq}
use asimap.Result.{Result, ok, err, traverse, Result-cases, ok-injective}
use asimap.Mbox.State.{
  Mailbox, Notice, exists, recent, expunged, fetched, item_before, generate_fetch_msg_for,
  dispatch_or_pend,
}
use asimap.Mbox.Invariant.{IsValid}
use asimap.Mbox.Store.{StoreAction, apply_action, store_keys, finish_store, store}

-- The message number of a FETCH response.
abbrev pub seq_no : Notice → ℕ
seq_no (exists n) = 0
seq_no (recent n) = 0
seq_no (expunged n) = 0
seq_no (fetched n flags uid) = n

-- The parts of a mailbox that name its messages.
abbrev pub SameMessages : Mailbox → Mailbox → Type 0
SameMessages a b =
    (a.msg_keys ≡ b.msg_keys)
    × (a.uids ≡ b.uids)
    × (a.key_to_idx ≡ b.key_to_idx)
    × (a.uid_to_idx ≡ b.uid_to_idx)
    × (a.next_uid ≡ b.next_uid)
    × (a.num_msgs ≡ b.num_msgs)

abbrev Named : List ℕ → List ℕ → List ℕ → Type 0
Named all [] [] = Unit
Named all [] (k ∷ ks) = ⊥
Named all (x ∷ xs) [] = ⊥
Named all (x ∷ xs) (k ∷ ks) = (1 ≤ x) × (get_elem? all (x - 1) ≡ some k) × Named all xs ks

abbrev pub InRange : Mailbox → ℕ → Type 0
InRange m x = (1 ≤ x) × (x ≤ length m.msg_keys)

pub item_before_of_some :
    (x : ℕ) (xs : List ℕ) {k : ℕ} → 1 ≤ x → get_elem? xs (x - 1) ≡ some k → item_before x xs ≡ ok k
item_before_of_some zero xs p h = absurd (omega arith)
item_before_of_some (suc i) xs p h = ground arith

traverse-Named :
    (m : Mailbox) (xs : List ℕ)
    → All (InRange m) xs
    → (ks : List ℕ) × (traverse (λ x. item_before x m.msg_keys) xs ≡ ok ks) × Named m.msg_keys xs ks
traverse-Named m [] h = ([], refl, tt)
traverse-Named m (x ∷ xs) h =
    let (k, e) = get_elem?_of_lt m.msg_keys (x - 1) (omega arith) in
    let (ks, f, n) = traverse-Named m xs h.1 in
    (k ∷ ks, rw (item_before_of_some x m.msg_keys h.0.0 e, f), (h.0.0, e, n))

generate_fetch_of_some :
    (m : Mailbox) (x k : ℕ) (uid_cmd : Bool)
    → Asc m.msg_keys
    → m.key_to_idx ≡ enumerate_from 0 m.msg_keys
    → 1 ≤ x
    → get_elem? m.msg_keys (x - 1) ≡ some k
    → (f : Notice × Notice) × (generate_fetch_msg_for k uid_cmd m ≡ ok f)
      × (seq_no f.0 ≡ x)
      × (seq_no f.1 ≡ x)
unfolding generate_fetch_msg_for
generate_fetch_of_some m x k uid_cmd a i p h =
    let found : index_of? k m.key_to_idx ≡ some (x - 1) =
      rw (i, index_of-enumerate k m.msg_keys) (position_of_get_elem? m.msg_keys (x - 1) k a h) in
    elim (Result-cases (generate_fetch_msg_for k uid_cmd m)) [
      | inl (e, q) ↦ absurd (ground (arith, found))
      | inr (f, q) ↦ (f, q, ground (arith, found), ground (arith, found))
    ]

store_keys-SameMessages :
    (action : StoreAction) (flags : List String) (uid_cmd : Bool) (keys : List ℕ) (m : Mailbox)
    → SameMessages (store_keys action flags uid_cmd keys m).1 m
unfolding store_keys
store_keys-SameMessages action flags uid_cmd [] m = (refl, refl, refl, refl, refl, refl)
store_keys-SameMessages action flags uid_cmd (key ∷ keys) m =
    let m' : Mailbox = record m { sequences = apply_action action key flags m.sequences } in
    elim (Result-cases (generate_fetch_msg_for key uid_cmd m')) [
      | inl (e, q) ↦ rw (q, store_keys) (refl, refl, refl, refl, refl, refl)
      | inr (a, q) ↦ rw (q, store_keys) (store_keys-SameMessages action flags uid_cmd keys m')
    ]

-- The loop succeeds, with one pair of responses for each message, numbered as in the command.
store_keys_total :
    (action : StoreAction) (flags : List String) (uid_cmd : Bool) (xs keys : List ℕ) (m : Mailbox)
    → Asc m.msg_keys
    → m.key_to_idx ≡ enumerate_from 0 m.msg_keys
    → Named m.msg_keys xs keys
    → (fs : List (Notice × Notice)) × ((store_keys action flags uid_cmd keys m).0 ≡ ok fs)
      × (map (λ f. seq_no f.0) fs ≡ xs)
      × (map (λ f. seq_no f.1) fs ≡ xs)
unfolding store_keys
store_keys_total action flags uid_cmd [] [] m a i n = ([], refl, refl, refl)
store_keys_total action flags uid_cmd [] (key ∷ keys) m a i n = absurd n
store_keys_total action flags uid_cmd (x ∷ xs) [] m a i n = absurd n
store_keys_total action flags uid_cmd (x ∷ xs) (key ∷ keys) m a i n =
    let m' : Mailbox = record m { sequences = apply_action action key flags m.sequences } in
    let (f, e, p, q) = generate_fetch_of_some m' x key uid_cmd a i n.0 n.1 in
    let (fs, es, ps, qs) = store_keys_total action flags uid_cmd xs keys m' a i n.2 in
    (f ∷ fs, rw (e, store_keys) (rw es), cc (p, ps), cc (q, qs))

finish_store-SameMessages :
    (uid_cmd : Bool) (dont_notify : Option String) (r : Result (List (Notice × Notice)) × Mailbox)
    → SameMessages (finish_store uid_cmd dont_notify r).1 r.1
unfolding finish_store dispatch_or_pend
finish_store-SameMessages uid_cmd dont_notify (err e, m) = (refl, refl, refl, refl, refl, refl)
finish_store-SameMessages uid_cmd dont_notify (ok fs, m) =
    dispatched (map (λ f. f.0) fs) (record m { folder_sequences = m.sequences })
  where
    dispatched :
        (ns : List Notice) (n : Mailbox) → SameMessages (dispatch_or_pend ns dont_notify n) n
    dispatched [] n = (refl, refl, refl, refl, refl, refl)
    dispatched (a ∷ rest) n = (refl, refl, refl, refl, refl, refl)

finish_store-numbers :
    (uid_cmd : Bool) (dont_notify : Option String) (r : Result (List (Notice × Notice)) × Mailbox)
    {fs : List (Notice × Notice)} {xs : List ℕ}
    → r.0 ≡ ok fs
    → map (λ f. seq_no f.0) fs ≡ xs
    → map (λ f. seq_no f.1) fs ≡ xs
    → (ns : List Notice) × ((finish_store uid_cmd dont_notify r).0 ≡ ok ns) × (map seq_no ns ≡ xs)
unfolding finish_store
finish_store-numbers uid_cmd dont_notify (err e, m) h p q = absurd (cc)
finish_store-numbers false dont_notify (ok gs, m) h p q =
    (map (λ f. f.0) gs, refl, rw (map-map seq_no (λ f. f.0) gs) (rw (ok-injective h) p))
finish_store-numbers true dont_notify (ok gs, m) h p q =
    (map (λ f. f.1) gs, refl, rw (map-map seq_no (λ f. f.1) gs) (rw (ok-injective h) q))

unfolded_store :
    (msg_set : List ℕ) (action : StoreAction) (flags : List String) (uid_cmd : Bool)
    (dont_notify : Option String) (m : Mailbox) (keys : List ℕ)
    → str_mem "\\Recent" flags ≡ false
    → traverse (λ x. item_before x m.msg_keys) msg_set ≡ ok keys
    → store msg_set action flags uid_cmd dont_notify m
      ≡ finish_store uid_cmd dont_notify (store_keys action (map flag_to_seq flags) uid_cmd keys m)
unfolding store
unfolded_store msg_set action flags uid_cmd dont_notify m keys e q = rw (e, q)

-- On a valid mailbox, with message numbers that are in range and without the flag `\Recent`, STORE
-- succeeds; its responses are one for each message of the command, in order and with its number.
pub store_total :
    (msg_set : List ℕ) (action : StoreAction) (flags : List String) (uid_cmd : Bool)
    (dont_notify : Option String) (m : Mailbox)
    → IsValid m
    → All (InRange m) msg_set
    → str_mem "\\Recent" flags ≡ false
    → (ns : List Notice) × ((store msg_set action flags uid_cmd dont_notify m).0 ≡ ok ns)
      × (map seq_no ns ≡ msg_set)
store_total msg_set action flags uid_cmd dont_notify m v r e =
    let (keys, q, n) = traverse-Named m msg_set r in
    let seqs = map flag_to_seq flags in
    let (fs, s, a, b) =
      store_keys_total action seqs uid_cmd msg_set keys m v.keys_ascend v.keys_indexed n in
    rw (unfolded_store msg_set action flags uid_cmd dont_notify m keys e q)
      (finish_store-numbers uid_cmd dont_notify (store_keys action seqs uid_cmd keys m) s a b)
