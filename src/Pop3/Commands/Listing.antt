-- ===== src/Pop3/Commands/Listing.antt =====
-- STAT, LIST and UIDL.
use asimap.Prelude.{
  ℕ, zero, suc, ◌+◌, ◌-◌, ◌≤◌, String, ◌≡◌, refl, ap, sym, ◌∙◌, Bool, not, Option, none, some, List,
  [], ◌∷◌, ◌++◌, map, arith, ◌==◌, Bool-cases, Option-cases, inl, inr, ==_iff,
}
use mathlib.Core.List.{append_assoc, append-nil}
use asimap.Prelude.Lists.{All, length, mem, span, keep}
use asimap.Prelude.Dict.{index_of?}
use asimap.Prelude.Position.{get_elem?_of_lt}
use asimap.Result.{ok_or, ok}
use asimap.Mbox.State.{item_before}
use asimap.Mbox.Store.Total.{item_before_of_some}
use asimap.Pop3.Session.{
  Folder, ℤ, stat_is, sizes_are, uids_are, Session, size_of, get_msg_size, stat_loop, list_loop,
  uid_loop, numbers, do_stat,
}
use asimap.Pop3.Commands.{do_list, do_uidl}

-- The item for a message number.
abbrev pub item_for : ℕ → List ℕ → ℕ
item_for n xs = ok_or 0 (item_before n xs)

-- The size of a message of the session, as the folder has it.
abbrev pub true_size : Folder → Session → ℕ → ℕ
true_size folder s n = size_of (folder (item_for n s.snapshot_msg_keys))

-- What is cached is right.
abbrev pub IsCached : Folder → Session → Type 0
IsCached folder s = (n size : ℕ) → index_of? n s.msg_sizes ≡ some size → size ≡ true_size folder s n

-- The snapshot has a key and a UID for each message number.
abbrev pub IsSnapshot : Session → Type 0
IsSnapshot s = (length s.snapshot_msg_keys ≡ s.msg_count) × (length s.snapshot_uids ≡ s.msg_count)

abbrev pub is_left : Session → ℕ → Bool
is_left s n = not (mem n s.deleted)

-- The numbers of the messages that are not marked.
abbrev pub left : Session → List ℕ
left s = keep (is_left s) (numbers s)

abbrev pub sum : List ℕ → ℕ
sum [] = 0
sum (x ∷ xs) = x + sum xs

abbrev pub Within : ℕ → ℕ → Type 0
Within count n = (1 ≤ n) × (n ≤ count)

pub item_before-item_for :
    (n : ℕ) (xs : List ℕ) → Within (length xs) n → item_before n xs ≡ ok (item_for n xs)
item_before-item_for n xs h =
    let (x, e) = get_elem?_of_lt xs (n - 1) (omega arith) in
    let q = item_before_of_some n xs h.0 e in q ∙ sym (ap (λ r. ok (ok_or 0 r)) q)

abbrev some_or {ℓ} : {A : Type ℓ} → A → Option A → A
some_or a none = a
some_or a (some b) = b

some-injective : {a b : ℕ} → some a ≡ some b → b ≡ a
some-injective {a} e = sym (ap (some_or a) e)

pub get_msg_size_lem :
    (folder : Folder) (n : ℕ) (s : Session)
    → Within (length s.snapshot_msg_keys) n
    → IsCached folder s
    → (c : List (ℕ × ℕ)) × (get_msg_size folder n s
        ≡ ok (true_size folder s n, record s { msg_sizes = c }))
      × IsCached folder (record s { msg_sizes = c })
unfolding get_msg_size index_of?
get_msg_size_lem folder n s w h = elim (Option-cases (index_of? n s.msg_sizes)) [
  | inl e ↦ (
    (n, true_size folder s n) ∷ s.msg_sizes,
    rw (e, get_msg_size) (rw (item_before-item_for n s.snapshot_msg_keys w) refl),
    λ k size q. elim (Bool-cases (k == n)) [
      | inl f ↦ let kn = (==_iff k n).0 f in rw kn (some-injective (ground (arith, f, q)))
      | inr f ↦ h k size (ground (arith, f, q))
    ],
  )
  | inr (size, e) ↦ (s.msg_sizes, rw (e, get_msg_size) (ap (λ z. ok (z, s)) (h n size e)), h)
]

no_more : (a : ℕ) → a ≡ a + 0
no_more a = omega arith

from_zero : (a : ℕ) → 0 + a ≡ a
from_zero a = omega arith

one_more : (a b : ℕ) → a + 1 + b ≡ a + suc b
one_more a b = omega arith

more_size : (a b c : ℕ) → a + b + c ≡ a + (b + c)
more_size a b c = omega arith

-- The loop of STAT counts the messages of `nums` that are left and adds up their sizes.
stat_loop_lem :
    (folder : Folder) (nums : List ℕ) (count total : ℕ) (s : Session)
    → All (Within (length s.snapshot_msg_keys)) nums
    → IsCached folder s
    → (c : List (ℕ × ℕ)) × (stat_loop folder nums count total s
        ≡ ok (
          count + length (keep (is_left s) nums),
          total + sum (map (true_size folder s) (keep (is_left s) nums)),
          record s { msg_sizes = c },
        ))
      × IsCached folder (record s { msg_sizes = c })
unfolding stat_loop
stat_loop_lem folder [] count total s w h = (s.msg_sizes, ground arith, h)
stat_loop_lem folder (num ∷ nums) count total s w h = elim (Bool-cases (mem num s.deleted)) [
  | inl e ↦
      let (c, q, h') = stat_loop_lem folder nums count total s w.1 h in (c, rw (e, stat_loop) q, h')
  | inr e ↦
      let (b, q, h') = get_msg_size_lem folder num s w.0 h in
      let (c, r, h'') =
        stat_loop_lem folder nums (count + 1) (total + true_size folder s num)
          (record s { msg_sizes = b }) w.1 h' in
      let rest = keep (is_left s) nums in
      let counts = one_more count (length rest) in
      let totals = more_size total (true_size folder s num) (sum (map (true_size folder s) rest)) in
      (c, rw (e, stat_loop) (rw q (r ∙ cc (counts, totals))), h'')
]

abbrev pub with_size : Folder → Session → ℕ → ℕ × ℕ
with_size folder s n = (n, true_size folder s n)

-- The loop of LIST does so too, and adds a line for each.
list_loop_lem :
    (folder : Folder) (nums : List ℕ) (count total : ℕ) (lines : List (ℕ × ℕ)) (s : Session)
    → All (Within (length s.snapshot_msg_keys)) nums
    → IsCached folder s
    → (c : List (ℕ × ℕ)) × (list_loop folder nums count total lines s
        ≡ ok (
          count + length (keep (is_left s) nums),
          total + sum (map (true_size folder s) (keep (is_left s) nums)),
          lines ++ map (with_size folder s) (keep (is_left s) nums),
          record s { msg_sizes = c },
        ))
      × IsCached folder (record s { msg_sizes = c })
unfolding list_loop
list_loop_lem folder [] count total lines s w h =
    (s.msg_sizes, cc (no_more count, no_more total, append-nil lines), h)
list_loop_lem folder (num ∷ nums) count total lines s w h = elim (Bool-cases (mem num s.deleted)) [
  | inl e ↦
      let (c, q, h') = list_loop_lem folder nums count total lines s w.1 h in
      (c, rw (e, list_loop) q, h')
  | inr e ↦
      let (b, q, h') = get_msg_size_lem folder num s w.0 h in
      let line = with_size folder s num in
      let (c, r, h'') =
        list_loop_lem folder nums (count + 1) (total + true_size folder s num) (lines ++ line ∷ [])
          (record s { msg_sizes = b }) w.1 h' in
      let rest = keep (is_left s) nums in
      let counts = one_more count (length rest) in
      let totals = more_size total (true_size folder s num) (sum (map (true_size folder s) rest)) in
      let longer = append_assoc lines (line ∷ []) (map (with_size folder s) rest) in
      (c, rw (e, list_loop) (rw q (r ∙ cc (counts, totals, longer))), h'')
]

abbrev pub with_uid : Session → ℕ → ℕ × ℕ
with_uid s n = (n, item_for n s.snapshot_uids)

uid_loop_lem :
    (nums : List ℕ) (s : Session)
    → All (Within (length s.snapshot_uids)) nums
    → uid_loop nums s ≡ ok (map (with_uid s) (keep (is_left s) nums))
unfolding uid_loop
uid_loop_lem [] s w = refl
uid_loop_lem (num ∷ nums) s w = elim (Bool-cases (mem num s.deleted)) [
  | inl e ↦ rw (e, uid_loop) (uid_loop_lem nums s w.1)
  | inr e ↦
      rw (e, uid_loop)
        (rw (item_before-item_for num s.snapshot_uids w.0, uid_loop_lem nums s w.1) refl)
]

span-Within : (a n count : ℕ) → 1 ≤ a → a + n ≤ suc count → All (Within count) (span a n)
span-Within a zero count h k = tt
span-Within a (suc n) count h k =
    ((h, omega arith), span-Within (suc a) n count (omega arith) (omega arith))

numbers-Within : (s : Session) (count : ℕ) → count ≡ s.msg_count → All (Within count) (numbers s)
numbers-Within s count e = span-Within 1 (s.msg_count + 1 - 1) count (omega arith) (omega arith)

-- STAT, and LIST and UIDL without an argument, succeed and agree: they are about the messages that
-- are not marked, in order; LIST has the size and UIDL the UID of each, and STAT and LIST have their
-- number and the sum of their sizes. They change nothing but the cached sizes. The sizes are those of
-- the messages in the folder, if those cached before were; then those cached after are too.
pub listings_agree :
    (int : String → Option ℤ) (split : String → List String) (folder : Folder) (s : Session)
    → IsSnapshot s
    → IsCached folder s
    → (c d : List (ℕ × ℕ)) × (do_stat folder s
        ≡ ok (
          stat_is (length (left s)) (sum (map (true_size folder s) (left s))),
          record s { msg_sizes = c },
        ))
      × IsCached folder (record s { msg_sizes = c })
      × (do_list int split folder "" s
          ≡ ok (
            sizes_are
                (length (left s))
                (sum (map (true_size folder s) (left s)))
                (map (with_size folder s) (left s)),
            record s { msg_sizes = d },
          ))
      × IsCached folder (record s { msg_sizes = d })
      × (do_uidl int split "" s ≡ ok (uids_are (map (with_uid s) (left s))))
unfolding do_stat do_list do_uidl
listings_agree int split folder s snap h =
    let w = numbers-Within s (length s.snapshot_msg_keys) snap.0 in
    let (c, q, h') = stat_loop_lem folder (numbers s) 0 0 s w h in
    let (d, r, h'') = list_loop_lem folder (numbers s) 0 0 [] s w h in
    let u = uid_loop_lem (numbers s) s (numbers-Within s (length s.snapshot_uids) snap.1) in
    let counts = from_zero (length (left s)) in
    let totals = from_zero (sum (map (true_size folder s) (left s))) in
    (c, d, rw q (cc (counts, totals)), h', rw r (cc (counts, totals)), h'', rw u refl)
