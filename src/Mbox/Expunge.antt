-- ===== src/Mbox/Expunge.antt =====
-- `Mailbox.expunge`.
pub mod Deletion
pub mod Loop
pub mod Outcome
pub mod Correct
pub mod Forced
use asimap.Prelude.{
  ℕ, suc, ◌+◌, ◌-◌, String, Bool, true, false, Option, none, some, List, [], ◌∷◌, ◌++◌, map, ltb,
  ◌&&◌, ◌==◌, if◌then◌else◌,
}
use asimap.Prelude.Lists.{length, mem, get_elem?, delete_at, reverse_onto}
use asimap.Prelude.Ascending.{discard}
use asimap.Prelude.Dict.{index_of?}
use asimap.Prelude.Sorting.{sorted}
use asimap.Result.{Result, ok, err, key_error, index_error, ◌>>=◌, traverse}
use asimap.Mbox.Sequences.{Sequences, members}
use asimap.Mbox.State.{Mailbox, expunged, or_raise, dispatch_or_pend, rebuild_index_dicts}

-- `sorted(xs, reverse=True)`
abbrev pub sorted_down : List ℕ → List ℕ
sorted_down xs = reverse_onto (sorted xs) []

-- Case 3: the keys of the messages whose UIDs are in the set, flagged or not.
unfoldable pub forced : List ℕ → Mailbox → Result (List ℕ)
forced [] m = ok []
forced (uid ∷ uid_msg_set) m = elim (index_of? uid m.uid_to_idx) [
  | none ↦ forced uid_msg_set m
  | some idx ↦ or_raise (get_elem? m.msg_keys idx) index_error >>= λ key.
      forced uid_msg_set m >>= λ keys. ok (key ∷ keys)
]

-- `self.uids[self._msg_key_to_idx[key]]`
unfoldable pub uid_of_key : Mailbox → ℕ → Result ℕ
uid_of_key m key = or_raise (index_of? key m.key_to_idx) key_error >>= λ idx.
    or_raise (get_elem? m.uids idx) index_error

-- `to_delete[uids_to_delete.index(uid)]`, if the uid is there
unfoldable pub pick : ℕ → List ℕ → List ℕ → Option ℕ
pick uid [] keys = none
pick uid (u ∷ uids) [] = none
pick uid (u ∷ uids) (key ∷ keys) = if uid == u then some key else pick uid uids keys

unfoldable pub picks : List ℕ → List ℕ → List ℕ → List ℕ
unfolding pick
picks [] uids keys = []
picks (uid ∷ uid_msg_set) uids keys = elim (pick uid uids keys) [
  | none ↦ picks uid_msg_set uids keys
  | some key ↦ key ∷ picks uid_msg_set uids keys
]

-- Cases 1 and 2: the keys in the `Deleted` sequence, of those only the ones in the set if that has
-- an element.
unfoldable pub flagged : Option (List ℕ) → Mailbox → Result (List ℕ)
unfolding uid_of_key picks
flagged uid_msg_set m =
    let to_delete = sorted_down (members "Deleted" m.sequences) in
    traverse (uid_of_key m) to_delete >>= λ uids_to_delete. elim uid_msg_set [
      | none ↦ ok to_delete
      | some [] ↦ ok to_delete
      | some (uid ∷ uids) ↦ ok (sorted_down (picks (uid ∷ uids) uids_to_delete to_delete))
    ]

-- The message at an index goes from the lists, and its file from the folder.
-- A count of 0 stays 0; the source's would become -1, on a mailbox whose count is wrong already.
unfoldable pub drop_message : ℕ → Mailbox → Mailbox
drop_message which m = record m {
  msg_keys = delete_at which m.msg_keys;
  uids = delete_at which m.uids;
  num_msgs = m.num_msgs - 1;
}

-- `aremove` and the EXPUNGE response. `KeyError` if the file is gone.
unfoldable pub remove_file : ℕ → ℕ → Mailbox → Result (Unit {0}) × Mailbox
remove_file key which m =
    if mem key m.files
    then (
      ok tt,
      dispatch_or_pend (expunged (which + 1) ∷ []) none (record m { files = discard key m.files }),
    )
    else (err key_error, m)

-- The loop. The indices come from the dictionary as it was before the loop.
unfoldable pub delete_each : List ℕ → Mailbox → Result (Unit {0}) × Mailbox
unfolding drop_message remove_file
delete_each [] m = (ok tt, m)
delete_each (key ∷ keys) m = elim (index_of? key m.key_to_idx) [
  | none ↦ delete_each keys m
  | some which ↦ elim (ltb which (length m.uids) && ltb which (length m.msg_keys)) [
    | false ↦ (err index_error, m)
    | true ↦
        let (r, m') = remove_file key which (drop_message which m) in
        elim r [ err e ↦ (err e, m') | ok _ ↦ delete_each keys m' ]
  ]
]

unfoldable pub discard_each : List ℕ → List ℕ → List ℕ
discard_each [] s = s
discard_each (key ∷ keys) s = discard_each keys (discard key s)

-- What follows the loop.
unfoldable pub finish_expunge : List ℕ → Result (Unit {0}) × Mailbox → Result (Unit {0}) × Mailbox
unfolding discard_each
finish_expunge to_delete (err e, m) = (err e, m)
finish_expunge to_delete (ok _, m) =
    let sequences = map (λ (s : String × List ℕ). (s.0, discard_each to_delete s.1)) m.sequences in
    (
      ok tt,
      record (rebuild_index_dicts m) {
        sequences = sequences;
        num_recent = length (members "Recent" sequences);
        optional_resync = false;
      },
    )

unfoldable pub delete_all : Result (List ℕ) → Mailbox → Result (Unit {0}) × Mailbox
unfolding finish_expunge
delete_all (err e) m = (err e, m)
delete_all (ok to_delete) m = finish_expunge to_delete (delete_each to_delete m)

unfoldable pub expunge : Option (List ℕ) → Bool → Mailbox → Result (Unit {0}) × Mailbox
expunge none false m = (ok tt, m)
expunge (some uid_msg_set) false m =
    delete_all (forced uid_msg_set m >>= λ keys. ok (sorted_down keys)) m
expunge uid_msg_set true m = elim (members "Deleted" m.sequences) [
  | [] ↦ (ok tt, m)
  | _ ∷ _ ↦ delete_all (flagged uid_msg_set m) m
]
