-- ===== src/Mbox/Store/Split.antt =====
-- STORE and the sequences `Seen` and `unseen`.
use text.Mathlib.TextEquality.{eq_iff}
use asimap.Prelude.{
  ℕ, String, ◌≡◌, refl, Bool, false, not, ◌&&◌, Option, List, [], ◌∷◌, ◌++◌, map, arith, Bool-cases,
  inl, inr,
}
use asimap.Prelude.Dict.{str_mem, str_mem-append}
use asimap.Constants.{flag_to_seq}
use asimap.Result.{Result, ok, err, traverse, Result-cases}
use asimap.Mbox.Sequences.{Sequences, has, msg_sequences}
use asimap.Mbox.State.{Mailbox, Notice, item_before, generate_fetch_msg_for, dispatch_or_pend}
use asimap.Mbox.Flags.{help_add_flag, help_remove_flag, replaced_seqs}
use asimap.Mbox.Flags.Effects.{has-help_add_flag, has-help_remove_flag, has-help_replace_flags}
use asimap.Mbox.Store.{
  StoreAction, replace_flags, add_flags, remove_flags, add_each, remove_each, apply_action,
  store_keys, finish_store, store,
}

-- The message is in exactly one of the two sequences.
abbrev pub SeenSplit : Sequences → ℕ → Type 0
SeenSplit seqs k = has "Seen" k seqs ≡ not (has "unseen" k seqs)

-- The flags of a replacement do not name both.
abbrev pub OneOfSeen : StoreAction → List String → Type 0
OneOfSeen replace_flags flags = (str_mem "Seen" flags && str_mem "unseen" flags) ≡ false
OneOfSeen _ flags = Unit

help_add_flag-SeenSplit :
    (k key : ℕ) (flag : String) (seqs : Sequences)
    → SeenSplit seqs k
    → SeenSplit (help_add_flag key flag seqs) k
help_add_flag-SeenSplit k key flag seqs h = ground (
  arith,
  eq_iff flag "Seen",
  eq_iff flag "unseen",
  eq_iff "Seen" "unseen",
  has-help_add_flag "Seen" flag k key seqs,
  has-help_add_flag "unseen" flag k key seqs,
)

help_remove_flag-SeenSplit :
    (k key : ℕ) (flag : String) (seqs : Sequences)
    → SeenSplit seqs k
    → SeenSplit (help_remove_flag key flag seqs) k
help_remove_flag-SeenSplit k key flag seqs h = ground (
  arith,
  eq_iff flag "Seen",
  eq_iff flag "unseen",
  eq_iff "Seen" "unseen",
  has-help_remove_flag "Seen" flag k key seqs,
  has-help_remove_flag "unseen" flag k key seqs,
)

add_each-SeenSplit :
    (k key : ℕ) (flags : List String) (seqs : Sequences)
    → SeenSplit seqs k
    → SeenSplit (add_each key flags seqs) k
unfolding add_each
add_each-SeenSplit k key [] seqs h = h
add_each-SeenSplit k key (flag ∷ flags) seqs h =
    add_each-SeenSplit k key flags (help_add_flag key flag seqs)
      (help_add_flag-SeenSplit k key flag seqs h)

remove_each-SeenSplit :
    (k key : ℕ) (flags : List String) (seqs : Sequences)
    → SeenSplit seqs k
    → SeenSplit (remove_each key flags seqs) k
unfolding remove_each
remove_each-SeenSplit k key [] seqs h = h
remove_each-SeenSplit k key (flag ∷ flags) seqs h =
    remove_each-SeenSplit k key flags (help_remove_flag key flag seqs)
      (help_remove_flag-SeenSplit k key flag seqs h)

-- Of `Seen` and `unseen` exactly one is among the new sequences.
replaced_seqs-split :
    (cur flags : List String)
    → OneOfSeen replace_flags flags
    → str_mem "Seen" (replaced_seqs cur flags) ≡ not (str_mem "unseen" (replaced_seqs cur flags))
unfolding replaced_seqs
replaced_seqs-split cur flags h = ground (
  arith,
  str_mem-append "Seen" flags ("unseen" ∷ []),
  str_mem-append "unseen" flags ("unseen" ∷ []),
  str_mem-append "Seen" (flags ++ "unseen" ∷ []) ("Recent" ∷ []),
  str_mem-append "unseen" (flags ++ "unseen" ∷ []) ("Recent" ∷ []),
  str_mem-append "Seen" flags ("Recent" ∷ []),
  str_mem-append "unseen" flags ("Recent" ∷ []),
)

apply_action-SeenSplit :
    (action : StoreAction) (k key : ℕ) (flags : List String) (seqs : Sequences)
    → OneOfSeen action flags
    → SeenSplit seqs k
    → SeenSplit (apply_action action key flags seqs) k
unfolding apply_action
apply_action-SeenSplit add_flags k key flags seqs one h = add_each-SeenSplit k key flags seqs h
apply_action-SeenSplit remove_flags k key flags seqs one h =
    remove_each-SeenSplit k key flags seqs h
apply_action-SeenSplit replace_flags k key flags seqs one h = ground (
  arith,
  has-help_replace_flags "Seen" flags k key seqs,
  has-help_replace_flags "unseen" flags k key seqs,
  replaced_seqs-split (msg_sequences key seqs) flags one,
)

module _ (P : Sequences → Type 0) (action : StoreAction) (flags : List String) where
  -- What each change keeps, the loop keeps, also where it ends by an exception.
  pub store_keys_inv :
      ((key : ℕ) (seqs : Sequences) → P seqs → P (apply_action action key flags seqs))
      → (uid_cmd : Bool) (keys : List ℕ) (m : Mailbox) → P m.sequences
      → P (store_keys action flags uid_cmd keys m).1.sequences
  unfolding store_keys
  store_keys_inv keep uid_cmd [] m h = h
  store_keys_inv keep uid_cmd (key ∷ keys) m h =
      let m' : Mailbox = record m { sequences = apply_action action key flags m.sequences } in
      elim (Result-cases (generate_fetch_msg_for key uid_cmd m')) [
        | inl (e, q) ↦ rw (q, store_keys) (keep key m.sequences h)
        | inr (a, q) ↦
            rw (q, store_keys) (store_keys_inv keep uid_cmd keys m' (keep key m.sequences h))
      ]

sequences-dispatch_or_pend :
    (notices : List Notice) (dont_notify : Option String) (m : Mailbox)
    → (dispatch_or_pend notices dont_notify m).sequences ≡ m.sequences
unfolding dispatch_or_pend
sequences-dispatch_or_pend [] dont_notify m = refl
sequences-dispatch_or_pend (n ∷ ns) dont_notify m = refl

sequences-finish_store :
    (uid_cmd : Bool) (dont_notify : Option String) (r : Result (List (Notice × Notice)) × Mailbox)
    → (finish_store uid_cmd dont_notify r).1.sequences ≡ r.1.sequences
unfolding finish_store
sequences-finish_store uid_cmd dont_notify (err e, m) = refl
sequences-finish_store uid_cmd dont_notify (ok fetches, m) =
    sequences-dispatch_or_pend (map (λ f. f.0) fetches) dont_notify
      (record m { folder_sequences = m.sequences })

-- If a message is in exactly one of `Seen` and `unseen`, so it is after STORE, whatever messages and
-- flags the command names and whether or not it fails, provided a replacement does not name both.
pub store-SeenSplit :
    (msg_set : List ℕ) (action : StoreAction) (flags : List String) (uid_cmd : Bool)
    (dont_notify : Option String) (m : Mailbox) (k : ℕ)
    → OneOfSeen action (map flag_to_seq flags)
    → SeenSplit m.sequences k
    → SeenSplit (store msg_set action flags uid_cmd dont_notify m).1.sequences k
unfolding store
store-SeenSplit msg_set action flags uid_cmd dont_notify m k one h =
    elim (Bool-cases (str_mem "\\Recent" flags)) [
      | inl e ↦ rw e h
      | inr e ↦ elim (Result-cases (traverse (λ x. item_before x m.msg_keys) msg_set)) [
        | inl (x, q) ↦ rw (e, q) h
        | inr (keys, q) ↦
            let seqs = map flag_to_seq flags in
            let r = store_keys action seqs uid_cmd keys m in
            rw (e, q)
              (rw (sequences-finish_store uid_cmd dont_notify r) (
                store_keys_inv (λ s. SeenSplit s k) action seqs
                  (λ key s. apply_action-SeenSplit action k key seqs s one) uid_cmd keys m h))
      ]
    ]
