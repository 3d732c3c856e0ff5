-- ===== src/Mbox/Store.antt =====
-- `Mailbox.store`: the STORE command on a mailbox.
pub mod Split
pub mod Total
use text.Mathlib.Text.{◌==◌ as str_eq}
use asimap.Prelude.{ℕ, String, Bool, Option, List, [], ◌∷◌, map, if◌then◌else◌}
use asimap.Prelude.Dict.{str_mem}
use asimap.Constants.{flag_to_seq}
use asimap.Result.{Result, ok, err, rejected, ◌>>=◌, traverse}
use asimap.Mbox.Sequences.{Sequences}
use asimap.Mbox.State.{Mailbox, Notice, item_before, generate_fetch_msg_for, dispatch_or_pend}
use asimap.Mbox.Flags.{help_add_flag, help_remove_flag, help_replace_flags}

-- `StoreAction` of asimap/parse.py
pub data StoreAction : Type 0 where
  replace_flags add_flags remove_flags : StoreAction

unfoldable pub add_each : ℕ → List String → Sequences → Sequences
unfolding help_add_flag
add_each key [] seqs = seqs
add_each key (flag ∷ flags) seqs = add_each key flags (help_add_flag key flag seqs)

unfoldable pub remove_each : ℕ → List String → Sequences → Sequences
unfolding help_remove_flag
remove_each key [] seqs = seqs
remove_each key (flag ∷ flags) seqs = remove_each key flags (help_remove_flag key flag seqs)

-- The change of one message's flags; `flags` are MH sequence names.
unfoldable pub apply_action : StoreAction → ℕ → List String → Sequences → Sequences
apply_action add_flags key flags seqs = add_each key flags seqs
apply_action remove_flags key flags seqs = remove_each key flags seqs
apply_action replace_flags key flags seqs = help_replace_flags key flags seqs

-- The loop over the messages. An exception ends it, and what was changed stays changed.
unfoldable pub store_keys :
    StoreAction → List String → Bool → List ℕ → Mailbox → Result (List (Notice × Notice)) × Mailbox
store_keys action flags uid_cmd [] m = (ok [], m)
store_keys action flags uid_cmd (key ∷ keys) m =
    let m' = record m { sequences = apply_action action key flags m.sequences } in
    elim (generate_fetch_msg_for key uid_cmd m') [
      | err e ↦ (err e, m')
      | ok fetch ↦
          let (rest, m'') = store_keys action flags uid_cmd keys m' in
          (rest >>= λ fetches. ok (fetch ∷ fetches), m'')
    ]

-- What follows the loop: the sequences are written to the folder and the clients are notified.
unfoldable pub finish_store :
    Bool
    → Option String
    → Result (List (Notice × Notice)) × Mailbox
    → Result (List Notice) × Mailbox
finish_store uid_cmd dont_notify (err e, m) = (err e, m)
finish_store uid_cmd dont_notify (ok fetches, m) = (
  ok (if uid_cmd then map (λ f. f.1) fetches else map (λ f. f.0) fetches),
  dispatch_or_pend (map (λ f. f.0) fetches) dont_notify
      (record m { folder_sequences = m.sequences }),
)

unfoldable pub store :
    List ℕ
    → StoreAction
    → List String
    → Bool
    → Option String
    → Mailbox
    → Result (List Notice) × Mailbox
unfolding finish_store
store msg_set action flags uid_cmd dont_notify m =
    if str_mem "\\Recent" flags
    then (err rejected, m)
    else elim (traverse (λ x. item_before x m.msg_keys) msg_set) [
      | err e ↦ (err e, m)
      | ok keys ↦
          finish_store uid_cmd dont_notify
            (store_keys action (map flag_to_seq flags) uid_cmd keys m)
    ]
