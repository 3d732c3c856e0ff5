-- ===== src/Mbox/Flags.antt =====
-- `_help_add_flag`, `_help_remove_flag`, `_help_replace_flags`: the flags of one message.
pub mod Effects
use text.Mathlib.Text.{◌==◌ as str_eq}
use asimap.Prelude.{ℕ, String, Bool, true, false, not, List, [], ◌∷◌, ◌++◌, ◌||◌, if◌then◌else◌}
use asimap.Prelude.Lists.{keep}
use asimap.Prelude.Dict.{str_mem}
use asimap.Mbox.Sequences.{Sequences, add_to, discard_from, msg_sequences}

unfoldable pub help_add_flag : ℕ → String → Sequences → Sequences
help_add_flag key flag seqs =
    let seqs' = add_to flag key seqs in
    if str_eq flag "Seen"
    then discard_from "unseen" key seqs'
    else if str_eq flag "unseen"
    then discard_from "Seen" key seqs'
    else seqs'

unfoldable pub help_remove_flag : ℕ → String → Sequences → Sequences
help_remove_flag key flag seqs =
    let seqs' = discard_from flag key seqs in
    if str_eq flag "Seen"
    then add_to "unseen" key seqs'
    else if str_eq flag "unseen"
    then add_to "Seen" key seqs'
    else seqs'

-- `for seq in names: self.sequences[seq].add(key)`, and the same with `discard`
unfoldable pub add_to_all : List String → ℕ → Sequences → Sequences
add_to_all [] key seqs = seqs
add_to_all (name ∷ names) key seqs = add_to_all names key (add_to name key seqs)

unfoldable pub discard_from_all : List String → ℕ → Sequences → Sequences
discard_from_all [] key seqs = seqs
discard_from_all (name ∷ names) key seqs = discard_from_all names key (discard_from name key seqs)

-- `new_msg_seqs` of `_help_replace_flags`, from the flags and the sequences that the message is in
unfoldable pub replaced_seqs : List String → List String → List String
replaced_seqs cur flags =
    let new = if str_mem "Seen" flags then flags else flags ++ "unseen" ∷ [] in
    if str_mem "Recent" cur then new ++ "Recent" ∷ [] else new

unfoldable pub help_replace_flags : ℕ → List String → Sequences → Sequences
unfolding replaced_seqs add_to_all discard_from_all
help_replace_flags key flags seqs =
    let cur = msg_sequences key seqs in
    let new = replaced_seqs cur flags in
    discard_from_all (keep (λ s. not (str_mem s new)) cur) key (add_to_all new key seqs)
