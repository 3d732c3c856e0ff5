-- ===== src/Tests/Sets.antt =====
-- Message sets of commands on the mailbox of three messages.
use asimap.Prelude.{ℕ, ◌+◌, ◌≤◌, ◌≡◌, refl, true, some, List, [], ◌∷◌}
use asimap.Prelude.Lists.{mem, any_of, length, get_elem?}
use asimap.Prelude.Ascending.{Asc, sorted_set, insert}
use asimap.Prelude.Dict.{index_of?}
use asimap.Result.{ok}
use asimap.SeqSet.{SeqElt, pair, num, star, sequence_set_to_list}
use asimap.SeqSet.Numbers.{names}
use asimap.Mbox.MsgSet.{largest, msg_set_to_msg_seq_set}
use asimap.Mbox.MsgSet.Uids.{msg_set_of_uids}
use asimap.Tests.Mailboxes.{three, three-IsValid}

-- `*:11`
abbrev from_eleven : List SeqElt
from_eleven = pair star (num 11) ∷ []

from_eleven_runs : msg_set_to_msg_seq_set (some from_eleven) true three ≡ ok (some (2 ∷ 3 ∷ []))
unfolding msg_set_to_msg_seq_set sequence_set_to_list sorted_set insert index_of?
from_eleven_runs = refl

msg_set_of_uids_example :
    Asc (2 ∷ 3 ∷ [])
    × ((n : ℕ) → mem n (2 ∷ 3 ∷ []) ≡ true → (1 ≤ n) × (n ≤ length three.uids))
    × ((i u : ℕ)
        → get_elem? three.uids i ≡ some u
        → mem (i + 1) (2 ∷ 3 ∷ []) ≡ any_of (names (largest true three) u) from_eleven)
msg_set_of_uids_example =
    msg_set_of_uids from_eleven three (2 ∷ 3 ∷ []) three-IsValid from_eleven_runs
