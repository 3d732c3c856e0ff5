-- ===== src/Tests/Folders.antt =====
-- SELECT of and APPEND to the mailbox of three messages, and the theorems about them.
use asimap.Prelude.{ℕ, ◌+◌, ◌≡◌, refl, true, some, [], ◌∷◌, ◌++◌, arith}
use asimap.Prelude.Lists.{mem}
use asimap.Prelude.Dict.{lookup}
use asimap.Result.{ok}
use asimap.Mbox.Sequences.{has}
use asimap.Mbox.Resync.{Scan}
use asimap.Client.{first_unseen}
use asimap.Mbox.Select.{opening, selected}
use asimap.Mbox.Select.Unseen.{IsFirstUnseen, selected_unseen}
use asimap.Mbox.Append.{append}
use asimap.Mbox.Append.Uid.{IsAppended, append-IsAppended}
use asimap.Tests.Mailboxes.{three, three-IsValid, laptop}

three_unseen : (k : ℕ) → has "unseen" k three.sequences ≡ true → mem k three.msg_keys ≡ true
unfolding lookup
three_unseen k h = ground arith

seven_unseen : has "unseen" 7 three.sequences ≡ true
unfolding lookup
seven_unseen = refl

selected_unseen_example :
    (i : ℕ) × ((selected laptop three).0 ≡ ok (opening (first_unseen (i + 1) ∷ []) three))
    × IsFirstUnseen three i
selected_unseen_example =
    selected_unseen laptop three 7 three-IsValid refl three_unseen seven_unseen

-- The folder after two more messages, the second of which has been appended
abbrev fuller : Scan
fuller = record {
  start_mtime = 200;
  keys = 1 ∷ 3 ∷ 7 ∷ 8 ∷ 9 ∷ [];
  sequences = [];
  end_mtime = 200;
}

append-IsAppended_example :
    IsAppended three 9 ((8 ∷ []) ++ 9 ∷ []) (append (some ("\\Flagged" ∷ [])) 9 fuller three)
append-IsAppended_example =
    append-IsAppended (some ("\\Flagged" ∷ [])) 9 (8 ∷ []) [] fuller three three-IsValid refl
      (omega arith) refl
