-- ===== src/Tests/Written.antt =====
-- What is written to the database and read from it.
use asimap.Mbox.State.{Mailbox}
use asimap.Mbox.Database.{Stored, commit_to_db, restore}
use asimap.Mbox.Database.RoundTrip.{IsRestored, commit-IsRestored}
use asimap.Tests.Mailboxes.{three, three-IsValid}
use asimap.Prelude.{ℕ, ◌≡◌, refl, none, arith, List, [], ◌∷◌}
use asimap.Prelude.Ascending.{sorted_set}
use asimap.Compact.{digits, start_stop, compact_sequence, expand_sequence, group_by_run}
use asimap.Compact.RoundTrip.{expand-compact}

abbrev keys : List ℕ
keys = 6 ∷ 1 ∷ 3 ∷ 4 ∷ 5 ∷ 4 ∷ []

compact_keys : compact_sequence (6 ∷ 1 ∷ 3 ∷ 4 ∷ 5 ∷ []) ≡ digits 1 ∷ start_stop 3 6 ∷ []
unfolding compact_sequence group_by_run asimap.Prelude.Sorting.sorted
compact_keys = refl

expand-compact_example : expand_sequence (compact_sequence keys) ≡ sorted_set keys
expand-compact_example = expand-compact keys

-- A row of an earlier state of the mailbox, and the mailbox as it is made
abbrev earlier : Stored
earlier = record {
  uid_vv = 1;
  attributes = "\\Unmarked" ∷ [];
  mtime = 90;
  next_uid = 12;
  num_msgs = 1;
  num_recent = 0;
  uids = digits 10 ∷ [];
  msg_keys = digits 1 ∷ [];
  sequences = ("unseen", digits 1 ∷ []) ∷ ("Flagged", digits 1 ∷ []) ∷ [];
}

abbrev made : Mailbox
made = record three {
  uid_vv = 0;
  next_uid = 1;
  num_msgs = 0;
  mtime = 0;
  msg_keys = [];
  uids = [];
  key_to_idx = [];
  uid_to_idx = [];
  sequences = [];
  attributes = [];
}

commit-IsRestored_example : IsRestored three (restore none (commit_to_db three earlier).1 made)
unfolding asimap.Prelude.Dict.lookup
commit-IsRestored_example =
    commit-IsRestored none three made earlier three-IsValid
      ((tt, tt), (((omega arith, tt), (tt, tt)), (((omega arith, tt), (tt, tt)), tt))) refl
      (refl, (refl, tt)) refl
