-- ===== src/Tests/Sessions.antt =====
-- POP3 sessions on a mailbox of three messages, and the theorems about them.
use text.Mathlib.Text.{◌==◌ as str_eq}
use asimap.Prelude.{
  ℕ, String, ◌≡◌, refl, false, Option, none, some, List, [], ◌∷◌, ◌++◌, map, not, if◌then◌else◌,
  ◌==◌, arith,
}
use asimap.Prelude.Lists.{mem, length, keep}
use asimap.Prelude.Dict.{index_of?}
use asimap.Result.{ok}
use asimap.Mbox.State.{Mailbox}
use asimap.Mbox.Invariant.{IsValid}
use asimap.Mbox.Expunge.{expunge}
use asimap.Mbox.Expunge.Outcome.{IsExpunged}
use asimap.Mbox.Expunge.Forced.{expunge-forced}
use asimap.Pop3.DotStuffing.{dot_stuff, split_lines, join_lines, stuff_line}
use asimap.Pop3.DotStuffing.Receiver.{receive, terminator, receive-dot_stuff}
use asimap.Pop3.Session.{Folder, ℤ, pos, Session, bye, stat_is, sizes_are, uids_are, do_stat}
use asimap.Pop3.Commands.{Keyword, command, do_list, do_uidl, do_quit}
use asimap.Pop3.Commands.Listing.{
  left, IsCached, sum, true_size, with_size, with_uid, listings_agree,
}
use asimap.Pop3.Commands.Quit.{IsMarked, marked_uids, quit_expunges}
use asimap.Pop3.Commands.Returns.{IsSession}
use asimap.Pop3.Commands.Total.{goes_on, Outcome, command_total}
use asimap.Tests.Mailboxes.{three, three-IsValid}

-- Two lines, the second a dot.
dots_stuffed : dot_stuff (65 ∷ 13 ∷ 10 ∷ 46 ∷ []) ≡ 65 ∷ 13 ∷ 10 ∷ 46 ∷ 46 ∷ []
unfolding dot_stuff split_lines join_lines stuff_line
dots_stuffed = refl

receive-dot_stuff_example :
    receive (dot_stuff (65 ∷ 13 ∷ 10 ∷ 46 ∷ []) ++ terminator) ≡ some (65 ∷ 13 ∷ 10 ∷ 46 ∷ [])
receive-dot_stuff_example = receive-dot_stuff (65 ∷ 13 ∷ 10 ∷ 46 ∷ [])

-- Text to numbers, for the texts that the tests use.
abbrev read_number : String → Option ℤ
read_number s = if str_eq s "2" then some (pos 2) else if str_eq s "3" then some (pos 3) else none

abbrev one_word : String → List String
one_word s = s ∷ []

abbrev folder_of_three : Folder
folder_of_three k =
    if k == 7
    then none
    else some (record { rendered = 65 ∷ 13 ∷ 10 ∷ []; headers = []; body = 65 ∷ 13 ∷ 10 ∷ [] })

abbrev second_marked : Session
second_marked = record {
  snapshot_msg_keys = 1 ∷ 3 ∷ 7 ∷ [];
  snapshot_uids = 10 ∷ 11 ∷ 14 ∷ [];
  msg_count = 3;
  msg_sizes = [];
  deleted = 2 ∷ [];
}

second_marked-IsMarked : IsMarked second_marked
second_marked-IsMarked = record {
  uids_ascend = omega arith;
  marks_ascend = omega arith;
  marks_within = omega arith;
}

expunge-forced_example :
    (gone : List ℕ) × (m' : Mailbox) × (expunge (some (14 ∷ 99 ∷ [])) false three ≡ (ok tt, m'))
    × IsExpunged gone three m'
    × (m'.uids ≡ keep (λ u. not (mem u (14 ∷ 99 ∷ []))) three.uids)
expunge-forced_example =
    expunge-forced (14 ∷ 99 ∷ []) three three-IsValid (refl, (refl, tt)) (λ k h. h)

listings_agree_example :
    (c d : List (ℕ × ℕ)) × (do_stat folder_of_three second_marked
      ≡ ok (
        stat_is
            (length (left second_marked))
            (sum (map (true_size folder_of_three second_marked) (left second_marked))),
        record second_marked { msg_sizes = c },
      ))
    × IsCached folder_of_three (record second_marked { msg_sizes = c })
    × (do_list read_number one_word folder_of_three "" second_marked
        ≡ ok (
          sizes_are
              (length (left second_marked))
              (sum (map (true_size folder_of_three second_marked) (left second_marked)))
              (map (with_size folder_of_three second_marked) (left second_marked)),
          record second_marked { msg_sizes = d },
        ))
    × IsCached folder_of_three (record second_marked { msg_sizes = d })
    × (do_uidl read_number one_word "" second_marked
        ≡ ok (uids_are (map (with_uid second_marked) (left second_marked))))
unfolding index_of?
listings_agree_example =
    listings_agree read_number one_word folder_of_three second_marked (refl, refl) (λ n size q. cc)

-- So the listings are about the first and the third message; the file of the third is gone.
second_marked_left :
    map (with_size folder_of_three second_marked) (left second_marked) ≡ (1, 3) ∷ (3, 0) ∷ []
second_marked_left = refl

quit_expunges_example :
    (m' : Mailbox) × (do_quit second_marked three ≡ (ok bye, m'))
    × IsValid m'
    × (m'.uids ≡ keep (λ u. not (mem u (marked_uids second_marked))) three.uids)
quit_expunges_example =
    quit_expunges second_marked three second_marked-IsMarked three-IsValid (λ k h. h)

second_marked-IsSession : IsSession folder_of_three second_marked
unfolding index_of?
second_marked-IsSession = record {
  snapshot = (refl, refl);
  marked = second_marked-IsMarked;
  cached = λ n size q. cc;
}

command_total_example :
    Outcome read_number one_word folder_of_three
      (goes_on Keyword.list)
      (command read_number one_word folder_of_three Keyword.list "3" second_marked three)
command_total_example =
    command_total read_number one_word folder_of_three Keyword.list "3" second_marked three
      second_marked-IsSession
