-- ===== src/Pop3/Commands.antt =====
-- The handlers of `POP3CommandHandler` of asimap/pop3_client.py, and the keywords of
-- asimap/pop3_parse.py.
pub mod Listing
pub mod Marks
pub mod Quit
pub mod Returns
pub mod Total
use text.Mathlib.Text.{◌==◌ as str_eq}
use asimap.Prelude.{
  ℕ, String, Bool, true, false, Option, none, some, List, [], ◌∷◌, ◌++◌, if◌then◌else◌,
}
use asimap.Prelude.Lists.{length, take}
use asimap.Prelude.Ascending.{insert}
use asimap.Prelude.Sorting.{sorted}
use asimap.Result.{Result, ok, err, ◌>>=◌, traverse}
use asimap.Mbox.State.{Mailbox, item_before}
use asimap.Mbox.Expunge.{expunge}
use asimap.Pop3.DotStuffing.{split_lines, join_lines, dot_stuff}
use asimap.Pop3.Session.{
  Message, Folder, ℤ, pos, negsuc, Reply, size_is, sizes_are, uid_is, uids_are, message_is, top_is,
  message_deleted, done, bye, capabilities, no_such_message, not_available, not_removed, top_usage,
  invalid_lines, unknown_command, Session, get_msg_size, valid_msg_num, numbers, do_stat, list_loop,
  uid_loop,
}

-- `body_lines[1:]` if the body begins with an empty line
abbrev pub skip_blank : List (List ℕ) → List (List ℕ)
skip_blank [] = []
skip_blank ([] ∷ lines) = lines
skip_blank ((b ∷ line) ∷ lines) = (b ∷ line) ∷ lines

-- What TOP sends of a message: the headers and the first lines of the body.
unfoldable pub top_of : ℕ → Message → List ℕ
top_of num_lines msg =
    dot_stuff
      (msg.headers ++ 13 ∷ 10 ∷ join_lines (take num_lines (skip_blank (split_lines msg.body))))

unfoldable pub do_rset : Session → Session
do_rset s = record s { deleted = [] }

-- `do_quit`: the response, and the mailbox afterwards.
unfoldable pub do_quit : Session → Mailbox → Result Reply × Mailbox
do_quit s mbox = elim s.deleted [
  | [] ↦ (ok bye, mbox)
  | _ ∷ _ ↦ elim (traverse (λ n. item_before n s.snapshot_uids) (sorted s.deleted)) [
    | err e ↦ (err e, mbox)
    | ok uids_to_delete ↦
        let (r, mbox') = expunge (some uids_to_delete) false mbox in
        elim r [ err e ↦ (ok not_removed, mbox') | ok _ ↦ (ok bye, mbox') ]
  ]
]

-- The keywords that `POP3Command` lets through.
pub data Keyword : Type 0 where
  user pass stat list retr dele noop rset quit top uidl capa : Keyword

-- `int` and `str.split` are Python's; `int` is none where it raises `ValueError`.
module _ (int : String → Option ℤ) (split : String → List String) where
  unfoldable pub do_list : Folder → String → Session → Result (Reply × Session)
  unfolding get_msg_size valid_msg_num list_loop
  do_list folder args s =
      if str_eq args ""
      then (list_loop folder (numbers s) 0 0 [] s >>= λ r. ok (sizes_are r.0 r.1 r.2, r.3))
      else elim (valid_msg_num (int args) s) [
        | none ↦ ok (no_such_message, s)
        | some n ↦ get_msg_size folder n s >>= λ r. ok (size_is n r.0, r.1)
      ]

  unfoldable pub do_retr : Folder → String → Session → Result Reply
  unfolding valid_msg_num
  do_retr folder args s = elim (valid_msg_num (int args) s) [
    | none ↦ ok no_such_message
    | some n ↦ item_before n s.snapshot_msg_keys >>= λ msg_key. elim (folder msg_key) [
      | none ↦ ok not_available
      | some msg ↦ ok (message_is (length msg.rendered) (dot_stuff msg.rendered))
    ]
  ]

  unfoldable pub do_dele : String → Session → Reply × Session
  unfolding valid_msg_num
  do_dele args s = elim (valid_msg_num (int args) s) [
    | none ↦ (no_such_message, s)
    | some n ↦ (message_deleted n, record s { deleted = insert n s.deleted })
  ]

  unfoldable pub do_uidl : String → Session → Result Reply
  unfolding valid_msg_num uid_loop
  do_uidl args s =
      if str_eq args ""
      then (uid_loop (numbers s) s >>= λ lines. ok (uids_are lines))
      else elim (valid_msg_num (int args) s) [
        | none ↦ ok no_such_message
        | some n ↦ item_before n s.snapshot_uids >>= λ uid. ok (uid_is n uid)
      ]

  -- `do_top` with two words
  unfoldable pub top_words : Folder → String → String → Session → Result Reply
  unfolding valid_msg_num top_of
  top_words folder number lines s = elim (valid_msg_num (int number) s) [
    | none ↦ ok no_such_message
    | some n ↦ elim (int lines) [
      | none ↦ ok invalid_lines
      | some (negsuc k) ↦ ok invalid_lines
      | some (pos num_lines) ↦ item_before n s.snapshot_msg_keys >>= λ msg_key.
          elim (folder msg_key) [
            | none ↦ ok not_available
            | some msg ↦ ok (top_is (top_of num_lines msg))
          ]
    ]
  ]

  abbrev pub top_parts : Folder → List String → Session → Result Reply
  top_parts folder [] s = ok top_usage
  top_parts folder (number ∷ []) s = ok top_usage
  top_parts folder (number ∷ lines ∷ []) s = top_words folder number lines s
  top_parts folder (number ∷ lines ∷ more ∷ parts) s = ok top_usage

  unfoldable pub do_top : Folder → String → Session → Result Reply
  do_top folder args s = top_parts folder (split args) s

  -- `command`: whether the session goes on, the response, the session; and the mailbox. There is no
  -- handler for USER and PASS. After an exception the session is the one before.
  unfoldable pub command :
      Folder → Keyword → String → Session → Mailbox → Result (Bool × Reply × Session) × Mailbox
  unfolding do_stat do_list do_retr do_dele do_uidl do_top do_rset do_quit
  command folder user args s m = (ok (true, unknown_command, s), m)
  command folder pass args s m = (ok (true, unknown_command, s), m)
  command folder stat args s m = (do_stat folder s >>= λ r. ok (true, r.0, r.1), m)
  command folder list args s m = (do_list folder args s >>= λ r. ok (true, r.0, r.1), m)
  command folder retr args s m = (do_retr folder args s >>= λ r. ok (true, r, s), m)
  command folder dele args s m = let r = do_dele args s in (ok (true, r.0, r.1), m)
  command folder noop args s m = (ok (true, done, s), m)
  command folder rset args s m = (ok (true, done, do_rset s), m)
  command folder quit args s m =
      let (r, m') = do_quit s m in (r >>= λ reply. ok (false, reply, s), m')
  command folder top args s m = (do_top folder args s >>= λ r. ok (true, r, s), m)
  command folder uidl args s m = (do_uidl args s >>= λ r. ok (true, r, s), m)
  command folder capa args s m = (ok (true, capabilities, s), m)
