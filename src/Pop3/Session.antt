-- ===== src/Pop3/Session.antt =====
-- The state of a `POP3CommandHandler` of asimap/pop3_client.py, and the loops over its messages.
use asimap.Prelude.{
  ℕ, ◌+◌, true, false, ◌||◌, Option, none, some, List, [], ◌∷◌, ◌++◌, ltb, if◌then◌else◌,
}
use asimap.Prelude.Lists.{length, mem, range}
use asimap.Prelude.Dict.{index_of?}
use asimap.Result.{Result, ok, ◌>>=◌}
use asimap.Mbox.State.{Mailbox, item_before}

-- A message as asimap/generator.py renders it with Python's `email` package: all of it
-- (`msg_as_bytes`), its headers (`msg_headers_as_bytes`), and what follows them.
pub record Message : Type 0 where
  pub rendered : List ℕ
  pub headers : List ℕ
  pub body : List ℕ

-- What `get_msg` finds for a message key.
abbrev pub Folder : Type 0
Folder = ℕ → Option Message

pub data ℤ : Type 0 where
  pos : ℕ → ℤ
  negsuc : ℕ → ℤ  -- `negsuc n` is -(n + 1)

-- The responses. `lines` are pairs of a message number and a size or a UID.
pub data Reply : Type 0 where
  stat_is : (count : ℕ) → (total : ℕ) → Reply
  size_is : (n : ℕ) → (size : ℕ) → Reply
  sizes_are : (count : ℕ) → (total : ℕ) → (lines : List (ℕ × ℕ)) → Reply
  uid_is : (n : ℕ) → (uid : ℕ) → Reply
  uids_are : (lines : List (ℕ × ℕ)) → Reply
  message_is : (size : ℕ) → (payload : List ℕ) → Reply
  top_is : (payload : List ℕ) → Reply
  message_deleted : ℕ → Reply
  done bye capabilities : Reply
  no_such_message not_available not_removed top_usage invalid_lines unknown_command : Reply

pub record Session : Type 0 where
  pub snapshot_msg_keys : List ℕ
  pub snapshot_uids : List ℕ
  pub msg_count : ℕ
  pub msg_sizes : List (ℕ × ℕ)
  pub deleted : List ℕ

-- `__init__` and `init_session`
unfoldable pub init_session : Mailbox → Session
init_session mbox = record {
  snapshot_msg_keys = mbox.msg_keys;
  snapshot_uids = mbox.uids;
  msg_count = length mbox.msg_keys;
  msg_sizes = [];
  deleted = [];
}

-- The size of a message that the folder may have lost.
abbrev pub size_of : Option Message → ℕ
size_of none = 0
size_of (some msg) = length msg.rendered

-- `_get_msg_size`
unfoldable pub get_msg_size : Folder → ℕ → Session → Result (ℕ × Session)
get_msg_size folder pop3_num s = elim (index_of? pop3_num s.msg_sizes) [
  | some size ↦ ok (size, s)
  | none ↦ item_before pop3_num s.snapshot_msg_keys >>= λ msg_key.
      let size = size_of (folder msg_key) in
      ok (size, record s { msg_sizes = (pop3_num, size) ∷ s.msg_sizes })
]

-- `_valid_msg_num`, of what `int` makes of the text; none if it raises `ValueError`
unfoldable pub valid_msg_num : Option ℤ → Session → Option ℕ
valid_msg_num none s = none
valid_msg_num (some (negsuc n)) s = none
valid_msg_num (some (pos n)) s =
    if ltb n 1 || ltb s.msg_count n then none else if mem n s.deleted then none else some n

-- The loop of `do_stat`
unfoldable pub stat_loop : Folder → List ℕ → ℕ → ℕ → Session → Result (ℕ × ℕ × Session)
unfolding get_msg_size
stat_loop folder [] count total s = ok (count, total, s)
stat_loop folder (num ∷ nums) count total s = elim (mem num s.deleted) [
  | true ↦ stat_loop folder nums count total s
  | false ↦ get_msg_size folder num s >>= λ r. stat_loop folder nums (count + 1) (total + r.0) r.1
]

-- The message numbers, `range(1, self.msg_count + 1)`
abbrev pub numbers : Session → List ℕ
numbers s = range 1 (s.msg_count + 1)

unfoldable pub do_stat : Folder → Session → Result (Reply × Session)
unfolding stat_loop
do_stat folder s = stat_loop folder (numbers s) 0 0 s >>= λ r. ok (stat_is r.0 r.1, r.2)

-- The loop of `do_list`
unfoldable pub list_loop :
    Folder → List ℕ → ℕ → ℕ → List (ℕ × ℕ) → Session → Result (ℕ × ℕ × List (ℕ × ℕ) × Session)
unfolding get_msg_size
list_loop folder [] count total lines s = ok (count, total, lines, s)
list_loop folder (num ∷ nums) count total lines s = elim (mem num s.deleted) [
  | true ↦ list_loop folder nums count total lines s
  | false ↦ get_msg_size folder num s >>= λ r.
      list_loop folder nums (count + 1) (total + r.0) (lines ++ (num, r.0) ∷ []) r.1
]

-- The loop of `do_uidl`
unfoldable pub uid_loop : List ℕ → Session → Result (List (ℕ × ℕ))
uid_loop [] s = ok []
uid_loop (num ∷ nums) s = elim (mem num s.deleted) [
  | true ↦ uid_loop nums s
  | false ↦ item_before num s.snapshot_uids >>= λ uid.
      uid_loop nums s >>= λ lines. ok ((num, uid) ∷ lines)
]
