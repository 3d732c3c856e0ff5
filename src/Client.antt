-- ===== src/Client.antt =====
-- asimap/client.py: the IMAP session of one client. The state of its command handler, what is sent
-- to the client, and the actions that the handlers are made of.
pub mod Action
pub mod Keeps
pub mod Answered
pub mod Speaks
pub mod Steps
pub mod Coherence
pub mod Quiet
pub mod ReadOnly
pub mod Waiting
pub mod Login
pub mod Anytime
pub mod Select
pub mod Folders
pub mod Selected
pub mod Dispatch
use asimap.Prelude.{
  ℕ, String, Bool, true, false, not, ◌&&◌, ◌||◌, Option, none, some, List, [], ◌∷◌, ◌++◌, map, ◌==◌,
  if◌then◌else◌,
}
use Prim.Native.Char.{code}
use asimap.Prelude.Lists.{any_of, keep}
use asimap.Result.{Error, Result, ok, err, no_such_mailbox}
use asimap.Mbox.State.{Notice}

pub data ClientState : Type 0 where
  not_authenticated authenticated selected logged_out : ClientState

pub data StatusAtt : Type 0 where
  messages recent uidnext uidvalidity unseen : StatusAtt

-- A response code of a tagged OK.
pub data Code : Type 0 where
  read_only read_write : Code
  append_uid : (uid_vv : ℕ) → (uid : ℕ) → Code
  copy_uid : (uid_vv : ℕ) → (src_uids : List ℕ) → (dst_uids : List ℕ) → Code

-- An untagged response: those of mailboxes, the lines that `Mailbox.selected` returns, and those that
-- the handlers make.
pub data Untagged : Type 0 where
  notice : Notice → Untagged
  first_unseen uid_validity uid_next : ℕ → Untagged
  flags permanent_flags : List String → Untagged
  search_results : List ℕ → Untagged
  fetch_response : (idx : ℕ) → (results : List String) → Untagged
  status_response : (name : String) → List (StatusAtt × ℕ) → Untagged
  capabilities : List String → Untagged
  namespaces server_id bye continuation : Untagged
  ok_code : Code → Untagged

-- A tagged response: `OK … completed`, with a code or without, NO, BAD, and `OK IDLE terminated`.
pub data Tagged : Type 0 where
  completed no_response bad_response idle_terminated : Tagged
  completed_with : Code → Tagged

pub data Line : Type 0 where
  untagged : Untagged → Line
  tagged : (tag : String) → Tagged → Line

-- A call of the user server or of a mailbox, with the arguments that matter to it.
pub data Call : Type 0 where
  get_mailbox : String → Call
  wait_for : String → Call
  select_it unselect_it : String → Call
  create delete rename : Call
  subscribe : Bool → Call
  append : Call
  resync : String → Call
  expunge : (name : String) → (uid_msg_set : Option (List ℕ)) → (check_deleted : Bool) → Call
  search : (name : String) → Call
  fetch store : (name : String) → (msg_set : List ℕ) → Call
  copy : (name : String) → Call

-- `BaseClientHandler` and `Authenticated`, with the lines pushed so far, whether the connection is
-- open, whether the mailbox has this client among its own, and the calls made so far.
pub record Session : Type 0 where
  pub name : String
  pub state : ClientState
  pub mbox : Option String
  pub tag : String
  pub client_id : List (String × String)
  pub excluded_capabilities : List String
  pub idling : Bool
  pub pending : List Notice
  pub examine : Bool
  pub fetch_while_pending_count : ℕ
  pub select_while_selected_count : ℕ
  pub pushed : List Line
  pub connected : Bool
  pub listening : Bool
  pub calls : List Call

abbrev pub is_selected : ClientState → Bool
is_selected selected = true
is_selected _ = false

abbrev pub is_some {ℓ} : {A : Type ℓ} → Option A → Bool
is_some none = false
is_some (some a) = true

abbrev pub push_notices : List Notice → Session → Session
push_notices notices s = record s { pushed = s.pushed ++ map untagged (map notice notices) }

abbrev pub pend_notices : List Notice → Session → Session
pend_notices notices s = record s { pending = s.pending ++ notices }

-- The lines that a resync pushes to every client: EXISTS and RECENT
abbrev pub is_count : Notice → Bool
is_count (Notice.exists n) = true
is_count (Notice.recent n) = true
is_count _ = false

abbrev pub counts : List Notice → List Notice
counts notices = keep is_count notices

-- The notices that wait until the client may have them
abbrev pub put_off : List Notice → List Notice
put_off notices = keep (λ n. not (is_count n)) notices

-- `_dispatch_or_pend_notifications` and `check_new_msgs_and_flags` of the mailbox, for this client
abbrev pub arrive : List Notice → Session → Session
arrive notices s =
    if s.listening
    then if s.idling
      then push_notices notices s
      else pend_notices (put_off notices) (push_notices (counts notices) s)
    else s

-- `Mailbox.delete`, for this client: its mailbox goes.
abbrev pub lose : Bool → Session → Session
lose false s = s
lose true s = record s { mbox = none; listening = false }

-- What a call of other code comes to. Until it is back other tasks run: notices arrive, and the
-- selected mailbox may be deleted.
pub record Answer (A : Type 0) : Type 0 where
  pub arrived : List Notice
  pub own_deleted : Bool
  pub result : Result A

-- `ready_and_okay` raises if the mailbox has been deleted.
abbrev pub kept : {A : Type 0} → Answer A → Answer A
kept a = if a.own_deleted then record a { result = err no_such_mailbox } else a

-- A mailbox is deleted when no command runs on it, so it stays while one does.
abbrev pub held : {A : Type 0} → Answer A → Answer A
held a = record a { own_deleted = false }

-- `self.mbox.unselected(…)` and `self.mbox = None`
abbrev pub leave : String → Session → Session
leave b s = record s { mbox = none; listening = false; calls = s.calls ++ unselect_it b ∷ [] }

abbrev pub leave_at : Option String → Session → Session
leave_at none s = s
leave_at (some b) s = leave b s

unfoldable pub leave_any : Session → Session
leave_any s = leave_at s.mbox s

-- `text in line`
unfoldable pub starts_with : String → String → Bool
starts_with String.[] line = true
starts_with (String.◌∷◌ c text) String.[] = false
starts_with (String.◌∷◌ c text) (String.◌∷◌ d line) = code c == code d && starts_with text line

unfoldable pub is_within : String → String → Bool
unfolding starts_with
is_within text String.[] = starts_with text ""
is_within text (String.◌∷◌ c line) = starts_with text (String.◌∷◌ c line) || is_within text line

-- Of the words of a FETCH response only the flags are not the server's own.
abbrev pub is_expunge : Notice → Bool
is_expunge (Notice.expunged n) = true
is_expunge (Notice.fetched n flag_list uid) = any_of (is_within "EXPUNGE") flag_list
is_expunge _ = false

-- `pending_expunges`
unfoldable pub pending_expunges : Session → Bool
unfolding is_within
pending_expunges s = any_of is_expunge s.pending

-- What `command` does after a handler has returned: a tagged OK, one with a code, or nothing yet.
pub data Reply : Type 0 where
  done : Reply
  silent : Reply
  with_code : Code → Reply
