-- ===== src/Mbox/Conflict.antt =====
-- Which IMAP commands may run on a mailbox at the same time: `intersect`, `would_conflict`,
-- `_cleanup_executing_tasks` of asimap/mbox.py, `IMAPCommand` and `CONFLICTING_COMMANDS` of
-- asimap/parse.py.
pub mod Admission
pub mod History
use asimap.Prelude.{
  ℕ, ◌-◌, Bool, true, false, not, ◌&&◌, ◌||◌, Option, none, some, List, [], ◌∷◌, if◌then◌else◌,
}
use asimap.Prelude.Lists.{mem, any_of, keep, length}
use asimap.Result.{Result, ok, err, runtime_error}

pub data ImapCommand : Type 0 where
  append authenticate capability check close copy create delete examine expunge : ImapCommand
  fetch id idle list login logout lsub move namespace noop : ImapCommand
  rename search select status store subscribe uid unselect unsubscribe : ImapCommand

pub record Command : Type 0 where
  pub command : ImapCommand
  pub fetch_peek : Bool
  pub msg_set_as_set : Option (List ℕ)
  pub completed : Bool

unfoldable pub is_conflicting : ImapCommand → Bool
is_conflicting append = true
is_conflicting check = true
is_conflicting close = true
is_conflicting delete = true
is_conflicting expunge = true
is_conflicting move = true
is_conflicting rename = true
is_conflicting _ = false

-- The commands that the inner `match` statements of `would_conflict` name.
pub data Kind : Type 0 where
  searches copies fetches stores others : Kind

unfoldable pub kind_of : ImapCommand → Kind
kind_of search = searches
kind_of copy = copies
kind_of fetch = fetches
kind_of store = stores
kind_of _ = others

abbrev pub messages : Command → List ℕ
messages c = elim c.msg_set_as_set [ none ↦ [] | some s ↦ s ]

unfoldable pub intersect : Command → Command → Bool
intersect a b = any_of (λ x. mem x (messages b)) (messages a)

-- The bodies of the loops: does the running command `cmd`, of kind `k`, stop the new one?
abbrev pub stops_copy : Command → Command → Kind → Bool
stops_copy imap_cmd cmd stores = intersect imap_cmd cmd
stops_copy imap_cmd cmd fetches = not cmd.fetch_peek && intersect imap_cmd cmd
stops_copy imap_cmd cmd _ = false

abbrev pub stops_fetch : Command → Command → Kind → Bool
stops_fetch imap_cmd cmd searches = false
stops_fetch imap_cmd cmd others = false
stops_fetch imap_cmd cmd _ = intersect imap_cmd cmd

abbrev pub stops_search : Command → Kind → Bool
stops_search cmd fetches = not cmd.fetch_peek
stops_search cmd stores = true
stops_search cmd _ = false

abbrev pub stops_store : Command → Command → Kind → Bool
stops_store imap_cmd cmd searches = true
stops_store imap_cmd cmd others = false
stops_store imap_cmd cmd _ = intersect imap_cmd cmd

abbrev pub is_searches : Kind → Bool
is_searches searches = true
is_searches _ = false

abbrev pub is_stores : Kind → Bool
is_stores stores = true
is_stores _ = false

-- The `match` on the new command, with other commands running and none of them conflicting;
-- `deleted` says whether the `Deleted` sequence has a member.
unfoldable pub conflict_of : Command → Bool → List Command → ImapCommand → Result Bool
conflict_of c deleted running append = ok true
conflict_of c deleted running check = ok true
conflict_of c deleted running delete = ok true
conflict_of c deleted running move = ok true
conflict_of c deleted running rename = ok true
conflict_of c deleted running close = ok deleted
conflict_of c deleted running expunge = ok deleted
conflict_of c deleted running copy =
    ok (any_of (λ cmd. stops_copy c cmd (kind_of cmd.command)) running)
conflict_of c deleted running fetch = ok (
    if c.fetch_peek
    then any_of (λ cmd. is_stores (kind_of cmd.command) && intersect c cmd) running
    else any_of
        (λ cmd. is_searches (kind_of cmd.command) || stops_fetch c cmd (kind_of cmd.command))
        running)
conflict_of c deleted running noop = ok false
conflict_of c deleted running select = ok false
conflict_of c deleted running status = ok false
conflict_of c deleted running examine = ok false
conflict_of c deleted running search =
    ok (any_of (λ cmd. stops_search cmd (kind_of cmd.command)) running)
conflict_of c deleted running store =
    ok (any_of (λ cmd. stops_store c cmd (kind_of cmd.command)) running)
conflict_of c deleted running _ = err runtime_error

unfoldable pub would_conflict : Command → Bool → List Command → Result Bool
unfolding conflict_of
would_conflict c deleted [] = ok false
would_conflict c deleted (r ∷ running) =
    if any_of (λ x. is_conflicting x.command) (r ∷ running)
    then ok true
    else conflict_of c deleted (r ∷ running) c.command

-- `_cleanup_executing_tasks`: what is left running, and how often `task_done` is called: once for
-- each `i` of `range(len(left) - len(before))`.
unfoldable pub cleanup_executing_tasks : List Command → List Command × ℕ
cleanup_executing_tasks running =
    let left = keep (λ c. not c.completed) running in (left, length left - length running)
