-- ===== src/Locks.antt =====
-- asimap/utils.py, `UpgradeableReadWriteLock`. Each definition is what a task does between two awaits
-- that can suspend it; a task is its number. The condition `_read_ready` is whether its lock is held,
-- and the tasks in `wait_for`: asleep, or notified and about to take the lock again.
pub mod System
pub mod Readers
pub mod Exclusion
use asimap.Prelude.{
  ℕ, suc, ◌+◌, ◌-◌, Bool, true, false, not, ◌&&◌, ◌||◌, Option, none, some, List, [], ◌∷◌, ◌++◌,
  ◌==◌, if◌then◌else◌,
}
use asimap.Prelude.Lists.{mem}

pub record Lock : Type 0 where
  pub locked : Bool
  pub asleep : List ℕ
  pub woken : List ℕ
  pub readers : ℕ
  pub readers_tasks : List ℕ
  pub want_write : ℕ
  pub write_lock_task : Option ℕ

abbrev pub new_lock : Lock
new_lock = record {
  locked = false;
  asleep = [];
  woken = [];
  readers = 0;
  readers_tasks = [];
  want_write = 0;
  write_lock_task = none;
}

-- `l.remove(x)`: the first item that equals `x`.
unfoldable pub remove_first : ℕ → List ℕ → List ℕ
remove_first t [] = []
remove_first t (x ∷ xs) = let rest = remove_first t xs in if t == x then xs else x ∷ rest

abbrev pub this_task_has_write_lock : ℕ → Lock → Bool
this_task_has_write_lock t l = elim l.write_lock_task [ none ↦ false | some holder ↦ holder == t ]

-- `read_lock`, on entry
unfoldable pub acquire_read : ℕ → Lock → Lock
acquire_read t l = record l { readers = suc l.readers; readers_tasks = t ∷ l.readers_tasks }

unfoldable pub notify_all : Lock → Lock
notify_all l = record l { asleep = []; woken = l.woken ++ l.asleep }

-- `read_lock`, on exit
unfoldable pub release_read : ℕ → Lock → Lock
unfolding notify_all remove_first
release_read t l =
    let left = record l {
      readers = l.readers - 1;
      readers_tasks = remove_first t l.readers_tasks;
    } in
    if left.readers == left.want_write then notify_all left else left

-- What `write_lock` comes to at its first await or its yield: an error, a wait, or the lock.
pub data Request : Type 0 where
  refused : Lock → Request
  waits : Lock → Request
  holds : Lock → Request

-- The lock is given: `_want_write` goes down and `_read_ready` stays held.
unfoldable pub take_write : ℕ → Lock → Lock
take_write t l = record l { locked = true; want_write = l.want_write - 1; write_lock_task = some t }

-- `write_lock`, on entry
unfoldable pub request_write : ℕ → Lock → Request
unfolding take_write
request_write t l =
    if l.locked && this_task_has_write_lock t l
    then refused l
    else let wanted = record l { want_write = suc l.want_write } in
      if l.readers == 0
      then refused wanted
      else if l.readers == wanted.want_write
      then holds (take_write t wanted)
      else waits (record wanted { asleep = wanted.asleep ++ t ∷ [] })

-- A notified task has the lock of the condition again and looks at the counts.
unfoldable pub wake : ℕ → Lock → Lock
unfolding take_write remove_first
wake t l =
    let up = record l { woken = remove_first t l.woken } in
    if up.readers == up.want_write
    then take_write t up
    else record up { asleep = up.asleep ++ t ∷ [] }

-- `write_lock`, on exit
unfoldable pub release_write : Lock → Lock
release_write l = record l { locked = false; write_lock_task = none }
