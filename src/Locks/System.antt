-- ===== src/Locks/System.antt =====
-- Tasks that share an `UpgradeableReadWriteLock`, and what they do with it in turn.
use asimap.Prelude.{ℕ, ◌+◌, ◌≡◌, true, false, some, List, [], ◌∷◌}
use asimap.Prelude.Lists.{mem, length}
use asimap.Locks.{
  Lock, new_lock, remove_first, acquire_read, release_read, waits, holds, request_write, wake,
  release_write,
}

-- The lock, and the tasks that are in the body of their `read_lock` and not waiting for more.
pub record System : Type 0 where
  pub lock : Lock
  pub inside : List ℕ

-- What tasks do that ask for the write lock only inside a read lock. A step that takes the lock of
-- the condition needs it free.
pub data Step : System → System → Type 0 where
  enter :
      (t : ℕ) (s : System)
      → s.lock.locked ≡ false
      → Step s (record { lock = acquire_read t s.lock; inside = t ∷ s.inside })
  leave :
      (t : ℕ) (s : System)
      → s.lock.locked ≡ false
      → mem t s.inside ≡ true
      → Step s (record { lock = release_read t s.lock; inside = remove_first t s.inside })
  upgrade :
      (t : ℕ) (s : System) (l : Lock)
      → s.lock.locked ≡ false
      → mem t s.inside ≡ true
      → request_write t s.lock ≡ holds l
      → Step s (record { lock = l; inside = s.inside })
  queue :
      (t : ℕ) (s : System) (l : Lock)
      → s.lock.locked ≡ false
      → mem t s.inside ≡ true
      → request_write t s.lock ≡ waits l
      → Step s (record { lock = l; inside = remove_first t s.inside })
  proceed :
      (t : ℕ) (s : System)
      → s.lock.locked ≡ false
      → mem t s.lock.woken ≡ true
      → (wake t s.lock).locked ≡ true
      → Step s (record { lock = wake t s.lock; inside = t ∷ s.inside })
  sleep_again :
      (t : ℕ) (s : System)
      → s.lock.locked ≡ false
      → mem t s.lock.woken ≡ true
      → (wake t s.lock).locked ≡ false
      → Step s (record { lock = wake t s.lock; inside = s.inside })
  downgrade :
      (s : System)
      → s.lock.locked ≡ true
      → Step s (record { lock = release_write s.lock; inside = s.inside })

pub data Reach : System → Type 0 where
  start : Reach (record { lock = new_lock; inside = [] })
  further : {s t : System} → Reach s → Step s t → Reach t

-- Each read lock is that of a task inside or waiting; `_want_write` counts those that wait; while
-- the write lock is held nobody else is inside; and when only tasks that wait are left, all of them
-- have been notified.
pub record IsSafe (s : System) : Type 0 where
  pub readers : s.lock.readers ≡ length s.inside + (length s.lock.asleep + length s.lock.woken)
  pub want : s.lock.want_write ≡ length s.lock.asleep + length s.lock.woken
  pub alone :
      s.lock.locked ≡ true → (t : ℕ) × (s.lock.write_lock_task ≡ some t) × (s.inside ≡ t ∷ [])
  pub notified : s.lock.locked ≡ false → s.inside ≡ [] → s.lock.asleep ≡ []
