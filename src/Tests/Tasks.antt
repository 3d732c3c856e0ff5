-- ===== src/Tests/Tasks.antt =====
-- Two tasks that share a lock: one waits for the other to leave and then writes.
use asimap.Prelude.{refl, [], ◌∷◌}
use asimap.Locks.{
  new_lock, acquire_read, release_read, wake, request_write, take_write, remove_first, notify_all,
}
use asimap.Locks.System.{System, enter, leave, queue, proceed, Reach, start, further, IsSafe}
use asimap.Locks.Exclusion.{Reach-IsSafe}

abbrev both : System
both = record { lock = acquire_read 2 (acquire_read 1 new_lock); inside = 2 ∷ 1 ∷ [] }

abbrev waiting : System
waiting = record { lock = record both.lock { want_write = 1; asleep = 1 ∷ [] }; inside = 2 ∷ [] }

abbrev gone : System
gone = record { lock = release_read 2 waiting.lock; inside = [] }

abbrev writing : System
writing = record { lock = wake 1 gone.lock; inside = 1 ∷ [] }

writing_reached : Reach writing
unfolding acquire_read release_read wake request_write take_write remove_first notify_all
writing_reached =
    further
      (further
        (further (further (further start (enter 1 _ refl)) (enter 2 _ refl))
          (queue 1 both waiting.lock refl refl refl))
        (leave 2 waiting refl refl))
      (proceed 1 gone refl refl refl)

Reach-IsSafe_example : IsSafe writing
Reach-IsSafe_example = Reach-IsSafe writing writing_reached
