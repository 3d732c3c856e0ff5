-- ===== src/Mbox/Conflict/History.antt =====
-- The commands that run on a mailbox at the same time, along every history of it.
use asimap.Prelude.{◌≡◌, Bool, false, not, ◌||◌, List, [], ◌∷◌, ◌++◌, map, Bool-cases, inl, inr}
use asimap.Prelude.Lists.{All, All-append, keep}
use asimap.Result.{ok}
use asimap.Mbox.Conflict.{Command, intersect, would_conflict, cleanup_executing_tasks}
use asimap.Mbox.Conflict.Admission.{Compatible, would_conflict-Compatible}

-- A command of `done` has set its `completed`.
abbrev pub complete : (Command → Bool) → Command → Command
complete done c = record c { completed = c.completed || done c }

-- What can happen to the list of running commands: the management task lets a command in that does
-- not conflict; commands complete; and the list is cleaned up.
pub data Step (running : List Command) : List Command → Type 0 where
  start :
      (c : Command) (deleted : Bool)
      → would_conflict c deleted running ≡ ok false
      → Step running (running ++ c ∷ [])
  finish : (done : Command → Bool) → Step running (map (complete done) running)
  clean : Step running (cleanup_executing_tasks running).0

pub data Reach : List Command → Type 0 where
  nothing : Reach []
  later : {r s : List Command} → Reach r → Step r s → Reach s

-- Each command is compatible with all that were let in after it.
abbrev pub AllCompatible : List Command → Type 0
AllCompatible [] = Unit
AllCompatible (r ∷ rs) = All (Compatible r) rs × AllCompatible rs

append-AllCompatible :
    (rs : List Command) (c : Command)
    → AllCompatible rs
    → All (λ r. Compatible r c) rs
    → AllCompatible (rs ++ c ∷ [])
append-AllCompatible [] c h k = (tt, tt)
append-AllCompatible (r ∷ rs) c h k =
    (All-append (Compatible r) rs (c ∷ []) h.0 (k.0, tt), append-AllCompatible rs c h.1 k.1)

complete-Compatible :
    (done : Command → Bool) (a b : Command)
    → Compatible a b
    → Compatible (complete done a) (complete done b)
unfolding intersect
complete-Compatible done a b h = h

complete-All :
    (done : Command → Bool) (a : Command) (rs : List Command)
    → All (Compatible a) rs
    → All (Compatible (complete done a)) (map (complete done) rs)
complete-All done a [] h = tt
complete-All done a (r ∷ rs) h = (complete-Compatible done a r h.0, complete-All done a rs h.1)

map-AllCompatible :
    (done : Command → Bool) (rs : List Command)
    → AllCompatible rs
    → AllCompatible (map (complete done) rs)
map-AllCompatible done [] h = tt
map-AllCompatible done (r ∷ rs) h = (complete-All done r rs h.0, map-AllCompatible done rs h.1)

All-keep {ℓ} :
    {A : Type ℓ} (P : A → Type 0) (p : A → Bool) (xs : List A) → All P xs → All P (keep p xs)
All-keep P p [] h = tt
All-keep P p (x ∷ xs) h = elim (Bool-cases (p x)) [
  | inl e ↦ rw e (h.0, All-keep P p xs h.1)
  | inr e ↦ rw e (All-keep P p xs h.1)
]

keep-AllCompatible :
    (p : Command → Bool) (rs : List Command) → AllCompatible rs → AllCompatible (keep p rs)
keep-AllCompatible p [] h = tt
keep-AllCompatible p (r ∷ rs) h = elim (Bool-cases (p r)) [
  | inl e ↦ rw e (All-keep (Compatible r) p rs h.0, keep-AllCompatible p rs h.1)
  | inr e ↦ rw e (keep-AllCompatible p rs h.1)
]

Step-AllCompatible : {r s : List Command} → Step r s → AllCompatible r → AllCompatible s
unfolding cleanup_executing_tasks
Step-AllCompatible {r} (start c deleted e) h =
    append-AllCompatible r c h (would_conflict-Compatible c deleted r e)
Step-AllCompatible {r} (finish done) h = map-AllCompatible done r h
Step-AllCompatible {r} clean h = keep-AllCompatible (λ c. not c.completed) r h

-- After any history of commands that are let in, complete and are cleaned up, take two commands in
-- the list. The earlier one is not an APPEND, CHECK, CLOSE, DELETE, EXPUNGE, MOVE or RENAME. No search
-- is beside a STORE or a FETCH that sets flags; and on a common message no COPY, STORE or flag-setting
-- FETCH is beside a STORE or a flag-setting FETCH, but for two COPYs, and no peeking FETCH beside a
-- STORE. It says nothing of what a later command does to the list of messages: a CLOSE or an EXPUNGE
-- is let in beside others when no message has `\Deleted`.
pub Reach-AllCompatible : {running : List Command} → Reach running → AllCompatible running
Reach-AllCompatible nothing = tt
Reach-AllCompatible (later r s) = Step-AllCompatible s (Reach-AllCompatible r)
