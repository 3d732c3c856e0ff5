-- ===== src/Locks/Exclusion.antt =====
-- The write lock of an `UpgradeableReadWriteLock` is exclusive.
use asimap.Prelude.{
  ℕ, suc, ◌≡◌, refl, sym, ap, ◌∙◌, true, false, inl, inr, List, [], ◌∷◌, ◌++◌, ◌==◌, if◌then◌else◌,
  Bool-cases, arith,
}
use asimap.Prelude.Lists.{mem, length, length-append}
use asimap.Locks.{Lock, remove_first, waits, holds, take_write, request_write, wake}
use asimap.Locks.System.{
  System, Step, enter, leave, upgrade, queue, proceed, sleep_again, downgrade, Reach, start,
  further, IsSafe,
}
use asimap.Locks.Readers.{
  length-remove_first, alone_lem, enter-IsSafe, leave-IsSafe, take-IsSafe, downgrade-IsSafe,
}

-- What asks for the write lock, with the count of those that wait
abbrev wanted : Lock → Lock
wanted l = record l { want_write = suc l.want_write }

abbrev queued : ℕ → Lock → Lock
queued t l = record (wanted l) { asleep = l.asleep ++ t ∷ [] }

request_free :
    (t : ℕ) (l : Lock)
    → l.locked ≡ false
    → (l.readers == 0) ≡ false
    → request_write t l ≡ (
        if l.readers == suc l.want_write
        then holds (take_write t (wanted l))
        else waits (queued t l))
unfolding request_write
request_free t l free some_reader = rw (free, some_reader) refl

some_reader :
    (t : ℕ) (s : System) → mem t s.inside ≡ true → IsSafe s → (s.lock.readers == 0) ≡ false
some_reader t s m h = ground (arith, h.readers, length-remove_first t s.inside m)

upgrade-IsSafe :
    (t : ℕ) (s : System) (l : Lock)
    → s.lock.locked ≡ false
    → mem t s.inside ≡ true
    → request_write t s.lock ≡ holds l
    → IsSafe s
    → IsSafe (record { lock = l; inside = s.inside })
upgrade-IsSafe t s l free m e h =
    let q = request_free t s.lock free (some_reader t s m h) in
    elim (Bool-cases (s.lock.readers == suc s.lock.want_write)) [
      | inl b ↦
          let d : holds l ≡ holds (take_write t (wanted s.lock)) = sym e ∙ q ∙ rw b refl in
          let same : l ≡ take_write t (wanted s.lock) = cc d in
          let one : s.inside ≡ t ∷ [] =
            alone_lem t s.inside m (ground (arith, b, h.readers, h.want)) in
          rw (same, one)
            (take-IsSafe t (wanted s.lock) (ground (arith, b, h.want)) (ground (arith, h.want)))
      | inr b ↦ let d : holds l ≡ waits (queued t s.lock) = sym e ∙ q ∙ rw b refl in absurd (cc d)
    ]

queued-IsSafe :
    (t : ℕ) (s : System)
    → s.lock.locked ≡ false
    → mem t s.inside ≡ true
    → (s.lock.readers == suc s.lock.want_write) ≡ false
    → IsSafe s
    → IsSafe (record { lock = queued t s.lock; inside = remove_first t s.inside })
queued-IsSafe t s free m b h =
    let n = length-remove_first t s.inside m in
    let k = length-append s.lock.asleep (t ∷ []) in
    record {
      readers = omega (arith, h.readers, n, k);
      want = omega (arith, h.want, k);
      alone = λ e. absurd (ground (arith, free, e));
      notified = λ e q. absurd (ground (arith, b, h.readers, h.want, n, ap length q));
    }

queue-IsSafe :
    (t : ℕ) (s : System) (l : Lock)
    → s.lock.locked ≡ false
    → mem t s.inside ≡ true
    → request_write t s.lock ≡ waits l
    → IsSafe s
    → IsSafe (record { lock = l; inside = remove_first t s.inside })
queue-IsSafe t s l free m e h =
    let q = request_free t s.lock free (some_reader t s m h) in
    elim (Bool-cases (s.lock.readers == suc s.lock.want_write)) [
      | inl b ↦
          let d : waits l ≡ holds (take_write t (wanted s.lock)) = sym e ∙ q ∙ rw b refl in
          absurd (cc d)
      | inr b ↦
          let d : waits l ≡ waits (queued t s.lock) = sym e ∙ q ∙ rw b refl in
          let same : l ≡ queued t s.lock = cc d in rw same (queued-IsSafe t s free m b h)
    ]

nil_lem : (xs : List ℕ) → length xs ≡ 0 → xs ≡ []
nil_lem [] h = refl
nil_lem (x ∷ xs) h = absurd (omega (arith, h))

proceed-IsSafe :
    (t : ℕ) (s : System)
    → s.lock.locked ≡ false
    → mem t s.lock.woken ≡ true
    → (wake t s.lock).locked ≡ true
    → IsSafe s
    → IsSafe (record { lock = wake t s.lock; inside = t ∷ s.inside })
unfolding wake
proceed-IsSafe t s free m e h =
    let n = length-remove_first t s.lock.woken m in
    let up = record s.lock { woken = remove_first t s.lock.woken } in
    elim (Bool-cases (s.lock.readers == s.lock.want_write)) [
      | inl b ↦
          let none_left : s.inside ≡ [] = nil_lem s.inside (ground (arith, b, h.readers, h.want)) in
          let safe = take-IsSafe t up (ground (arith, b, h.want, n)) (ground (arith, h.want, n)) in
          rw (b, none_left) safe
      | inr b ↦
          let d : (wake t s.lock).locked ≡ s.lock.locked = rw b refl in
          absurd (ground (arith, e, d, free))
    ]

sleep_again-IsSafe :
    (t : ℕ) (s : System)
    → s.lock.locked ≡ false
    → mem t s.lock.woken ≡ true
    → (wake t s.lock).locked ≡ false
    → IsSafe s
    → IsSafe (record { lock = wake t s.lock; inside = s.inside })
unfolding wake take_write
sleep_again-IsSafe t s free m e h =
    let n = length-remove_first t s.lock.woken m in
    let k = length-append s.lock.asleep (t ∷ []) in
    elim (Bool-cases (s.lock.readers == s.lock.want_write)) [
      | inl b ↦ let d : (wake t s.lock).locked ≡ true = rw b refl in absurd (ground (arith, e, d))
      | inr b ↦ rw b record {
        readers = omega (arith, h.readers, n, k);
        want = omega (arith, h.want, n, k);
        alone = λ f. absurd (ground (arith, free, f));
        notified = λ f q. absurd (ground (arith, b, h.readers, h.want, ap length q));
      }
    ]

Step-IsSafe : {s t : System} → Step s t → IsSafe s → IsSafe t
Step-IsSafe (enter t s free) h = enter-IsSafe t s free h
Step-IsSafe (leave t s free m) h = leave-IsSafe t s free m h
Step-IsSafe (upgrade t s l free m e) h = upgrade-IsSafe t s l free m e h
Step-IsSafe (queue t s l free m e) h = queue-IsSafe t s l free m e h
Step-IsSafe (proceed t s free m e) h = proceed-IsSafe t s free m e h
Step-IsSafe (sleep_again t s free m e) h = sleep_again-IsSafe t s free m e h
Step-IsSafe (downgrade s held) h = downgrade-IsSafe s held h

-- After any steps of tasks that ask for the write lock only inside their read lock: the task that
-- holds the write lock is the only one inside, the counts are right, and when only tasks that wait
-- for the write lock are left, each of them has been notified.
pub Reach-IsSafe : (s : System) → Reach s → IsSafe s
Reach-IsSafe s start = record {
  readers = refl;
  want = refl;
  alone = λ e. absurd (ground (arith, e));
  notified = λ e q. refl;
}
Reach-IsSafe s (further {s = r} reach step) = Step-IsSafe step (Reach-IsSafe r reach)
