-- ===== src/Locks/Readers.antt =====
-- The steps that take or give back a read lock, or that end in the write lock, are safe.
use asimap.Prelude.{
  ℕ, suc, ◌+◌, ◌-◌, ◌≡◌, refl, sym, ap, ◌∙◌, true, false, inl, inr, List, [], ◌∷◌, ◌==◌, Bool-cases,
  arith,
}
use asimap.Prelude.Lists.{mem, length, length-append}
use asimap.Locks.{
  Lock, remove_first, acquire_read, notify_all, release_read, take_write, release_write,
}
use asimap.Locks.System.{System, IsSafe}

pub length-remove_first :
    (t : ℕ) (xs : List ℕ) → mem t xs ≡ true → suc (length (remove_first t xs)) ≡ length xs
unfolding remove_first
length-remove_first t [] h = ground (arith, h)
length-remove_first t (x ∷ xs) h = ground (arith, h, length-remove_first t xs)

-- The only item of a list of one
pub alone_lem : (t : ℕ) (xs : List ℕ) → mem t xs ≡ true → length xs ≡ 1 → xs ≡ t ∷ []
alone_lem t [] h n = ground (arith, h)
alone_lem t (x ∷ []) h n = ground (arith, h)
alone_lem t (x ∷ y ∷ ys) h n = absurd (omega (arith, n))

pub enter-IsSafe :
    (t : ℕ) (s : System)
    → s.lock.locked ≡ false
    → IsSafe s
    → IsSafe (record { lock = acquire_read t s.lock; inside = t ∷ s.inside })
unfolding acquire_read
enter-IsSafe t s free h = record {
  readers = omega (arith, h.readers);
  want = h.want;
  alone = λ e. absurd (ground (arith, free, e));
  notified = λ e q. absurd (ground (arith, q));
}

pub leave-IsSafe :
    (t : ℕ) (s : System)
    → s.lock.locked ≡ false
    → mem t s.inside ≡ true
    → IsSafe s
    → IsSafe (record { lock = release_read t s.lock; inside = remove_first t s.inside })
unfolding release_read notify_all
leave-IsSafe t s free m h =
    let n = length-remove_first t s.inside m in
    elim (Bool-cases (s.lock.readers - 1 == s.lock.want_write)) [
      | inl e ↦ rw e record {
        readers = omega (arith, h.readers, n, length-append s.lock.woken s.lock.asleep);
        want = omega (arith, h.want, length-append s.lock.woken s.lock.asleep);
        alone = λ e. absurd (ground (arith, free, e));
        notified = λ e q. refl;
      }
      | inr e ↦ rw e record {
        readers = omega (arith, h.readers, n);
        want = h.want;
        alone = λ e. absurd (ground (arith, free, e));
        notified = λ f q. absurd (ground (arith, e, h.readers, h.want, n, ap length q));
      }
    ]

pub take-IsSafe :
    (t : ℕ) (l : Lock)
    → l.readers ≡ suc (length l.asleep + length l.woken)
    → l.want_write ≡ suc (length l.asleep + length l.woken)
    → IsSafe (record { lock = take_write t l; inside = t ∷ [] })
unfolding take_write
take-IsSafe t l r w = record {
  readers = omega (arith, r);
  want = omega (arith, w);
  alone = λ e. (t, refl, refl);
  notified = λ e q. absurd (ground (arith, e));
}

pub downgrade-IsSafe :
    (s : System)
    → s.lock.locked ≡ true
    → IsSafe s
    → IsSafe (record { lock = release_write s.lock; inside = s.inside })
unfolding release_write
downgrade-IsSafe s held h = record {
  readers = h.readers;
  want = h.want;
  alone = λ e. absurd (ground (arith, e));
  notified = λ e q. absurd (ground (arith, ap length (sym ((h.alone held).2) ∙ q)));
}
