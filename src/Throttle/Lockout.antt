-- ===== src/Throttle/Lockout.antt =====
-- When a login attempt is refused.
use text.Mathlib.Text.{◌==◌ as str_eq}
use text.Mathlib.TextEquality.{eq_iff}
use text.Mathlib.TextPositions.{eq_refl}
use asimap.Prelude.{
  ℕ, ◌+◌, ◌-◌, ◌≤◌, String, ◌≡◌, refl, ap, ◌∙◌, Bool, true, false, not, ◌&&◌, ◌||◌, Option, none,
  some, List, [], ◌∷◌, arith, ltb, leb, if◌then◌else◌, Option-cases, inl, inr,
}
use asimap.Prelude.Lists.{length}
use asimap.Prelude.Dict.{lookup, lookup-put, lookup-remove}
use asimap.Throttle.{
  purge_time, max_user_attempts, max_addr_attempts, Attempts, Throttle, count_failure, login_failed,
  purge, too_many, check_allow,
}

-- More than `limit` failures, the last of them at most `purge_time` ago.
abbrev pub blocked : ℕ → ℕ → Option (ℕ × ℕ) → Bool
blocked limit now none = false
blocked limit now (some (n, t)) = ltb limit n && leb (now - t) purge_time

-- What is left of an entry at a time.
abbrev pub current : ℕ → Option (ℕ × ℕ) → Option (ℕ × ℕ)
current now none = none
current now (some (n, t)) = if ltb purge_time (now - t) then none else some (n, t)

pub lookup-purge :
    (key j : String) (now : ℕ) (d : Attempts)
    → lookup j (purge key now d) ≡ (if str_eq key j then current now (lookup j d) else lookup j d)
unfolding purge
lookup-purge key j now d = ground (arith, eq_iff key j, lookup-remove key j d)

too_many-purge :
    (limit now : ℕ) (key : String) (d : Attempts)
    → too_many limit key (purge key now d) ≡ blocked limit now (lookup key d)
too_many-purge limit now key d = ground (arith, lookup-purge key key now d, eq_refl key)

-- A login is refused exactly if the user has more than 4 failures or the address more than 5, the
-- last of them at most 60 seconds ago. Nothing is counted by the check; an entry of that user or
-- address that is older is forgotten, and every other entry stays.
pub check_allow-eq-blocked :
    (user addr : String) (now : ℕ) (s : Throttle)
    → ((check_allow user addr now s).0
        ≡ not (
            blocked max_user_attempts now (lookup user s.bad_user_auths)
            || blocked max_addr_attempts now (lookup addr s.bad_ip_auths)))
      × ((j : String)
          → lookup j (check_allow user addr now s).1.bad_user_auths ≡ (
              if str_eq user j
              then current now (lookup j s.bad_user_auths)
              else lookup j s.bad_user_auths))
      × ((j : String)
          → lookup j (check_allow user addr now s).1.bad_ip_auths ≡ (
              if str_eq addr j
              then current now (lookup j s.bad_ip_auths)
              else lookup j s.bad_ip_auths))
unfolding check_allow
check_allow-eq-blocked user addr now s = (
  verdict,
  λ j. users j ∙ lookup-purge user j now s.bad_user_auths,
  λ j. addrs j ∙ lookup-purge addr j now s.bad_ip_auths,
)
  where
    verdict :
        (check_allow user addr now s).0
        ≡ not (
            blocked max_user_attempts now (lookup user s.bad_user_auths)
            || blocked max_addr_attempts now (lookup addr s.bad_ip_auths))
    verdict = ground (
      arith,
      too_many-purge max_user_attempts now user s.bad_user_auths,
      too_many-purge max_addr_attempts now addr s.bad_ip_auths,
    )

    users :
        (j : String)
        → lookup j (check_allow user addr now s).1.bad_user_auths
          ≡ lookup j (purge user now s.bad_user_auths)
    users j = ground arith

    addrs :
        (j : String)
        → lookup j (check_allow user addr now s).1.bad_ip_auths
          ≡ lookup j (purge addr now s.bad_ip_auths)
    addrs j = ground arith

-- A login with a wrong password: it is counted if it is let through.
unfoldable pub attempt : String → String × ℕ → Throttle → Throttle
unfolding check_allow login_failed
attempt user (addr, now) s =
    let r = check_allow user addr now s in if r.0 then login_failed user addr now r.1 else r.1

-- Attempts in a row for one user, with the address and the time of each
unfoldable pub fail_each : String → List (String × ℕ) → Throttle → Throttle
unfolding attempt
fail_each user [] s = s
fail_each user (a ∷ attempts) s = fail_each user attempts (attempt user a s)

-- Whether all of them are let through
unfoldable pub all_allowed : String → List (String × ℕ) → Throttle → Bool
unfolding attempt check_allow
all_allowed user [] s = true
all_allowed user (a ∷ attempts) s =
    (check_allow user a.0 a.1 s).0 && all_allowed user attempts (attempt user a s)

lookup-count_failure :
    (key j : String) (now : ℕ) (d : Attempts)
    → lookup j (count_failure key now d) ≡ (
        if str_eq key j
        then (elim (lookup key d) [ some (n, t) ↦ some (n + 1, now) | none ↦ some (1, now) ])
        else lookup j d)
unfolding count_failure
lookup-count_failure key j now d = elim (Option-cases (lookup key d)) [
  | inl e ↦ rw (e, count_failure) (lookup-put key j (1, now) d)
  | inr ((n, t), e) ↦ rw (e, count_failure) (lookup-put key j (n + 1, now) d)
]

-- The time of the last failure.
abbrev pub last_time : ℕ → List (String × ℕ) → ℕ
last_time t [] = t
last_time t ((addr, now) ∷ attempts) = last_time now attempts

-- Each at most the purge time after the one before
abbrev pub close_together : ℕ → List (String × ℕ) → Bool
close_together t [] = true
close_together t ((addr, now) ∷ attempts) = leb (now - t) purge_time && close_together now attempts

-- The entry of the user after an attempt that is let through
lookup-attempt :
    (user addr : String) (now : ℕ) (s : Throttle) (o : Option (ℕ × ℕ))
    → (check_allow user addr now s).0 ≡ true
    → current now (lookup user s.bad_user_auths) ≡ o
    → lookup user (attempt user (addr, now) s).bad_user_auths
      ≡ (elim o [ some (n, t) ↦ some (n + 1, now) | none ↦ some (1, now) ])
unfolding attempt login_failed
lookup-attempt user addr now s o h e =
    let checked = (check_allow user addr now s).1 in
    let kept : lookup user checked.bad_user_auths ≡ o =
      (check_allow-eq-blocked user addr now s).1 user ∙ rw (eq_refl user) e in
    rw h (lookup-count_failure user user now checked.bad_user_auths ∙ rw (eq_refl user, kept) refl)

fail_each-count :
    (user : String) (attempts : List (String × ℕ)) (s : Throttle) (n t : ℕ)
    → lookup user s.bad_user_auths ≡ some (n, t)
    → close_together t attempts ≡ true
    → all_allowed user attempts s ≡ true
    → lookup user (fail_each user attempts s).bad_user_auths
      ≡ some (n + length attempts, last_time t attempts)
unfolding fail_each all_allowed
fail_each-count user [] s n t h k l = ground arith
fail_each-count user ((addr, now) ∷ attempts) s n t h k l =
    let fresh : current now (lookup user s.bad_user_auths) ≡ some (n, t) =
      rw h (ground (arith, k)) in
    let counted = lookup-attempt user addr now s (some (n, t)) (ground (arith, l)) fresh in
    let e =
      fail_each-count user attempts (attempt user (addr, now) s) (n + 1) now counted
        (ground (arith, k)) (ground (arith, l)) in
    e ∙ ap (λ m. some (m, last_time now attempts)) (omega arith)

-- After five failed logins that were let through, each at most 60 seconds after the one before, of a
-- user who had no failures, from whatever addresses, a login of that user is refused from every
-- address until more than 60 seconds have passed since the last of them.
pub fail_each-refused :
    (user addr : String) (first : String × ℕ) (rest : List (String × ℕ)) (now : ℕ) (s : Throttle)
    → lookup user s.bad_user_auths ≡ none
    → length rest ≡ 4
    → close_together first.1 rest ≡ true
    → all_allowed user (first ∷ rest) s ≡ true
    → now - last_time first.1 rest ≤ purge_time
    → (check_allow user addr now (fail_each user (first ∷ rest) s)).0 ≡ false
unfolding fail_each all_allowed
fail_each-refused user addr (a, t) rest now s h n c l close =
    let s' = attempt user (a, t) s in
    let counted = lookup-attempt user a t s none (ground (arith, l)) (rw h refl) in
    let e = fail_each-count user rest s' 1 t counted c (ground (arith, l)) in
    let late : blocked max_user_attempts now (some (1 + length rest, last_time t rest)) ≡ true =
      ground arith in
    (check_allow-eq-blocked user addr now (fail_each user rest s')).0 ∙ rw (e, late) refl
