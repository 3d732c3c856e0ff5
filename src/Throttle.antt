-- ===== src/Throttle.antt =====
-- asimap/throttle.py: failed logins are counted for each user and each address. A time is a number of
-- seconds (the source's floats are not modelled); the clock is an argument of each call.
pub mod Lockout
use asimap.Prelude.{
  ℕ, ◌+◌, ◌-◌, String, Bool, true, false, not, ◌&&◌, ◌||◌, Option, none, some, List, [], ltb,
  if◌then◌else◌,
}
use asimap.Prelude.Dict.{lookup, put, remove}

abbrev pub purge_time : ℕ
purge_time = 60

abbrev pub max_user_attempts : ℕ
max_user_attempts = 4

abbrev pub max_addr_attempts : ℕ
max_addr_attempts = 5

-- A name or an address, with the number of attempts and the time of the last.
abbrev pub Attempts : Type 0
Attempts = List (String × (ℕ × ℕ))

pub record Throttle : Type 0 where
  pub bad_user_auths : Attempts
  pub bad_ip_auths : Attempts

abbrev pub empty : Throttle
empty = record { bad_user_auths = []; bad_ip_auths = [] }

-- One more failure of `key`.
unfoldable pub count_failure : String → ℕ → Attempts → Attempts
unfolding lookup put
count_failure key now d = elim (lookup key d) [
  | some (n, t) ↦ put key (n + 1, now) d
  | none ↦ put key (1, now) d
]

unfoldable pub login_failed : String → String → ℕ → Throttle → Throttle
unfolding count_failure
login_failed user addr now s = record {
  bad_user_auths = count_failure user now s.bad_user_auths;
  bad_ip_auths = count_failure addr now s.bad_ip_auths;
}

-- An entry whose last attempt is too long ago is deleted.
unfoldable pub purge : String → ℕ → Attempts → Attempts
unfolding lookup remove
purge key now d = elim (lookup key d) [
  | none ↦ d
  | some (n, t) ↦ if ltb purge_time (now - t) then remove key d else d
]

abbrev pub is_in : String → Attempts → Bool
is_in key d = elim (lookup key d) [ none ↦ false | some e ↦ true ]

-- `key in d and d[key][0] > limit`
abbrev pub too_many : ℕ → String → Attempts → Bool
too_many limit key d = elim (lookup key d) [ none ↦ false | some (n, t) ↦ ltb limit n ]

unfoldable pub check_allow : String → String → ℕ → Throttle → Bool × Throttle
unfolding purge
check_allow user addr now s =
    let s' : Throttle = record {
      bad_user_auths = purge user now s.bad_user_auths;
      bad_ip_auths = purge addr now s.bad_ip_auths;
    } in
    if not (is_in user s'.bad_user_auths) && not (is_in addr s'.bad_ip_auths)
    then (true, s')
    else if too_many max_user_attempts user s'.bad_user_auths
    then (false, s')
    else if too_many max_addr_attempts addr s'.bad_ip_auths
    then (false, s')
    else (true, s')
