-- ===== src/Client/Login.antt =====
-- `PreAuthenticated` of asimap/client.py: the login of a client, with asimap/throttle.py.
use asimap.Prelude.{
  ℕ, String, ◌≡◌, refl, Bool, true, false, not, ◌&&◌, ◌||◌, arith, if◌then◌else◌, ap, ◌∙◌,
  Bool-cases, inl, inr,
}
use asimap.Prelude.Dict.{lookup}
use asimap.Result.{Result, ok, err, bad, rejected, bad_authentication}
use asimap.Throttle.{Throttle, check_allow, login_failed, max_user_attempts, max_addr_attempts}
use asimap.Throttle.Lockout.{blocked, check_allow-eq-blocked}
use asimap.Client.{Session, ClientState, not_authenticated, authenticated, Reply, done}
use asimap.Client.Action.{send_pending_notifications}

-- A client that logs in, with its address; the counts of failures are the server's.
pub record Visitor : Type 0 where
  pub session : Session
  pub rem_addr : String
  pub throttle : Throttle

abbrev pub is_authenticated : ClientState → Bool
is_authenticated authenticated = true
is_authenticated _ = false

-- The end of LOGIN by what `authenticate` came to: whether the user has a mail directory, or what was
-- raised. `time` is when that was known.
unfoldable pub admit : String → ℕ → Result Bool → Visitor → Visitor × Result Reply
admit user_name time (ok true) v =
    (record v { session = record v.session { state = authenticated } }, ok done)
admit user_name time (ok false) v = (v, err rejected)
admit user_name time (err bad_authentication) v =
    (record v { throttle = login_failed user_name v.rem_addr time v.throttle }, err rejected)
admit user_name time (err e) v = (v, err e)

-- `do_login`, at `now`
unfoldable pub do_login : String → ℕ → ℕ → Result Bool → Visitor → Visitor × Result Reply
unfolding admit
do_login user_name now time auth v =
    let allowed = check_allow user_name v.rem_addr now v.throttle in
    let v' = record v { throttle = allowed.1 } in
    if not allowed.0
    then (v', err bad)
    else if is_authenticated v.session.state
    then (record v' { session = (send_pending_notifications v.session).0 }, err bad)
    else admit user_name time auth
        (record v' { session = (send_pending_notifications v.session).0 })

-- `do_authenticated`: no command has that name, since AUTHENTICATE is looked up as
-- `do_authenticate`.
unfoldable pub do_authenticated : Visitor → Visitor × Result Reply
do_authenticated v = (
  record v { session = (send_pending_notifications v.session).0 },
  if is_authenticated v.session.state then err bad else err rejected,
)

abbrev pub is_good : Result Bool → Bool
is_good (ok has_maildir) = has_maildir
is_good (err e) = false

-- Too many failures lately, for the user or for the address
abbrev pub is_locked_out : String → ℕ → Visitor → Bool
is_locked_out user_name now v =
    blocked max_user_attempts now (lookup user_name v.throttle.bad_user_auths)
    || blocked max_addr_attempts now (lookup v.rem_addr v.throttle.bad_ip_auths)

admit_lem :
    (user_name : String) (time : ℕ) (auth : Result Bool) (v : Visitor)
    → is_authenticated v.session.state ≡ false
    → is_authenticated (admit user_name time auth v).0.session.state ≡ is_good auth
unfolding admit
admit_lem user_name time (ok true) v e = refl
admit_lem user_name time (ok false) v e = e
admit_lem user_name time (err bad_authentication) v e = e
admit_lem user_name time (err x) v e = e

-- The branches of LOGIN
login_refused :
    (user_name : String) (now time : ℕ) (auth : Result Bool) (v : Visitor)
    → (check_allow user_name v.rem_addr now v.throttle).0 ≡ false
    → (do_login user_name now time auth v).0.session.state ≡ v.session.state
unfolding do_login
login_refused user_name now time auth v e = rw e

login_checked :
    (user_name : String) (now time : ℕ) (auth : Result Bool) (v : Visitor)
    → (check_allow user_name v.rem_addr now v.throttle).0 ≡ true
    → v.session.state ≡ not_authenticated
    → is_authenticated (do_login user_name now time auth v).0.session.state ≡ is_good auth
unfolding do_login send_pending_notifications
login_checked user_name now time auth v e st =
    let v' = record v {
      throttle = (check_allow user_name v.rem_addr now v.throttle).1;
      session = (send_pending_notifications v.session).0;
    } in
    ground (arith, e, st, admit_lem user_name time auth v' (ap is_authenticated st))

-- A client that is not logged in is logged in by LOGIN exactly if neither the user nor the address
-- is locked out by recent failures, the password is right, and the user has a mail directory.
pub do_login-authenticates :
    (user_name : String) (now time : ℕ) (auth : Result Bool) (v : Visitor)
    → v.session.state ≡ not_authenticated
    → is_authenticated (do_login user_name now time auth v).0.session.state
      ≡ (not (is_locked_out user_name now v) && is_good auth)
do_login-authenticates user_name now time auth v st =
    let verdict = (check_allow-eq-blocked user_name v.rem_addr now v.throttle).0 in
    elim (Bool-cases (is_locked_out user_name now v)) [
      | inl e ↦
          rw e (
            ap is_authenticated (login_refused user_name now time auth v (verdict ∙ ap not e) ∙ st))
      | inr e ↦ rw e (login_checked user_name now time auth v (verdict ∙ ap not e) st)
    ]
