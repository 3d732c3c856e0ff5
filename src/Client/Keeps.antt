-- ===== src/Client/Keeps.antt =====
-- Rules for what holds of a session before and after an action, one for each way to build an action.
use asimap.Prelude.{String, ◌≡◌, refl, Bool, true, false, not, Option, none, some, if◌then◌else◌}
use asimap.Result.{Error, Result, ok, err, rejected}
use asimap.Client.Selected.{with_mailbox}
use asimap.Client.{Session, is_selected, Reply, done, Call, Answer}
use asimap.Client.Action.{
  Action, pure, raise, now, ◌>>=◌, ◌>>◌, on_some, continue, tried, call, after_call,
  unceremonious_bye,
}

-- `m` keeps `P`, whether it returns or raises.
pub record Keeps {A : Type 0} (P : Session → Type 0) (m : Action A) : Type 0 where
  pub at : (s : Session) → P s → P (m s).0

pub if_keeps :
    (P : Session → Type 0) (b : Bool) (s t : Session) → P s → P t → P (if b then s else t)
if_keeps P true s t hs ht = hs
if_keeps P false s t hs ht = ht

-- At one session, with the facts of the branch
pub if_lands :
    {A : Type 0} (P : Session → Type 0) (b : Bool) (m n : Action A) (s : Session)
    → (b ≡ true → P (m s).0)
    → (b ≡ false → P (n s).0)
    → P ((if b then m else n) s).0
if_lands P true m n s hm hn = hm refl
if_lands P false m n s hm hn = hn refl

pub on_some_lands :
    {A B : Type 0} (P : Session → Type 0) (o : Option A) (m : Action B) (f : A → Action B)
    (s : Session)
    → (o ≡ none → P (m s).0)
    → ((a : A) → o ≡ some a → P (f a s).0)
    → P (on_some o m f s).0
on_some_lands P none m f s hn hs = hn refl
on_some_lands P (some a) m f s hn hs = hs a refl

pub with_mailbox_lands :
    (P : Session → Type 0) (rest : String → Action Reply) (s : Session)
    → P s
    → P ((unceremonious_bye >> pure done) s).0
    → ((mbox : String) → P (rest mbox s).0)
    → P (with_mailbox rest s).0
unfolding with_mailbox now raise
with_mailbox_lands P rest s h bye k =
    if_lands P (not (is_selected s.state)) (raise rejected) _ s (λ _. h)
      (λ _. on_some_lands P s.mbox _ rest s (λ _. bye) (λ mbox _. k mbox))

module _ {P : Session → Type 0} where
  pub Keeps-pure : {A : Type 0} (a : A) → Keeps P (pure a)
  unfolding pure
  Keeps-pure a = record { at = λ s h. h }

  pub Keeps-raise : {A : Type 0} (e : Error) → Keeps P (raise {A = A} e)
  unfolding raise
  Keeps-raise e = record { at = λ s h. h }

  pub Keeps-now :
      {A : Type 0} (f : Session → Action A) → ((s : Session) → Keeps P (f s)) → Keeps P (now f)
  unfolding now
  Keeps-now f k = record { at = λ s h. (k s).at s h }

  pub Keeps-if :
      {A : Type 0} (b : Bool) (m n : Action A)
      → Keeps P m
      → Keeps P n
      → Keeps P (if b then m else n)
  Keeps-if true m n km kn = km
  Keeps-if false m n km kn = kn

  pub Keeps-on_some :
      {A B : Type 0} (o : Option A) (m : Action B) (f : A → Action B)
      → Keeps P m
      → ((a : A) → Keeps P (f a))
      → Keeps P (on_some o m f)
  Keeps-on_some none m f km kf = km
  Keeps-on_some (some a) m f km kf = kf a

  continue_keeps :
      {A B : Type 0} (f : A → Action B) (s : Session) (r : Result A)
      → ((a : A) → Keeps P (f a))
      → P s
      → P (continue f s r).0
  continue_keeps f s (ok a) kf h = (kf a).at s h
  continue_keeps f s (err e) kf h = h

  pub Keeps-bind :
      {A B : Type 0} (m : Action A) (f : A → Action B)
      → Keeps P m
      → ((a : A) → Keeps P (f a))
      → Keeps P (m >>= f)
  unfolding ◌>>=◌
  Keeps-bind m f km kf = record { at = λ s h. continue_keeps f (m s).0 (m s).1 kf (km.at s h) }

  pub Keeps-tried :
      {A B : Type 0} (c : Call) (a : Answer A) (handler : Result A → Action B)
      → Keeps P (call c a)
      → ((r : Result A) → Keeps P (handler r))
      → Keeps P (tried c a handler)
  unfolding tried call
  Keeps-tried c a handler kc kh = record {
    at = λ s h. (kh a.result).at (after_call c a s) (kc.at s h);
  }

pub ruleset keeps_rules =
    (Keeps-pure, Keeps-raise, Keeps-now, Keeps-if, Keeps-on_some, Keeps-bind, Keeps-tried)
