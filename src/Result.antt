-- ===== src/Result.antt =====
-- asimap/exceptions.py: the exceptions that the modelled operations raise, and results that carry
-- one. The texts of the exceptions are not modelled.
use asimap.Prelude.Lists.{All}
use asimap.Prelude.{List, [], ◌∷◌, ◌≡◌, refl, ap, ◌⊎◌, inl, inr}

pub data Error : Type 0 where
  bad : Error  -- `Bad`
  rejected : Error  -- `No`
  no_such_mailbox : Error  -- `NoSuchMailbox`, a subclass of `No`
  bad_authentication : Error  -- `AuthenticationException`
  timed_out : Error  -- `TimeoutError`
  attribute_error : Error  -- `AttributeError`
  inconsistent : Error  -- `MailboxInconsistency`
  cancelled : Error  -- `asyncio.CancelledError`
  key_error index_error : Error  -- Python's `KeyError`, `IndexError`
  type_error runtime_error assertion_error : Error  -- `TypeError`, `RuntimeError`, `AssertionError`

pub data Result {ℓ} (A : Type ℓ) : Type ℓ where
  err : (raised : Error) → Result A
  ok : (value : A) → Result A

infixl 5 ◌>>=◌
-- What follows is left out once an exception is raised.
abbrev pub ◌>>=◌ {ℓ κ} : {A : Type ℓ} {B : Type κ} (r : Result A) (next : A → Result B) → Result B
err raised >>= next = err raised
ok value >>= next = next value

-- A loop that collects one result per item, and ends at the first exception.
abbrev pub traverse {ℓ κ} : {A : Type ℓ} {B : Type κ} → (A → Result B) → List A → Result (List B)
traverse f [] = ok []
traverse f (x ∷ xs) = f x >>= λ y. traverse f xs >>= λ ys. ok (y ∷ ys)

-- Inversion of a successful bind.
pub >>=-eq-ok {ℓ κ} :
    {A : Type ℓ} {B : Type κ} {b : B} (r : Result A) (next : A → Result B)
    → (r >>= next) ≡ ok b
    → (value : A) × (r ≡ ok value) × (next value ≡ ok b)
>>=-eq-ok (err raised) next h = cc
>>=-eq-ok (ok value) next h = (value, refl, h)

pub Result-cases {ℓ} :
    {A : Type ℓ} (r : Result A) → ((e : Error) × (r ≡ err e)) ⊎ ((a : A) × (r ≡ ok a))
Result-cases (ok a) = inr (a, refl)
Result-cases (err e) = inl (e, refl)

abbrev pub ok_or {ℓ} : {A : Type ℓ} → A → Result A → A
ok_or a (ok b) = b
ok_or a (err e) = a

pub ok-injective {ℓ} : {A : Type ℓ} {a b : A} → ok a ≡ ok b → a ≡ b
ok-injective {a} h = ap (ok_or a) h

-- The loop succeeds if each item does.
pub traverse_total {ℓ κ} :
    {A : Type ℓ} {B : Type κ} (f : A → Result B) (xs : List A)
    → All (λ x. (y : B) × (f x ≡ ok y)) xs
    → (ys : List B) × (traverse f xs ≡ ok ys)
traverse_total f [] h = ([], refl)
traverse_total f (x ∷ xs) h = let (ys, e) = traverse_total f xs h.1 in (h.0.0 ∷ ys, rw (h.0.1, e))
