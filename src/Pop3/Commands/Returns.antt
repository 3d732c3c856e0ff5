-- ===== src/Pop3/Commands/Returns.antt =====
-- The handlers that only read, and when they raise.
use text.Mathlib.Text.{◌==◌ as str_eq}
use text.Mathlib.TextEquality.{eq_iff}
use asimap.Prelude.{
  ℕ, ◌≡◌, refl, String, Bool, true, false, Option, none, some, List, [], ◌∷◌, arith, Bool-cases,
  Option-cases, inl, inr,
}
use asimap.Result.{Result, ok, err}
use asimap.Pop3.Session.{Folder, ℤ, pos, negsuc, Session, valid_msg_num}
use asimap.Pop3.Commands.{do_retr, do_uidl, top_words, top_parts}
use asimap.Pop3.Commands.Listing.{
  Within, IsSnapshot, IsCached, item_before-item_for, listings_agree,
}
use asimap.Pop3.Commands.Quit.{IsMarked}

-- A session in order.
pub record IsSession (folder : Folder) (s : Session) : Type 0 where
  pub snapshot : IsSnapshot s
  pub marked : IsMarked s
  pub cached : IsCached folder s

pub valid_msg_num-Within :
    (o : Option ℤ) (s : Session) (n : ℕ) → valid_msg_num o s ≡ some n → Within s.msg_count n
unfolding valid_msg_num
valid_msg_num-Within none s n h = cc
valid_msg_num-Within (some (negsuc k)) s n h = cc
valid_msg_num-Within (some (pos k)) s n h = ground arith

-- The handler returns.
abbrev pub Returns {ℓ} : {A : Type ℓ} → Result A → Type ℓ
Returns {A} r = (a : A) × (r ≡ ok a)

-- A result that is no exception.
abbrev pub no_error {ℓ} : {A : Type ℓ} → Result A → Bool
no_error (ok a) = true
no_error (err e) = false

pub Returns-of {ℓ} : {A : Type ℓ} (r : Result A) → no_error r ≡ true → Returns r
Returns-of (ok a) h = (a, refl)
Returns-of (err e) h = cc

module _ (int : String → Option ℤ) (split : String → List String) (folder : Folder) where
  pub retr-Returns :
      (args : String) (s : Session) → IsSnapshot s → Returns (do_retr int split folder args s)
  unfolding do_retr
  retr-Returns args s w = elim (Option-cases (valid_msg_num (int args) s)) [
    | inl e ↦ Returns-of _ (ground (arith, e))
    | inr (n, e) ↦
        let k = valid_msg_num-Within (int args) s n e in
        let b = item_before-item_for n s.snapshot_msg_keys (k.0, omega (arith, w.0)) in
        Returns-of _ (ground (arith, e, b))
  ]

  pub uidl-Returns :
      (args : String) (s : Session) → IsSession folder s → Returns (do_uidl int split args s)
  unfolding do_uidl
  uidl-Returns args s w = elim (Bool-cases (str_eq args "")) [
    | inl q ↦
        let empty = (eq_iff args "").0 q in
        rw empty (_, (listings_agree int split folder s w.snapshot w.cached).6)
    | inr q ↦ elim (Option-cases (valid_msg_num (int args) s)) [
      | inl e ↦ Returns-of _ (ground (arith, q, e))
      | inr (n, e) ↦
          let k = valid_msg_num-Within (int args) s n e in
          let b = item_before-item_for n s.snapshot_uids (k.0, omega (arith, w.snapshot.1)) in
          Returns-of _ (ground (arith, q, e, b))
    ]
  ]

  pub words_return :
      (number lines : String) (s : Session)
      → IsSnapshot s
      → Returns (top_words int split folder number lines s)
  unfolding top_words
  words_return number lines s w = elim (Option-cases (valid_msg_num (int number) s)) [
    | inl e ↦ Returns-of _ (ground (arith, e))
    | inr (n, e) ↦
        let k = valid_msg_num-Within (int number) s n e in
        let b = item_before-item_for n s.snapshot_msg_keys (k.0, omega (arith, w.0)) in
        Returns-of _ (ground (arith, e, b))
  ]

  pub parts_return :
      (parts : List String) (s : Session)
      → IsSnapshot s
      → Returns (top_parts int split folder parts s)
  parts_return [] s w = Returns-of _ refl
  parts_return (a ∷ []) s w = Returns-of _ refl
  parts_return (a ∷ b ∷ []) s w = words_return a b s w
  parts_return (a ∷ b ∷ c ∷ parts) s w = Returns-of _ refl
