-- ===== src/Mbox/Database/Unique.antt =====
-- Rows in which no name stands twice, and the removal of several names.
use text.Mathlib.Text.{◌==◌ as str_eq}
use text.Mathlib.TextEquality.{eq_iff}
use asimap.Prelude.{
  String, ◌≡◌, refl, false, none, inl, inr, List, [], ◌∷◌, if◌then◌else◌, Bool-cases, arith,
}
use asimap.Prelude.Dict.{lookup, put, remove, lookup-put, lookup-remove, str_mem}
use asimap.Mbox.Database.{names_of, remove_all}

module _ {ℓ} {V : Type ℓ} where
  -- No name stands in two entries.
  abbrev pub IsUnique : List (String × V) → Type ℓ
  IsUnique [] = Unit
  IsUnique ((name, v) ∷ d) = (lookup name d ≡ none) × IsUnique d

  pub put-IsUnique :
      (k : String) (v : V) (d : List (String × V)) → IsUnique d → IsUnique (put k v d)
  unfolding put lookup
  put-IsUnique k v [] h = (refl, tt)
  put-IsUnique k v ((j, w) ∷ d) h = elim (Bool-cases (str_eq j k)) [
    | inl e ↦ rw e h
    | inr e ↦
        rw e (
          ground (arith, e, eq_iff j k, eq_iff k j, lookup-put k j v d, h.0),
          put-IsUnique k v d h.1,
        )
  ]

  remove-IsUnique : (k : String) (d : List (String × V)) → IsUnique d → IsUnique (remove k d)
  unfolding remove
  remove-IsUnique k [] h = tt
  remove-IsUnique k ((j, w) ∷ d) h = elim (Bool-cases (str_eq j k)) [
    | inl e ↦ rw e (remove-IsUnique k d h.1)
    | inr e ↦ rw e (ground (arith, lookup-remove k j d, h.0), remove-IsUnique k d h.1)
  ]

  pub remove_all-IsUnique :
      (names : List String) (d : List (String × V)) → IsUnique d → IsUnique (remove_all names d)
  remove_all-IsUnique [] d h = h
  remove_all-IsUnique (name ∷ names) d h =
      remove_all-IsUnique names (remove name d) (remove-IsUnique name d h)

  pub lookup-remove_all :
      (j : String) (names : List String) (d : List (String × V))
      → lookup j (remove_all names d) ≡ (if str_mem j names then none else lookup j d)
  lookup-remove_all j [] d = refl
  lookup-remove_all j (name ∷ names) d =
      ground (arith, lookup-remove_all j names (remove name d), lookup-remove name j d)

  pub lookup-names_of :
      (j : String) (d : List (String × V)) → str_mem j (names_of d) ≡ false → lookup j d ≡ none
  unfolding lookup
  lookup-names_of j [] h = refl
  lookup-names_of j ((name, v) ∷ d) h = ground (arith, h, lookup-names_of j d)
