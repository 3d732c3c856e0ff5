-- ===== src/Mbox/Database/Rows.antt =====
-- What the rows of the sequences are read as after they are stored.
use mathlib.Core.Path.{subst}
use text.Mathlib.Text.{◌==◌ as str_eq}
use text.Mathlib.TextEquality.{eq_iff}
use asimap.Prelude.{
  ℕ, String, ◌≡◌, refl, sym, ap, ◌∙◌, true, false, not, ◌&&◌, Option, none, some, inl, inr, List,
  [], ◌∷◌, if◌then◌else◌, Bool-cases, arith,
}
use asimap.Prelude.Lists.{All}
use asimap.Prelude.Ascending.{Asc, Asc-ext, sorted_set, sorted_set-Asc, mem-sorted_set}
use asimap.Prelude.Dict.{lookup, put, lookup-put, str_mem}
use asimap.Compact.{Spec, compact_sequence, expand_sequence}
use asimap.Compact.RoundTrip.{expand-compact}
use asimap.Mbox.Sequences.{Sequences, members}
use asimap.Mbox.Database.{
  SequenceRows, names_of, remove_all, empty_seqs, new_names, names_to_delete, insert_rows,
  store_sequences, load_sequences,
}
use asimap.Mbox.Database.Unique.{
  IsUnique, put-IsUnique, remove_all-IsUnique, lookup-remove_all, lookup-names_of,
}

insert_rows-IsUnique :
    (seqs : Sequences) (names : List String) (rows : SequenceRows)
    → IsUnique rows
    → IsUnique (insert_rows seqs names rows)
insert_rows-IsUnique seqs [] rows h = h
insert_rows-IsUnique seqs (name ∷ names) rows h =
    let row = compact_sequence (members name seqs) in
    insert_rows-IsUnique seqs names (put name row rows) (put-IsUnique name row rows h)

lookup-insert_rows :
    (j : String) (seqs : Sequences) (names : List String) (rows : SequenceRows)
    → lookup j (insert_rows seqs names rows)
      ≡ (if str_mem j names then some (compact_sequence (members j seqs)) else lookup j rows)
lookup-insert_rows j seqs [] rows = refl
lookup-insert_rows j seqs (name ∷ names) rows =
    let row = compact_sequence (members name seqs) in
    ground (
      arith,
      eq_iff name j,
      lookup-insert_rows j seqs names (put name row rows),
      lookup-put name j row rows,
    )

str_mem-names_to_delete :
    (j : String) (old new : List String)
    → str_mem j (names_to_delete old new) ≡ (str_mem j old && not (str_mem j new))
str_mem-names_to_delete j [] new = refl
str_mem-names_to_delete j (name ∷ old) new =
    ground (arith, eq_iff name j, str_mem-names_to_delete j old new)

-- What the rows of a name are read as
abbrev parts : Option (List Spec) → List Spec
parts none = []
parts (some specs) = specs

members-load :
    (j : String) (seqs : Sequences) (rows : SequenceRows)
    → IsUnique rows
    → members j (load_sequences seqs rows) ≡ elim (parts (lookup j rows)) [
      | [] ↦ members j seqs
      | spec ∷ specs ↦ expand_sequence (spec ∷ specs)
    ]
unfolding load_sequences lookup
members-load j seqs [] h = refl
members-load j seqs ((name, []) ∷ rows) h =
    ground (arith, eq_iff name j, members-load j seqs rows h.1, h.0)
members-load j seqs ((name, spec ∷ specs) ∷ rows) h =
    let now = expand_sequence (spec ∷ specs) in
    ground (
      arith,
      eq_iff name j,
      members-load j (put name now seqs) rows h.1,
      h.0,
      lookup-put name j now seqs,
    )

-- A name is inserted unless its sequence is empty, and only empty ones are removed.
members-new_names :
    (j : String) (seqs : Sequences) (names : List String)
    → str_mem j (new_names seqs names) ≡ false
    → str_mem j names ≡ true
    → members j seqs ≡ []
unfolding new_names
members-new_names j seqs [] h k = ground (arith, k)
members-new_names j seqs (name ∷ names) h k =
    let rest = members-new_names j seqs names in
    elim (Bool-cases (str_eq name j)) [
      | inl e ↦
          ap (λ n. members n seqs) (sym ((eq_iff name j).0 e)) ∙ first (members name seqs) refl e h
      | inr e ↦ rest (others (members name seqs) refl h) (ground (arith, e, k))
    ]
  where
    first :
        (keys : List ℕ)
        → members name seqs ≡ keys
        → str_eq name j ≡ true
        → str_mem j (new_names seqs (name ∷ names)) ≡ false
        → members name seqs ≡ []
    first [] q e h = q
    first (key ∷ keys) q e h = ground (arith, q, e, h)

    others :
        (keys : List ℕ)
        → members name seqs ≡ keys
        → str_mem j (new_names seqs (name ∷ names)) ≡ false
        → str_mem j (new_names seqs names) ≡ false
    others [] q h = ground (arith, q, h)
    others (key ∷ keys) q h = ground (arith, q, h)

members-empty_seqs :
    (j : String) (seqs : Sequences) (names : List String)
    → str_mem j (empty_seqs seqs names) ≡ true
    → members j seqs ≡ []
unfolding empty_seqs
members-empty_seqs j seqs [] h = ground (arith, h)
members-empty_seqs j seqs (name ∷ names) h =
    split (members-empty_seqs j seqs names) (members name seqs) refl h
  where
    split :
        (str_mem j (empty_seqs seqs names) ≡ true → members j seqs ≡ [])
        → (keys : List ℕ) → members name seqs ≡ keys
        → str_mem j (empty_seqs seqs (name ∷ names)) ≡ true
        → members j seqs ≡ []
    split rest [] q h = elim (Bool-cases (str_eq name j)) [
      | inl e ↦ ap (λ n. members n seqs) (sym ((eq_iff name j).0 e)) ∙ q
      | inr e ↦ rest (ground (arith, q, e, h))
    ]
    split rest (key ∷ keys) q h = rest (ground (arith, q, h))

-- The removal of the empty sequences leaves the members of every sequence.
pub members-remove_empty :
    (j : String) (seqs : Sequences)
    → members j (remove_all (empty_seqs seqs (names_of seqs)) seqs) ≡ members j seqs
members-remove_empty j seqs =
    let gone = empty_seqs seqs (names_of seqs) in
    elim (Bool-cases (str_mem j gone)) [
      | inl e ↦
          ground (arith, lookup-remove_all j gone seqs, e)
          ∙ sym (members-empty_seqs j seqs (names_of seqs) e)
      | inr e ↦ ground (arith, lookup-remove_all j gone seqs, e)
    ]

pub expand-compact_same :
    (keys : List ℕ) → Asc keys → expand_sequence (compact_sequence keys) ≡ keys
expand-compact_same keys h =
    expand-compact keys
    ∙ Asc-ext (sorted_set keys) keys (sorted_set-Asc keys) h (λ a. mem-sorted_set a keys)

expand-parts :
    (specs : List Spec)
    → elim specs [ [] ↦ [] | spec ∷ more ↦ expand_sequence (spec ∷ more) ] ≡ expand_sequence specs
unfolding expand_sequence asimap.Compact.expand_into
expand-parts [] = refl
expand-parts (spec ∷ specs) = refl

expand-nothing : expand_sequence [] ≡ []
unfolding expand_sequence asimap.Compact.expand_into
expand-nothing = refl

-- A name that is not inserted has no row afterwards, and no members.
lookup-kept :
    (j : String) (rows : SequenceRows) (new : List String)
    → str_mem j new ≡ false
    → lookup j (remove_all (names_to_delete (names_of rows) new) rows) ≡ none
lookup-kept j rows new e =
    let del = names_to_delete (names_of rows) new in
    let h = lookup-remove_all j del rows in
    let d = str_mem-names_to_delete j (names_of rows) new in
    elim (Bool-cases (str_mem j (names_of rows))) [
      | inl k ↦ ground (arith, h, d, e, k)
      | inr k ↦ ground (arith, h, d, e, lookup-names_of j rows k)
    ]

members-unnamed :
    (j : String) (seqs : Sequences)
    → str_mem j (new_names seqs (names_of seqs)) ≡ false
    → members j seqs ≡ []
members-unnamed j seqs e = elim (Bool-cases (str_mem j (names_of seqs))) [
  | inl k ↦ members-new_names j seqs (names_of seqs) e k
  | inr k ↦ ground (arith, lookup-names_of j seqs k)
]

-- A sequence is read back from the rows that are stored, whatever rows were there before.
pub members-load_store :
    (j : String) (seqs : Sequences) (rows : SequenceRows)
    → IsUnique rows
    → Asc (members j seqs)
    → members j (load_sequences [] (store_sequences seqs rows)) ≡ members j seqs
unfolding lookup
members-load_store j seqs rows u a =
    let new = new_names seqs (names_of seqs) in
    let del = names_to_delete (names_of rows) new in
    let kept = remove_all del rows in
    let stored = insert_rows seqs new kept in
    let h =
      members-load j [] stored
        (insert_rows-IsUnique seqs new kept (remove_all-IsUnique del rows u)) in
    let row = lookup-insert_rows j seqs new kept in
    h ∙ expand-parts (parts (lookup j stored)) ∙ elim (Bool-cases (str_mem j new)) [
      | inl e ↦
          let at : lookup j stored ≡ some (compact_sequence (members j seqs)) = row ∙ rw e refl in
          ap (λ o. expand_sequence (parts o)) at ∙ expand-compact_same (members j seqs) a
      | inr e ↦
          let at : lookup j stored ≡ none = row ∙ rw e (lookup-kept j rows new e) in
          ap (λ o. expand_sequence (parts o)) at ∙ expand-nothing ∙ sym (members-unnamed j seqs e)
    ]

-- The members of each sequence ascend if those of every entry do.
pub members-Asc :
    (name : String) (seqs : Sequences) → All (λ e. Asc e.1) seqs → Asc (members name seqs)
unfolding lookup
members-Asc name [] h = tt
members-Asc name ((j, s) ∷ seqs) h = elim (Bool-cases (str_eq j name)) [
  | inl e ↦ let q : members name ((j, s) ∷ seqs) ≡ s = ground (arith, e) in subst Asc (sym q) h.0
  | inr e ↦
      let q : members name ((j, s) ∷ seqs) ≡ members name seqs = ground (arith, e) in
      subst Asc (sym q) (members-Asc name seqs h.1)
]
