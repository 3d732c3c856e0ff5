-- ===== src/Mbox/Sequences.antt =====
-- `Sequences` of asimap/constants.py, a `defaultdict[str, set[int]]`: for each MH sequence name the
-- keys of the messages in it. A set is kept as an ascending list.
use text.Mathlib.Text.{◌==◌ as str_eq}
use text.Mathlib.TextEquality.{eq_iff}
use asimap.Prelude.{
  ℕ, String, ◌≡◌, Bool, true, not, ◌&&◌, ◌||◌, none, some, List, [], ◌∷◌, arith, ◌==◌,
  if◌then◌else◌,
}
use asimap.Prelude.Lists.{mem, mem-keep}
use asimap.Prelude.Ascending.{insert, discard, mem-insert}
use asimap.Prelude.Dict.{lookup, put, lookup-put, str_mem}

abbrev pub Sequences : Type 0
Sequences = List (String × List ℕ)

-- `seqs[name]`, and `seqs.get(name, [])`: a missing name has no members.
abbrev pub members : String → Sequences → List ℕ
members name seqs = elim (lookup name seqs) [ none ↦ [] | some s ↦ s ]

-- An in-place change of `seqs[name]`, which makes the entry if there is none.
unfoldable pub modify : String → (List ℕ → List ℕ) → Sequences → Sequences
modify name f seqs = put name (f (members name seqs)) seqs

-- `seqs[name].add(key)`
abbrev pub add_to : String → ℕ → Sequences → Sequences
add_to name key = modify name (insert key)

-- `seqs[name].discard(key)`
abbrev pub discard_from : String → ℕ → Sequences → Sequences
discard_from name key = modify name (discard key)

-- `key in seqs[name]`
abbrev pub has : String → ℕ → Sequences → Bool
has name key seqs = mem key (members name seqs)

-- `msg_sequences`: the names of the sequences that a message is in.
unfoldable pub msg_sequences : ℕ → Sequences → List String
msg_sequences key [] = []
msg_sequences key ((name, s) ∷ seqs) =
    if mem key s then name ∷ msg_sequences key seqs else msg_sequences key seqs

pub members-modify :
    (j name : String) (f : List ℕ → List ℕ) (seqs : Sequences)
    → members j (modify name f seqs)
      ≡ (if str_eq name j then f (members name seqs) else members j seqs)
unfolding modify
members-modify j name f seqs = ground (arith, lookup-put name j (f (members name seqs)) seqs)

pub has-add_to :
    (j name : String) (k key : ℕ) (seqs : Sequences)
    → has j k (add_to name key seqs) ≡ (str_eq name j && k == key || has j k seqs)
has-add_to j name k key seqs = ground (
  arith,
  eq_iff name j,
  members-modify j name (insert key) seqs,
  mem-insert k key (members name seqs),
)

pub has-discard_from :
    (j name : String) (k key : ℕ) (seqs : Sequences)
    → has j k (discard_from name key seqs) ≡ (not (str_eq name j && k == key) && has j k seqs)
has-discard_from j name k key seqs = ground (
  arith,
  eq_iff name j,
  members-modify j name (discard key) seqs,
  mem-keep (λ x. not (key == x)) k (members name seqs),
)

-- A sequence that a message is in is listed.
pub has→msg_sequences :
    (j : String) (key : ℕ) (seqs : Sequences)
    → has j key seqs ≡ true
    → str_mem j (msg_sequences key seqs) ≡ true
unfolding msg_sequences lookup
has→msg_sequences j key [] h = cc
has→msg_sequences j key ((name, s) ∷ seqs) h =
    ground (arith, eq_iff name j, has→msg_sequences j key seqs)
