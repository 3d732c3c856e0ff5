-- ===== src/Mbox/Flags/Effects.antt =====
-- What the three operations do to each sequence and each message.
use text.Mathlib.Text.{◌==◌ as str_eq}
use text.Mathlib.TextEquality.{eq_iff}
use asimap.Prelude.{
  ℕ, String, ◌≡◌, refl, ap, Bool, not, ◌&&◌, ◌||◌, List, [], ◌∷◌, arith, ◌==◌, if◌then◌else◌,
  Bool-cases, inl, inr,
}
use asimap.Prelude.Lists.{keep}
use asimap.Prelude.Dict.{str_mem}
use asimap.Mbox.Sequences.{
  Sequences, has, add_to, discard_from, msg_sequences, has-add_to, has-discard_from,
  has→msg_sequences,
}
use asimap.Mbox.Flags.{
  help_add_flag, help_remove_flag, help_replace_flags, add_to_all, discard_from_all, replaced_seqs,
}

-- Adding a flag puts the message in that sequence, takes it out of the opposite of `Seen` and
-- `unseen`, and changes no other message and no other sequence.
pub has-help_add_flag :
    (j flag : String) (k key : ℕ) (seqs : Sequences)
    → has j k (help_add_flag key flag seqs) ≡ (
        if k == key
        then str_eq flag j
          || (not
                (str_eq flag "Seen" && str_eq j "unseen" || str_eq flag "unseen" && str_eq j "Seen")
              && has j k seqs)
        else has j k seqs)
unfolding help_add_flag
has-help_add_flag j flag k key seqs = ground (
  arith,
  eq_iff flag j,
  eq_iff flag "Seen",
  eq_iff flag "unseen",
  eq_iff j "Seen",
  eq_iff j "unseen",
  eq_iff "Seen" j,
  eq_iff "unseen" j,
  has-add_to j flag k key seqs,
  eq_iff "Seen" "unseen",
  has-discard_from j "unseen" k key (add_to flag key seqs),
  has-discard_from j "Seen" k key (add_to flag key seqs),
)

-- Removing a flag takes the message out of that sequence, puts it into the opposite of `Seen` and
-- `unseen`, and changes no other message and no other sequence.
pub has-help_remove_flag :
    (j flag : String) (k key : ℕ) (seqs : Sequences)
    → has j k (help_remove_flag key flag seqs) ≡ (
        if k == key
        then (str_eq flag "Seen" && str_eq j "unseen" || str_eq flag "unseen" && str_eq j "Seen")
          || (not (str_eq flag j) && has j k seqs)
        else has j k seqs)
unfolding help_remove_flag
has-help_remove_flag j flag k key seqs = ground (
  arith,
  eq_iff flag j,
  eq_iff flag "Seen",
  eq_iff flag "unseen",
  eq_iff j "Seen",
  eq_iff j "unseen",
  eq_iff "Seen" j,
  eq_iff "unseen" j,
  has-discard_from j flag k key seqs,
  has-add_to j "unseen" k key (discard_from flag key seqs),
  has-add_to j "Seen" k key (discard_from flag key seqs),
)

has-add_to_all :
    (j : String) (names : List String) (k key : ℕ) (seqs : Sequences)
    → has j k (add_to_all names key seqs) ≡ (str_mem j names && k == key || has j k seqs)
unfolding add_to_all
has-add_to_all j [] k key seqs = refl
has-add_to_all j (name ∷ names) k key seqs =
    ground
      (arith, has-add_to_all j names k key (add_to name key seqs), has-add_to j name k key seqs)

has-discard_from_all :
    (j : String) (names : List String) (k key : ℕ) (seqs : Sequences)
    → has j k (discard_from_all names key seqs)
      ≡ (not (str_mem j names && k == key) && has j k seqs)
unfolding discard_from_all
has-discard_from_all j [] k key seqs = ground arith
has-discard_from_all j (name ∷ names) k key seqs = ground (
  arith,
  has-discard_from_all j names k key (discard_from name key seqs),
  has-discard_from j name k key seqs,
)

str_mem-keep :
    (p : String → Bool) (j : String) (xs : List String)
    → str_mem j (keep p xs) ≡ (p j && str_mem j xs)
str_mem-keep p j [] = ground arith
str_mem-keep p j (x ∷ xs) = elim (Bool-cases (str_eq x j)) [
  | inl e ↦
      let same : p x ≡ p j = ap p ((eq_iff x j).0 e) in ground (arith, str_mem-keep p j xs, same)
  | inr e ↦ ground (arith, str_mem-keep p j xs)
]

-- Replacing the flags leaves the message in exactly the new flags, `unseen` if `Seen` is not among
-- them, and `Recent` if it was in that. Other messages keep their flags.
pub has-help_replace_flags :
    (j : String) (flags : List String) (k key : ℕ) (seqs : Sequences)
    → has j k (help_replace_flags key flags seqs) ≡ (
        if k == key then str_mem j (replaced_seqs (msg_sequences key seqs) flags) else has j k seqs)
unfolding help_replace_flags
has-help_replace_flags j flags k key seqs =
    let cur = msg_sequences key seqs in
    let new = replaced_seqs cur flags in
    ground (
      arith,
      has-discard_from_all j (keep (λ s. not (str_mem s new)) cur) k key (add_to_all new key seqs),
      has-add_to_all j new k key seqs,
      str_mem-keep (λ s. not (str_mem s new)) j cur,
      has→msg_sequences j key seqs,
    )
