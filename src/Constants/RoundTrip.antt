-- ===== src/Constants/RoundTrip.antt =====
-- The two conversions after one another.
use asimap.Prelude.{String, ◌≡◌, refl, false, some, List, [], ◌∷◌, map, inl, inr, Option-cases}
use asimap.Prelude.Lists.{All}
use asimap.Prelude.Dict.{lookup, str_mem, lookup-All, lookup-none}
use asimap.Constants.{
  system_flag_map, rev_system_flag_map, flag_to_seq, seq_to_flag, flags_to_seqs, seqs_to_flags,
}

-- The MH names of the system flags, and the flags themselves.
abbrev pub system_seqs : List String
system_seqs = map (λ e. e.0) system_flag_map

abbrev pub mapped_flags : List String
mapped_flags = map (λ e. e.0) rev_system_flag_map

-- A flag that is not spelled like the MH name of a system flag comes back unchanged from its
-- sequence name.
pub seq_to_flag-flag_to_seq :
    (flag : String) → str_mem flag system_seqs ≡ false → seq_to_flag (flag_to_seq flag) ≡ flag
unfolding flag_to_seq seq_to_flag
seq_to_flag-flag_to_seq flag h = elim (Option-cases (lookup flag rev_system_flag_map)) [
  | inl e ↦ rw (e, flag_to_seq) (rw (lookup-none flag system_flag_map h, seq_to_flag))
  | inr (v, e) ↦
      rw (e, flag_to_seq)
        (lookup-All (λ k w. seq_to_flag w ≡ k) flag rev_system_flag_map
          (refl, (refl, (refl, (refl, (refl, (refl, tt)))))) e)
]

-- A sequence name that is not spelled like a system flag comes back unchanged from its flag.
pub flag_to_seq-seq_to_flag :
    (seq : String) → str_mem seq mapped_flags ≡ false → flag_to_seq (seq_to_flag seq) ≡ seq
unfolding flag_to_seq seq_to_flag
flag_to_seq-seq_to_flag seq h = elim (Option-cases (lookup seq system_flag_map)) [
  | inl e ↦ rw (e, seq_to_flag) (rw (lookup-none seq rev_system_flag_map h, flag_to_seq))
  | inr (v, e) ↦
      rw (e, seq_to_flag)
        (lookup-All (λ k w. flag_to_seq w ≡ k) seq system_flag_map
          (refl, (refl, (refl, (refl, (refl, (refl, tt)))))) e)
]

abbrev pub Plain : String → Type 0
Plain flag = str_mem flag system_seqs ≡ false

-- A list of flags, none of them spelled like the MH name of a system flag, comes back unchanged.
pub seqs_to_flags-flags_to_seqs :
    (flags : List String)
    → All Plain flags
    → seqs_to_flags (some (flags_to_seqs (some flags))) ≡ flags
unfolding seqs_to_flags flags_to_seqs
seqs_to_flags-flags_to_seqs [] h = refl
seqs_to_flags-flags_to_seqs (flag ∷ flags) h =
    cc (seq_to_flag-flag_to_seq flag h.0, seqs_to_flags-flags_to_seqs flags h.1)
