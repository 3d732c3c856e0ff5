-- ===== src/Pop3/DotStuffing/Lines.antt =====
-- Splitting at line ends and joining, after one another.
use asimap.Prelude.{
  ℕ, ◌≡◌, refl, sym, ap, ◌∙◌, Bool, true, false, not, ◌&&◌, List, [], ◌∷◌, ◌++◌, arith, Bool-cases,
  inl, inr,
}
use asimap.Prelude.Lists.{All}
use asimap.Pop3.DotStuffing.{is_crlf, onto_first, split_lines, join_lines}

-- No line end within the line.
abbrev pub one_line : List ℕ → Bool
one_line [] = true
one_line (b ∷ []) = true
one_line (b ∷ c ∷ line) = not (is_crlf b c) && one_line (c ∷ line)

abbrev pub IsLine : List ℕ → Type 0
IsLine line = one_line line ≡ true

split_lines-crlf :
    (b c : ℕ) (bytes : List ℕ)
    → is_crlf b c ≡ true
    → split_lines (b ∷ c ∷ bytes) ≡ [] ∷ split_lines bytes
unfolding split_lines
split_lines-crlf b c bytes h = ground arith

split_lines-byte :
    (b c : ℕ) (bytes : List ℕ)
    → is_crlf b c ≡ false
    → split_lines (b ∷ c ∷ bytes) ≡ onto_first b (split_lines (c ∷ bytes))
unfolding split_lines
split_lines-byte b c bytes h = ground arith

pub split_lines-cons :
    (bytes : List ℕ)
    → (line : List ℕ) × (lines : List (List ℕ)) × (split_lines bytes ≡ line ∷ lines)
unfolding split_lines
split_lines-cons [] = ([], [], refl)
split_lines-cons (b ∷ []) = (b ∷ [], [], refl)
split_lines-cons (b ∷ c ∷ bytes) = elim (Bool-cases (is_crlf b c)) [
  | inl e ↦ ([], split_lines bytes, split_lines-crlf b c bytes e)
  | inr e ↦
      let (line, lines, h) = split_lines-cons (c ∷ bytes) in
      (b ∷ line, lines, split_lines-byte b c bytes e ∙ ap (onto_first b) h)
]

join_lines-onto_first :
    (b : ℕ) (line : List ℕ) (lines : List (List ℕ))
    → join_lines ((b ∷ line) ∷ lines) ≡ b ∷ join_lines (line ∷ lines)
unfolding join_lines
join_lines-onto_first b line [] = refl
join_lines-onto_first b line (next ∷ lines) = refl

join_lines-nil :
    (bytes : List ℕ)
    → join_lines ([] ∷ split_lines bytes) ≡ 13 ∷ 10 ∷ join_lines (split_lines bytes)
unfolding join_lines
join_lines-nil bytes = let (line, lines, h) = split_lines-cons bytes in rw h refl

pub join_lines-split_lines : (bytes : List ℕ) → join_lines (split_lines bytes) ≡ bytes
unfolding split_lines join_lines
join_lines-split_lines [] = refl
join_lines-split_lines (b ∷ []) = refl
join_lines-split_lines (b ∷ c ∷ bytes) = elim (Bool-cases (is_crlf b c)) [
  | inl e ↦
      ap join_lines (split_lines-crlf b c bytes e)
      ∙ join_lines-nil bytes
      ∙ ground (arith, join_lines-split_lines bytes)
  | inr e ↦
      let (line, lines, h) = split_lines-cons (c ∷ bytes) in
      ap join_lines (split_lines-byte b c bytes e ∙ ap (onto_first b) h)
      ∙ join_lines-onto_first b line lines
      ∙ ap (λ ds. b ∷ ds) (ap join_lines (sym h) ∙ join_lines-split_lines (c ∷ bytes))
]

pub split_lines-one :
    (line : List ℕ) (rest : List ℕ)
    → IsLine line
    → split_lines (line ++ 13 ∷ 10 ∷ rest) ≡ line ∷ split_lines rest
split_lines-one [] rest h = split_lines-crlf 13 10 rest refl
split_lines-one (b ∷ []) rest h =
    split_lines-byte b 13 (10 ∷ rest) (ground arith)
    ∙ ap (onto_first b) (split_lines-crlf 13 10 rest refl)
split_lines-one (b ∷ c ∷ line) rest h =
    split_lines-byte b c (line ++ 13 ∷ 10 ∷ rest) (ground arith)
    ∙ ap (onto_first b) (split_lines-one (c ∷ line) rest (ground arith))

split_lines-last : (line : List ℕ) → IsLine line → split_lines line ≡ line ∷ []
unfolding split_lines
split_lines-last [] h = refl
split_lines-last (b ∷ []) h = refl
split_lines-last (b ∷ c ∷ line) h =
    split_lines-byte b c line (ground arith)
    ∙ ap (onto_first b) (split_lines-last (c ∷ line) (ground arith))

-- A byte that is no CR before LF may stand before the lines of what follows it.
onto_first-IsLine :
    (b c : ℕ) (bytes : List ℕ)
    → is_crlf b c ≡ false
    → All IsLine (split_lines (c ∷ bytes))
    → All IsLine (onto_first b (split_lines (c ∷ bytes)))
unfolding split_lines
onto_first-IsLine b c [] e h = (ground arith, tt)
onto_first-IsLine b c (d ∷ bytes) e h = elim (Bool-cases (is_crlf c d)) [
  | inl t ↦ let q = split_lines-crlf c d bytes t in rw q (refl, (rw q at h).1)
  | inr f ↦
      let (line, lines, g) = split_lines-cons (d ∷ bytes) in
      let q = split_lines-byte c d bytes f ∙ ap (onto_first c) g in
      let k : All IsLine ((c ∷ line) ∷ lines) = rw q at h in rw q (ground arith, k.1)
]

pub split_lines-IsLine : (bytes : List ℕ) → All IsLine (split_lines bytes)
unfolding split_lines
split_lines-IsLine [] = (refl, tt)
split_lines-IsLine (b ∷ []) = (refl, tt)
split_lines-IsLine (b ∷ c ∷ bytes) = elim (Bool-cases (is_crlf b c)) [
  | inl e ↦ rw (split_lines-crlf b c bytes e) (refl, split_lines-IsLine bytes)
  | inr e ↦
      rw (split_lines-byte b c bytes e)
        (onto_first-IsLine b c bytes e (split_lines-IsLine (c ∷ bytes)))
]
