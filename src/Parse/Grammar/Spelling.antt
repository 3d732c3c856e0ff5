-- ===== src/Parse/Grammar/Spelling.antt =====
-- asimap/parse.py: what is written by the grammar, its words matched in any case of their letters.
use asimap.Prelude.{
  ℕ, suc, ◌≡◌, refl, sym, ap, ◌∙◌, String, Bool, true, ◌&&◌, none, some, [], ◌∷◌, ◌++◌, ◌==◌,
  if◌then◌else◌, Bool-cases, inl, inr, arith,
}
use asimap.Prelude.Lists.{length}
use asimap.Parse.{Bytes, parsed, codes, lower, lower_all, match_string, skip}
use asimap.Parse.Keys.{same_bytes}

-- A lower-case word, spelled in any case, is found just where it is the text of its length.
abbrev pub is_lowered : Bytes → Bool
is_lowered [] = true
is_lowered (d ∷ s) = lower d == d && is_lowered s

pub is_lowered-cons :
    (d : ℕ) (s : Bytes) → is_lowered (d ∷ s) ≡ true → (lower d ≡ d) × (is_lowered s ≡ true)
is_lowered-cons d s h = elim (Bool-cases (lower d == d)) [
  | inl e ↦ (ground (arith, e), ground (arith, e, h))
  | inr e ↦ absurd (ground (arith, e, h))
]

pub match_spelled :
    (d s rest : Bytes)
    → length d ≡ length s
    → is_lowered d ≡ true
    → match_string d (s ++ rest) ≡ (if same_bytes (lower_all s) d then some rest else none)
unfolding match_string
match_spelled [] [] rest h l = refl
match_spelled [] (c ∷ s) rest h l = absurd (omega (arith, h))
match_spelled (d ∷ ds) [] rest h l = absurd (omega (arith, h))
match_spelled (d ∷ ds) (c ∷ s) rest h l =
    let (low, lows) = is_lowered-cons d ds l in
    ground (arith, low, match_spelled ds s rest (omega (arith, h)) lows)

pub length-lower_all : (s : Bytes) → length (lower_all s) ≡ length s
length-lower_all [] = refl
length-lower_all (c ∷ s) = ap suc (length-lower_all s)

same_bytes_refl : (s : Bytes) → same_bytes s s ≡ true
same_bytes_refl [] = refl
same_bytes_refl (c ∷ s) = ground (arith, same_bytes_refl s)

-- A word is matched by its spelling.
pub match_spelling :
    (word s rest : Bytes)
    → is_lowered word ≡ true
    → lower_all s ≡ word
    → match_string word (s ++ rest) ≡ some rest
match_spelling word s rest l h =
    match_spelled word s rest (sym (ap length h) ∙ length-lower_all s) l
    ∙ rw (h, same_bytes_refl word) refl

pub skip-spelling :
    (word : String) (s rest : Bytes)
    → is_lowered (codes word) ≡ true
    → lower_all s ≡ codes word
    → skip word (s ++ rest) ≡ parsed true rest
unfolding skip
skip-spelling word s rest l h = rw (skip, match_spelling (codes word) s rest l h) refl
