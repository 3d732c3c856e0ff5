-- ===== src/SeqSet.antt =====
-- asimap/utils.py, `sequence_set_to_list`: the message numbers that an IMAP sequence set names.
pub mod Numbers
use asimap.Prelude.{ℕ, ◌+◌, Bool, not, ◌&&◌, ◌||◌, List, [], ◌∷◌, ◌++◌, ltb, ◌==◌, if◌then◌else◌}
use asimap.Prelude.Lists.{range}
use asimap.Prelude.Ascending.{sorted_set}
use asimap.Result.{Result, ok, err, bad, ◌>>=◌}

-- A number, or `"*"`, the largest one.
pub data SeqNum : Type 0 where
  star : SeqNum
  num : ℕ → SeqNum

-- An element of a parsed sequence set: a number, or a `(start, end)` tuple.
pub data SeqElt : Type 0 where
  one : SeqNum → SeqElt
  pair : SeqNum → SeqNum → SeqElt

abbrev pub is_star : SeqNum → Bool
is_star star = Bool.true
is_star (num n) = Bool.false

-- `"*"` stands for the largest number.
abbrev pub value : ℕ → SeqNum → ℕ
value seq_max star = seq_max
value seq_max (num n) = n

-- In a range it may be start:end or end:start.
unfoldable pub span_between : ℕ → ℕ → List ℕ
span_between start end = if ltb end start then range end (start + 1) else range start (end + 1)

-- The numbers that one turn of the loop adds to `result`.
unfoldable pub elt_numbers : ℕ → Bool → SeqElt → Result (List ℕ)
unfolding span_between
elt_numbers seq_max uid_cmd (one star) =
    if seq_max == 0 && not uid_cmd then err bad else ok (seq_max ∷ [])
elt_numbers seq_max uid_cmd (one (num n)) =
    if ltb n 1 then err bad else if ltb seq_max n && not uid_cmd then err bad else ok (n ∷ [])
elt_numbers seq_max uid_cmd (pair a b) =
    let start = value seq_max a in
    let end = value seq_max b in
    if (is_star a || is_star b) && (seq_max == 0 && not uid_cmd)
    then err bad
    else if (ltb start 1 || (ltb end 1 || (ltb seq_max start || ltb seq_max end))) && not uid_cmd
    then err bad
    else ok (span_between start end)

unfoldable pub collect : ℕ → Bool → List ℕ → List SeqElt → Result (List ℕ)
unfolding elt_numbers
collect seq_max uid_cmd result [] = ok result
collect seq_max uid_cmd result (elt ∷ seq_set) = do
  numbers ← elt_numbers seq_max uid_cmd elt
  collect seq_max uid_cmd (result ++ numbers) seq_set

unfoldable pub sequence_set_to_list : List SeqElt → ℕ → Bool → Result (List ℕ)
unfolding collect
sequence_set_to_list seq_set seq_max uid_cmd = do
  result ← collect seq_max uid_cmd [] seq_set
  ok (sorted_set result)
