-- ===== src/Pop3/DotStuffing/Receiver.antt =====
-- What a client gets from a stuffed message.
use asimap.Prelude.{
  ℕ, ◌≡◌, refl, sym, ap, ◌∙◌, Bool, true, false, Option, none, some, List, [], ◌∷◌, ◌++◌, map,
  arith, ◌==◌, if◌then◌else◌,
}
use mathlib.Core.List.{append_assoc}
use asimap.Prelude.Lists.{All}
use asimap.Pop3.DotStuffing.{split_lines, join_lines, stuff_line, dot_stuff}
use asimap.Pop3.DotStuffing.Lines.{
  IsLine, split_lines-cons, join_lines-split_lines, split_lines-one, split_lines-IsLine,
}

-- A line without the dot that was put before it.
abbrev pub unstuff_line : List ℕ → List ℕ
unstuff_line [] = []
unstuff_line (b ∷ line) = if b == 46 then line else b ∷ line

abbrev pub is_dot : List ℕ → Bool
is_dot [] = false
is_dot (b ∷ []) = b == 46
is_dot (b ∷ c ∷ line) = false

-- The lines before the first that is a single dot; none if there is no such line.
unfoldable pub before_dot : List (List ℕ) → Option (List (List ℕ))
before_dot [] = none
before_dot (line ∷ lines) = elim (is_dot line) [
  | true ↦ some []
  | false ↦ elim (before_dot lines) [ none ↦ none | some ls ↦ some (line ∷ ls) ]
]

-- RFC 1939, section 3: the client reads up to a line that is a dot, and takes the first dot off the
-- lines that begin with one.
unfoldable pub receive : List ℕ → Option (List ℕ)
unfolding before_dot
receive bytes = elim (before_dot (split_lines bytes)) [
  | none ↦ none
  | some lines ↦ some (join_lines (map unstuff_line lines))
]

-- The end of a multi-line response, `b"\r\n.\r\n"`.
abbrev pub terminator : List ℕ
terminator = 13 ∷ 10 ∷ 46 ∷ 13 ∷ 10 ∷ []

stuff_line-IsLine : (line : List ℕ) → IsLine line → IsLine (stuff_line line)
unfolding stuff_line
stuff_line-IsLine [] h = refl
stuff_line-IsLine (b ∷ line) h = ground arith

map-stuff_line-IsLine :
    (lines : List (List ℕ)) → All IsLine lines → All IsLine (map stuff_line lines)
map-stuff_line-IsLine [] h = tt
map-stuff_line-IsLine (line ∷ lines) h =
    (stuff_line-IsLine line h.0, map-stuff_line-IsLine lines h.1)

unstuff_line-stuff_line : (line : List ℕ) → unstuff_line (stuff_line line) ≡ line
unfolding stuff_line
unstuff_line-stuff_line [] = refl
unstuff_line-stuff_line (b ∷ line) = ground arith

is_dot-stuff_line : (line : List ℕ) → is_dot (stuff_line line) ≡ false
unfolding stuff_line
is_dot-stuff_line [] = refl
is_dot-stuff_line (b ∷ []) = ground arith
is_dot-stuff_line (b ∷ c ∷ line) = ground arith

before_dot-stuffed :
    (lines : List (List ℕ))
    → before_dot (map stuff_line lines ++ (46 ∷ []) ∷ [] ∷ []) ≡ some (map stuff_line lines)
unfolding before_dot
before_dot-stuffed [] = refl
before_dot-stuffed (line ∷ lines) = ground (arith, is_dot-stuff_line line, before_dot-stuffed lines)

-- The lines of what is sent are the stuffed lines, the dot and an empty one.
split_lines-sent :
    (line : List ℕ) (lines : List (List ℕ))
    → All IsLine (line ∷ lines)
    → split_lines (join_lines (line ∷ lines) ++ terminator) ≡ line ∷ lines ++ (46 ∷ []) ∷ [] ∷ []
unfolding join_lines split_lines
split_lines-sent line [] h =
    split_lines-one line (46 ∷ 13 ∷ 10 ∷ []) h.0
    ∙ ap (λ ls. line ∷ ls) (split_lines-one (46 ∷ []) [] refl)
split_lines-sent line (next ∷ lines) h =
    ap split_lines (append_assoc line (13 ∷ 10 ∷ join_lines (next ∷ lines)) terminator)
    ∙ split_lines-one line (join_lines (next ∷ lines) ++ terminator) h.0
    ∙ ap (λ ls. line ∷ ls) (split_lines-sent next lines h.1)

map-unstuff_line : (lines : List (List ℕ)) → map unstuff_line (map stuff_line lines) ≡ lines
map-unstuff_line [] = refl
map-unstuff_line (line ∷ lines) = cc (unstuff_line-stuff_line line, map-unstuff_line lines)

receive-sent :
    (line : List ℕ) (lines : List (List ℕ))
    → All IsLine (line ∷ lines)
    → receive (join_lines (map stuff_line (line ∷ lines)) ++ terminator)
      ≡ some (join_lines (line ∷ lines))
unfolding receive
receive-sent line lines h =
    let q =
      split_lines-sent (stuff_line line) (map stuff_line lines)
        (map-stuff_line-IsLine (line ∷ lines) h) in
    let found = ap before_dot q ∙ before_dot-stuffed (line ∷ lines) in
    rw (found, receive) (ap (λ ls. some (join_lines ls)) (map-unstuff_line (line ∷ lines)))

-- A client that reads what is sent after the status line of RETR or TOP, the stuffed message and the
-- terminator, gets the message: no line of it is taken for the terminator, and no byte is lost or
-- added.
pub receive-dot_stuff : (bytes : List ℕ) → receive (dot_stuff bytes ++ terminator) ≡ some bytes
unfolding receive dot_stuff
receive-dot_stuff bytes =
    let (line, lines, e) = split_lines-cons bytes in
    let all_lines = split_lines-IsLine bytes in
    let h = rw e at all_lines in
    ap (λ ls. receive (join_lines (map stuff_line ls) ++ terminator)) e
    ∙ receive-sent line lines h
    ∙ ap some (ap join_lines (sym e) ∙ join_lines-split_lines bytes)
