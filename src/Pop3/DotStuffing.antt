-- ===== src/Pop3/DotStuffing.antt =====
-- `dot_stuff` of asimap/pop3_client.py. A byte is its number: 13 is CR, 10 is LF, 46 is the dot.
pub mod Lines
pub mod Receiver
use asimap.Prelude.{ℕ, Bool, true, false, ◌&&◌, List, [], ◌∷◌, ◌++◌, map, ◌==◌, if◌then◌else◌}

abbrev pub is_crlf : ℕ → ℕ → Bool
is_crlf b c = b == 13 && c == 10

-- The byte at the front of the first line.
abbrev pub onto_first : ℕ → List (List ℕ) → List (List ℕ)
onto_first b [] = (b ∷ []) ∷ []
onto_first b (line ∷ lines) = (b ∷ line) ∷ lines

-- `data.split(b"\r\n")`
unfoldable pub split_lines : List ℕ → List (List ℕ)
split_lines [] = [] ∷ []
split_lines (b ∷ []) = (b ∷ []) ∷ []
split_lines (b ∷ c ∷ bytes) = elim (is_crlf b c) [
  | true ↦ [] ∷ split_lines bytes
  | false ↦ onto_first b (split_lines (c ∷ bytes))
]

-- `b"\r\n".join(lines)`
unfoldable pub join_lines : List (List ℕ) → List ℕ
join_lines [] = []
join_lines (line ∷ []) = line
join_lines (line ∷ next ∷ lines) = line ++ 13 ∷ 10 ∷ join_lines (next ∷ lines)

unfoldable pub stuff_line : List ℕ → List ℕ
stuff_line [] = []
stuff_line (b ∷ line) = if b == 46 then 46 ∷ b ∷ line else b ∷ line

unfoldable pub dot_stuff : List ℕ → List ℕ
unfolding split_lines join_lines stuff_line
dot_stuff bytes = join_lines (map stuff_line (split_lines bytes))
