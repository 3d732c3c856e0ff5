-- ===== src/Parse/Strings.antt =====
-- asimap/parse.py: `_p_string`, `_p_astring`, `_p_mailbox`, `_p_flag`, `_p_string_nstring_pairs`.
use Prim.Native.Char.{Char, char, nul, IsScalar}
use Prim.Native.Nat.{Ordering, compare}
use mathlib.Core.Logic.{dite}
use native.Mathlib.Decide.{dec_lt}
use asimap.Prelude.{
  ℕ, ◌<◌, ◌≡◌, String, Bool, true, false, ◌&&◌, ◌||◌, not, Option, none, some, List, [], ◌∷◌, ◌++◌,
  ltb, ◌==◌, if◌then◌else◌, arith,
}
use asimap.Prelude.Lists.{length, take, drop}
use asimap.Parse.{
  Bytes, Parser, Parsed, raised, parsed, ◌>>=◌, ◌>>◌, pure, bad_literal, expect, skip, p_re, p_re?,
  p_number, is_atom, is_list_atom, codes,
}

pub small-IsScalar : (n : ℕ) → n < 55296 → IsScalar n
small-IsScalar n h = let e : compare n 55296 ≡ Ordering.lt = ground arith in rw e tt

-- The text of these codes; all Latin-1 codes are characters.
abbrev pub chr : ℕ → Char
chr n = dite (dec_lt n 55296) (λ h. char n (small-IsScalar n h)) (λ _. nul)

abbrev pub text_of : Bytes → String
text_of [] = String.[]
text_of (c ∷ s) = String.◌∷◌ (chr c) (text_of s)

-- The rest of `_quoted` after its first `"`: the characters up to the next `"`, where a backslash
-- stands only before a `"` or a backslash.
abbrev pub more_quoted : Bytes → Option (Bytes × Bytes) → Option (Bytes × Bytes)
more_quoted s none = none
more_quoted s (some (inner, rest)) = some (s ++ inner, rest)

abbrev pub is_quotable : ℕ → Bool
is_quotable c = not (c == 10 || (c == 13 || (c == 34 || c == 92)))

unfoldable pub quoted_rest : Bytes → Option (Bytes × Bytes)
quoted_rest [] = none
quoted_rest (c ∷ []) = if c == 34 then some ([], []) else none
quoted_rest (c ∷ d ∷ input) =
    let escaped = more_quoted (c ∷ d ∷ []) (quoted_rest input) in
    let plain = more_quoted (c ∷ []) (quoted_rest (d ∷ input)) in
    if c == 34
    then some ([], d ∷ input)
    else if c == 92
    then (if d == 34 || d == 92 then escaped else none)
    else if is_quotable c
    then plain
    else none

-- `_quoted`, without its quotes
unfoldable pub match_quoted : Bytes → Option (Bytes × Bytes)
unfolding quoted_rest
match_quoted [] = none
match_quoted (c ∷ input) = if c == 34 then quoted_rest input else none

-- `_lit_ref`: `{`, digits, perhaps a `+`, `}` and a line end.
unfoldable pub p_lit_ref : Parser ℕ
unfolding expect skip p_number
p_lit_ref = expect "{" >> p_number >>= λ literal_length.
    skip "+" >>= λ plus. expect "}\r\n" >> pure literal_length

unfoldable pub p_literal : Parser Bytes
unfolding p_lit_ref
p_literal = p_lit_ref >>= λ literal_length input.
    if ltb (length input) literal_length
    then raised bad_literal
    else parsed (take literal_length input) (drop literal_length input)

-- Where there is no text in quotes there is to be a literal.
abbrev pub or_literal : Bytes → Option (Bytes × Bytes) → Parsed Bytes
or_literal input none = p_literal input
or_literal input (some (inner, rest)) = parsed inner rest

unfoldable pub p_string : Parser Bytes
unfolding match_quoted p_literal
p_string input = or_literal input (match_quoted input)

unfoldable pub p_astring : Parser Bytes
unfolding p_re? p_string
p_astring = p_re? is_atom >>= λ atom. elim atom [ none ↦ p_string | some a ↦ pure a ]

unfoldable pub p_list_mailbox : Parser Bytes
unfolding p_re? p_string
p_list_mailbox = p_re? is_list_atom >>= λ atom. elim atom [ none ↦ p_string | some a ↦ pure a ]

-- `path.split("/")`
abbrev pub split_at : ℕ → List Bytes → List Bytes
split_at c [] = []
split_at c (part ∷ parts) = if c == 47 then [] ∷ part ∷ parts else (c ∷ part) ∷ parts

unfoldable pub split_path : Bytes → List Bytes
split_path [] = [] ∷ []
split_path (c ∷ path) = split_at c (split_path path)

-- `".."`
abbrev pub is_parent : Bytes → Bool
is_parent [] = false
is_parent (a ∷ []) = false
is_parent (a ∷ b ∷ []) = a == 46 && b == 46
is_parent (a ∷ b ∷ c ∷ s) = false

-- The parts so far, the last one first, after a part that is neither empty nor `"."`: a `..` takes
-- the part before it away, unless there is none or it is itself a `..`.
abbrev pub add_part : Bool → Bytes → List Bytes → List Bytes
add_part rooted part [] = if is_parent part then (if rooted then [] else part ∷ []) else part ∷ []
add_part rooted part (last ∷ parts) =
    if is_parent part && not (is_parent last) then parts else part ∷ last ∷ parts

abbrev pub is_here : Bytes → Bool
is_here [] = true
is_here (a ∷ []) = a == 46
is_here (a ∷ b ∷ s) = false

unfoldable pub add_parts : Bool → List Bytes → List Bytes → List Bytes
add_parts rooted [] parts = parts
add_parts rooted (part ∷ rest) parts =
    add_parts rooted rest (if is_here part then parts else add_part rooted part parts)

-- `"/".join`, of the parts in reverse, before a text
abbrev pub join_before : List Bytes → Bytes → Bytes
join_before [] path = path
join_before (part ∷ []) path = part ++ path
join_before (part ∷ more ∷ parts) path = join_before (more ∷ parts) (47 ∷ part ++ path)

-- The slashes that stay at the beginning: two of exactly two, else one.
abbrev pub root_of : Bytes → Bytes
root_of [] = []
root_of (a ∷ []) = if a == 47 then 47 ∷ [] else []
root_of (a ∷ b ∷ []) = if a == 47 then (if b == 47 then 47 ∷ 47 ∷ [] else 47 ∷ []) else []
root_of (a ∷ b ∷ c ∷ path) =
    if a == 47 then (if b == 47 && not (c == 47) then 47 ∷ 47 ∷ [] else 47 ∷ []) else []

abbrev pub or_dot : Bytes → Bytes
or_dot [] = 46 ∷ []
or_dot (c ∷ path) = c ∷ path

abbrev pub is_rooted : Bytes → Bool
is_rooted [] = false
is_rooted (c ∷ path) = true

-- `os.path.normpath`
unfoldable pub normpath : Bytes → Bytes
unfolding split_path add_parts
normpath path =
    let root = root_of path in
    or_dot (root ++ join_before (add_parts (is_rooted root) (split_path path) []) [])

abbrev pub normal_name : Bytes → Bytes
normal_name [] = []
normal_name (c ∷ name) = normpath (c ∷ name)

unfoldable pub p_mailbox : Parser Bytes
unfolding skip p_astring normpath
p_mailbox = skip "inbox" >>= λ inbox.
    if inbox
    then pure (normal_name (codes "inbox"))
    else (p_astring >>= λ mbox_name. pure (normal_name mbox_name))

unfoldable pub p_flag : Parser Bytes
unfolding skip p_re
p_flag = skip "\\" >>= λ system. p_re is_atom >>= λ atom. pure (if system then 92 ∷ atom else atom)

-- `_p_string_nstring_pairs`
unfoldable pub p_string_nstring_pair : Parser (Bytes × Option Bytes)
unfolding p_string expect skip
p_string_nstring_pair = p_string >>= λ key. expect " " >> skip "nil" >>= λ nil.
    if nil then pure (key, none) else (p_string >>= λ value. pure (key, some value))
