-- ===== src/Parse.antt =====
-- asimap/parse.py: the parser of IMAP commands. A parser takes the input that is left, a list of
-- Latin-1 codes, and returns what it read with the rest; a regular expression of the module is the
-- function that its match computes.
pub mod Strings
pub mod Sets
pub mod Keys
pub mod Fetches
pub mod Listing
pub mod Commands
pub mod Safety
pub mod Total
pub mod Grammar
use Prim.Native.Char.{code}
use asimap.Prelude.{
  ℕ, zero, suc, ◌+◌, ◌-◌, ◌*◌, String, Bool, true, false, ◌&&◌, ◌||◌, not, Option, none, some, List,
  [], ◌∷◌, ltb, leb, ◌==◌, if◌then◌else◌,
}
use asimap.Prelude.Lists.{length}

abbrev pub Bytes : Type 0
Bytes = List ℕ

-- The codes of a text
abbrev pub codes : String → Bytes
codes String.[] = []
codes (String.◌∷◌ c s) = code c ∷ codes s

-- The exceptions of the module, `BadCommand` and its subclasses; Python's `ValueError`; and the end
-- of the fuel of the model, which never comes.
pub data ParseError : Type 0 where
  bad_command no_match unknown_command bad_literal bad_syntax unknown_search_key : ParseError
  value_error : ParseError
  out_of_fuel : ParseError

pub data Parsed {ℓ} (A : Type ℓ) : Type ℓ where
  raised : ParseError → Parsed A
  parsed : A → (rest : Bytes) → Parsed A

abbrev pub Parser {ℓ} : Type ℓ → Type ℓ
Parser A = Bytes → Parsed A

abbrev pub next {ℓ κ} : {A : Type ℓ} {B : Type κ} → Parsed A → (A → Parser B) → Parsed B
next (raised e) f = raised e
next (parsed a rest) f = f a rest

infixl 5 ◌>>=◌ ◌>>◌
abbrev pub ◌>>=◌ {ℓ κ} : {A : Type ℓ} {B : Type κ} → Parser A → (A → Parser B) → Parser B
(p >>= f) input = next (p input) f

abbrev pub ◌>>◌ {ℓ κ} : {A : Type ℓ} {B : Type κ} → Parser A → Parser B → Parser B
p >> q = p >>= λ _. q

abbrev pub pure {ℓ} : {A : Type ℓ} → A → Parser A
pure a input = parsed a input

abbrev pub raise {ℓ} : {A : Type ℓ} → ParseError → Parser A
raise e input = raised e

-- `str.lower` of a Latin-1 character
unfoldable pub lower : ℕ → ℕ
lower c = if (leb 65 c && leb c 90) || (leb 192 c && leb c 222 && not (c == 215)) then c + 32 else c

abbrev pub lower_all : Bytes → Bytes
lower_all [] = []
lower_all (c ∷ s) = lower c ∷ lower_all s

-- What is left behind a string that stands at the beginning, in any case of its letters.
unfoldable pub match_string : Bytes → Bytes → Option Bytes
unfolding lower
match_string [] input = some input
match_string (d ∷ string) [] = none
match_string (d ∷ string) (c ∷ input) =
    let rest = match_string string input in if lower c == lower d then rest else none

-- `_p_simple_string(string)`
unfoldable pub expect : String → Parser (Unit {0})
unfolding match_string
expect string input = elim (match_string (codes string) input) [
  | none ↦ raised no_match
  | some rest ↦ parsed tt rest
]

-- `_p_simple_string(string, silent=True)`: whether it is there.
unfoldable pub skip : String → Parser Bool
unfolding match_string
skip string input = elim (match_string (codes string) input) [
  | none ↦ parsed false input
  | some rest ↦ parsed true rest
]

-- `_p_simple_string(string, silent=True, swallow=False)`
unfoldable pub peek : String → Parser Bool
unfolding match_string
peek string input = elim (match_string (codes string) input) [
  | none ↦ parsed false input
  | some rest ↦ parsed true input
]

-- The characters of a class that stand at the beginning, and the rest.
unfoldable pub span_of : (ℕ → Bool) → Bytes → Bytes × Bytes
span_of p [] = ([], [])
span_of p (c ∷ input) =
    let more = span_of p input in if p c then (c ∷ more.0, more.1) else ([], c ∷ input)

-- `_p_re(regexp, silent=True)` and `_p_re(regexp)` for one or more characters of a class
abbrev pub some_of? : Bytes × Bytes → Parsed (Option Bytes)
some_of? ([], rest) = parsed none rest
some_of? (c ∷ token, rest) = parsed (some (c ∷ token)) rest

abbrev pub some_of : Bytes × Bytes → Parsed Bytes
some_of ([], rest) = raised no_match
some_of (c ∷ token, rest) = parsed (c ∷ token) rest

unfoldable pub p_re? : (ℕ → Bool) → Parser (Option Bytes)
unfolding span_of
p_re? p input = some_of? (span_of p input)

unfoldable pub p_re : (ℕ → Bool) → Parser Bytes
unfolding span_of
p_re p input = some_of (span_of p input)

-- `\d`
abbrev pub is_digit : ℕ → Bool
is_digit c = leb 48 c && leb c 57

-- `_search_atom`
abbrev pub is_alpha : ℕ → Bool
is_alpha c = (leb 65 c && leb c 90) || (leb 97 c && leb c 122)

-- `_list_atom`: none of `(`, `)`, `{`, `}`, the controls and the space, DEL, `"` and `\`.
abbrev pub is_list_atom : ℕ → Bool
is_list_atom c =
    leb 33 c
    && not (c == 34 || (c == 40 || (c == 41 || (c == 92 || (c == 123 || (c == 125 || c == 127))))))

-- `_atom`: nor `%` and `*`; `_tag`: nor `+`.
abbrev pub is_atom : ℕ → Bool
is_atom c = is_list_atom c && not (c == 37 || c == 42)

abbrev pub is_tag : ℕ → Bool
is_tag c = is_atom c && not (c == 43)

-- `int` of a text of digits
abbrev pub int_from : ℕ → Bytes → ℕ
int_from n [] = n
int_from n (c ∷ digits) = int_from (n * 10 + (c - 48)) digits

abbrev pub int : Bytes → ℕ
int digits = int_from 0 digits

-- `int(self._p_re(_number_re))`
unfoldable pub p_number : Parser ℕ
unfolding p_re
p_number = p_re is_digit >>= λ digits. pure (int digits)

-- The loops of `_p_list_of` and of `_p_paren_list_of`
unfoldable pub items_of {ℓ} : {A : Type ℓ} → ℕ → Parser A → Parser (List A)
unfolding skip
items_of zero p input = raised out_of_fuel
items_of (suc fuel) p input = next (p input) λ a. skip " " >>= λ space.
    if space then (items_of fuel p >>= λ result. pure (a ∷ result)) else pure (a ∷ [])

unfoldable pub paren_items_of {ℓ} : {A : Type ℓ} → ℕ → Parser A → Parser (List A)
unfolding skip expect
paren_items_of zero p input = raised out_of_fuel
paren_items_of (suc fuel) p input = next (p input) λ a. skip ")" >>= λ closed.
    if closed
    then pure (a ∷ [])
    else (expect " " >> paren_items_of fuel p >>= λ result. pure (a ∷ result))

-- `_p_list_of`: each turn but the last consumes a space, so the length of the input is enough fuel.
unfoldable pub p_list_of {ℓ} : {A : Type ℓ} → Parser A → Parser (List A)
unfolding items_of
p_list_of p input = items_of (suc (length input)) p input

unfoldable pub p_paren_list_of {ℓ} : {A : Type ℓ} → Parser A → Parser (List A)
unfolding paren_items_of expect skip
p_paren_list_of p =
    expect "("
    >> (skip ")" >>= λ empty.
        if empty then pure [] else λ input. paren_items_of (suc (length input)) p input)
