-- ===== src/Parse/Fetches.antt =====
-- asimap/parse.py: `_p_fetch_atts`, `_p_fetch_att`, `_p_partial`, `_p_section`; `FetchAtt` of
-- asimap/fetch.py.
use asimap.Prelude.{
  ℕ, zero, suc, String, Bool, true, false, not, Option, none, some, List, [], ◌∷◌, ◌++◌, ◌||◌, ◌==◌,
  if◌then◌else◌,
}
use asimap.Prelude.Lists.{length}
use asimap.Parse.{
  Bytes, Parser, raised, parsed, next, ◌>>=◌, ◌>>◌, pure, raise, bad_syntax, out_of_fuel, lower_all,
  expect, skip, peek, p_re, p_re?, p_number, is_digit, is_alpha, int, codes, p_paren_list_of,
}
use asimap.Parse.Strings.{p_astring}
use asimap.Parse.Keys.{find_word}

-- `FetchOp`, of which the parser makes these
pub data FetchOp : Type 0 where
  envelope flags internaldate rfc822_size uid bodystructure body : FetchOp

-- A part of a section: a number, a name, or a name with a list of headers.
pub data SectionPart : Type 0 where
  number : ℕ → SectionPart
  named : String → SectionPart
  headers : String → List Bytes → SectionPart

pub record FetchAtt : Type 0 where
  pub attribute : FetchOp
  pub section : Option (List SectionPart)
  pub partial : Option (ℕ × ℕ)
  pub peek_only : Bool  -- `peek`
  pub ext_data : Bool
  pub actual_command : Option String  -- else the name of the attribute

abbrev pub att : FetchOp → FetchAtt
att op = record {
  attribute = op;
  section = none;
  partial = none;
  peek_only = false;
  ext_data = true;
  actual_command = none;
}

abbrev pub body_att : FetchAtt
body_att = record (att bodystructure) { ext_data = false; actual_command = some "BODY" }

-- The macros `all` and `full` and `fast`
abbrev pub fast_atts : List FetchAtt → List FetchAtt
fast_atts more = att flags ∷ att internaldate ∷ att rfc822_size ∷ more

-- The words of `ParseFetchAtt`
pub data AttWord : Type 0 where
  simple : FetchOp → AttWord
  rfc822 rfc822_header rfc822_text body_peek body_word : AttWord

abbrev pub att_words : List (String × AttWord)
att_words =
    ("envelope", simple envelope)
    ∷ ("flags", simple flags)
    ∷ ("internaldate", simple internaldate)
    ∷ ("rfc822.header", rfc822_header)
    ∷ ("rfc822.size", simple rfc822_size)
    ∷ ("rfc822.text", rfc822_text)
    ∷ ("rfc822", rfc822)
    ∷ ("uid", simple uid)
    ∷ ("bodystructure", simple bodystructure)
    ∷ ("body.peek", body_peek)
    ∷ ("body", body_word)
    ∷ []

-- `_fetch_att_atom`
abbrev pub is_att_char : ℕ → Bool
is_att_char c = is_alpha c || (c == 56 || (c == 50 || c == 46))

unfoldable pub p_partial : Parser (ℕ × ℕ)
unfolding expect p_number
p_partial = expect "<" >> p_number >>= λ start.
    expect "." >> p_number >>= λ end. expect ">" >> pure (start, end)

-- The loop over the numbers of a section: a number stays read where no `.` follows it.
unfoldable pub section_numbers : ℕ → Parser (List SectionPart)
unfolding p_re? skip
section_numbers zero input = raised out_of_fuel
section_numbers (suc fuel) input = next (p_re? is_digit input) λ digits. elim digits [
  | none ↦ pure []
  | some ds ↦ skip "." >>= λ dot.
      if dot
      then (section_numbers fuel >>= λ sect_list. pure (number (int ds) ∷ sect_list))
      else pure (number (int ds) ∷ [])
]

-- The first of the names that stands there
unfoldable pub first_of : List String → Parser (Option String)
unfolding skip
first_of [] input = parsed none input
first_of (name ∷ names) input =
    next (skip name input) λ here. if here then pure (some name) else first_of names

abbrev pub section_texts : Bool → List String
section_texts numbered =
    "header.fields.not"
    ∷ "header.fields"
    ∷ "header"
    ∷ "text"
    ∷ (if numbered then "mime" ∷ [] else [])

abbrev pub is_numbered : List SectionPart → Bool
is_numbered [] = false
is_numbered (part ∷ parts) = true

-- A list of headers has at least one.
abbrev pub header_part : String → List Bytes → Parser SectionPart
header_part name [] = raise bad_syntax
header_part name (h ∷ hs) = pure (headers name (h ∷ hs))

-- What follows the name of a section
unfoldable pub section_rest : String → Parser SectionPart
unfolding expect p_paren_list_of p_astring
section_rest name =
    elim (find_word (codes name) (("header.fields.not", true) ∷ ("header.fields", true) ∷ [])) [
      | none ↦ pure (named name)
      | some _ ↦
          expect " " >> p_paren_list_of p_astring >>= λ header_list. header_part name header_list
    ]

unfoldable pub section_end : List SectionPart → Option String → Parser (List SectionPart)
unfolding section_rest expect
section_end sect_list none = raise bad_syntax
section_end sect_list (some name) =
    section_rest name >>= λ part. expect "]" >> pure (sect_list ++ part ∷ [])

unfoldable pub p_section : Parser (List SectionPart)
unfolding expect skip section_numbers first_of section_end
p_section = expect "[" >> (λ input. section_numbers (suc (length input)) input) >>= λ sect_list.
    skip "]" >>= λ closed.
    if closed
    then pure sect_list
    else (first_of (section_texts (is_numbered sect_list)) >>= λ section.
        section_end sect_list section)

-- The section and the part of a BODY
unfoldable pub p_body : Bool → Parser FetchAtt
unfolding p_section p_partial peek
p_body peeking = p_section >>= λ section. peek "<" >>= λ less.
    if less
    then (p_partial >>= λ partial.
        pure
          record (att body) { section = some section; partial = some partial; peek_only = peeking })
    else pure record (att body) { section = some section; peek_only = peeking }

unfoldable pub p_att_rest : AttWord → Parser FetchAtt
unfolding p_body peek
p_att_rest (simple op) = pure (att op)
p_att_rest rfc822 = pure record (att body) { section = some []; actual_command = some "RFC822" }
p_att_rest rfc822_header = pure record (att body) {
  section = some (named "header" ∷ []);
  peek_only = true;
  actual_command = some "RFC822.HEADER";
}
p_att_rest rfc822_text =
    pure
      record (att body) { section = some (named "text" ∷ []); actual_command = some "RFC822.TEXT" }
p_att_rest body_peek = p_body true
p_att_rest body_word = peek "[" >>= λ bracket. if bracket then p_body false else pure body_att

unfoldable pub p_fetch_att : Parser FetchAtt
unfolding p_re p_att_rest find_word
p_fetch_att = p_re is_att_char >>= λ tok. elim (find_word (lower_all tok) att_words) [
  | none ↦ raise bad_syntax
  | some word ↦ p_att_rest word
]

unfoldable pub p_fetch_atts : Parser (List FetchAtt)
unfolding peek p_paren_list_of first_of p_fetch_att
p_fetch_atts = peek "(" >>= λ paren.
    if paren
    then p_paren_list_of p_fetch_att
    else skip "all" >>= λ all.
        if all
        then pure (fast_atts (att envelope ∷ []))
        else skip "full" >>= λ full.
            if full
            then pure (fast_atts (att envelope ∷ body_att ∷ []))
            else skip "fast" >>= λ fast.
                if fast then pure (fast_atts []) else p_fetch_att >>= λ a. pure (a ∷ [])

-- `fetch_peek`: whether no BODY that is not a BODY.PEEK is fetched.
abbrev pub sees : FetchAtt → Bool
sees a = elim a.attribute [ body ↦ not a.peek_only | _ ↦ false ]

abbrev pub fetch_peek : List FetchAtt → Bool
fetch_peek [] = true
fetch_peek (a ∷ atts) = if sees a then false else fetch_peek atts
