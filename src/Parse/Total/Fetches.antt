-- ===== src/Parse/Total/Fetches.antt =====
-- asimap/parse.py: what the parsers of the items of FETCH leave of their input.
use asimap.Prelude.{
  ℕ, zero, suc, ◌≤◌, refl, String, Bool, Option, none, some, List, [], ◌∷◌, if◌then◌else◌, arith,
}
use asimap.Prelude.Lists.{length}
use asimap.Parse.{
  Bytes, Parser, ◌>>=◌, pure, bad_syntax, skip, is_digit, p_paren_list_of, lower_all, int,
}
use asimap.Parse.Fetches.{
  SectionPart, number, named, headers, AttWord, simple, rfc822, rfc822_header, rfc822_text,
  body_peek, body_word, att_words, is_att_char, header_part, p_partial, section_numbers, first_of,
  section_texts, is_numbered, section_rest, section_end, p_section, p_body, p_att_rest, p_fetch_att,
  p_fetch_atts,
}
use asimap.Parse.Strings.{p_astring}
use asimap.Parse.Keys.{find_word}
use asimap.Parse.Safety.{Safe, >>=-Safe, pure-Safe, raise-Safe, if-Safe, option-Safe}
use asimap.Parse.Safety.Tokens.{
  expect-Safe, skip-Safe, skip-then-Safe, p_re-Safe, p_re?-Safe, Safe-weaken, p_paren_list_of-Safe,
}
use asimap.Parse.Total.{safe_rules, p_astring-Safe}

-- A list in parentheses, where its items are safe
pub paren-Safe : {A : Type 0} (p : Parser A) (n : ℕ) → Safe n p → Safe n (p_paren_list_of p)
paren-Safe p n h = Safe-weaken n (suc n) (omega arith) (p_paren_list_of-Safe p n h)

p_partial-Safe : (n : ℕ) → Safe n p_partial
unfolding p_partial
p_partial-Safe n = search safe_rules

section_numbers-Safe : (fuel n : ℕ) → n ≤ fuel → Safe n (section_numbers fuel)
unfolding section_numbers
section_numbers-Safe zero n le = record { at = λ input lt. absurd (omega arith) }
section_numbers-Safe (suc fuel) zero le = record { at = λ input lt. absurd (omega arith) }
section_numbers-Safe (suc fuel) (suc n) le =
    let more : (ds : Bytes)
        → Safe (suc n) (
            skip "." >>= λ dot.
            if dot
            then (section_numbers fuel >>= λ sect_list. pure (number (int ds) ∷ sect_list))
            else pure (number (int ds) ∷ [])) =
      λ ds.
        skip-then-Safe "." (omega arith)
          (>>=-Safe (section_numbers-Safe fuel n (omega arith))
            (λ l. pure-Safe (number (int ds) ∷ l)))
          (pure-Safe (number (int ds) ∷ [])) in
    let h =
      >>=-Safe (p_re?-Safe (suc n) is_digit) (λ digits. option-Safe digits (pure-Safe []) more) in
    record { at = λ input lt. h.at input lt }

pub first_of-Safe : (n : ℕ) (names : List String) → Safe n (first_of names)
unfolding first_of
first_of-Safe n [] = pure-Safe none
first_of-Safe n (name ∷ names) =
    let h =
      >>=-Safe (skip-Safe n name)
        λ here. if-Safe here (pure-Safe (some name)) (first_of-Safe n names) in
    record { at = λ input lt. h.at input lt }

header_part-Safe : (n : ℕ) (name : String) (l : List Bytes) → Safe n (header_part name l)
header_part-Safe n name [] = raise-Safe bad_syntax refl
header_part-Safe n name (h ∷ hs) = pure-Safe (headers name (h ∷ hs))

section_rest-Safe : (n : ℕ) (name : String) → Safe n (section_rest name)
unfolding section_rest
section_rest-Safe n name = option-Safe _ (pure-Safe (named name)) λ _.
    >>=-Safe (>>=-Safe (expect-Safe n " ") (λ _. paren-Safe p_astring n (p_astring-Safe n)))
      (header_part-Safe n name)

section_end-Safe :
    (n : ℕ) (sect_list : List SectionPart) (section : Option String)
    → Safe n (section_end sect_list section)
unfolding section_end
section_end-Safe n sect_list none = raise-Safe bad_syntax refl
section_end-Safe n sect_list (some name) =
    >>=-Safe (section_rest-Safe n name) λ part. search safe_rules

p_section-Safe : (n : ℕ) → Safe n p_section
unfolding p_section
p_section-Safe n =
    let numbers : Safe n (λ input. section_numbers (suc (length input)) input) = record {
      at = λ input lt.
          (section_numbers-Safe (suc (length input)) (suc (length input)) (omega arith)).at input
            (omega arith);
    } in
    >>=-Safe (>>=-Safe (expect-Safe n "[") (λ _. numbers)) λ sect_list.
      >>=-Safe (skip-Safe n "]") λ closed. if-Safe closed (pure-Safe sect_list) (
        >>=-Safe (first_of-Safe n (section_texts (is_numbered sect_list)))
          (section_end-Safe n sect_list))

p_body-Safe : (n : ℕ) (peeking : Bool) → Safe n (p_body peeking)
unfolding p_body
p_body-Safe n peeking = search (safe_rules, p_section-Safe, p_partial-Safe)

p_att_rest-Safe : (n : ℕ) (word : AttWord) → Safe n (p_att_rest word)
unfolding p_att_rest
p_att_rest-Safe n (simple op) = search safe_rules
p_att_rest-Safe n rfc822 = search safe_rules
p_att_rest-Safe n rfc822_header = search safe_rules
p_att_rest-Safe n rfc822_text = search safe_rules
p_att_rest-Safe n body_peek = search p_body-Safe
p_att_rest-Safe n body_word = search (safe_rules, p_body-Safe)

p_fetch_att-Safe : (n : ℕ) → Safe n p_fetch_att
unfolding p_fetch_att
p_fetch_att-Safe n = >>=-Safe (p_re-Safe n is_att_char) λ tok.
    option-Safe (find_word (lower_all tok) att_words) (raise-Safe bad_syntax refl)
      (p_att_rest-Safe n)

pub p_fetch_atts-Safe : (n : ℕ) → Safe n p_fetch_atts
unfolding p_fetch_atts
p_fetch_atts-Safe n = search (safe_rules, paren-Safe, p_fetch_att-Safe) depth 16
