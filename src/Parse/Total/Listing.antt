-- ===== src/Parse/Total/Listing.antt =====
-- asimap/parse.py: what the parsers of the arguments of LIST and STATUS leave of their input.
use asimap.Prelude.{ℕ, zero, suc, ◌≤◌, refl, String, List, [], ◌∷◌, if◌then◌else◌, arith}
use asimap.Prelude.Lists.{length}
use asimap.Parse.{
  Bytes, codes, Parser, ◌>>=◌, ◌>>◌, pure, bad_syntax, expect, skip, is_atom, lower_all,
}
use asimap.Parse.Listing.{
  SelectOpts, ReturnOpts, no_select_opts, no_return_opts, p_status_att, status_names,
  select_options, add_select, p_list_select_options, status_option, return_option, add_return,
  return_options, p_list_return_options, p_list_mailbox_pattern, p_selection, p_list_patterns,
  p_return, p_list_extended,
}
use asimap.Parse.Keys.{find_word, same_bytes}
use asimap.Parse.Safety.{Safe, >>=-Safe, pure-Safe, raise-Safe, if-Safe, option-Safe}
use asimap.Parse.Safety.Tokens.{expect-then-Safe, expect-Safe, skip-Safe, p_re-Safe}
use asimap.Parse.Total.{safe_rules, p_list_mailbox-Safe, p_mailbox-Safe}
use asimap.Parse.Total.Fetches.{paren-Safe, first_of-Safe}

pub p_status_att-Safe : (n : ℕ) → Safe n p_status_att
unfolding p_status_att
p_status_att-Safe n =
    >>=-Safe (first_of-Safe n status_names)
      λ status. option-Safe status (raise-Safe bad_syntax refl) (λ name. pure-Safe name)

-- A turn of the loops over options: the option, and the end or a space and the other options.
module _ {A : Type 0} {n : ℕ} {p : Parser A} {next_turn : A → Parser A} where
  turn-Safe :
      Safe (suc n) p
      → ((a : A) → Safe n (next_turn a))
      → Safe
          (suc n)
          (p >>= λ a. skip ")" >>= λ closed. if closed then pure a else (expect " " >> next_turn a))
  turn-Safe h k = >>=-Safe h λ a.
      >>=-Safe (skip-Safe (suc n) ")")
        λ closed. if-Safe closed (pure-Safe a) (expect-then-Safe " " (omega arith) (k a))

select_options-Safe :
    (fuel n : ℕ) (opts : SelectOpts) → n ≤ fuel → Safe n (select_options fuel opts)
unfolding select_options
select_options-Safe zero n opts le = record { at = λ input lt. absurd (omega arith) }
select_options-Safe (suc fuel) zero opts le = record { at = λ input lt. absurd (omega arith) }
select_options-Safe (suc fuel) (suc n) opts le =
    let h = >>=-Safe (p_re-Safe (suc n) is_atom) λ opt.
      option-Safe (find_word (lower_all opt) (add_select opts)) (raise-Safe bad_syntax refl) λ more.
        >>=-Safe (skip-Safe (suc n) ")") λ closed.
          if-Safe closed (pure-Safe more)
            (expect-then-Safe " " (omega arith) (select_options-Safe fuel n more (omega arith))) in
    record { at = λ input lt. h.at input lt }

return_option-Safe : (n : ℕ) (opts : ReturnOpts) (opt : Bytes) → Safe n (return_option opts opt)
unfolding return_option
return_option-Safe n opts opt =
    if-Safe (same_bytes (lower_all opt) (codes "status"))
      (>>=-Safe
        (>>=-Safe (expect-Safe n " ") (λ _. paren-Safe p_status_att n (p_status_att-Safe n)))
        (status_option-Safe))
      (option-Safe (find_word (lower_all opt) (add_return opts)) (raise-Safe bad_syntax refl)
        (λ more. pure-Safe more))
  where
    status_option-Safe : (l : List String) → Safe n (status_option opts l)
    status_option-Safe [] = raise-Safe bad_syntax refl
    status_option-Safe (a ∷ more) = pure-Safe _

return_options-Safe :
    (fuel n : ℕ) (opts : ReturnOpts) → n ≤ fuel → Safe n (return_options fuel opts)
unfolding return_options
return_options-Safe zero n opts le = record { at = λ input lt. absurd (omega arith) }
return_options-Safe (suc fuel) zero opts le = record { at = λ input lt. absurd (omega arith) }
return_options-Safe (suc fuel) (suc n) opts le =
    let h = >>=-Safe (p_re-Safe (suc n) is_atom) λ opt.
      turn-Safe (return_option-Safe (suc n) opts opt)
        (λ more. return_options-Safe fuel n more (omega arith)) in
    record { at = λ input lt. h.at input lt }

p_select_options-Safe : (n : ℕ) → Safe n p_list_select_options
unfolding p_list_select_options
p_select_options-Safe n =
    let options : Safe n (λ input. select_options (suc (length input)) no_select_opts input) =
      record {
        at = λ input lt.
            let k = suc (length input) in
            (select_options-Safe k k no_select_opts (omega arith)).at input (omega arith);
      } in
    >>=-Safe (>>=-Safe (expect-Safe n "(") (λ _. skip-Safe n ")")) λ empty.
      if-Safe empty (pure-Safe no_select_opts)
        (>>=-Safe options λ opts. if-Safe _ (raise-Safe bad_syntax refl) (pure-Safe opts))

p_return_options-Safe : (n : ℕ) → Safe n p_list_return_options
unfolding p_list_return_options
p_return_options-Safe n =
    let options : Safe n (λ input. return_options (suc (length input)) no_return_opts input) =
      record {
        at = λ input lt.
            let k = suc (length input) in
            (return_options-Safe k k no_return_opts (omega arith)).at input (omega arith);
      } in
    >>=-Safe (>>=-Safe (expect-Safe n "(") (λ _. skip-Safe n ")"))
      λ empty. if-Safe empty (pure-Safe no_return_opts) options

p_selection-Safe : (n : ℕ) → Safe n p_selection
unfolding p_selection
p_selection-Safe n = search (safe_rules, p_select_options-Safe)

p_pattern-Safe : (n : ℕ) → Safe n p_list_mailbox_pattern
unfolding p_list_mailbox_pattern
p_pattern-Safe n = search (safe_rules, p_list_mailbox-Safe)

p_list_patterns-Safe : (n : ℕ) → Safe n p_list_patterns
unfolding p_list_patterns
p_list_patterns-Safe n = search (safe_rules, paren-Safe, p_pattern-Safe, p_list_mailbox-Safe)

p_return-Safe : (n : ℕ) → Safe n p_return
unfolding p_return
p_return-Safe n = search (safe_rules, p_return_options-Safe)

pub p_list_extended-Safe : (n : ℕ) → Safe n p_list_extended
unfolding p_list_extended
p_list_extended-Safe n =
    search (safe_rules, p_selection-Safe, p_mailbox-Safe, p_list_patterns-Safe, p_return-Safe)
