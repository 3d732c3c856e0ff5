-- ===== src/Tests/Texts.antt =====
-- Sequence sets, throttling and flag names.
use asimap.Prelude.{ℕ, String, ◌≡◌, refl, true, false, some, List, [], ◌∷◌, arith}
use asimap.Prelude.Lists.{All, mem, any_of}
use asimap.Prelude.Ascending.{Asc, sorted_set, insert}
use asimap.Prelude.Dict.{lookup}
use asimap.Result.{ok, err, bad}
use asimap.SeqSet.{SeqElt, one, pair, num, star, sequence_set_to_list}
use asimap.SeqSet.Numbers.{names, Fits, sequence_set_to_list-names, sequence_set_to_list-Fits}
use asimap.Throttle.{Throttle, empty, check_allow, login_failed}
use asimap.Throttle.Lockout.{fail_each, all_allowed, fail_each-refused, check_allow-eq-blocked}
use asimap.Constants.{flags_to_seqs, seqs_to_flags}
use asimap.Constants.RoundTrip.{seqs_to_flags-flags_to_seqs}

-- `5:3,1,*` in a mailbox of 7 messages
abbrev some_set : List SeqElt
some_set = pair (num 5) (num 3) ∷ one (num 1) ∷ one star ∷ []

some_set_runs : sequence_set_to_list some_set 7 false ≡ ok (1 ∷ 3 ∷ 4 ∷ 5 ∷ 7 ∷ [])
unfolding sequence_set_to_list sorted_set insert
some_set_runs = refl

star_in_empty : sequence_set_to_list (one star ∷ []) 0 false ≡ err bad
unfolding sequence_set_to_list
star_in_empty = refl

sequence_set_to_list-names_example :
    Asc (1 ∷ 3 ∷ 4 ∷ 5 ∷ 7 ∷ [])
    × ((x : ℕ) → mem x (1 ∷ 3 ∷ 4 ∷ 5 ∷ 7 ∷ []) ≡ any_of (names 7 x) some_set)
sequence_set_to_list-names_example =
    sequence_set_to_list-names some_set 7 false (1 ∷ 3 ∷ 4 ∷ 5 ∷ 7 ∷ []) some_set_runs

sequence_set_to_list-Fits_example :
    ((xs : List ℕ) → sequence_set_to_list some_set 4 false ≡ ok xs → All (Fits 4) some_set)
    × (All (Fits 4) some_set → (xs : List ℕ) × (sequence_set_to_list some_set 4 false ≡ ok xs))
sequence_set_to_list-Fits_example = sequence_set_to_list-Fits some_set 4

abbrev guesses : List (String × ℕ)
guesses = ("10.0.0.2", 101) ∷ ("10.0.0.3", 102) ∷ ("10.0.0.1", 103) ∷ ("10.0.0.2", 104) ∷ []

guesses_allowed : all_allowed "alice" (("10.0.0.1", 100) ∷ guesses) empty ≡ true
unfolding all_allowed
guesses_allowed = refl

fail_each-refused_example :
    (check_allow "alice" "10.9.9.9" 160 (fail_each "alice" (("10.0.0.1", 100) ∷ guesses) empty)).0
    ≡ false
unfolding lookup
fail_each-refused_example =
    fail_each-refused "alice" "10.9.9.9" ("10.0.0.1", 100) guesses 160 empty refl refl refl
      guesses_allowed (omega arith)

allowed_later :
    (check_allow "alice" "10.9.9.9" 165 (fail_each "alice" (("10.0.0.1", 100) ∷ guesses) empty)).0
    ≡ true
unfolding check_allow fail_each login_failed
allowed_later = refl

abbrev one_failure : Throttle
one_failure = record { bad_user_auths = ("bob", (1, 5)) ∷ []; bad_ip_auths = [] }

check_allow-eq-blocked_example : (check_allow "bob" "10.0.0.1" 70 one_failure).0 ≡ true
unfolding lookup
check_allow-eq-blocked_example = (check_allow-eq-blocked "bob" "10.0.0.1" 70 one_failure).0

seqs_to_flags-flags_to_seqs_example :
    seqs_to_flags (some (flags_to_seqs (some ("\\Seen" ∷ "junk" ∷ [])))) ≡ "\\Seen" ∷ "junk" ∷ []
seqs_to_flags-flags_to_seqs_example =
    seqs_to_flags-flags_to_seqs ("\\Seen" ∷ "junk" ∷ []) (refl, (refl, tt))
