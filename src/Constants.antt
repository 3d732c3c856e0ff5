-- ===== src/Constants.antt =====
-- asimap/constants.py: IMAP flags and the MH sequences that stand for them.
pub mod RoundTrip
use asimap.Prelude.{String, Option, none, some, List, [], ◌∷◌, map}
use asimap.Prelude.Dict.{lookup}

abbrev pub system_flags : List String
system_flags = "\\Answered" ∷ "\\Deleted" ∷ "\\Draft" ∷ "\\Flagged" ∷ "\\Recent" ∷ "\\Seen" ∷ []

abbrev pub system_flag_map : List (String × String)
system_flag_map =
    ("replied", "\\Answered")
    ∷ ("Deleted", "\\Deleted")
    ∷ ("Draft", "\\Draft")
    ∷ ("flagged", "\\Flagged")
    ∷ ("Recent", "\\Recent")
    ∷ ("Seen", "\\Seen")
    ∷ []

abbrev pub rev_system_flag_map : List (String × String)
rev_system_flag_map = map (λ e. (e.1, e.0)) system_flag_map

unfoldable pub flag_to_seq : String → String
unfolding lookup
flag_to_seq flag = elim (lookup flag rev_system_flag_map) [ some seq ↦ seq | none ↦ flag ]

unfoldable pub seq_to_flag : String → String
unfolding lookup
seq_to_flag seq = elim (lookup seq system_flag_map) [ some flag ↦ flag | none ↦ seq ]

-- `None` is the empty list.
unfoldable pub flags_to_seqs : Option (List String) → List String
unfolding flag_to_seq
flags_to_seqs none = []
flags_to_seqs (some flags) = map flag_to_seq flags

unfoldable pub seqs_to_flags : Option (List String) → List String
unfolding seq_to_flag
seqs_to_flags none = []
seqs_to_flags (some seqs) = map seq_to_flag seqs
