-- ===== src/Parse/Grammar/SearchLines.antt =====
-- asimap/parse.py: the SEARCH command as a text, read by `parse`.
use asimap.Prelude.{ℕ, Bool, true, none, some, List, [], ◌∷◌, if◌then◌else◌}
use asimap.Search.{Search}
use asimap.Parse.{
  Bytes, Parser, codes, lower_all, expect, skip, ◌>>=◌, ◌>>◌, pure, raise, unknown_command,
  bad_syntax, items_of,
}
use asimap.Parse.Strings.{p_astring}
use asimap.Parse.Keys.{p_search_key, find_word}
use asimap.Parse.Commands.{command_words, uid_commands, Command, p_command, with_args}

-- The loop over the keys, with more turns than they have characters
after_key : ℕ → Search → Parser (List Search)
after_key fuel a = skip " " >>= λ space.
    if space then (items_of fuel p_search_key >>= λ result. pure (a ∷ result)) else pure (a ∷ [])

after_charset : Bool → Parser Bytes
after_charset given =
    if given
    then (expect " " >> p_astring >>= λ charset. expect " " >> pure (lower_all charset))
    else pure (codes "us-ascii")

lowered_command : Bytes → Bytes → Parser Command
lowered_command tag command = elim (find_word command command_words) [
  | none ↦ raise unknown_command
  | some word ↦ p_command tag command word
]

lowered_uid_command : Bytes → Bytes → Parser Command
lowered_uid_command tag command = elim (find_word command uid_commands) [
  | none ↦ raise bad_syntax
  | some word ↦ with_args true tag command word
]
