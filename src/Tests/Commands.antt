-- ===== src/Tests/Commands.antt =====
-- Texts of commands, and a search key in each of its parts.
use asimap.Prelude.{some, ◌≡◌, refl, true, false, [], ◌∷◌, ◌++◌}
use asimap.SeqSet.{star, num, one, pair}
use asimap.Parse.{Bytes, codes, raised, parsed, value_error, unknown_search_key}
use asimap.Parse.Strings.{p_mailbox, p_string, normpath}
use asimap.Parse.Sets.{p_date}
use asimap.Parse.Keys.{p_search_key}
use asimap.Parse.Commands.{no_args, parse}
use asimap.Parse.Grammar.{
  atom, undeleted, quoted, Date, Query, seen, from, before_key, plain, about, dated, number_in,
  negated, either, together, done, also, query_text,
}
use asimap.Parse.Grammar.Lines.{SearchLine}
use asimap.Parse.Grammar.Inbox.{p_mailbox-inbox}

normpath_of : normpath (codes "/a//b/./../c/") ≡ codes "/a/c"
unfolding normpath
normpath_of = refl

-- A quoted string keeps its escapes.
escaped : p_string (codes "\"a\\\"b\"") ≡ parsed (codes "a\\\"b") []
unfolding p_string
escaped = refl

no_such_day : p_date (codes "31-Feb-2024") ≡ raised value_error
unfolding p_date
no_such_day = refl

undraft : p_search_key (codes "UNDRAFT") ≡ raised unknown_search_key
unfolding p_search_key
undraft = refl

-- What follows a command is ignored.
trailing :
    parse (codes "a1 NOOP and more")
    ≡ parsed
        record { tag = codes "a1"; command = codes "noop"; by_uid = false; args = no_args }
        (codes " and more")
unfolding parse
trailing = refl

abbrev fetch_text : Bytes
fetch_text = codes "a2 UID FETCH 1:*,7 (FLAGS BODY.PEEK[1.HEADER.FIELDS (To \"Cc\")]<0.10>)\r\n"

abbrev first_of_feb : Date
first_of_feb = record {
  in_quotes = true;
  padded = false;
  day = 1;
  month = 2;
  month_text = codes "Feb";
  year = 2024;
  ordinal = 738917;
}

-- `(OR Not SEEN FROM "Bob" 1:*,7 before "1-Feb-2024")`
abbrev wanted : Query
wanted =
    together
      (either (codes "OR") (negated (codes "Not") (plain seen (codes "SEEN")))
        (about from (codes "FROM") (quoted (codes "Bob"))))
      (also (number_in (pair (num 1) star) (one (num 7) ∷ []))
        (also (dated before_key (codes "before") first_of_feb) done))

wanted_text :
    query_text wanted (codes "\r\n")
    ≡ codes "(OR Not SEEN FROM \"Bob\" 1:*,7 before \"1-Feb-2024\")\r\n"
unfolding query_text
wanted_text = refl

-- `a3 uid Search charset UTF-8 (OR Not …) undeleted`
abbrev line : SearchLine
line = record {
  tag = codes "a3";
  uid_word = some (codes "uid");
  search_word = codes "Search";
  charset = some (codes "charset", atom (codes "UTF-8"));
  first_key = wanted;
  more_keys = also (plain undeleted (codes "undeleted")) done;
}

p_mailbox-inbox_example :
    p_mailbox (codes "InBox" ++ codes "es/old \r\n") ≡ parsed (codes "inbox") (codes "es/old \r\n")
unfolding asimap.Parse.lower
p_mailbox-inbox_example = p_mailbox-inbox (codes "InBox") (codes "es/old \r\n") refl
