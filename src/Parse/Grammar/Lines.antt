-- ===== src/Parse/Grammar/Lines.antt =====
-- asimap/parse.py: the SEARCH command as a text, with search keys of `Parse/Grammar`.
use asimap.Prelude.{◌≡◌, Bool, true, false, Option, none, some, [], ◌∷◌, ◌++◌}
use asimap.Prelude.Lists.{All}
use asimap.Search.{and_keys, cons}
use asimap.Parse.{Bytes, codes, lower_all, is_tag}
use asimap.Parse.Commands.{searching, Command}
use asimap.Parse.Grammar.{
  AString, value_of, astring_text, IsSome, IsAString, Spells, Query, Queries, done, also,
  query_text, meaning, meanings, IsQuery, AreQueries,
}

-- A tag, perhaps UID, SEARCH, perhaps CHARSET with its argument, and the keys
pub record SearchLine : Type 0 where
  pub tag : Bytes
  pub uid_word : Option Bytes
  pub search_word : Bytes
  pub charset : Option (Bytes × AString)
  pub first_key : Query
  pub more_keys : Queries

abbrev pub uid_text : Option Bytes → Bytes → Bytes
uid_text none rest = rest
uid_text (some s) rest = s ++ 32 ∷ rest

unfoldable pub charset_text : Option (Bytes × AString) → Bytes → Bytes
unfolding astring_text
charset_text none rest = rest
charset_text (some (s, a)) rest = s ++ 32 ∷ astring_text a (32 ∷ rest)

unfoldable pub keys_text : Query → Queries → Bytes → Bytes
unfolding query_text
keys_text q done rest = query_text q rest
keys_text q (also more qs) rest = query_text q (32 ∷ keys_text more qs rest)

unfoldable pub line_text : SearchLine → Bytes → Bytes
unfolding charset_text keys_text
line_text l rest =
    l.tag
    ++ 32
      ∷ uid_text l.uid_word
          (l.search_word ++ 32 ∷ charset_text l.charset (keys_text l.first_key l.more_keys rest))

abbrev pub is_uid : Option Bytes → Bool
is_uid none = false
is_uid (some s) = true

abbrev pub charset_of : Option (Bytes × AString) → Bytes
charset_of none = codes "us-ascii"
charset_of (some (s, a)) = lower_all (value_of a)

unfoldable pub line_meaning : SearchLine → Command
unfolding meaning meanings
line_meaning l = record {
  tag = l.tag;
  command = codes "search";
  by_uid = is_uid l.uid_word;
  args =
      searching (charset_of l.charset)
        (and_keys (cons (meaning l.first_key) (meanings l.more_keys)));
}

abbrev pub IsUidWord : Option Bytes → Type 0
IsUidWord none = Unit
IsUidWord (some s) = Spells "uid" s

abbrev pub IsCharset : Option (Bytes × AString) → Type 0
IsCharset none = Unit
IsCharset (some (s, a)) = Spells "charset" s × IsAString a

pub record IsSearchLine (l : SearchLine) : Type 0 where
  pub some_tag : IsSome l.tag
  pub tag_chars : All (λ c. is_tag c ≡ true) l.tag
  pub uid_spelled : IsUidWord l.uid_word
  pub search_spelled : Spells "search" l.search_word
  pub charset_fits : IsCharset l.charset
  pub first_fits : IsQuery l.first_key
  pub more_fit : AreQueries l.more_keys

-- Nothing, or a line end
abbrev pub IsLineEnd : Bytes → Type 0
IsLineEnd [] = Unit
IsLineEnd (c ∷ rest) = c ≡ 13
