-- ===== src/Parse/Commands.antt =====
-- asimap/parse.py: `parse`, `_parse_command` and the commands' arguments.
use asimap.Prelude.{String, Bool, true, false, Option, none, some, List, [], ◌∷◌, if◌then◌else◌}
use asimap.Search.{Search, and_keys}
use asimap.SeqSet.{SeqElt}
use asimap.Parse.{
  Bytes, Parser, ◌>>=◌, ◌>>◌, pure, raise, unknown_command, bad_syntax, lower_all, expect, skip,
  peek, p_re, is_atom, is_tag, codes, p_list_of, p_paren_list_of,
}
use asimap.Parse.Strings.{p_string, p_astring, p_mailbox, p_flag, p_string_nstring_pair}
use asimap.Parse.Sets.{p_msg_set, p_date_time}
use asimap.Parse.Keys.{p_search_key, searches_of, find_word}
use asimap.Parse.Fetches.{FetchAtt, p_fetch_atts}
use asimap.Parse.Listing.{ListArgs, p_list_extended, p_status_att}

-- `IMAPCommand`, and how the arguments are read
pub data CommandWord : Type 0 where
  bare authenticate login mailbox_command rename_command list_command status_command : CommandWord
  id_command append_command search_command fetch_command store_command copy_command : CommandWord
  expunge_command uid_command : CommandWord

abbrev pub command_words : List (String × CommandWord)
command_words =
    ("capability", bare)
    ∷ ("noop", bare)
    ∷ ("namespace", bare)
    ∷ ("idle", bare)
    ∷ ("logout", bare)
    ∷ ("check", bare)
    ∷ ("close", bare)
    ∷ ("unselect", bare)
    ∷ ("expunge", expunge_command)
    ∷ ("authenticate", authenticate)
    ∷ ("login", login)
    ∷ ("select", mailbox_command)
    ∷ ("examine", mailbox_command)
    ∷ ("create", mailbox_command)
    ∷ ("delete", mailbox_command)
    ∷ ("subscribe", mailbox_command)
    ∷ ("unsubscribe", mailbox_command)
    ∷ ("rename", rename_command)
    ∷ ("list", list_command)
    ∷ ("lsub", list_command)
    ∷ ("status", status_command)
    ∷ ("id", id_command)
    ∷ ("append", append_command)
    ∷ ("search", search_command)
    ∷ ("fetch", fetch_command)
    ∷ ("store", store_command)
    ∷ ("copy", copy_command)
    ∷ ("move", copy_command)
    ∷ ("uid", uid_command)
    ∷ []

abbrev pub uid_commands : List (String × CommandWord)
uid_commands =
    ("copy", copy_command)
    ∷ ("fetch", fetch_command)
    ∷ ("move", copy_command)
    ∷ ("search", search_command)
    ∷ ("store", store_command)
    ∷ ("expunge", expunge_command)
    ∷ []

pub data StoreAction : Type 0 where
  replace_flags add_flags remove_flags : StoreAction

-- The arguments that the parser has set; the message of APPEND as its text, and the dictionary of ID
-- as its pairs in order.
pub data Args : Type 0 where
  no_args : Args
  mechanism : Bytes → Args
  credentials : (user_name : Bytes) → (password : Bytes) → Args
  mailbox_arg : Bytes → Args
  renaming : (src : Bytes) → (dst : Bytes) → Args
  listing : ListArgs → Args
  status_of : Bytes → List String → Args
  id_dict : List (Bytes × Option Bytes) → Args
  appending :
      Bytes → (flag_list : List Bytes) → (date_time : Option Bytes) → (message : Bytes) → Args
  searching : (charset : Bytes) → Search → Args
  fetching : List SeqElt → List FetchAtt → Args
  storing : List SeqElt → StoreAction → (silent : Bool) → (flag_list : List Bytes) → Args
  copying : List SeqElt → Bytes → Args
  expunging : List SeqElt → Args

pub record Command : Type 0 where
  pub tag : Bytes
  pub command : Bytes
  pub by_uid : Bool  -- `uid_command`
  pub args : Args

unfoldable pub p_id : Parser Args
unfolding expect skip p_paren_list_of p_string_nstring_pair
p_id = expect " " >> skip "nil" >>= λ nil.
    if nil
    then pure (id_dict [])
    else (p_paren_list_of p_string_nstring_pair >>= λ kv_pairs. pure (id_dict kv_pairs))

-- The optional flags and date of APPEND
unfoldable pub p_append_flags : Parser (List Bytes)
unfolding peek p_paren_list_of p_flag expect
p_append_flags = peek "(" >>= λ paren.
    if paren then (p_paren_list_of p_flag >>= λ flags. expect " " >> pure flags) else pure []

unfoldable pub p_append_date : Parser (Option Bytes)
unfolding peek p_date_time expect
p_append_date = peek "\"" >>= λ quote.
    if quote then (p_date_time >>= λ date_time. expect " " >> pure (some date_time)) else pure none

unfoldable pub p_append : Parser Args
unfolding expect p_mailbox p_append_flags p_append_date p_string
p_append = expect " " >> p_mailbox >>= λ name. expect " " >> p_append_flags >>= λ flags.
    p_append_date >>= λ date_time.
    p_string >>= λ message. pure (appending name flags date_time message)

unfoldable pub p_charset : Parser Bytes
unfolding skip expect p_astring
p_charset = skip "charset" >>= λ given.
    if given
    then (expect " " >> p_astring >>= λ charset. expect " " >> pure (lower_all charset))
    else pure (codes "us-ascii")

unfoldable pub p_search : Parser Args
unfolding expect p_charset p_list_of p_search_key
p_search = expect " " >> p_charset >>= λ charset.
    p_list_of p_search_key >>= λ keys. pure (searching charset (and_keys (searches_of keys)))

unfoldable pub p_store_action : Parser StoreAction
unfolding skip
p_store_action = skip "-" >>= λ minus.
    if minus
    then pure remove_flags
    else skip "+" >>= λ plus. if plus then pure add_flags else pure replace_flags

unfoldable pub p_flags : Parser (List Bytes)
unfolding peek p_paren_list_of p_flag
p_flags = peek "(" >>= λ paren.
    if paren then p_paren_list_of p_flag else (p_flag >>= λ flag. pure (flag ∷ []))

unfoldable pub p_store : Parser Args
unfolding expect p_msg_set p_store_action skip p_flags
p_store = expect " " >> p_msg_set >>= λ msg_set. expect " " >> p_store_action >>= λ action.
    expect "flags" >> skip ".silent" >>= λ silent.
    expect " " >> p_flags >>= λ flags. pure (storing msg_set action silent flags)

unfoldable pub p_fetch : Parser Args
unfolding expect p_msg_set p_fetch_atts
p_fetch = expect " " >> p_msg_set >>= λ msg_set.
    expect " " >> p_fetch_atts >>= λ fetch_atts. pure (fetching msg_set fetch_atts)

unfoldable pub p_copy : Parser Args
unfolding expect p_msg_set p_mailbox
p_copy = expect " " >> p_msg_set >>= λ msg_set.
    expect " " >> p_mailbox >>= λ name. pure (copying msg_set name)

-- `_parse_command`, of a command other than UID
unfoldable pub parse_command : Bool → CommandWord → Parser Args
unfolding expect p_re p_astring p_mailbox p_list_extended p_paren_list_of p_status_att p_id p_append
    p_search p_fetch p_store p_copy p_msg_set
parse_command by_uid bare = pure no_args
parse_command by_uid authenticate = expect " " >> p_re is_atom >>= λ name. pure (mechanism name)
parse_command by_uid login = expect " " >> p_astring >>= λ user_name.
    expect " " >> p_astring >>= λ password. pure (credentials user_name password)
parse_command by_uid mailbox_command = expect " " >> p_mailbox >>= λ name. pure (mailbox_arg name)
parse_command by_uid rename_command =
    expect " " >> p_mailbox >>= λ src. expect " " >> p_mailbox >>= λ dst. pure (renaming src dst)
parse_command by_uid list_command = p_list_extended >>= λ args. pure (listing args)
parse_command by_uid status_command = expect " " >> p_mailbox >>= λ name.
    expect " " >> p_paren_list_of p_status_att >>= λ atts. pure (status_of name atts)
parse_command by_uid id_command = p_id
parse_command by_uid append_command = p_append
parse_command by_uid search_command = p_search
parse_command by_uid fetch_command = p_fetch
parse_command by_uid store_command = p_store
parse_command by_uid copy_command = p_copy
parse_command by_uid expunge_command =
    if by_uid
    then (expect " " >> p_msg_set >>= λ msg_set. pure (expunging msg_set))
    else pure no_args
parse_command by_uid uid_command = raise unknown_command

-- The command with its arguments
unfoldable pub with_args : Bool → Bytes → Bytes → CommandWord → Parser Command
unfolding parse_command
with_args by_uid tag command word = parse_command by_uid word >>= λ args.
    pure record { tag = tag; command = command; by_uid = by_uid; args = args }

-- `_p_uid`
unfoldable pub p_uid : Bytes → Parser Command
unfolding expect p_re find_word with_args
p_uid tag = expect " " >> p_re is_atom >>= λ command.
    elim (find_word (lower_all command) uid_commands) [
      | none ↦ raise bad_syntax
      | some word ↦ with_args true tag (lower_all command) word
    ]

unfoldable pub p_command : Bytes → Bytes → CommandWord → Parser Command
unfolding p_uid with_args
p_command tag command uid_command = p_uid tag
p_command tag command word = with_args false tag command word

-- `_parse`
unfoldable pub parse : Parser Command
unfolding p_re expect find_word p_command
parse = p_re is_tag >>= λ tag. expect " " >> p_re is_atom >>= λ cmd.
    elim (find_word (lower_all cmd) command_words) [
      | none ↦ raise unknown_command
      | some word ↦ p_command tag (lower_all cmd) word
    ]
