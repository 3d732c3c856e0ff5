-- ===== src/Search.antt =====
-- asimap/search.py: the search keys of a SEARCH command, and when a message matches them.
pub mod Meaning
use asimap.Prelude.{
  ℕ, String, Bool, true, false, not, ◌&&◌, ◌||◌, Option, none, some, List, [], ◌∷◌, ltb, leb, ◌==◌,
  if◌then◌else◌,
}
use asimap.Prelude.Dict.{str_mem}
use asimap.Constants.{flag_to_seq}
use asimap.Result.{Result, ok, err, type_error, ◌>>=◌}
use asimap.SeqSet.{SeqElt, one, pair, SeqNum, num, star, value}

-- `IMAPSearch`: an operation of `SearchOp` with its arguments. A date is a number of days.
mutual
  pub data Search : Type 0 where
    all_messages : Search
    and_keys or_keys : Searches → Search
    not_key : Search → Search
    before on since : (date : ℕ) → Search
    sentbefore senton sentsince : (date : ℕ) → Search
    keyword : String → Search
    larger smaller : ℕ → Search
    message_set uid : List SeqElt → Search
    header : (name : String) → (string : String) → Search
    body text : String → Search

  pub data Searches : Type 0 where
    nil : Searches
    cons : Search → Searches → Searches

-- What is read of a message, which Python's `email` package has parsed: whether it has a header and
-- whether that contains a text; the day of its `Date` header, where it has one, and an exception
-- where `parsedate` raises one; its size; the number of its parts that are no multiparts; and
-- whether its text, with or without the headers, contains a text.
pub record SearchMessage : Type 0 where
  pub has_header : String → Bool
  pub header_contains : String → String → Bool
  pub sent : Option (Result ℕ)
  pub size : ℕ
  pub leaf_parts : ℕ
  pub contains : (headers : Bool) → String → Bool

-- `SearchContext`: what is looked up for a message, or the exception that looking it up raises.
pub record SearchContext : Type 0 where
  pub msg_number : ℕ
  pub seq_max : ℕ
  pub uid_max : ℕ
  pub sequences : List String
  pub uid_of : Result (Option ℕ)
  pub internal_date : Result ℕ
  pub msg : Result SearchMessage

-- `_match_message_set`, and `_match_uid` of a message that has a UID. A `"*"` at the start of a range
-- is compared with a number.
unfoldable pub match_set : ℕ → ℕ → List SeqElt → Result Bool
match_set n largest [] = ok false
match_set n largest (one star ∷ msg_set) =
    let rest = match_set n largest msg_set in if n == largest then ok true else rest
match_set n largest (one (num k) ∷ msg_set) =
    let rest = match_set n largest msg_set in if k == n then ok true else rest
match_set n largest (pair star to ∷ msg_set) = err type_error
match_set n largest (pair (num from) to ∷ msg_set) =
    let rest = match_set n largest msg_set in
    if leb from n && leb n (value largest to) then ok true else rest

-- `_match_uid` of a message with no UID: `None` is equal to no number, and comparing it raises.
unfoldable pub match_no_uid : List SeqElt → Result Bool
match_no_uid [] = ok false
match_no_uid (one n ∷ msg_set) = match_no_uid msg_set
match_no_uid (pair from to ∷ msg_set) = err type_error

unfoldable pub match_uid : Option ℕ → ℕ → List SeqElt → Result Bool
unfolding match_set match_no_uid
match_uid none largest msg_set = match_no_uid msg_set
match_uid (some n) largest msg_set = match_set n largest msg_set

-- `_match_sentbefore`, `_match_senton`, `_match_sentsince`, by their comparison
abbrev pub sent_test : (ℕ → Bool) → Option (Result ℕ) → Result Bool
sent_test test none = ok false
sent_test test (some day) = day >>= λ msg_date. ok (test msg_date)

abbrev pub match_sent : (ℕ → Bool) → SearchContext → Result Bool
match_sent test ctx = ctx.msg >>= λ msg. sent_test test msg.sent

-- `match`. The keys of AND and OR are tasks of one group: each is run, and the group raises if one
-- of them does; of the exceptions of a group the first is kept.
unfoldable mutual
  unfolding flag_to_seq match_set match_uid

  pub match_search : Search → SearchContext → Result Bool
  match_search all_messages ctx = ok true
  match_search (and_keys keys) ctx = match_all keys ctx
  match_search (or_keys keys) ctx = match_any keys ctx
  match_search (not_key key) ctx = match_search key ctx >>= λ r. ok (not r)
  match_search (before date) ctx = ctx.internal_date >>= λ day. ok (ltb day date)
  match_search (on date) ctx = ctx.internal_date >>= λ day. ok (day == date)
  match_search (since date) ctx = ctx.internal_date >>= λ day. ok (leb date day)
  match_search (sentbefore date) ctx = match_sent (λ day. ltb day date) ctx
  match_search (senton date) ctx = match_sent (λ day. day == date) ctx
  match_search (sentsince date) ctx = match_sent (λ day. leb date day) ctx
  match_search (keyword flag) ctx = ok (str_mem (flag_to_seq flag) ctx.sequences)
  match_search (larger n) ctx = ctx.msg >>= λ msg. ok (ltb n msg.size)
  match_search (smaller n) ctx = ctx.msg >>= λ msg. ok (ltb msg.size n)
  match_search (message_set msg_set) ctx = match_set ctx.msg_number ctx.seq_max msg_set
  match_search (uid msg_set) ctx = ctx.uid_of >>= λ u. match_uid u ctx.uid_max msg_set
  match_search (header name string) ctx =
      ctx.msg >>= λ msg. ok (msg.has_header name && msg.header_contains name string)
  match_search (body string) ctx =
      ctx.msg >>= λ msg. ok (ltb 0 msg.leaf_parts && msg.contains false string)
  match_search (text string) ctx = ctx.msg >>= λ msg. ok (msg.contains true string)

  pub match_all : Searches → SearchContext → Result Bool
  match_all nil ctx = ok true
  match_all (cons key keys) ctx =
      match_search key ctx >>= λ r. match_all keys ctx >>= λ rest. ok (r && rest)

  pub match_any : Searches → SearchContext → Result Bool
  match_any nil ctx = ok false
  match_any (cons key keys) ctx =
      match_search key ctx >>= λ r. match_any keys ctx >>= λ rest. ok (r || rest)
