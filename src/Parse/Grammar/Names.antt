-- ===== src/Parse/Grammar/Names.antt =====
-- asimap/parse.py: the names of the search keys of `Parse/Grammar` and what they
-- stand for.
use asimap.Prelude.{ℕ, String}
use asimap.Search.{
  Search, all_messages, and_keys, not_key, before, on, since, sentbefore, senton, sentsince,
  keyword, header, body, text, nil, cons,
}

-- The keys without an argument, those about a text, and those about a day
pub data PlainKey : Type 0 where
  all answered deleted draft flagged new old recent seen : PlainKey
  unanswered undeleted unflagged unseen : PlainKey

abbrev pub plain_name : PlainKey → String
plain_name all = "all"
plain_name answered = "answered"
plain_name deleted = "deleted"
plain_name draft = "draft"
plain_name flagged = "flagged"
plain_name new = "new"
plain_name old = "old"
plain_name recent = "recent"
plain_name seen = "seen"
plain_name unanswered = "unanswered"
plain_name undeleted = "undeleted"
plain_name unflagged = "unflagged"
plain_name unseen = "unseen"

abbrev pub plain_meaning : PlainKey → Search
plain_meaning all = all_messages
plain_meaning answered = keyword "\\Answered"
plain_meaning deleted = keyword "\\Deleted"
plain_meaning draft = keyword "\\Draft"
plain_meaning flagged = keyword "\\Flagged"
plain_meaning new = and_keys (cons (keyword "\\Recent") (cons (not_key (keyword "\\Seen")) nil))
plain_meaning old = not_key (keyword "\\Recent")
plain_meaning recent = keyword "\\Recent"
plain_meaning seen = keyword "\\Seen"
plain_meaning unanswered = not_key (keyword "\\Answered")
plain_meaning undeleted = not_key (keyword "\\Deleted")
plain_meaning unflagged = not_key (keyword "\\Flagged")
plain_meaning unseen = not_key (keyword "\\Seen")

pub data TextKey : Type 0 where
  bcc body_key cc from subject text_key to : TextKey

abbrev pub text_name : TextKey → String
text_name bcc = "bcc"
text_name body_key = "body"
text_name cc = "cc"
text_name from = "from"
text_name subject = "subject"
text_name text_key = "text"
text_name to = "to"

abbrev pub text_meaning : TextKey → String → Search
text_meaning bcc s = header "bcc" s
text_meaning body_key s = body s
text_meaning cc s = header "cc" s
text_meaning from s = header "from" s
text_meaning subject s = header "subject" s
text_meaning text_key s = text s
text_meaning to s = header "to" s

pub data DayKey : Type 0 where
  before_key on_key since_key sentbefore_key senton_key sentsince_key : DayKey

abbrev pub day_name : DayKey → String
day_name before_key = "before"
day_name on_key = "on"
day_name since_key = "since"
day_name sentbefore_key = "sentbefore"
day_name senton_key = "senton"
day_name sentsince_key = "sentsince"

abbrev pub day_meaning : DayKey → ℕ → Search
day_meaning before_key d = before d
day_meaning on_key d = on d
day_meaning since_key d = since d
day_meaning sentbefore_key d = sentbefore d
day_meaning senton_key d = senton d
day_meaning sentsince_key d = sentsince d
