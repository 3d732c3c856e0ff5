-- ===== src/Search/Meaning.antt =====
-- What the search keys mean, and when `match` raises.
use asimap.Prelude.{
  ℕ, ◌≤◌, ◌<◌, String, ◌≡◌, refl, Bool, true, false, not, ◌&&◌, ◌||◌, Option, none, some, List, [],
  ◌∷◌, arith, ltb, leb, ◌==◌,
}
use asimap.Prelude.Lists.{All, any_of}
use asimap.Prelude.Dict.{str_mem}
use asimap.Constants.{flag_to_seq}
use asimap.Result.{Result, ok}
use asimap.SeqSet.{SeqElt, one, pair, num, star, value}
use asimap.SeqSet.Numbers.{names}
use asimap.Search.{
  Search, Searches, all_messages, and_keys, or_keys, not_key, before, on, since, sentbefore, senton,
  sentsince, keyword, larger, smaller, message_set, uid, header, body, text, nil, cons,
  SearchMessage, SearchContext, match_set, match_sent, sent_test, match_search, match_all,
  match_any,
}

-- A range begins with a number, and that is not above its end.
abbrev pub IsOrdered : ℕ → SeqElt → Type 0
IsOrdered largest (one n) = Unit
IsOrdered largest (pair star to) = ⊥
IsOrdered largest (pair (num from) to) = from ≤ value largest to

-- The facts about a message that the keys ask for.
pub record Facts : Type 0 where
  pub number : ℕ
  pub seq_max : ℕ
  pub uid_max : ℕ
  pub the_uid : ℕ
  pub flags : List String
  pub date : ℕ
  pub sent : Option ℕ
  pub message : SearchMessage

abbrev pub has_day : (ℕ → Bool) → Option ℕ → Bool
has_day test none = false
has_day test (some day) = test day

-- RFC 3501, section 6.4.4.
unfoldable mutual
  pub means : Search → Facts → Bool
  means all_messages f = true
  means (and_keys keys) f = means_all keys f
  means (or_keys keys) f = means_any keys f
  means (not_key key) f = not (means key f)
  means (before date) f = ltb f.date date
  means (on date) f = f.date == date
  means (since date) f = leb date f.date
  means (sentbefore date) f = has_day (λ day. ltb day date) f.sent
  means (senton date) f = has_day (λ day. day == date) f.sent
  means (sentsince date) f = has_day (λ day. leb date day) f.sent
  means (keyword flag) f = str_mem (flag_to_seq flag) f.flags
  means (larger n) f = ltb n f.message.size
  means (smaller n) f = ltb f.message.size n
  means (message_set msg_set) f = any_of (names f.seq_max f.number) msg_set
  means (uid msg_set) f = any_of (names f.uid_max f.the_uid) msg_set
  means (header name string) f = f.message.has_header name && f.message.header_contains name string
  means (body string) f = ltb 0 f.message.leaf_parts && f.message.contains false string
  means (text string) f = f.message.contains true string

  pub means_all : Searches → Facts → Bool
  means_all nil f = true
  means_all (cons key keys) f = means key f && means_all keys f

  pub means_any : Searches → Facts → Bool
  means_any nil f = false
  means_any (cons key keys) f = means key f || means_any keys f

abbrev pub sent_of : Option ℕ → Option (Result ℕ)
sent_of none = none
sent_of (some day) = some (ok day)

-- The ranges of a key are ordered, for a largest number and a largest UID.
abbrev mutual
  pub IsPlain : ℕ → ℕ → Search → Type 0
  IsPlain n u (and_keys keys) = ArePlain n u keys
  IsPlain n u (or_keys keys) = ArePlain n u keys
  IsPlain n u (not_key key) = IsPlain n u key
  IsPlain n u (message_set msg_set) = All (IsOrdered n) msg_set
  IsPlain n u (uid msg_set) = All (IsOrdered u) msg_set
  IsPlain n u _ = Unit

  pub ArePlain : ℕ → ℕ → Searches → Type 0
  ArePlain n u nil = Unit
  ArePlain n u (cons key keys) = IsPlain n u key × ArePlain n u keys

-- The context of a search gives these facts, and nothing that is looked up raises.
pub record Gives (ctx : SearchContext) (f : Facts) : Type 0 where
  pub number_given : ctx.msg_number ≡ f.number
  pub seq_max_given : ctx.seq_max ≡ f.seq_max
  pub uid_max_given : ctx.uid_max ≡ f.uid_max
  pub flags_given : ctx.sequences ≡ f.flags
  pub uid_given : ctx.uid_of ≡ ok (some f.the_uid)
  pub date_given : ctx.internal_date ≡ ok f.date
  pub message_given : ctx.msg ≡ ok f.message
  pub sent_given : f.message.sent ≡ sent_of f.sent

match_set-names :
    (n largest : ℕ) (msg_set : List SeqElt)
    → All (IsOrdered largest) msg_set
    → match_set n largest msg_set ≡ ok (any_of (names largest n) msg_set)
unfolding match_set
match_set-names n largest [] h = refl
match_set-names n largest (one star ∷ msg_set) h =
    ground (arith, match_set-names n largest msg_set h.1)
match_set-names n largest (one (num k) ∷ msg_set) h =
    ground (arith, match_set-names n largest msg_set h.1)
match_set-names n largest (pair star to ∷ msg_set) h = absurd h.0
match_set-names n largest (pair (num from) to ∷ msg_set) h =
    ground (arith, match_set-names n largest msg_set h.1)

sent_test-sent_of :
    (test : ℕ → Bool) (sent : Option ℕ) → sent_test test (sent_of sent) ≡ ok (has_day test sent)
sent_test-sent_of test none = refl
sent_test-sent_of test (some day) = refl

match_sent_lem :
    (test : ℕ → Bool) (ctx : SearchContext) (f : Facts)
    → Gives ctx f
    → match_sent test ctx ≡ ok (has_day test f.sent)
match_sent_lem test ctx f g = rw (g.message_given, g.sent_given) (sent_test-sent_of test f.sent)

-- What is looked up is there, and the ranges are ordered; then `match` returns what the keys mean.
mutual
  unfolding match_search means

  match-means :
      (s : Search) (ctx : SearchContext) (f : Facts)
      → Gives ctx f
      → IsPlain f.seq_max f.uid_max s
      → match_search s ctx ≡ ok (means s f)
  match-means all_messages ctx f g h = refl
  match-means (and_keys keys) ctx f g h = all-means keys ctx f g h
  match-means (or_keys keys) ctx f g h = any-means keys ctx f g h
  match-means (not_key key) ctx f g h = rw (match-means key ctx f g h) refl
  match-means (before date) ctx f g h = rw g.date_given refl
  match-means (on date) ctx f g h = rw g.date_given refl
  match-means (since date) ctx f g h = rw g.date_given refl
  match-means (sentbefore date) ctx f g h = match_sent_lem _ ctx f g
  match-means (senton date) ctx f g h = match_sent_lem _ ctx f g
  match-means (sentsince date) ctx f g h = match_sent_lem _ ctx f g
  match-means (keyword flag) ctx f g h = rw g.flags_given refl
  match-means (larger n) ctx f g h = rw g.message_given refl
  match-means (smaller n) ctx f g h = rw g.message_given refl
  match-means (message_set msg_set) ctx f g h =
      rw (g.number_given, g.seq_max_given) (match_set-names f.number f.seq_max msg_set h)
  match-means (uid msg_set) ctx f g h =
      rw (g.uid_given, g.uid_max_given) (match_set-names f.the_uid f.uid_max msg_set h)
  match-means (header name string) ctx f g h = rw g.message_given refl
  match-means (body string) ctx f g h = rw g.message_given refl
  match-means (text string) ctx f g h = rw g.message_given refl

  all-means :
      (keys : Searches) (ctx : SearchContext) (f : Facts)
      → Gives ctx f
      → ArePlain f.seq_max f.uid_max keys
      → match_all keys ctx ≡ ok (means_all keys f)
  all-means nil ctx f g h = refl
  all-means (cons key keys) ctx f g h =
      rw (match-means key ctx f g h.0, all-means keys ctx f g h.1) refl

  any-means :
      (keys : Searches) (ctx : SearchContext) (f : Facts)
      → Gives ctx f
      → ArePlain f.seq_max f.uid_max keys
      → match_any keys ctx ≡ ok (means_any keys f)
  any-means nil ctx f g h = refl
  any-means (cons key keys) ctx f g h =
      rw (match-means key ctx f g h.0, any-means keys ctx f g h.1) refl

-- A search of a message for which all that is looked up is there, with keys whose ranges begin with
-- a number and are in order, returns what `means` says of the keys.
pub match_search-means :
    (s : Search) (ctx : SearchContext) (f : Facts)
    → Gives ctx f
    → IsPlain f.seq_max f.uid_max s
    → match_search s ctx ≡ ok (means s f)
match_search-means s ctx f g h = match-means s ctx f g h

-- A range whose ends are in the other order matches no message, although it names those between.
match_set_reversed :
    (n largest from to : ℕ)
    → to < from
    → (match_set n largest (pair (num from) (num to) ∷ []) ≡ ok false)
      × (to ≤ n → n ≤ from → names largest n (pair (num from) (num to)) ≡ true)
unfolding match_set
match_set_reversed n largest from to h = (ground arith, λ p q. ground arith)
