-- ===== src/Parse/Total/Commands.antt =====
-- asimap/parse.py: what the parser of a command comes to.
use asimap.Prelude.{ℕ}
use asimap.Parse.Commands.{
  p_id, p_append_flags, p_append_date, p_append, p_charset, p_search, p_store_action, p_flags,
  p_store, p_fetch, p_copy,
}
use asimap.Parse.Safety.{Safe}
use asimap.Parse.Safety.Tokens.{p_list_of-Safe}
use asimap.Parse.Total.{
  safe_rules, p_string-Safe, p_flag-Safe, pair-Safe, p_date_time-Safe, p_astring-Safe,
  p_msg_set-Safe, p_mailbox-Safe,
}
use asimap.Parse.Total.Keys.{p_search_key-Safe}
use asimap.Parse.Total.Fetches.{paren-Safe, p_fetch_atts-Safe}
use asimap.Parse.Total.Listing.{p_status_att-Safe, p_list_extended-Safe}

p_id-Safe : (n : ℕ) → Safe n p_id
unfolding p_id
p_id-Safe n = search (safe_rules, paren-Safe, pair-Safe)

p_append_flags-Safe : (n : ℕ) → Safe n p_append_flags
unfolding p_append_flags
p_append_flags-Safe n = search (safe_rules, paren-Safe, p_flag-Safe)

p_append_date-Safe : (n : ℕ) → Safe n p_append_date
unfolding p_append_date
p_append_date-Safe n = search (safe_rules, p_date_time-Safe)

p_append-Safe : (n : ℕ) → Safe n p_append
unfolding p_append
p_append-Safe n =
    search (safe_rules, p_mailbox-Safe, p_append_flags-Safe, p_append_date-Safe, p_string-Safe)

p_charset-Safe : (n : ℕ) → Safe n p_charset
unfolding p_charset
p_charset-Safe n = search (safe_rules, p_astring-Safe)

p_search-Safe : (n : ℕ) → Safe n p_search
unfolding p_search
p_search-Safe n = search (safe_rules, p_charset-Safe, p_list_of-Safe, p_search_key-Safe)

p_store_action-Safe : (n : ℕ) → Safe n p_store_action
unfolding p_store_action
p_store_action-Safe n = search safe_rules

p_flags-Safe : (n : ℕ) → Safe n p_flags
unfolding p_flags
p_flags-Safe n = search (safe_rules, paren-Safe, p_flag-Safe)

p_store-Safe : (n : ℕ) → Safe n p_store
unfolding p_store
p_store-Safe n = search (safe_rules, p_msg_set-Safe, p_store_action-Safe, p_flags-Safe) depth 16

p_fetch-Safe : (n : ℕ) → Safe n p_fetch
unfolding p_fetch
p_fetch-Safe n = search (safe_rules, p_msg_set-Safe, p_fetch_atts-Safe)

p_copy-Safe : (n : ℕ) → Safe n p_copy
unfolding p_copy
p_copy-Safe n = search (safe_rules, p_msg_set-Safe, p_mailbox-Safe)

ruleset command_rules = (
  safe_rules, p_astring-Safe, p_mailbox-Safe, paren-Safe, p_status_att-Safe, p_list_extended-Safe,
  p_id-Safe, p_append-Safe, p_search-Safe, p_fetch-Safe, p_store-Safe, p_copy-Safe, p_msg_set-Safe,
)
