-- ===== src/Mbox/Select.antt =====
-- `Mailbox.selected` and `Mailbox.unselected` of asimap/mbox.py: a client selects the mailbox.
pub mod Unseen
use text.Mathlib.Text.{◌==◌ as str_eq}
use asimap.Prelude.{
  ℕ, ◌+◌, String, Bool, true, false, not, Option, none, some, List, [], ◌∷◌, ◌++◌, if◌then◌else◌,
}
use asimap.Prelude.Lists.{length}
use asimap.Prelude.Sorting.{sorted}
use asimap.Prelude.Dict.{index_of?, lookup, str_mem}
use asimap.Constants.{system_flags, system_flag_map}
use asimap.Result.{Result, ok, err, rejected}
use asimap.Mbox.Sequences.{Sequences, members}
use asimap.Mbox.State.{Mailbox, Client, exists, recent}
use asimap.Client.{Untagged, notice, first_unseen, uid_validity, uid_next, flags, permanent_flags}

abbrev pub all_permanent_flags : List String
all_permanent_flags = "\\Answered" ∷ "\\Deleted" ∷ "\\Draft" ∷ "\\Flagged" ∷ "\\Seen" ∷ "\\*" ∷ []

-- `self.clients[client.name] = client`
abbrev pub put_client : Client → List Client → List Client
put_client client [] = client ∷ []
put_client client (c ∷ clients) =
    if str_eq c.name client.name then client ∷ clients else c ∷ put_client client clients

-- `del self.clients[client_name]`, if it is there
abbrev pub drop_client : String → List Client → List Client
drop_client client_name [] = []
drop_client client_name (c ∷ clients) =
    if str_eq c.name client_name then clients else c ∷ drop_client client_name clients

-- The UNSEEN line: none if nothing is unseen, or if the first unseen key is no message.
unfoldable pub unseen_lines : List ℕ → List (ℕ × ℕ) → List Untagged
unseen_lines [] key_to_idx = []
unseen_lines (first ∷ unseen) key_to_idx = elim (index_of? first key_to_idx) [
  | none ↦ []
  | some idx ↦ first_unseen (idx + 1) ∷ []
]

-- The sequences that have members and are no system flags
abbrev pub keywords : Sequences → List String
keywords [] = []
keywords ((name, []) ∷ seqs) = keywords seqs
keywords ((name, k ∷ s) ∷ seqs) = elim (lookup name system_flag_map) [
  | none ↦ name ∷ keywords seqs
  | some flag ↦ keywords seqs
]

-- What is sent to the client, with the UNSEEN line or without.
abbrev pub opening : List Untagged → Mailbox → List Untagged
opening unseen m =
    notice (exists (length m.msg_keys))
    ∷ notice (recent (length (members "Recent" m.sequences)))
    ∷ (unseen
        ++ uid_validity m.uid_vv
          ∷ uid_next m.next_uid
          ∷ flags (system_flags ++ keywords m.sequences)
          ∷ permanent_flags all_permanent_flags
          ∷ [])

unfoldable pub selected : Client → Mailbox → Result (List Untagged) × Mailbox
unfolding unseen_lines
selected client m = if str_mem "\\Noselect" m.attributes then (err rejected, m) else (
  ok (opening (unseen_lines (sorted (members "unseen" m.sequences)) m.key_to_idx) m),
  record m { clients = put_client client m.clients },
)

unfoldable pub unselected : String → Mailbox → Mailbox
unselected client_name m = record m { clients = drop_client client_name m.clients }
