-- ===== src/Mbox/Invariant.antt =====
-- What holds of a mailbox between commands.
use asimap.Prelude.{◌≡◌, ◌<◌}
use asimap.Prelude.Lists.{All, length}
use asimap.Prelude.Ascending.{Asc}
use asimap.Prelude.Dict.{enumerate_from}
use asimap.Mbox.State.{Mailbox}

-- Each message has a key and a UID, both ascending in message order; no UID has reached `next_uid`;
-- the two dictionaries are those of the lists; and the count is right.
pub record IsValid (m : Mailbox) : Type 0 where
  pub keys_ascend : Asc m.msg_keys
  pub uids_ascend : Asc m.uids
  pub aligned : length m.uids ≡ length m.msg_keys
  pub uids_below : All (λ u. u < m.next_uid) m.uids
  pub keys_indexed : m.key_to_idx ≡ enumerate_from 0 m.msg_keys
  pub uids_indexed : m.uid_to_idx ≡ enumerate_from 0 m.uids
  pub counted : m.num_msgs ≡ length m.msg_keys
