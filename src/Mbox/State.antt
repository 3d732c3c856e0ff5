-- ===== src/Mbox/State.antt =====
-- The state of `Mailbox` that the modelled operations read or write, and the notifications that go to
-- the clients which have the mailbox selected.
use asimap.Prelude.{
  ℕ, zero, suc, ◌+◌, String, Bool, true, false, Option, none, some, List, [], ◌++◌, map,
  if◌then◌else◌,
}
use text.Mathlib.Text.{◌==◌ as str_eq}
use asimap.Prelude.Lists.{get_elem?, get_last?}
use asimap.Prelude.Dict.{enumerate_from, index_of?, str_mem, str_add, str_discard}
use asimap.Constants.{seqs_to_flags}
use asimap.Result.{Result, ok, err, key_error, index_error, ◌>>=◌}
use asimap.Mbox.Sequences.{Sequences, msg_sequences}

-- An untagged response: `* n EXISTS`, `* n RECENT`, `* n EXPUNGE`, `* n FETCH (FLAGS (…))` with
-- ` UID u` after the flags if `uid` is there.
pub data Notice : Type 0 where
  exists recent expunged : ℕ → Notice
  fetched : (n : ℕ) → (flags : List String) → (uid : Option ℕ) → Notice

-- A client of the mailbox: what has been pushed to it, and what waits for its next command.
pub record Client : Type 0 where
  pub name : String
  pub idling : Bool
  pub pushed : List Notice
  pub pending : List Notice

pub record Mailbox : Type 0 where
  pub uid_vv : ℕ
  pub next_uid : ℕ
  pub num_msgs : ℕ
  pub num_recent : ℕ
  pub mtime : ℕ
  pub msg_keys : List ℕ
  pub uids : List ℕ
  pub key_to_idx : List (ℕ × ℕ)  -- `_msg_key_to_idx`
  pub uid_to_idx : List (ℕ × ℕ)  -- `_uid_to_idx`
  pub sequences : Sequences
  pub folder_sequences : Sequences  -- what `set_sequences_in_folder` wrote last
  pub files : List ℕ  -- the message files in the folder
  pub attributes : List String
  pub clients : List Client
  pub optional_resync : Bool

-- `_rebuild_index_dicts`
unfoldable pub rebuild_index_dicts : Mailbox → Mailbox
rebuild_index_dicts m = record m {
  key_to_idx = enumerate_from 0 m.msg_keys;
  uid_to_idx = enumerate_from 0 m.uids;
}

-- `marked`: whether the attributes changed, and the mailbox with the new ones.
unfoldable pub marked : Bool → Mailbox → Bool × Mailbox
unfolding str_add str_discard
marked true m = if str_mem "\\Marked" m.attributes then (false, m) else (
  true,
  record m { attributes = str_discard "\\Unmarked" (str_add "\\Marked" m.attributes) },
)
marked false m = if str_mem "\\Unmarked" m.attributes then (false, m) else (
  true,
  record m { attributes = str_discard "\\Marked" (str_add "\\Unmarked" m.attributes) },
)

-- `d[k]` raises `KeyError` and `l[i]` `IndexError`; `l[x - 1]` at `x = 0` is the last item.
abbrev pub or_raise {ℓ} : {A : Type ℓ} → Option A → asimap.Result.Error → Result A
or_raise none e = err e
or_raise (some a) e = ok a

abbrev pub item_before : ℕ → List ℕ → Result ℕ
item_before zero xs = or_raise (get_last? xs) index_error
item_before (suc i) xs = or_raise (get_elem? xs i) index_error

-- `get_uid_from_msg`, without the `uid_vv` that it returns too: no uid for an unknown key.
unfoldable pub get_uid_from_msg : ℕ → Mailbox → Result (Option ℕ)
get_uid_from_msg msg_key m = elim (index_of? msg_key m.key_to_idx) [
  | none ↦ ok none
  | some idx ↦ or_raise (get_elem? m.uids idx) index_error >>= λ uid. ok (some uid)
]

-- `_generate_fetch_msg_for`: the FETCH response, and the one with the UID if that is wanted and
-- there.
unfoldable pub generate_fetch_msg_for : ℕ → Bool → Mailbox → Result (Notice × Notice)
generate_fetch_msg_for msg_key publish_uid m =
    let flags = seqs_to_flags (some (msg_sequences msg_key m.sequences)) in
    or_raise (index_of? msg_key m.key_to_idx) key_error >>= λ idx. ok (
      fetched (idx + 1) flags none,
      fetched (idx + 1) flags (if publish_uid then get_elem? m.uids idx else none),
    )

-- One turn of the loop of `_dispatch_or_pend_notifications`.
abbrev pub notify : List Notice → Option String → Client → Client
notify notices dont_notify c =
    if elim dont_notify [ none ↦ false | some name ↦ str_eq name c.name ]
    then c
    else if c.idling
    then record c { pushed = c.pushed ++ notices }
    else record c { pending = c.pending ++ notices }

unfoldable pub dispatch_or_pend : List Notice → Option String → Mailbox → Mailbox
dispatch_or_pend [] dont_notify m = m
dispatch_or_pend notices dont_notify m = record m {
  clients = map (notify notices dont_notify) m.clients;
}
