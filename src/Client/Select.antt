-- ===== src/Client/Select.antt =====
-- `Authenticated` of asimap/client.py: SELECT, EXAMINE, UNSELECT and CLOSE.
use text.Mathlib.Text.{◌==◌ as str_eq}
use asimap.Prelude.{ℕ, ◌+◌, String, Bool, true, false, not, none, some, List, ltb, if◌then◌else◌}
use asimap.Result.{Result, ok, err, bad, rejected}
use asimap.Client.{
  authenticated, selected, is_selected, Untagged, read_only, read_write, get_mailbox, wait_for,
  select_it, expunge, Answer, Reply, done, with_code,
}
use asimap.Client.Action.{
  Action, pure, raise, now, ◌>>◌, on_some, set_idling, clear_pending, set_state, set_selects, push,
  log, call, leave_mailbox, unceremonious_bye,
}

abbrev pub max_selects : ℕ
max_selects = 10

-- `mbox.selected(self)` returned: the client is registered with the mailbox.
unfoldable pub set_mailbox : String → Bool → Action Unit
set_mailbox name examine s =
    (record s { mbox = some name; listening = true; state = selected; examine = examine }, ok tt)

-- `mbox.selected(self)` registers the client with the mailbox and returns what is sent to it, unless
-- it raises.
abbrev pub opened : String → Bool → Result (List Untagged) → Action Reply
opened name examine (err e) = log (select_it name) >> raise e
opened name examine (ok msgs) =
    log (select_it name)
    >> push msgs
    >> set_mailbox name examine
    >> pure (with_code (if examine then read_only else read_write))

unfoldable pub enter :
    String → Bool → Answer Unit → Answer Unit → Result (List Untagged) → Action Reply
enter name examine found ready msgs =
    call (get_mailbox name) found >> call (wait_for name) ready >> opened name examine msgs

-- SELECT while a mailbox is selected: of the same one, it is counted. The state is set before the
-- mailbox is left.
unfoldable pub select_again : String → String → Action Reply → Action Reply
select_again mbox name rest = now λ s.
    set_state authenticated
    >> (if str_eq mbox name
        then if ltb max_selects (s.select_while_selected_count + 1)
          then set_selects 0 >> unceremonious_bye >> pure done
          else (set_selects (s.select_while_selected_count + 1) >> leave_mailbox >> rest)
        else (set_selects 0 >> leave_mailbox >> rest))

unfoldable pub do_select :
    String → Bool → Answer Unit → Answer Unit → Result (List Untagged) → Action Reply
unfolding enter select_again
do_select name examine found ready msgs =
    let rest = enter name examine found ready msgs in
    clear_pending
    >> set_idling false
    >> now λ s.
      if is_selected s.state
      then on_some s.mbox (set_state authenticated >> rest) (λ mbox. select_again mbox name rest)
      else rest

unfoldable pub do_unselect : Action Reply
do_unselect = now λ s.
    if not (is_selected s.state)
    then raise bad
    else set_selects 0
      >> leave_mailbox
      >> clear_pending
      >> set_idling false
      >> set_state authenticated
      >> pure done

-- `has_deleted`: whether the mailbox has messages that are marked as deleted.
unfoldable pub do_close : Bool → Answer Unit → Answer Unit → Action Reply
do_close has_deleted ready expunged = now λ s.
    if not (is_selected s.state)
    then raise rejected
    else clear_pending
      >> set_state authenticated
      >> on_some s.mbox (pure done) λ mbox.
        leave_mailbox
        >> (if s.examine
            then pure done
            else if has_deleted
            then (call (wait_for mbox) ready >> call (expunge mbox none true) expunged >> pure done)
            else pure done)
