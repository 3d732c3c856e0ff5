-- ===== src/Client/Anytime.antt =====
-- `BaseClientHandler` of asimap/client.py: the commands that are served in any state.
use asimap.Prelude.{String, true, false, List, [], ◌∷◌, if◌then◌else◌}
use asimap.Prelude.Dict.{str_mem}
use asimap.Client.{
  logged_out, capabilities, namespaces, server_id, bye, continuation, idle_terminated, wait_for,
  Answer, Reply, done, silent, kept,
}
use asimap.Client.Action.{
  Action, pure, now, ◌>>◌, on_some, set_idling, clear_pending, set_state, set_client_id, push,
  push_tagged, send_pending_notifications, call,
}

unfoldable pub do_done : Action Reply
do_done = set_idling false >> send_pending_notifications >> push_tagged idle_terminated >> pure done

unfoldable pub do_noop : Answer Unit → Action Reply
do_noop ready = now λ s.
    on_some s.mbox (pure done)
      λ mbox. call (wait_for mbox) (kept ready) >> send_pending_notifications >> pure done

-- `[cap for cap in CAPABILITIES if cap not in self.excluded_capabilities]`
unfoldable pub not_excluded : List String → List String → List String
not_excluded excluded [] = []
not_excluded excluded (cap ∷ caps) =
    let rest = not_excluded excluded caps in if str_mem cap excluded then rest else cap ∷ rest

unfoldable pub do_capability : List String → Action Reply
do_capability all_capabilities =
    send_pending_notifications
    >> now (λ s. push (capabilities (not_excluded s.excluded_capabilities all_capabilities) ∷ []))
    >> pure done

unfoldable pub do_namespace : Action Reply
do_namespace = send_pending_notifications >> push (namespaces ∷ []) >> pure done

-- `CLIENT_CAPABILITY_EXCLUSIONS` is empty, so `update_capability_exclusions` changes nothing.
unfoldable pub do_id : List (String × String) → Action Reply
do_id id_dict =
    send_pending_notifications >> set_client_id id_dict >> push (server_id ∷ []) >> pure done

unfoldable pub do_idle : Action Reply
do_idle = push (continuation ∷ []) >> send_pending_notifications >> set_idling true >> pure silent

unfoldable pub do_logout : Action Reply
do_logout = clear_pending >> push (bye ∷ []) >> set_state logged_out >> pure done
