-- ===== src/Parse/Grammar/Inbox.antt =====
-- asimap/parse.py: the name `inbox` in `_p_mailbox`.
use asimap.Prelude.{◌≡◌, refl, ap, Bool, ◌++◌, if◌then◌else◌}
use asimap.Parse.{Bytes, Parsed, parsed, next, codes, lower_all, ◌>>=◌, pure}
use asimap.Parse.Strings.{p_mailbox, p_astring, normal_name}
use asimap.Parse.Grammar.Spelling.{skip-spelling}

-- Whatever begins with `inbox`, in any case of its letters, is read as the mailbox `inbox`, and the rest is left.
pub p_mailbox-inbox :
    (s rest : Bytes)
    → lower_all s ≡ codes "inbox"
    → p_mailbox (s ++ rest) ≡ parsed (codes "inbox") rest
unfolding p_mailbox
p_mailbox-inbox s rest h =
    ap
      (λ (r : Parsed Bool). next r (λ inbox.
        if inbox
        then pure (normal_name (codes "inbox"))
        else (p_astring >>= λ mbox_name. pure (normal_name mbox_name))))
      (skip-spelling "inbox" s rest refl h)
