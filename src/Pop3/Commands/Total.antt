-- ===== src/Pop3/Commands/Total.antt =====
-- The outcome of each command of a session.
use text.Mathlib.Text.{◌==◌ as str_eq}
use text.Mathlib.TextEquality.{eq_iff}
use asimap.Prelude.{
  ℕ, ◌≡◌, refl, ap, ◌∙◌, String, Bool, true, false, Option, some, List, [], ◌∷◌, arith, Bool-cases,
  Option-cases, inl, inr,
}
use asimap.Prelude.Lists.{length}
use asimap.Prelude.Ascending.{All-insert, insert-Asc}
use asimap.Prelude.Sorting.{sorted, sorted_of_Asc}
use asimap.Result.{Result, ok, ◌>>=◌, Result-cases, traverse}
use asimap.Mbox.State.{Mailbox, item_before}
use asimap.Mbox.Expunge.{expunge}
use asimap.Pop3.Session.{
  Folder, ℤ, Reply, Session, valid_msg_num, no_such_message, size_is, do_stat,
}
use asimap.Pop3.Commands.{
  Keyword, user, pass, stat, list, retr, dele, noop, rset, quit, top, uidl, capa, do_list, do_retr,
  do_dele, do_uidl, do_top, do_rset, do_quit, command,
}
use asimap.Pop3.Commands.Listing.{Within, IsCached, get_msg_size_lem, listings_agree, true_size}
use asimap.Pop3.Commands.Quit.{marked_uids, traverse-item_for}
use asimap.Pop3.Commands.Returns.{
  IsSession, valid_msg_num-Within, Returns, no_error, Returns-of, retr-Returns, uidl-Returns,
  parts_return,
}

abbrev pub goes_on : Keyword → Bool
goes_on quit = false
goes_on _ = true

-- An expunge that raises is answered.
no_error-do_quit :
    (s : Session) (m : Mailbox) (uids marks : List ℕ)
    → s.deleted ≡ marks
    → traverse (λ j. item_before j s.snapshot_uids) (sorted s.deleted) ≡ ok uids
    → no_error (do_quit s m).0 ≡ true
unfolding do_quit
no_error-do_quit s m uids [] e t = ground (arith, e)
no_error-do_quit s m uids (n ∷ ns) e t = elim (Result-cases (expunge (some uids) false m).0) [
  | inl (x, q) ↦ ground (arith, e, t, q)
  | inr (x, q) ↦ ground (arith, e, t, q)
]

module _ (int : String → Option ℤ) (split : String → List String) (folder : Folder) where
  -- DELE keeps the marks a set of message numbers.
  dele-IsSession :
      (args : String) (s : Session)
      → IsSession folder s
      → IsSession folder (do_dele int split args s).1
  unfolding do_dele
  dele-IsSession args s w = elim (Option-cases (valid_msg_num (int args) s)) [
    | inl e ↦ rw (e, do_dele) w
    | inr (n, e) ↦
        let k = valid_msg_num-Within (int args) s n e in
        rw (e, do_dele)
          (record {
            snapshot = w.snapshot;
            marked = record {
              uids_ascend = w.marked.uids_ascend;
              marks_ascend = insert-Asc n s.deleted w.marked.marks_ascend;
              marks_within =
                  All-insert (Within (length s.snapshot_uids)) n s.deleted
                    (k.0, omega (arith, w.snapshot.1)) w.marked.marks_within;
            };
            cached = w.cached;
          })
  ]

  rset-IsSession : (s : Session) → IsSession folder s → IsSession folder (do_rset s)
  unfolding do_rset
  rset-IsSession s w = record {
    snapshot = w.snapshot;
    marked = record { uids_ascend = w.marked.uids_ascend; marks_ascend = tt; marks_within = tt };
    cached = w.cached;
  }

  with_sizes-IsSession :
      (s : Session) (c : List (ℕ × ℕ))
      → IsSession folder s
      → IsCached folder (record s { msg_sizes = c })
      → IsSession folder (record s { msg_sizes = c })
  with_sizes-IsSession s c w h = record {
    snapshot = w.snapshot;
    marked = record {
      uids_ascend = w.marked.uids_ascend;
      marks_ascend = w.marked.marks_ascend;
      marks_within = w.marked.marks_within;
    };
    cached = h;
  }

  -- A handler that may fill the cache returns, and leaves the session in order.
  abbrev Kept : Result (Reply × Session) → Type 0
  Kept r = (reply : Reply) × (s' : Session) × (r ≡ ok (reply, s')) × IsSession folder s'

  list-Kept :
      (args : String) (s : Session) → IsSession folder s → Kept (do_list int split folder args s)
  unfolding do_list
  list-Kept args s w = elim (Bool-cases (str_eq args "")) [
    | inl q ↦
        let empty = (eq_iff args "").0 q in
        let (c, d, a, h, b, h', u) = listings_agree int split folder s w.snapshot w.cached in
        rw empty (_, record s { msg_sizes = d }, b, with_sizes-IsSession s d w h')
    | inr q ↦ elim (Option-cases (valid_msg_num (int args) s)) [
      | inl e ↦ (no_such_message, s, ground (arith, q, e), w)
      | inr (n, e) ↦
          let k = valid_msg_num-Within (int args) s n e in
          let (c, g, h) = get_msg_size_lem folder n s (k.0, omega (arith, w.snapshot.0)) w.cached in
          (
            size_is n (true_size folder s n),
            record s { msg_sizes = c },
            ground (arith, q, e, g),
            with_sizes-IsSession s c w h,
          )
    ]
  ]

  quit_returns :
      (s : Session) (m : Mailbox)
      → IsSession folder s
      → (reply : Reply) × (m' : Mailbox) × (do_quit s m ≡ (ok reply, m'))
  unfolding do_quit
  quit_returns s m w =
      let t =
        ap (traverse (λ j. item_before j s.snapshot_uids))
          (sorted_of_Asc s.deleted w.marked.marks_ascend)
        ∙ traverse-item_for s.deleted s.snapshot_uids w.marked.marks_within in
      let fine : no_error (do_quit s m).0 ≡ true =
        no_error-do_quit s m (marked_uids s) s.deleted refl t in
      let (x, e) = Returns-of (do_quit s m).0 fine in
      (x, (do_quit s m).1, ap (λ r. (r, (do_quit s m).1)) e)

  -- What a command does: whether the session goes on, with its response; the session is in order.
  abbrev pub Outcome : Bool → Result (Bool × Reply × Session) × Mailbox → Type 0
  Outcome go r =
      (reply : Reply) × (s' : Session) × (m' : Mailbox) × (r ≡ (ok (go, reply, s'), m'))
      × IsSession folder s'

  reply-Outcome :
      (r : Result Reply) (s : Session) (m : Mailbox)
      → IsSession folder s
      → Returns r
      → Outcome true (r >>= λ x. ok (true, x, s), m)
  reply-Outcome r s m w (x, e) = (x, s, m, rw e refl, w)

  Kept-Outcome :
      (r : Result (Reply × Session)) (m : Mailbox)
      → Kept r
      → Outcome true (r >>= λ x. ok (true, x.0, x.1), m)
  Kept-Outcome r m (x, s', e, w) = (x, s', m, rw e refl, w)

  stat-Kept : (s : Session) → IsSession folder s → Kept (do_stat folder s)
  stat-Kept s w =
      let (c, d, a, h, b, h', u) = listings_agree int split folder s w.snapshot w.cached in
      (_, record s { msg_sizes = c }, a, with_sizes-IsSession s c w h)

  -- In a session in order, whose cached sizes are those that the messages have in the folder, no
  -- command raises, whatever its argument and whatever mailbox it finds; the session stays in order
  -- for that folder; and it goes on unless the command is QUIT.
  pub command_total :
      (keyword : Keyword) (args : String) (s : Session) (m : Mailbox)
      → IsSession folder s
      → Outcome (goes_on keyword) (command int split folder keyword args s m)
  unfolding command do_top
  command_total user args s m w = (_, s, m, refl, w)
  command_total pass args s m w = (_, s, m, refl, w)
  command_total noop args s m w = (_, s, m, refl, w)
  command_total capa args s m w = (_, s, m, refl, w)
  command_total stat args s m w = Kept-Outcome (do_stat folder s) m (stat-Kept s w)
  command_total list args s m w =
      Kept-Outcome (do_list int split folder args s) m (list-Kept args s w)
  command_total retr args s m w =
      reply-Outcome (do_retr int split folder args s) s m w
        (retr-Returns int split folder args s w.snapshot)
  command_total top args s m w =
      reply-Outcome (do_top int split folder args s) s m w
        (parts_return int split folder (split args) s w.snapshot)
  command_total uidl args s m w =
      reply-Outcome (do_uidl int split args s) s m w (uidl-Returns int split folder args s w)
  command_total dele args s m w = (_, _, m, refl, dele-IsSession args s w)
  command_total rset args s m w = (_, _, m, refl, rset-IsSession s w)
  command_total quit args s m w = let (x, m', e) = quit_returns s m w in (x, s, m', rw e refl, w)
