-- ===== src/Pop3/Commands/Marks.antt =====
-- What DELE and RSET do to the message numbers.
use asimap.Prelude.{
  ℕ, String, ◌≡◌, Bool, ◌&&◌, Option, none, some, List, arith, leb, ◌==◌, if◌then◌else◌,
}
use asimap.Prelude.Ascending.{mem-insert}
use asimap.Pop3.Session.{ℤ, pos, Session, valid_msg_num}
use asimap.Pop3.Commands.{do_dele, do_rset}

-- A message number of the session, marked or not.
abbrev pub is_number : Session → ℕ → Bool
is_number s k = leb 1 k && leb k s.msg_count

-- After DELE of a number that number names no message, whether or not it did before, and every other
-- number names what it did. After RSET every number of the session names its message again.
dele_hides :
    (int : String → Option ℤ) (split : String → List String) (args : String) (n : ℕ) (s : Session)
    → int args ≡ some (pos n)
    → (k : ℕ)
    → (valid_msg_num (some (pos k)) (do_dele int split args s).1
        ≡ (if k == n then none else valid_msg_num (some (pos k)) s))
      × (valid_msg_num (some (pos k)) (do_rset (do_dele int split args s).1)
          ≡ (if is_number s k then some k else none))
unfolding do_dele do_rset valid_msg_num
dele_hides int split args n s h k =
    (ground (arith, mem-insert k n s.deleted), ground (arith, mem-insert k n s.deleted))
