-- ===== src/Mbox/Expunge/Loop.antt =====
-- The loop of `expunge` on a valid mailbox, and the EXPUNGE responses it sends.
use asimap.Prelude.{
  ℕ, zero, suc, ◌+◌, ◌-◌, ◌<◌, ◌≡◌, refl, ap, ◌∙◌, true, not, ◌&&◌, none, some, List, [], ◌∷◌, map,
  arith, ltb, ◌==◌,
}
use asimap.Prelude.Lists.{All, mem, length, delete_at, reverse_onto, keep_with, mem-keep}
use asimap.Prelude.Ascending.{Asc, discard}
use asimap.Prelude.Dict.{position, index_of?, enumerate_from}
use asimap.Prelude.Position.{index_of-enumerate, position_of_mem}
use asimap.Result.{Result, ok, err}
use asimap.Mbox.State.{Mailbox, Client, expunged, notify, dispatch_or_pend}
use asimap.Mbox.Expunge.{drop_message, remove_file, delete_each}
use asimap.Mbox.Expunge.Deletion.{spared, delete_at-keep_with, lt-length-keep_with, Descends}

-- What a client does with EXPUNGE responses: each takes the message of that number from its list.
abbrev pub apply_expunges {ℓ} : {A : Type ℓ} → List ℕ → List A → List A
apply_expunges [] view = view
apply_expunges (n ∷ ns) view = apply_expunges ns (delete_at (n - 1) view)

-- The responses go out one by one, to every client.
abbrev pub send_expunges : List ℕ → List Client → List Client
send_expunges [] clients = clients
send_expunges (n ∷ ns) clients = send_expunges ns (map (notify (expunged n ∷ []) none) clients)

-- The state inside the loop: `gone` of the messages `ks`, `us` have been deleted.
pub record IsPartway (ks us gone : List ℕ) (m : Mailbox) : Type 0 where
  pub keys_left : m.msg_keys ≡ keep_with (spared gone) ks ks
  pub uids_left : m.uids ≡ keep_with (spared gone) ks us
  pub indexed : m.key_to_idx ≡ enumerate_from 0 ks
  pub count_left : m.num_msgs ≡ length m.msg_keys

length-delete_at {ℓ} :
    {A : Type ℓ} (i : ℕ) (xs : List A) → i < length xs → length (delete_at i xs) ≡ length xs - 1
length-delete_at i [] h = absurd (omega arith)
length-delete_at zero (x ∷ xs) h = omega arith
length-delete_at (suc i) (x ∷ xs) h = omega (arith, length-delete_at i xs (omega arith))

-- The mailbox after one turn of the loop, at a message whose file is there.
abbrev deleted : ℕ → ℕ → Mailbox → Mailbox
deleted key which m = record m {
  msg_keys = delete_at which m.msg_keys;
  uids = delete_at which m.uids;
  num_msgs = m.num_msgs - 1;
  files = discard key m.files;
  clients = map (notify (expunged (which + 1) ∷ []) none) m.clients;
}

remove_file_present :
    (key which : ℕ) (m : Mailbox)
    → mem key m.files ≡ true
    → remove_file key which (drop_message which m) ≡ (ok tt, deleted key which m)
unfolding remove_file drop_message dispatch_or_pend
remove_file_present key which m f = rw f

next : List ℕ → Result (Unit {0}) × Mailbox → Result (Unit {0}) × Mailbox
next keys (err e, m) = (err e, m)
next keys (ok _, m) = delete_each keys m

delete_each_turn :
    (key which : ℕ) (keys : List ℕ) (m : Mailbox)
    → index_of? key m.key_to_idx ≡ some which
    → (ltb which (length m.uids) && ltb which (length m.msg_keys)) ≡ true
    → delete_each (key ∷ keys) m ≡ next keys (remove_file key which (drop_message which m))
unfolding delete_each next
delete_each_turn key which keys m e t =
    let (r, m') = remove_file key which (drop_message which m) in
    rw (e, delete_each) (rw t (both r m'))
  where
    both :
        (r : Result (Unit {0})) (n : Mailbox)
        → ◌≡◌ {A = Result (Unit {0}) × Mailbox}
            (elim r [ err e ↦ (err e, n) | ok _ ↦ delete_each keys n ])
            (next keys (r, n))
    both (err e) n = refl
    both (ok _) n = refl

delete_each_step :
    (key which : ℕ) (keys : List ℕ) (m : Mailbox)
    → index_of? key m.key_to_idx ≡ some which
    → which < length m.uids
    → which < length m.msg_keys
    → mem key m.files ≡ true
    → delete_each (key ∷ keys) m ≡ delete_each keys (deleted key which m)
unfolding next
delete_each_step key which keys m e lu lk f =
    delete_each_turn key which keys m e (ground arith)
    ∙ ap (next keys) (remove_file_present key which m f)

suc-pred : (i : ℕ) → i + 1 - 1 ≡ i
suc-pred i = omega arith

module _ (ks us : List ℕ) (asc : Asc ks) (aligned : length us ≡ length ks) where
  turn :
      (d i : ℕ) (gone : List ℕ) (m : Mailbox)
      → IsPartway ks us gone m
      → position d ks ≡ some i
      → All (λ g. d < g) gone
      → (i < length m.msg_keys) × (i < length m.uids) × IsPartway ks us (d ∷ gone) (deleted d i m)
  turn d i gone m p e below =
      let short = lt-length-keep_with d i gone ks ks asc e below refl in
      let short' = lt-length-keep_with d i gone ks us asc e below aligned in
      let inside : i < length m.msg_keys = rw p.keys_left short in
      (
        inside,
        rw p.uids_left short',
        record {
          keys_left =
              ap (delete_at i) p.keys_left ∙ delete_at-keep_with d i gone ks ks asc e below refl;
          uids_left =
              ap (delete_at i) p.uids_left ∙ delete_at-keep_with d i gone ks us asc e below aligned;
          indexed = p.indexed;
          count_left = omega (arith, p.count_left, length-delete_at i m.msg_keys inside);
        },
      )

  -- All of `ds` go, and the EXPUNGE responses that are sent turn the old lists into the new ones.
  pub record IsDone (ds gone : List ℕ) (m m' : Mailbox) : Type 0 where
    pub left : IsPartway ks us (reverse_onto ds gone) m'
    pub responses : List ℕ
    pub sent : m'.clients ≡ send_expunges responses m.clients
    pub keys_follow : apply_expunges responses m.msg_keys ≡ m'.msg_keys
    pub uids_follow : apply_expunges responses m.uids ≡ m'.uids
    pub same_next_uid : m'.next_uid ≡ m.next_uid
    pub same_sequences : m'.sequences ≡ m.sequences
    pub files_left : (k : ℕ) → mem k m'.files ≡ (not (mem k ds) && mem k m.files)

  pub delete_each_lem :
      (ds gone : List ℕ) (m : Mailbox)
      → IsPartway ks us gone m
      → Descends ds
      → All (λ d. All (λ g. d < g) gone) ds
      → All (λ d. mem d ks ≡ true) ds
      → All (λ d. mem d m.files ≡ true) ds
      → (m' : Mailbox) × (delete_each ds m ≡ (ok tt, m')) × IsDone ds gone m m'
  unfolding delete_each
  delete_each_lem [] gone m p desc below known files = (
    m,
    refl,
    record {
      left = p;
      responses = [];
      sent = refl;
      keys_follow = refl;
      uids_follow = refl;
      same_next_uid = refl;
      same_sequences = refl;
      files_left = λ k. refl;
    },
  )
  delete_each_lem (d ∷ ds) gone m p desc below known files =
      let (i, e) = position_of_mem d ks known.0 in
      let found : index_of? d m.key_to_idx ≡ some i = rw (p.indexed, index_of-enumerate d ks) e in
      let (lk, lu, p') = turn d i gone m p e below.0 in
      let (m', q, done) =
        delete_each_lem ds (d ∷ gone) (deleted d i m) p' desc.1 (further ds desc.0 below.1) known.1
          (still ds desc.0 files.1) in
      (
        m',
        delete_each_step d i ds m found lu lk files.0 ∙ q,
        record {
          left = done.left;
          responses = (i + 1) ∷ done.responses;
          sent = done.sent;
          keys_follow = rw (suc-pred i) done.keys_follow;
          uids_follow = rw (suc-pred i) done.uids_follow;
          same_next_uid = done.same_next_uid;
          same_sequences = done.same_sequences;
          files_left =
              λ k. ground (arith, done.files_left k, mem-keep (λ x. not (d == x)) k m.files);
        },
      )
    where
      further :
          (xs : List ℕ)
          → All (λ y. y < d) xs
          → All (λ y. All (λ g. y < g) gone) xs
          → All (λ y. All (λ g. y < g) (d ∷ gone)) xs
      further [] a b = tt
      further (x ∷ xs) a b = ((a.0, b.0), further xs a.1 b.1)

      still :
          (xs : List ℕ)
          → All (λ y. y < d) xs
          → All (λ y. mem y m.files ≡ true) xs
          → All (λ y. mem y (discard d m.files) ≡ true) xs
      still [] a b = tt
      still (x ∷ xs) a b =
          (ground (arith, mem-keep (λ y. not (d == y)) x m.files), still xs a.1 b.1)
