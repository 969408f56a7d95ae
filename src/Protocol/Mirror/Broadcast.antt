-- ===== src/Protocol/Mirror/Broadcast.antt =====
-- What a broadcast says of the users.
use janken.Base.{
  ℕ, compare, ◌≡◌, refl, sym, ◌∙◌, ap, subst, Bool, true, false, ◌||◌, Bool-cases, Option, none,
  some, inl, inr, List, [], ◌∷◌, ◌++◌, arith, take, ◌==◌, ==_refl, ==_iff, if◌then◌else◌, if-true,
  if-false,
}
use janken.Tree.{tfind}
use janken.Tree.Laws.{mem, Sorted, tfind-mem, tfind_sound, compare-IsOrder}
use janken.Message.{Message, uchange, init_msg_buf, fill_entry}
use janken.Message.Filled.{taken, uchange_add-filled}
use janken.Server.{Server, User, Ptr, ids, fds, find_id}
use janken.Server.Notify.{excepted, changes_of, broadcast_user_changes, add_user}
use janken.Server.Broadcast.{copies, fds_of, sends, msg_to_all_lem}
use janken.Server.Broadcast.Chunks.{entry_of, entries_of}
use janken.Client.Users.{Info, said_info}
use janken.Client.Users.Packet.{after}
use janken.Protocol.Roster.{eq_of_compare, user_info, server_info, said_info-entry_of}
use janken.Protocol.Mirror.{said, heard, to_fd, said-twice, Told}

module _ (except : Option ℕ) (msg : Message) (f : ℕ) (out : excepted except f ≡ false) where
  -- Once or more often, one who is not excepted hears the same.
  pub heard-copies_cases :
      (l : List ℕ) (g : ℕ → Option Info) (k : ℕ)
      → heard (to_fd f (copies except msg l)) g k ≡ (if mem f l then said msg.body g k else g k)
  unfolding copies
  heard-copies_cases [] g k = refl
  heard-copies_cases (x ∷ l) g k = elim (Bool-cases (f == x)) [
    | inl e ↦
        first ((==_iff f x).0 e) (heard-copies_cases l (said msg.body g) k)
        ∙ sym (if-true {b = mem f (x ∷ l)} (said msg.body g k) (g k) (ground (arith, e)))
    | inr e ↦ further e (excepted except x) ∙ heard-copies_cases l g k ∙ kept e
  ]
    where
      -- A copy for the one who listens,
      first :
          f ≡ x
          → heard (to_fd f (copies except msg l)) (said msg.body g) k
            ≡ (if mem f l then said msg.body (said msg.body g) k else said msg.body g k)
          → heard (to_fd f (copies except msg (x ∷ l))) g k ≡ said msg.body g k
      first e ih =
          ap (λ r. heard (to_fd f r) g k)
            (if-false (copies except msg l) ((x, msg) ∷ copies except msg l)
              (ap (excepted except) (sym e) ∙ out))
          ∙ ap (λ r. heard r g k)
              (if-true {b = x == f} (msg ∷ to_fd f (copies except msg l))
                (to_fd f (copies except msg l)) (ground (arith, e)))
          ∙ ih
          ∙ again (mem f l)
        where
          again :
              (b : Bool)
              → (if b then said msg.body (said msg.body g) k else said msg.body g k)
                ≡ said msg.body g k
          again true = said-twice msg.body g k
          again false = refl

      -- and one for another, or none.
      further :
          (f == x) ≡ false
          → (b : Bool)
          → heard (to_fd f (if b then copies except msg l else (x, msg) ∷ copies except msg l)) g k
            ≡ heard (to_fd f (copies except msg l)) g k
      further e true = refl
      further e false =
          ap (λ r. heard r g k)
            (if-false {b = x == f} (msg ∷ to_fd f (copies except msg l))
              (to_fd f (copies except msg l)) (ground (arith, e)))

      kept :
          (f == x) ≡ false
          → (if mem f l then said msg.body g k else g k)
            ≡ (if mem f (x ∷ l) then said msg.body g k else g k)
      kept e = ap (λ b. if b || mem f l then said msg.body g k else g k) (sym e)

  pub heard-copies :
      (l : List ℕ) (g : ℕ → Option Info) (k : ℕ)
      → mem f l ≡ true
      → heard (to_fd f (copies except msg l)) g k ≡ said msg.body g k
  heard-copies l g k h = heard-copies_cases l g k ∙ if-true _ _ h

pub mem-fds_of :
    (s : Server) (p : Ptr) (t : List Ptr) → mem p t ≡ true → mem (fds s p) (fds_of s t) ≡ true
unfolding fds_of
mem-fds_of s p [] h = cc
mem-fds_of s p (q ∷ t) h = ground (arith, mem-fds_of s p t, ==_refl (fds s p), (==_iff p q).0)

-- Whether a user of the list has the id.
abbrev has_id : Server → ℕ → List Ptr → Bool
has_id s k [] = false
has_id s k (p ∷ ps) = k == ids s p || has_id s k ps

-- All of the list are in the id tree.
abbrev pub Inside : Server → List Ptr → Type 0
Inside s [] = Unit {0}
Inside s (p ∷ ps) = (mem p s.by_id ≡ true) × Inside s ps

info_at :
    (s : Server) (p : Ptr)
    → Sorted compare (ids s) s.by_id
    → mem p s.by_id ≡ true
    → server_info s (ids s p) ≡ user_info (s.users p)
unfolding find_id
info_at s p o h =
    ap (λ r. elim r [ none ↦ none | some q ↦ user_info (s.users q) ])
      (tfind-mem compare-IsOrder (ids s) p s.by_id o h)

-- Entries of some users bring a map up to date that was wrong only about them.
pub after-changed :
    (s : Server) (ps : List Ptr) (g : ℕ → Option Info) (k : ℕ)
    → Sorted compare (ids s) s.by_id
    → Inside s ps
    → ((j : ℕ) → has_id s j ps ≡ false → g j ≡ server_info s j)
    → after (entries_of s ps) g k ≡ server_info s k
unfolding after fill_entry
after-changed s [] g k o m h = h k refl
after-changed s (p ∷ ps) g k o (m, ms) h = after-changed s ps g' k o ms λ j e.
    elim (Bool-cases (j == ids s p)) [
      | inl b ↦
          if-true _ _ b
          ∙ said_info-entry_of (s.users p)
          ∙ sym (info_at s p o m)
          ∙ ap (server_info s) (sym ((==_iff j (ids s p)).0 b))
      | inr b ↦ if-false _ _ b ∙ h j (ground (arith, b, e))
    ]
  where
    g' : ℕ → Option Info
    g' j = if j == ids s p then said_info (entry_of (s.users p)) else g j

-- `usr1` and `usr2` of `broadcast_user_changes`.
abbrev pub both : Ptr → Option Ptr → List Ptr
both usr1 none = usr1 ∷ []
both usr1 (some usr2) = usr1 ∷ usr2 ∷ []

pub changes_of-entries :
    (s : Server) (usr1 : Ptr) (usr2 : Option Ptr)
    → take (changes_of s usr1 usr2).count (changes_of s usr1 usr2).users
      ≡ entries_of s (both usr1 usr2)
unfolding changes_of
changes_of-entries s usr1 none =
    ap (λ m. take m.count m.users) (uchange_add-filled [] _ _ _ _ (omega arith))
    ∙ taken (entry_of (s.users usr1) ∷ [])
changes_of-entries s usr1 (some usr2) =
    ap (λ m. take (add_user m (s.users usr2)).count (add_user m (s.users usr2)).users)
      (uchange_add-filled [] _ _ _ _ (omega arith))
    ∙ ap (λ m. take m.count m.users)
        (uchange_add-filled (entry_of (s.users usr1) ∷ []) _ _ _ _ (omega arith))
    ∙ taken (entry_of (s.users usr1) ∷ entry_of (s.users usr2) ∷ [])

-- From `s` to `t` nothing was sent, the id tree was kept, and only these users were changed.
pub record Changed (ps : List Ptr) (s t : Server) : Type 0 where
  pub by_id : t.by_id ≡ s.by_id
  pub ids_kept : ids t ≡ ids s
  pub sent : t.sent ≡ s.sent
  pub others : (p : Ptr) → mem p ps ≡ false → user_info (t.users p) ≡ user_info (s.users p)

not_listed :
    (t : Server) (p : Ptr) (ps : List Ptr) → has_id t (ids t p) ps ≡ false → mem p ps ≡ false
not_listed t p [] h = refl
not_listed t p (q ∷ ps) h =
    ground
      (arith, not_listed t p ps, (==_iff p q).0, ==_refl (ids t p), λ (e : p ≡ q). ap (ids t) e)

pub unchanged_info :
    (ps : List Ptr) (s t : Server) (k : ℕ)
    → Changed ps s t
    → has_id t k ps ≡ false
    → server_info s k ≡ server_info t k
unfolding find_id
unchanged_info ps s t k ch h = go (find_id s k) refl
  where
    same : find_id t k ≡ find_id s k
    same = λ i. tfind compare (ch.ids_kept i) k (ch.by_id i)

    info : (Ptr → User) → Option Ptr → Option Info
    info users o = elim o [ none ↦ none | some p ↦ user_info (users p) ]

    go : (o : Option Ptr) → find_id s k ≡ o → server_info s k ≡ server_info t k
    go none e = ap (info s.users) e ∙ sym (ap (info t.users) (same ∙ e))
    go (some p) e =
        let (m, c) = tfind_sound compare-IsOrder (ids s) k s.by_id p e in
        let at = eq_of_compare k (ids s p) c ∙ sym (ap (λ r. r p) ch.ids_kept) in
        ap (info s.users) e
        ∙ sym (ch.others p (not_listed t p ps (ap (λ j. has_id t j ps) (sym at) ∙ h)))
        ∙ sym (ap (info t.users) (same ∙ e))

-- Users who were changed, and the broadcast of it, for one who is connected.
pub broadcast-Told :
    (f : ℕ) (usr1 : Ptr) (usr2 : Option Ptr) (s t : Server) (q : Ptr)
    → Sorted compare (ids t) t.by_id
    → Inside t (both usr1 usr2)
    → Changed (both usr1 usr2) s t
    → mem q t.by_id ≡ true
    → fds t q ≡ f
    → Told f s (broadcast_user_changes usr1 usr2 t)
unfolding broadcast_user_changes find_id after init_msg_buf
broadcast-Told f usr1 usr2 s t q o m ch h e = record {
  packets = copies none msg (fds_of t t.by_id);
  grows = ap (λ z. z.sent) eq ∙ ap (λ l. l ++ copies none msg (fds_of t t.by_id)) ch.sent;
  follows = λ k.
      heard-copies none msg f refl (fds_of t t.by_id) (server_info s) k
        (subst (λ d. mem d (fds_of t t.by_id) ≡ true) e (mem-fds_of t q t.by_id h))
      ∙ ap (λ es. after es (server_info s) k) (changes_of-entries t usr1 usr2)
      ∙ after-changed t (both usr1 usr2) (server_info s) k o m
          (λ j i. unchanged_info (both usr1 usr2) s t j ch i)
      ∙ ap (λ z. server_info z k) (sym eq);
}
  where
    msg : Message
    msg = init_msg_buf (uchange (changes_of t usr1 usr2))

    eq : broadcast_user_changes usr1 usr2 t ≡ sends t (copies none msg (fds_of t t.by_id))
    eq = msg_to_all_lem none msg t t.by_id
