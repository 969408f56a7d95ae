-- ===== src/Protocol/Mirror/Informs.antt =====
-- Steps of the server of which a connected user is told, with the rules to put them together.
use janken.Base.{
  ℕ, compare, ◌≡◌, refl, sym, ◌∙◌, ap, Bool, true, false, Bool-cases, ==_iff, Option, none, some,
  inl, inr, List, [], ◌==◌, if◌then◌else◌, if-true, if-false,
}
use janken.Tree.Laws.{mem, Sorted, Sorted-eq}
use janken.Message.{Message}
use janken.Server.{Server, User, Ptr, Challenge, Run, ids, fds, set_user, msg_send, if_null}
use janken.Server.Ensures.{Ensures, returns, crashes}
use janken.Server.Frame.{Frame, Frame-refl, Frame-trans, rest-Frame, send-Frame, broadcast-Frame}
use janken.Server.Notify.{broadcast_user_changes}
use janken.Client.Users.{Info}
use janken.Protocol.Roster.{user_info}
use janken.Protocol.Mirror.{said, Told, Told-trans, Told-quiet, Told-send}
use janken.Protocol.Mirror.Broadcast.{both, Inside, Changed, unchanged_info, broadcast-Told}

-- The id tree is ordered, and a user in it has the fd.
pub record Listens (f : ℕ) (s : Server) : Type 0 where
  pub order : Sorted compare (ids s) s.by_id
  pub user : Ptr
  pub inside : mem user s.by_id ≡ true
  pub fd : fds s user ≡ f

pub Listens-Frame : {f : ℕ} {s t : Server} → Frame s t → Listens f s → Listens f t
Listens-Frame fr h = record {
  order = Sorted-eq compare fr.ids_kept fr.by_id h.order;
  user = h.user;
  inside = ap (mem h.user) fr.by_id ∙ h.inside;
  fd = ap (λ r. r h.user) fr.fds_kept ∙ h.fd;
}

pub record Informs (f : ℕ) (s t : Server) : Type 0 where
  pub frame : Frame s t
  pub told : Listens f s → Told f s t

pub Informs-trans : {f : ℕ} {s t u : Server} → Informs f s t → Informs f t u → Informs f s u
Informs-trans a b = record {
  frame = Frame-trans a.frame b.frame;
  told = λ h. Told-trans (a.told h) (b.told (Listens-Frame a.frame h));
}

-- Nothing is sent, and what is known of users stays.
pub Informs-quiet :
    {f : ℕ} {s t : Server}
    → Frame s t
    → t.sent ≡ s.sent
    → ((p : Ptr) → user_info (t.users p) ≡ user_info (s.users p))
    → Informs f s t
Informs-quiet {f} {s} {t} fr e h = record {
  frame = fr;
  told = λ l. Told-quiet f s t e λ k. unchanged_info [] s t k changed refl;
}
  where
    changed : Changed [] s t
    changed = record { by_id = fr.by_id; ids_kept = fr.ids_kept; sent = e; others = λ p i. h p }

pub Informs-refl : {f : ℕ} (s : Server) → Informs f s s
Informs-refl s = Informs-quiet (Frame-refl s) refl λ p. refl

-- Writes to anything but the users and what was sent.
pub Informs-rest :
    {f : ℕ} (s : Server) (m : Ptr → Challenge) (t : List Ptr) (r : ℕ → ℕ)
    → Informs f s (record s { challenges = m; ch_by_id = t; randoms = r })
Informs-rest s m t r = Informs-quiet (rest-Frame s m t r s.sent) refl λ p. refl

pub Informs-send :
    {f : ℕ} (s : Server) (fd : ℕ) (msg : Message)
    → ((g : ℕ → Option Info) (k : ℕ) → said msg.body g k ≡ g k)
    → Informs f s (msg_send s fd msg)
Informs-send {f} s fd msg h = record {
  frame = send-Frame s fd msg;
  told = λ l. Told-send f s fd msg h;
}

-- A write to a user that says the same.
pub Informs-set_user :
    {f : ℕ} (s : Server) (p : Ptr) (u : User)
    → Frame s (set_user s p u)
    → user_info u ≡ user_info (s.users p)
    → Informs f s (set_user s p u)
Informs-set_user s p u fr h = Informs-quiet fr refl λ q. elim (Bool-cases (q == p)) [
  | inl e ↦
      ap user_info (if-true _ _ e) ∙ h ∙ ap (λ r. user_info (s.users r)) (sym ((==_iff q p).0 e))
  | inr e ↦ ap user_info (if-false _ _ e)
]

pub Informs-if :
    {f : ℕ} {s t u : Server} (b : Bool)
    → Informs f s t
    → Informs f s u
    → Informs f s (if b then t else u)
Informs-if true h k = h
Informs-if false h k = k

pub Informs-if_null :
    {f : ℕ} {A : Type 0} {s t : Server} (o : Option A) (g : A → Server)
    → Informs f s t
    → ((a : A) → Informs f s (g a))
    → Informs f s (if_null o t g)
unfolding if_null
Informs-if_null none g h k = h
Informs-if_null (some a) g h k = k a

pub Informs-after :
    {f : ℕ} {s t : Server} {m : Run Server}
    → Informs f s t
    → Ensures (Informs f t) m
    → Ensures (Informs f s) m
Informs-after h (returns k) = returns (Informs-trans h k)
Informs-after h crashes = crashes

-- What only changes these users.
pub record Alters (ps : List Ptr) (s t : Server) : Type 0 where
  pub frame : Frame s t
  pub sent : t.sent ≡ s.sent
  pub others : (p : Ptr) → mem p ps ≡ false → user_info (t.users p) ≡ user_info (s.users p)

pub Alters-trans : {ps : List Ptr} {s t u : Server} → Alters ps s t → Alters ps t u → Alters ps s u
Alters-trans a b = record {
  frame = Frame-trans a.frame b.frame;
  sent = b.sent ∙ a.sent;
  others = λ p i. b.others p i ∙ a.others p i;
}

pub Alters-set_user :
    {ps : List Ptr} (s : Server) (p : Ptr) (u : User)
    → Frame s (set_user s p u)
    → mem p ps ≡ true
    → Alters ps s (set_user s p u)
Alters-set_user {ps} s p u fr m = record {
  frame = fr;
  sent = refl;
  others = λ q i. ap user_info (if-false {b = q == p} u (s.users q) (differs q i));
}
  where
    differs : (q : Ptr) → mem q ps ≡ false → (q == p) ≡ false
    differs q i = elim (Bool-cases (q == p)) [
      | inl e ↦ (let k = sym i ∙ ap (λ r. mem r ps) ((==_iff q p).0 e) ∙ m in cc)
      | inr e ↦ e
    ]

-- Users who are changed, and the broadcast of it.
pub Informs-broadcast :
    {f : ℕ} (usr1 : Ptr) (usr2 : Option Ptr) (s t : Server)
    → Alters (both usr1 usr2) s t
    → Inside s (both usr1 usr2)
    → Informs f s (broadcast_user_changes usr1 usr2 t)
Informs-broadcast {f} usr1 usr2 s t a m = record {
  frame = Frame-trans a.frame (broadcast-Frame usr1 usr2 t);
  told = λ l.
      let l' = Listens-Frame a.frame l in
      broadcast-Told f usr1 usr2 s t l'.user l'.order (inside usr2 m)
        (record {
          by_id = a.frame.by_id;
          ids_kept = a.frame.ids_kept;
          sent = a.sent;
          others = a.others;
        })
        l'.inside l'.fd;
}
  where
    inside : (o : Option Ptr) → Inside s (both usr1 o) → Inside t (both usr1 o)
    inside none (h, k) = (ap (mem usr1) a.frame.by_id ∙ h, k)
    inside (some q) (h, (k, r)) =
        (ap (mem usr1) a.frame.by_id ∙ h, (ap (mem q) a.frame.by_id ∙ k, r))
