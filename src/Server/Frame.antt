-- ===== src/Server/Frame.antt =====
-- What most operations leave alone: the three trees over the users, the count, and the members by
-- which the trees are ordered.
use mathlib.Core.Path.{fun_ext}
use native.Mathlib.Nat.{le_refl, le_trans}
use janken.Base.{
  ℕ, compare, ◌≤◌, ◌≡◌, refl, sym, ◌∙◌, ap, Bool, true, false, Bool-cases, ==_iff, inl, inr, Option,
  none, some, List, [], ◌∷◌, ◌++◌, ◌==◌, if◌then◌else◌,
}
use janken.Text.{nick_cmp}
use janken.Tree.{tfind}
use janken.Message.{Message, MsgTurn, MsgUchange, init_msg_buf, uchange}
use janken.Server.{
  Server, User, Ptr, Challenge, Run, set_user, set_challenge, ids, fds, nicks, find_id, find_fd,
  find_nick, msg_send, if_null, update,
}
use janken.Server.Ensures.{Ensures, returns, crashes, Ensures-deref, Ensures-if_null, Ensures-if}
use janken.Server.Notify.{
  msg_to_one, msg_to_all, keep_or_flush, info_of_one, info_of_all, send_all_info, send_new_info,
  broadcast_user_changes, changes_of,
}
use janken.Server.Battle.{
  gain_score, lose_score, leave_battle, settle, finish, judge_round, conclude, judge_turn,
  judge_if_both, handle_turn,
}

pub record Frame (s s' : Server) : Type 0 where
  pub by_id : s'.by_id ≡ s.by_id
  pub by_fd : s'.by_fd ≡ s.by_fd
  pub by_nick : s'.by_nick ≡ s.by_nick
  pub user_cnt : s'.user_cnt ≡ s.user_cnt
  pub next : s.next ≤ s'.next
  pub ids_kept : ids s' ≡ ids s
  pub fds_kept : fds s' ≡ fds s
  pub nicks_kept : nicks s' ≡ nicks s

pub Frame-refl : (s : Server) → Frame s s
Frame-refl s = record {
  by_id = refl;
  by_fd = refl;
  by_nick = refl;
  user_cnt = refl;
  next = le_refl s.next;
  ids_kept = refl;
  fds_kept = refl;
  nicks_kept = refl;
}

pub Frame-trans : {s t u : Server} → Frame s t → Frame t u → Frame s u
Frame-trans f g = record {
  by_id = g.by_id ∙ f.by_id;
  by_fd = g.by_fd ∙ f.by_fd;
  by_nick = g.by_nick ∙ f.by_nick;
  user_cnt = g.user_cnt ∙ f.user_cnt;
  next = le_trans f.next g.next;
  ids_kept = g.ids_kept ∙ f.ids_kept;
  fds_kept = g.fds_kept ∙ f.fds_kept;
  nicks_kept = g.nicks_kept ∙ f.nicks_kept;
}

-- Lookups agree across a frame.
pub find_id-Frame : {s s' : Server} → Frame s s' → (k : ℕ) → find_id s' k ≡ find_id s k
unfolding find_id
find_id-Frame f k = λ i. tfind compare (f.ids_kept i) k (f.by_id i)

pub find_fd-Frame : {s s' : Server} → Frame s s' → (k : ℕ) → find_fd s' k ≡ find_fd s k
unfolding find_fd
find_fd-Frame f k = λ i. tfind compare (f.fds_kept i) k (f.by_fd i)

pub find_nick-Frame : {s s' : Server} → Frame s s' → (k : List ℕ) → find_nick s' k ≡ find_nick s k
unfolding find_nick
find_nick-Frame f k = λ i. tfind nick_cmp (f.nicks_kept i) k (f.by_nick i)

update_kept :
    {A B : Type 0} (f : A → B) (m : Ptr → A) (p : Ptr) (v : A)
    → f v ≡ f (m p)
    → ◌≡◌ {A = Ptr → B} (λ q. f (update m p v q)) (λ q. f (m q))
update_kept f m p v e = fun_ext λ q. elim (Bool-cases (q == p)) [
  | inl h ↦ rw h (e ∙ ap (λ r. f (m r)) (sym ((==_iff q p).0 h)))
  | inr h ↦ rw h refl
]

-- A write that keeps the ordering members.
pub set_user-Frame :
    (s : Server) (p : Ptr) (u : User)
    → u.id ≡ (s.users p).id
    → u.fd ≡ (s.users p).fd
    → u.nickname ≡ (s.users p).nickname
    → Frame s (set_user s p u)
set_user-Frame s p u i f n = record {
  by_id = refl;
  by_fd = refl;
  by_nick = refl;
  user_cnt = refl;
  next = le_refl s.next;
  ids_kept = update_kept (λ v. v.id) s.users p u i;
  fds_kept = update_kept (λ v. v.fd) s.users p u f;
  nicks_kept = update_kept (λ v. v.nickname) s.users p u n;
}

-- Writes to anything else.
pub rest-Frame :
    (s : Server) (m : Ptr → Challenge) (t : List Ptr) (r : ℕ → ℕ) (l : List (ℕ × Message))
    → Frame s (record s { challenges = m; ch_by_id = t; randoms = r; sent = l })
rest-Frame s m t r l = record {
  by_id = refl;
  by_fd = refl;
  by_nick = refl;
  user_cnt = refl;
  next = le_refl s.next;
  ids_kept = refl;
  fds_kept = refl;
  nicks_kept = refl;
}

pub send-Frame : (s : Server) (fd : ℕ) (m : Message) → Frame s (msg_send s fd m)
send-Frame s fd m = rest-Frame s s.challenges s.ch_by_id s.randoms (s.sent ++ (fd, m) ∷ [])

pub set_challenge-Frame : (s : Server) (c : Ptr) (ch : Challenge) → Frame s (set_challenge s c ch)
set_challenge-Frame s c ch = rest-Frame s (update s.challenges c ch) s.ch_by_id s.randoms s.sent

pub unlist-Frame : (s : Server) (t : List Ptr) → Frame s (record s { ch_by_id = t })
unlist-Frame s t = rest-Frame s s.challenges t s.randoms s.sent

pub if-Frame : (s t u : Server) (b : Bool) → Frame s t → Frame s u → Frame s (if b then t else u)
if-Frame s t u true f g = f
if-Frame s t u false f g = g

msg_to_one-Frame :
    (except : Option ℕ) (msg : Message) (s : Server) (p : Ptr) → Frame s (msg_to_one except msg s p)
unfolding msg_to_one
msg_to_one-Frame except msg s p = if-Frame s _ _ _ (Frame-refl s) (send-Frame s (s.users p).fd msg)

pub msg_to_all-Frame :
    (except : Option ℕ) (msg : Message) (s : Server) (t : List Ptr)
    → Frame s (msg_to_all except msg s t)
unfolding msg_to_all
msg_to_all-Frame except msg s [] = Frame-refl s
msg_to_all-Frame except msg s (p ∷ t) =
    Frame-trans (msg_to_one-Frame except msg s p)
      (msg_to_all-Frame except msg (msg_to_one except msg s p) t)

pub broadcast-Frame :
    (p : Ptr) (q : Option Ptr) (s : Server) → Frame s (broadcast_user_changes p q s)
unfolding broadcast_user_changes
broadcast-Frame p q s = msg_to_all-Frame none (init_msg_buf (uchange (changes_of s p q))) s s.by_id

pub if_null-Frame :
    {A : Type 0} (s t : Server) (o : Option A) (f : A → Server)
    → Frame s t
    → ((a : A) → Frame s (f a))
    → Frame s (if_null o t f)
unfolding if_null
if_null-Frame s t none f h k = h
if_null-Frame s t (some a) f h k = k a

keep_or_flush-Frame :
    (fd : ℕ) (s : Server) (b : Bool) (m : MsgUchange) (new : Option MsgUchange)
    → Frame s (keep_or_flush fd s b m new).0
unfolding keep_or_flush
keep_or_flush-Frame fd s true m new = Frame-refl s
keep_or_flush-Frame fd s false m new = send-Frame s fd _

info_of_all-Frame :
    (fd : ℕ) (st : Server × Option MsgUchange) (t : List Ptr) → Frame st.0 (info_of_all fd st t).0
unfolding info_of_all info_of_one
info_of_all-Frame fd st [] = Frame-refl st.0
info_of_all-Frame fd st (p ∷ t) =
    Frame-trans (keep_or_flush-Frame fd st.0 _ _ _) (info_of_all-Frame fd (info_of_one fd st p) t)

pub send_all_info-Frame : (fd : ℕ) (s : Server) → Frame s (send_all_info fd s)
unfolding send_all_info
send_all_info-Frame fd s =
    Frame-trans (info_of_all-Frame fd (s, none) s.by_id)
      (if_null-Frame _ _ _ _ (Frame-refl _) λ m. send-Frame _ fd _)

pub send_new_info-Frame : (fd : ℕ) (p : Ptr) (s : Server) → Frame s (send_new_info fd p s)
unfolding send_new_info
send_new_info-Frame fd p s = msg_to_all-Frame (some fd) _ s s.by_id

pub gain-Frame : (p : Ptr) (n : ℕ) (s : Server) → Frame s (gain_score p n s)
unfolding gain_score
gain-Frame p n s = set_user-Frame s p _ refl refl refl

pub lose-Frame : (p : Ptr) (n : ℕ) (s : Server) → Frame s (lose_score p n s)
unfolding lose_score
lose-Frame p n s = set_user-Frame s p _ refl refl refl

pub leave-Frame : (p : Ptr) (s : Server) → Frame s (leave_battle p s)
unfolding leave_battle
leave-Frame p s = set_user-Frame s p _ refl refl refl

draw-Frame : (s : Server) (r : ℕ → ℕ) → Frame s (record s { randoms = r })
draw-Frame s r = rest-Frame s s.challenges s.ch_by_id r s.sent

settle-Frame : (p q : Ptr) (w : ℕ) (s : Server) → Frame s (settle p q w s)
unfolding settle
settle-Frame p q w s =
    Frame-trans
      (Frame-trans
        (Frame-trans (draw-Frame s _) (
          if-Frame _ _ _ _ (Frame-trans (gain-Frame p _ _) (lose-Frame q _ _))
            (Frame-trans (gain-Frame q _ _) (lose-Frame p _ _))))
        (leave-Frame p _))
      (leave-Frame q _)

finish-Frame : (c p q : Ptr) (w : ℕ) (s : Server) → Frame s (finish c p q w s)
unfolding finish
finish-Frame c p q w s =
    Frame-trans (Frame-trans (settle-Frame p q w s) (broadcast-Frame p (some q) _))
      (unlist-Frame _ _)

pub judge_round-Frame : (c : Ptr) (s : Server) → Frame s (judge_round c s)
unfolding judge_round
judge_round-Frame c s =
    Frame-trans (if-Frame s _ _ _ (draw-Frame s _) (Frame-refl s)) (set_challenge-Frame _ c _)

pub conclude-Frame :
    (c : Ptr) (w : Option ℕ) (p q : Ptr) (s : Server) → Frame s (conclude c w p q s)
unfolding conclude
conclude-Frame c none p q s = Frame-trans (send-Frame s _ _) (send-Frame _ _ _)
conclude-Frame c (some w) p q s =
    Frame-trans (Frame-trans (send-Frame s _ _) (send-Frame _ _ _)) (finish-Frame c p q w _)

-- `judge_turn` keeps the users and their trees as they are ordered.
pub judge_turn-Frame :
    (c : Ptr) (force : Option ℕ) (s : Server) → Ensures (Frame s) (judge_turn c force s)
unfolding judge_turn
judge_turn-Frame c force s = Ensures-deref _ _ λ user1 _.
    Ensures-deref _ _
      λ user2 _. returns (Frame-trans (judge_round-Frame c s) (conclude-Frame c _ user1 user2 _))

judge_if_both-Frame : (c : Ptr) (s : Server) → Ensures (Frame s) (judge_if_both c s)
unfolding judge_if_both
judge_if_both-Frame c s =
    Ensures-if _ _ _ (λ _. judge_turn-Frame c none s) λ _. returns (Frame-refl s)

-- What an operation guarantees of a state that another has led to.
pub Frame-after :
    {s t : Server} {m : Run Server} → Frame s t → Ensures (Frame t) m → Ensures (Frame s) m
Frame-after f (returns g) = returns (Frame-trans f g)
Frame-after f crashes = crashes

pub handle_turn-Frame : (m : MsgTurn) (s : Server) → Ensures (Frame s) (handle_turn m s)
unfolding handle_turn
handle_turn-Frame m s =
    Ensures-if_null _ _ _ (λ _. returns (Frame-refl s))
      λ c _.
        Ensures-if_null _ _ _ (λ _. returns (Frame-refl s))
          λ user _.
            Ensures-if ((s.users user).key == m.key) _ _
              (λ _. Frame-after (set_challenge-Frame s c _) (judge_if_both-Frame c _))
              (λ _. returns (Frame-refl s))
