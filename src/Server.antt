-- ===== src/Server.antt =====
-- server/server.c: the state behind the packet handler, and its operations on users.
-- Users and challenges are objects at addresses; three trees point at the users (by id, by fd, by
-- nickname) and one at the challenges. `malloc` gives a new address, whose memory holds whatever it
-- holds; freed memory is not given out again. `random()` takes the next number of a stream, and what
-- is handed to `msg_send` is kept in order. A failed `assert` or a NULL that is followed ends the
-- process: `crash`.
pub mod Notify
pub mod Users
pub mod Battle
pub mod Invite
pub mod Handlers
pub mod Ensures
pub mod Frame
pub mod Index
pub mod Turns
pub mod Login
pub mod Logout
pub mod Broadcast
pub mod Connections
pub mod Tests
use janken.Base.{
  ℕ, zero, suc, ◌+◌, ◌-◌, ◌%◌, ◌^◌, compare, Ordering, ◌≡◌, Bool, true, false, Option, none, some,
  List, [], ◌∷◌, ◌++◌, ◌==◌, if◌then◌else◌, length,
}
use janken.Text.{nick_cmp}
use janken.Tree.{tfind}
use janken.Message.{Message, UserState}

abbrev pub Ptr : Type 0
Ptr = ℕ

-- `user_info_t` with the server's members. `score` is the pattern of an `int32_t`.
pub record User : Type 0 where
  pub nickname : List ℕ
  pub id : ℕ
  pub score : ℕ
  pub state : UserState
  pub fd : ℕ
  pub key : ℕ
  pub chid : ℕ

-- `challenge_state_t`
pub data ChallengeState : Type 0 where
  asking started : ChallengeState

-- `challenge_t`. The acts are what the packets hold; hit points are patterns of an `int32_t`.
pub record Challenge : Type 0 where
  pub id : ℕ
  pub user1 : ℕ
  pub user2 : ℕ
  pub turn_no : ℕ
  pub acted1 : Bool
  pub acted2 : Bool
  pub act1 : ℕ
  pub act2 : ℕ
  pub hp1 : ℕ
  pub hp2 : ℕ
  pub maxhp1 : ℕ
  pub maxhp2 : ℕ
  pub state : ChallengeState

abbrev pub max_user_count : ℕ
max_user_count = 1024

abbrev pub maxhp : ℕ
maxhp = 10

abbrev pub uint16_max : ℕ
uint16_max = 65535

pub record Server : Type 0 where
  pub users : Ptr → User
  pub challenges : Ptr → Challenge
  pub next : Ptr
  pub by_id : List Ptr
  pub by_fd : List Ptr
  pub by_nick : List Ptr
  pub ch_by_id : List Ptr
  pub user_cnt : ℕ
  pub randoms : ℕ → ℕ
  pub sent : List (ℕ × Message)

-- An operation on the server returns, or the process ends.
pub data Run (A : Type 0) : Type 0 where
  done : A → Run A
  crash : Run A

infixl 5 ◌>>=◌
unfoldable pub ◌>>=◌ : {A B : Type 0} → Run A → (A → Run B) → Run B
done a >>= f = f a
crash >>= f = crash

-- `assert(b)`
unfoldable pub check : {A : Type 0} → Bool → Run A → Run A
check b k = if b then k else crash

-- `p->…` for a `p` that may be NULL.
unfoldable pub deref : {A : Type 0} → Option A → Run A
deref none = crash
deref (some a) = done a

-- `if (p == NULL) …` with what is done at NULL, and with the pointer otherwise.
unfoldable pub if_null : {A B : Type 0} → Option A → B → (A → B) → B
if_null none b f = b
if_null (some a) b f = f a

-- `model_init`, on a process that has allocated nothing.
unfoldable pub model_init : (Ptr → User) → (Ptr → Challenge) → (ℕ → ℕ) → Server
model_init users challenges randoms = record {
  users = users;
  challenges = challenges;
  next = 0;
  by_id = [];
  by_fd = [];
  by_nick = [];
  ch_by_id = [];
  user_cnt = 0;
  randoms = randoms;
  sent = [];
}

abbrev pub random_rest : Server → Server
random_rest s = record s { randoms = λ n. s.randoms (suc n) }

abbrev pub update : {A : Type 0} → (Ptr → A) → Ptr → A → Ptr → A
update m p v q = if q == p then v else m q

-- Writes through a pointer.
abbrev pub set_user : Server → Ptr → User → Server
set_user s p u = record s { users = update s.users p u }

abbrev pub set_challenge : Server → Ptr → Challenge → Server
set_challenge s c ch = record s { challenges = update s.challenges c ch }

-- What `cmp_by_id`, `cmp_by_fd`, `cmp_by_nick` and `cmp_by_chid` read of an object.
abbrev pub ids : Server → Ptr → ℕ
ids s p = (s.users p).id

abbrev pub fds : Server → Ptr → ℕ
fds s p = (s.users p).fd

abbrev pub nicks : Server → Ptr → List ℕ
nicks s p = (s.users p).nickname

abbrev pub chids : Server → Ptr → ℕ
chids s c = (s.challenges c).id

-- `deref_or_null(tfind(&tmp, &user_by_id, cmp_by_id))` and its like.
unfoldable pub find_id : Server → ℕ → Option Ptr
find_id s id = tfind compare (ids s) id s.by_id

unfoldable pub find_fd : Server → ℕ → Option Ptr
find_fd s fd = tfind compare (fds s) fd s.by_fd

unfoldable pub find_nick : Server → List ℕ → Option Ptr
find_nick s nick = tfind nick_cmp (nicks s) nick s.by_nick

unfoldable pub find_ch : Server → ℕ → Option Ptr
find_ch s chid = tfind compare (chids s) chid s.ch_by_id

-- `msg_send(fd, msg)`, whose result the server does not read.
abbrev pub msg_send : Server → ℕ → Message → Server
msg_send s fd msg = record s { sent = s.sent ++ (fd, msg) ∷ [] }
