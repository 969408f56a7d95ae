-- ===== src/Client.antt =====
-- client/client.c: what the text interface keeps while the user is logged in, and the parts of
-- `ui_main` that change it. What is put in the send queue and what is printed are lists, oldest first.
-- Users are objects at addresses, and the tree `user_by_id` holds their pointers.
pub mod Receive
pub mod Input
pub mod Users
pub mod Menu
pub mod Loop
pub mod Login
pub mod Curses
pub mod Focus
pub mod Connect
pub mod Worker
pub mod Tests
pub mod Screens
use janken.Base.{
  ℕ, zero, suc, ◌+◌, compare, ◌≡◌, Bool, true, false, Option, none, some, List, [], ◌∷◌, ◌++◌, ◌==◌,
  if◌then◌else◌, set,
}
use janken.Text.{nickname_len, snprintf}
use janken.Tree.{tfind}
use janken.Message.{Message, MsgJoinR}
use janken.Server.Battle.{TurnResult}

abbrev pub Ptr : Type 0
Ptr = ℕ

-- `user_info_t` without the server's members. `state` is what packets hold for a `user_state_t`, and
-- `score` the pattern of an `int32_t`.
pub record UserInfo : Type 0 where
  pub nickname : List ℕ
  pub id : ℕ
  pub state : ℕ
  pub score : ℕ

-- `game_state_t`, without its `user_by_id`, which nothing reads.
pub record GameState : Type 0 where
  pub nickname : List ℕ
  pub opponent_name : List ℕ
  pub id : ℕ
  pub opponent_id : ℕ
  pub chid : ℕ
  pub is_user1 : Bool
  pub acted : Bool
  pub key : ℕ
  pub score : ℕ
  pub turn_no : ℕ
  pub hp : ℕ
  pub max_hp : ℕ
  pub opponent_hp : ℕ
  pub opponent_max_hp : ℕ
  pub state : ℕ

-- `waiting_for`
pub data WaitingFor : Type 0 where
  w_none w_cancel w_accept : WaitingFor

pub data SortBy : Type 0 where
  by_name by_score : SortBy

-- What is printed, with the values that the text shows. A nickname is `none` for "<unknown>".
pub data Output : Type 0 where
  said : Option (List ℕ) → (you : Bool) → List ℕ → Output
  joined : List ℕ → Output
  went_offline : List ℕ → Output
  battle_ended : (victory : Bool) → Output
  last_turn : (mine other : ℕ) → TurnResult → Output
  choose_action : (turn_no : ℕ) → Output
  challenged_by : Option (List ℕ) → Output
  starting : List ℕ → Output
  not_started : (error : ℕ) → Output
  inviting : List ℕ → Output
  yourself : Output
  not_in_battle : Output
  already_acted : Output
  chosen : (act : ℕ) → Output

-- The variables of `ui_main`, the memory and the two streams.
pub record Client : Type 0 where
  pub gs : GameState
  pub users : Ptr → UserInfo
  pub next : Ptr
  pub by_id : List Ptr
  pub user_cnt : ℕ
  pub waiting_for : WaitingFor
  pub sort_by : SortBy
  pub list_updated : Bool
  pub state_updated : Bool
  pub focus_idx : ℕ
  pub sent : List Message
  pub printed : List Output

-- A step goes on, leaves the loop (`goto done`), or ends the process at a failed assertion.
pub data Flow : Type 0 where
  goes : Client → Flow
  leaves : Client → Flow
  crash : Flow

infixl 5 ◌>>=◌
unfoldable pub ◌>>=◌ : Flow → (Client → Flow) → Flow
goes c >>= f = f c
leaves c >>= f = leaves c
crash >>= f = crash

-- `assert(b)`
unfoldable pub check : Bool → Flow → Flow
check b k = if b then k else crash

abbrev pub print : Client → Output → Client
print c o = record c { printed = c.printed ++ o ∷ [] }

-- `queue_add(send_queue, msg, true)`
abbrev pub enqueue : Client → Message → Client
enqueue c msg = record c { sent = c.sent ++ msg ∷ [] }

abbrev pub ids : Client → Ptr → ℕ
ids c p = (c.users p).id

-- `deref_or_null(tfind(&tmp, &user_by_id, cmp_by_id))`
unfoldable pub find_user : Client → ℕ → Option Ptr
find_user c id = tfind compare (ids c) id c.by_id

abbrev pub update : (Ptr → UserInfo) → Ptr → UserInfo → Ptr → UserInfo
update m p u q = if q == p then u else m q

-- `user ? user->nickname : …`
unfoldable pub name_of : Client → ℕ → Option (List ℕ)
unfolding find_user
name_of c id = elim (find_user c id) [ none ↦ none | some p ↦ some (c.users p).nickname ]

-- `game_state_init`; the members that it leaves out keep what the memory holds.
unfoldable pub game_state_init : GameState → GameState
game_state_init gs = record gs {
  nickname = set gs.nickname 0 0;
  opponent_name = set gs.opponent_name 0 0;
  score = 0;
  id = 0;
  opponent_id = 0;
  chid = 0;
  hp = 0;
  opponent_hp = 0;
  max_hp = 0;
  opponent_max_hp = 0;
}

-- The beginning of `ui_main`, past its assertion that the packet is a JOIN_R without an error.
unfoldable pub ui_main_begin : GameState → (Ptr → UserInfo) → MsgJoinR → Client
unfolding game_state_init snprintf
ui_main_begin memory users m = record {
  gs = record (game_state_init memory) {
    id = m.id;
    nickname = snprintf (game_state_init memory).nickname nickname_len m.nickname;
    key = m.key;
  };
  users = users;
  next = 0;
  by_id = [];
  user_cnt = 0;
  waiting_for = w_none;
  sort_by = by_score;
  list_updated = false;
  state_updated = true;
  focus_idx = 0;
  sent = [];
  printed = [];
}
