-- ===== src/Client/Tests/Login.antt =====
-- The theorems of the login at one that succeeds and one that loses its connection.
use janken.Base.{ℕ, ◌<◌, ◌≡◌, refl, true, Option, none, some, List, [], ◌∷◌, map, length, ltb, take}
use janken.Text.{nickname_len, is_nickstr}
use janken.Message.{Message, join_r, sendmsg, init_msg_buf}
use janken.Client.Receive.{um_disconn, um_recv}
use janken.Client.Tests.{ann_joins}
use janken.Client.Login.{
  Keys, Login, Inputs, ui_login_begin, ui_login, step, handle_input, handle_connect, handle_send,
  handle_message,
}
use janken.Client.Login.Nickname.{ui_login_succeeds}
use janken.Client.Login.Connected.{Waits, Stuck, is_unanswered, ui_login-io_worker_in}
use janken.Client.Worker.{io_worker_in}
use janken.Client.Login.Joined.{Accepted, ui_login-Accepted}

-- The keys of ncurses, and a login: the name is typed, the connection made and the answer received.
abbrev curses : Keys
curses = record { backspace = 263; down = 258; up = 259; left = 260; right = 261 }

abbrev typed : ℕ → Inputs
typed k = record { key = k; connect = some 3; message = um_disconn 0 }

abbrev accepted : Inputs
accepted = record { key = 0; connect = none; message = um_recv (init_msg_buf (join_r ann_joins)) }

abbrev login : List Inputs
login =
    typed b'A'
    ∷ typed b'n'
    ∷ typed 127
    ∷ typed b'n'
    ∷ typed b'n'
    ∷ typed 10
    ∷ typed 0
    ∷ typed 0
    ∷ accepted
    ∷ typed 0
    ∷ []

ui_login_succeeds_example :
    (l : Login) × (ui_login curses login (ui_login_begin none) ≡ some l)
    × (l.nick_len < nickname_len)
    × (length l.nick_buf ≡ nickname_len)
    × (is_nickstr l.nick_buf ≡ ltb 0 l.nick_len)
ui_login_succeeds_example = ui_login_succeeds curses none login

abbrev login_of : Option Login → Login
login_of none = ui_login_begin none
login_of (some l) = l

abbrev logged_in : Login
logged_in = login_of (ui_login curses login (ui_login_begin none))

logged_in_lem :
    (ui_login curses login (ui_login_begin none) ≡ some logged_in) × (logged_in.done ≡ true)
unfolding ui_login step handle_input handle_connect handle_send handle_message ui_login_begin
    init_msg_buf
logged_in_lem = (refl, refl)

ui_login-Accepted_example : Accepted logged_in.join_msg
ui_login-Accepted_example =
    ui_login-Accepted curses none login logged_in logged_in_lem.0 logged_in_lem.1

-- The connection is lost before the answer comes.
abbrev unanswered : Login
unanswered = login_of (ui_login curses (take 8 login) (ui_login_begin none))

unanswered-Waits : Waits unanswered
unfolding ui_login step handle_input handle_connect handle_send handle_message ui_login_begin
unanswered-Waits = record { state = refl; going = refl }

-- A chat message comes, and then nothing.
abbrev from_server : List (Option Message)
from_server = some (init_msg_buf (sendmsg (record { id = 9; key = 0; text = [] }))) ∷ none ∷ []

abbrev reads : List Inputs
reads =
    map (λ m. record { key = 10; connect = none; message = m })
      (um_recv (init_msg_buf (sendmsg (record { id = 9; key = 0; text = [] })))
        ∷ um_disconn 104
        ∷ [])

reads_lem :
    (is_unanswered from_server ≡ true)
    × (map (λ (i : Inputs). i.message) reads ≡ io_worker_in 104 from_server)
unfolding io_worker_in init_msg_buf
reads_lem = (refl, refl)

ui_login-io_worker_in_example :
    (l' : Login) × (ui_login curses reads unanswered ≡ some l') × Stuck 104 l'
ui_login-io_worker_in_example =
    ui_login-io_worker_in curses 104 from_server reads unanswered reads_lem.0 reads_lem.1
      unanswered-Waits
