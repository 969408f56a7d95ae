-- ===== src/Client/Loop/Rounds.antt =====
-- The rounds of `ui_main` from its beginning to its end.
use janken.Base.{ℕ, ◌≡◌, refl, Bool, true, ◌&&◌, List, [], ◌∷◌, arith}
use janken.Message.{MsgJoinR}
use janken.Client.{Ptr, UserInfo, GameState, Client, Flow, goes, leaves, crash, ui_main_begin}
use janken.Client.Receive.{UiMsg, receive}
use janken.Client.Users.{Inv}
use janken.Client.Loop.{Key, redraw, round, rounds, ui_main_end}
use janken.Client.Loop.Sound.{Fine, bind-Fine, receive-Fine, are_commands, handle_keys-Fine}

pub begin-Inv :
    (memory : GameState) (users : Ptr → UserInfo) (m : MsgJoinR)
    → Inv (ui_main_begin memory users m)
unfolding ui_main_begin
begin-Inv memory users m = record { order = tt; count = refl; older = λ p h. cc }

round-Fine :
    (btab : ℕ) (ums : List UiMsg) (ks : List Key) (c : Client)
    → are_commands ks ≡ true
    → Inv c
    → Fine (round btab ums ks c)
unfolding round
round-Fine btab ums ks c h v = bind-Fine (receive ums c) _ (receive-Fine ums c v) λ c1 v1.
    handle_keys-Fine btab ks (redraw c1) h
      (record { order = v1.order; count = v1.count; older = v1.older })

unfoldable pub all_commands : List (List UiMsg × List Key) → Bool
unfolding are_commands
all_commands [] = true
all_commands ((ums, ks) ∷ rs) = are_commands ks && all_commands rs

rounds-Fine :
    (btab : ℕ) (rs : List (List UiMsg × List Key)) (c : Client)
    → all_commands rs ≡ true
    → Inv c
    → Fine (rounds btab rs c)
unfolding rounds all_commands
rounds-Fine btab [] c h v = v
rounds-Fine btab ((ums, ks) ∷ rs) c h v =
    bind-Fine (round btab ums ks c) (rounds btab rs) (round-Fine btab ums ks c (ground arith) v)
      λ c1 v1. rounds-Fine btab rs c1 (ground arith) v1

-- Where no key gives the command UC_MAX, then from the beginning of `ui_main`, whatever packets and
-- keys come, no assertion fails before and at the end of the loop, and while the loop goes on the user
-- list is sound: ordered by id, counted, and in memory that was given out.
pub ui_main_sound :
    (btab : ℕ) (memory : GameState) (users : Ptr → UserInfo) (m : MsgJoinR)
    (rs : List (List UiMsg × List Key))
    → all_commands rs ≡ true
    → Fine (ui_main_end (rounds btab rs (ui_main_begin memory users m)))
unfolding ui_main_end
ui_main_sound btab memory users m rs h =
    ends (rounds btab rs (ui_main_begin memory users m))
      (rounds-Fine btab rs _ h (begin-Inv memory users m))
  where
    ends : (f : Flow) → Fine f → Fine (ui_main_end f)
    ends (goes c) v = v
    ends (leaves c) v = tt
    ends crash v = v
