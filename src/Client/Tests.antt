-- ===== src/Client/Tests.antt =====
-- The client's theorems at concrete packets, keys and users.
pub mod Login
pub mod Focus
use mathlib.Core.List.{Perm}
use mathlib.Core.List.Perm
use janken.Base.{
  ℕ, ◌+◌, ◌-◌, ◌^◌, ◌<◌, ◌≡◌, refl, true, false, Option, some, inl, inr, List, [], ◌∷◌, arith,
  length, ltb, ◌==◌, replicate, take, if◌then◌else◌, Ordering, ◌⊎◌,
}
use janken.Text.{nickname_len, is_nickstr, snprintf, c_str}
use janken.Tree.Laws.{IsOrder}
use janken.Message.{uchange, join_r, MsgUchange, MsgJoinR, init_msg_buf}
use janken.Client.{Ptr, UserInfo, GameState, by_score, Client, goes, leaves, ui_main_begin}
use janken.Client.Receive.{UiMsg, um_disconn, um_recv, handle_uchange}
use janken.Client.Input.{uc_chl_user, uc_battle_act, uc_quit, message_text}
use janken.Client.Input.Once.{Within, turns, handle_keys-Within}
use janken.Client.Users.{Inv}
use janken.Client.Input.Trim.{trimmed, message_text_lem}
use janken.Client.Users.Packet.{dismisses, after, handle_uchange_lem}
use janken.Client.Users.Change.{known}
use janken.Client.Loop.{Key, handle_keys, rounds, ui_main_end}
use janken.Client.Loop.Sound.{Fine, are_commands, is_command}
use janken.Client.Loop.Rounds.{begin-Inv, all_commands, ui_main_sound}
use janken.Client.Menu.{Item, item_of, cmp_item_for_sort}
use janken.Client.Menu.Sort.{Small, item_order, cmp_item_for_sort-IsOrder}
use janken.Client.Screens.{UiState, at_init, at_exit, ui}
use janken.Client.Screens.Forever.{ui_continues}

abbrev ann : List ℕ
ann = b'A' ∷ b'n' ∷ b'n' ∷ []

abbrev bob : List ℕ
bob = b'b' ∷ b'o' ∷ b'b' ∷ []

-- What the stack and the heap hold before.
abbrev pub memory : GameState
memory = record {
  nickname = replicate 32 7;
  opponent_name = replicate 32 7;
  id = 7;
  opponent_id = 7;
  chid = 7;
  is_user1 = false;
  acted = false;
  key = 7;
  score = 7;
  turn_no = 7;
  hp = 7;
  max_hp = 7;
  opponent_hp = 7;
  opponent_max_hp = 7;
  state = 2;
}

abbrev pub blank : Ptr → UserInfo
blank p = record { nickname = replicate 32 7; id = 0; state = 7; score = 7 }

abbrev pub ann_joins : MsgJoinR
ann_joins = record { nickname = ann; error = 0; id = 5; key = 99 }

abbrev pub client : Client
client = ui_main_begin memory blank ann_joins

abbrev pub both_online : MsgUchange
both_online = record {
  count = 2;
  users =
      record { nickname = ann; id = 5; state = 1; score = 0 }
      ∷ record { nickname = bob; id = 6; state = 1; score = 3 }
      ∷ [];
}

handle_uchange_lem_example :
    ((dismisses (take 2 both_online.users) client.gs.id ≡ true)
      × ((c' : Client) × (handle_uchange both_online client ≡ leaves c')))
    ⊎ ((dismisses (take 2 both_online.users) client.gs.id ≡ false)
        × ((c' : Client) × (handle_uchange both_online client ≡ goes c')
            × Inv c'
            × ((k : ℕ) → known c' k ≡ after (take 2 both_online.users) (known client) k)))
handle_uchange_lem_example =
    handle_uchange_lem both_online client (begin-Inv memory blank ann_joins)

-- A round with the user list and a key that challenges the other, one that acts, and the end.
abbrev two_rounds : List (List UiMsg × List Key)
two_rounds =
    (um_recv (init_msg_buf (uchange both_online)) ∷ [], (10, some (uc_chl_user 6 3 bob)) ∷ [])
    ∷ (um_disconn 104 ∷ [], (10, some uc_quit) ∷ [])
    ∷ []

two_rounds_are_commands : all_commands two_rounds ≡ true
unfolding all_commands are_commands is_command
two_rounds_are_commands = refl

-- Both users in the list.
abbrev online : Client
online = record client {
  users = λ p.
      if p == 0
      then record { nickname = snprintf (replicate 32 7) 32 ann; id = 5; state = 1; score = 0 }
      else record { nickname = snprintf (replicate 32 7) 32 bob; id = 6; state = 1; score = 3 };
  next = 2;
  by_id = 0 ∷ 1 ∷ [];
  user_cnt = 2;
}

-- Sorting by insertion, in place of `qsort_r`.
abbrev insert_item : (Item → Item → Ordering) → Item → List Item → List Item
insert_item cmp i [] = i ∷ []
insert_item cmp i (j ∷ l) =
    let rest = insert_item cmp i l in elim (cmp i j) [ Ordering.gt ↦ j ∷ rest | _ ↦ i ∷ j ∷ l ]

abbrev pub sort : (Item → Item → Ordering) → List Item → List Item
sort cmp [] = []
sort cmp (i ∷ l) = insert_item cmp i (sort cmp l)

-- A user with 5 points below zero and one with 3 above.
abbrev item_ann : Item
item_ann = item_of 5 (record { nickname = ann; id = 5; state = 1; score = 2 ^ 32 - 5 })

abbrev item_bob : Item
item_bob = item_of 5 (record { nickname = bob; id = 6; state = 1; score = 3 })

item_scores : (item_ann.chl_score ≡ 2 ^ 32 - 5) × (item_bob.chl_score ≡ 3)
unfolding item_of
item_scores = (refl, refl)

item_ann-Small : Small item_ann.chl_score
item_ann-Small = inr (omega (arith, item_scores.0), omega (arith, item_scores.0))

item_bob-Small : Small item_bob.chl_score
item_bob-Small = inl (omega (arith, item_scores.1))

cmp_item_for_sort-IsOrder_example :
    (cmp_item_for_sort by_score item_ann item_bob ≡ item_order by_score item_ann item_bob)
    × IsOrder (item_order by_score)
cmp_item_for_sort-IsOrder_example =
    cmp_item_for_sort-IsOrder by_score item_ann item_bob item_ann-Small item_bob-Small

-- Two acts in one turn of a battle.
abbrev battling : Client
battling = record client { gs = record client.gs { state = 2; acted = false } }

handle_keys-Within_example :
    Within
      (turns battling.sent + (if battling.gs.acted then 0 else 1))
      (handle_keys 353 ((10, some (uc_battle_act 0)) ∷ (10, some (uc_battle_act 2)) ∷ []) battling)
handle_keys-Within_example =
    handle_keys-Within 353 ((10, some (uc_battle_act 0)) ∷ (10, some (uc_battle_act 2)) ∷ [])
      battling

-- "hi" and two spaces in a field.
abbrev field : List ℕ
field = b'h' ∷ b'i' ∷ 32 ∷ 32 ∷ []

message_text_lem_example : c_str (message_text field) ≡ trimmed (c_str field)
message_text_lem_example = message_text_lem field (omega arith)
