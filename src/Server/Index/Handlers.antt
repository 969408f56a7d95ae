-- ===== src/Server/Index/Handlers.antt =====
-- Every entry that the packet handler takes keeps the trees over the users in agreement.
use janken.Base.{ℕ, ◌≡◌, refl, Option, none, List, [], ◌∷◌, ◌==◌}
use janken.Message.{
  Message, Body, join, quit, challenge, turn, sendmsg, MsgJoin, MsgQuit, MsgSendmsg, MsgErr, me_ok,
}
use janken.Server.{Server, User, Ptr, Challenge, Run, done, model_init}
use janken.Server.Ensures.{
  Ensures, returns, crashes, Ensures-of_eq, Ensures-bind, Ensures-deref, Ensures-if_null,
  Ensures-if,
}
use janken.Server.Frame.{
  Frame, Frame-refl, Frame-trans, send-Frame, send_all_info-Frame, send_new_info-Frame,
  set_user-Frame, broadcast-Frame, msg_to_all-Frame, if-Frame, if_null-Frame, judge_turn-Frame,
  handle_turn-Frame,
}
use janken.Server.Invite.Frame.{handle_challenge-Frame}
use janken.Server.Index.{Inv, model_init-Inv, Inv-Frame, user_add-Inv, del-Inv}
use janken.Server.Handlers.{
  Entry, emsg, edisconn, answer_join, handle_join, is_battling, forfeit, go_offline, quit_user,
  handle_disconnect, handle_quit, handle_sendmsg, handle_body, handle_entry, pkt_handler,
}

framed-Inv : {s : Server} {m : Run Server} → Inv s → Ensures (Frame s) m → Ensures Inv m
framed-Inv v (returns f) = returns (Inv-Frame f v)
framed-Inv v crashes = crashes

answer_join-Inv :
    (fd : ℕ) (m : MsgJoin) (p : Option Ptr) (e : MsgErr) (s : Server)
    → Inv s
    → Ensures Inv (answer_join fd m (p, e, s))
unfolding answer_join
answer_join-Inv fd m p me_ok s v = Ensures-deref _ _ λ q _. returns (
    Inv-Frame
      (Frame-trans (Frame-trans (send-Frame s fd _) (send_all_info-Frame fd _))
        (send_new_info-Frame fd q _))
      v)
answer_join-Inv fd m p e s v = returns (Inv-Frame (send-Frame s fd _) v)

handle_join-Inv : (fd : ℕ) (m : MsgJoin) (s : Server) → Inv s → Ensures Inv (handle_join fd m s)
unfolding handle_join
handle_join-Inv fd m s v =
    Ensures-bind _ _ (user_add-Inv fd m.nickname s v) λ (p, e, t) _ w. answer_join-Inv fd m p e t w

pub forfeit-Frame : (p : Ptr) (s : Server) → Ensures (Frame s) (forfeit p s)
unfolding forfeit
forfeit-Frame p s =
    Ensures-if (is_battling (s.users p).state) _ _
      (λ _. Ensures-if_null _ _ _ (λ _. returns (Frame-refl s)) λ c _. judge_turn-Frame c _ s)
      (λ _. returns (Frame-refl s))

go_offline-Inv : (p : Ptr) (s : Server) → Inv s → Ensures Inv (go_offline p s)
unfolding go_offline
go_offline-Inv p s v =
    del-Inv p _
      (Inv-Frame (Frame-trans (set_user-Frame s p _ refl refl refl) (broadcast-Frame p none _)) v)

quit_user-Inv : (p : Ptr) (s : Server) → Inv s → Ensures Inv (quit_user p s)
unfolding quit_user
quit_user-Inv p s v =
    Ensures-bind _ _ (forfeit-Frame p s) λ t _ f. go_offline-Inv p t (Inv-Frame f v)

handle_quit-Inv : (m : MsgQuit) (s : Server) → Inv s → Ensures Inv (handle_quit m s)
unfolding handle_quit
handle_quit-Inv m s v =
    Ensures-if_null _ _ _ (λ _. returns v)
      λ p _. Ensures-if ((s.users p).key == m.key) _ _ (λ _. quit_user-Inv p s v) (λ _. returns v)

handle_disconnect-Inv : (fd : ℕ) (s : Server) → Inv s → Ensures Inv (handle_disconnect fd s)
unfolding handle_disconnect
handle_disconnect-Inv fd s v = Ensures-if_null _ _ _ (λ _. returns v) λ p _. quit_user-Inv p s v

pub handle_sendmsg-Frame :
    (msg : Message) (m : MsgSendmsg) (s : Server) → Frame s (handle_sendmsg msg m s)
unfolding handle_sendmsg
handle_sendmsg-Frame msg m s =
    if_null-Frame s _ _ _ (Frame-refl s)
      λ p. if-Frame s _ _ _ (msg_to_all-Frame none _ s s.by_id) (Frame-refl s)

handle_body-Inv :
    (fd : ℕ) (msg : Message) (b : Body) (s : Server) → Inv s → Ensures Inv (handle_body fd msg b s)
unfolding handle_body
handle_body-Inv fd msg (join m) s v = handle_join-Inv fd m s v
handle_body-Inv fd msg (quit m) s v = handle_quit-Inv m s v
handle_body-Inv fd msg (challenge m) s v = framed-Inv v (handle_challenge-Frame fd m s)
handle_body-Inv fd msg (turn m) s v = framed-Inv v (handle_turn-Frame m s)
handle_body-Inv fd msg (sendmsg m) s v = returns (Inv-Frame (handle_sendmsg-Frame msg m s) v)
handle_body-Inv fd msg b s v = returns v

pub handle_entry-Inv : (e : Entry) (s : Server) → Inv s → Ensures Inv (handle_entry e s)
unfolding handle_entry
handle_entry-Inv (emsg fd msg) s v = handle_body-Inv fd msg msg.body s v
handle_entry-Inv (edisconn fd) s v = handle_disconnect-Inv fd s v

pkt_handler-Ensures : (es : List Entry) (s : Server) → Inv s → Ensures Inv (pkt_handler es s)
unfolding pkt_handler
pkt_handler-Ensures [] s v = returns v
pkt_handler-Ensures (e ∷ es) s v =
    Ensures-bind _ _ (handle_entry-Inv e s v) λ t _ w. pkt_handler-Ensures es t w

-- After any sequence of entries that the packet handler has dealt with since its start, the three
-- trees over the users are ordered, hold the same users, and `user_cnt` is their number.
pub pkt_handler-Inv :
    (users : Ptr → User) (challenges : Ptr → Challenge) (randoms : ℕ → ℕ) (es : List Entry)
    {s : Server}
    → pkt_handler es (model_init users challenges randoms) ≡ done s
    → Inv s
pkt_handler-Inv users challenges randoms es e =
    Ensures-of_eq (pkt_handler-Ensures es _ (model_init-Inv users challenges randoms)) e
