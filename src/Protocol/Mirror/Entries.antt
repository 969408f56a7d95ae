-- ===== src/Protocol/Mirror/Entries.antt =====
-- Every entry of the packet handler, for one who follows the users.
use janken.Base.{
  if_cases, ◌&&◌, ℕ, ◌≡◌, ◌≢◌, refl, sym, ◌∙◌, ap, subst, Bool, true, false, Option, none, some,
  List, [], ◌∷◌, ◌++◌, append_assoc, arith, ◌==◌, if◌then◌else◌, if-false,
}
use janken.Tree.Laws.{mem}
use janken.Message.{
  Message, Body, join, join_r, quit, uchange, challenge, challenge_r, turn, turn_r, sendmsg,
  MsgJoin, MsgSendmsg, MsgErr, me_ok, init_msg_buf, make_join_r, UserEntry,
}
use janken.Server.{Server, Ptr, find_id, msg_send, deref, ◌>>=◌, if_null}
use janken.Server.Ensures.{Ensures, returns, crashes, Ensures-bind}
use janken.Server.Notify.{changes_of, send_all_info, send_new_info, msg_to_all}
use janken.Server.Broadcast.{copies, fds_of, sends, msg_to_all_lem}
use janken.Server.Broadcast.Chunks.{packets, send_all_info_lem}
use janken.Server.Handlers.{
  Entry, emsg, edisconn, wiped, answer_join, handle_join, handle_sendmsg, handle_body, handle_entry,
}
use janken.Server.Index.{Inv}
use janken.Client.Users.{Info}
use janken.Client.Users.Packet.{after}
use janken.Protocol.Roster.{server_info}
use janken.Protocol.Mirror.{
  heard, to_fd, heard-append, to_fd-append, Told, Told-quiet, Told-send, Told-trans,
}
use janken.Protocol.Mirror.Broadcast.{
  heard-copies, heard-copies_cases, mem-fds_of, after-changed, changes_of-entries,
}
use janken.Protocol.Mirror.Informs.{Listens}
use janken.Protocol.Mirror.Battle.{handle_turn-Informs}
use janken.Protocol.Mirror.Invite.{handle_challenge-Informs}
use janken.Protocol.Mirror.Leave.{Informs-Told, handle_quit-Told, handle_disconnect-Told}
use janken.Protocol.Mirror.Join.{Owes, Added, user_add-Added}

module _ (f : ℕ) (p : Ptr) (s : Server) where
  -- Packets to others.
  Owes-silent :
      (t : Server) (l : List (ℕ × Message)) → Owes f p s t → to_fd f l ≡ [] → Owes f p s (sends t l)
  unfolding find_id
  Owes-silent t l h e = record {
    packets = h.packets ++ l;
    grows = ap (λ x. x ++ l) h.grows ∙ append_assoc s.sent h.packets l;
    others = λ k n.
        ap (λ x. heard x (server_info s) k) (to_fd-append f h.packets l)
        ∙ heard-append (to_fd f h.packets) (to_fd f l) (server_info s) k
        ∙ ap (λ x. heard x (heard (to_fd f h.packets) (server_info s)) k) e
        ∙ h.others k n;
    inside = h.inside;
    listens = record {
      order = h.listens.order;
      user = h.listens.user;
      inside = h.listens.inside;
      fd = h.listens.fd;
    };
  }

  -- The packet with the user that was left out.
  send_new_info-Told :
      (t : Server) (fd : ℕ) → Owes f p s t → fd ≢ f → Told f s (send_new_info fd p t)
  unfolding send_new_info changes_of init_msg_buf find_id after
  send_new_info-Told t fd h ne = record {
    packets = h.packets ++ copied;
    grows =
        ap (λ z. z.sent) eq ∙ ap (λ l. l ++ copied) h.grows ∙ append_assoc s.sent h.packets copied;
    follows = λ k.
        ap (λ x. heard x (server_info s) k) (to_fd-append f h.packets copied)
        ∙ heard-append (to_fd f h.packets) (to_fd f copied) (server_info s) k
        ∙ heard-copies (some fd) msg f (ground (arith, ne)) (fds_of t t.by_id) so_far k connected
        ∙ ap (λ es. after es so_far k) (changes_of-entries t p none)
        ∙ after-changed t (p ∷ []) so_far k h.listens.order (h.inside, tt)
            (λ j e. h.others j (ground (arith, e)))
        ∙ ap (λ z. server_info z k) (sym eq);
  }
    where
      msg : Message
      msg = init_msg_buf (uchange (changes_of t p none))

      copied : List (ℕ × Message)
      copied = copies (some fd) msg (fds_of t t.by_id)

      so_far : ℕ → Option Info
      so_far = heard (to_fd f h.packets) (server_info s)

      eq : send_new_info fd p t ≡ sends t copied
      eq = msg_to_all_lem (some fd) msg t t.by_id

      connected : mem f (fds_of t t.by_id) ≡ true
      connected =
          subst (λ d. mem d (fds_of t t.by_id) ≡ true) h.listens.fd
            (mem-fds_of t h.listens.user t.by_id h.listens.inside)

to_fd-packets :
    (f fd : ℕ) (chunks : List (List UserEntry)) → fd ≢ f → to_fd f (packets fd chunks) ≡ []
to_fd-packets f fd [] ne = refl
to_fd-packets f fd (es ∷ chunks) ne =
    if-false {b = fd == f} _ _ (ground (arith, ne)) ∙ to_fd-packets f fd chunks ne

-- The reply to JOIN, and what follows it.
answer_join-Told :
    (f fd : ℕ) (m : MsgJoin) (s : Server) (r : Option Ptr × MsgErr × Server)
    → fd ≢ f
    → Added f s r
    → Ensures (Told f s) (answer_join fd m r)
unfolding answer_join deref ◌>>=◌ make_join_r init_msg_buf
answer_join-Told f fd m s (none, me_ok, t) ne h = crashes
answer_join-Told f fd m s (some p, me_ok, t) ne h =
    returns
      (send_new_info-Told f p s (send_all_info fd t1) fd (subst (Owes f p s) (sym e1) late) ne)
  where
    t1 : Server
    t1 = msg_send t fd (make_join_r m.nickname 0 (t.users p).id (t.users p).key)

    chunks : List (List UserEntry)
    chunks = (send_all_info_lem fd t1).0

    e1 : send_all_info fd t1 ≡ sends t1 (packets fd chunks)
    e1 = (send_all_info_lem fd t1).1

    late : Owes f p s (sends t1 (packets fd chunks))
    late =
        Owes-silent f p s t1 (packets fd chunks)
          (Owes-silent f p s t ((fd, make_join_r m.nickname 0 (t.users p).id (t.users p).key) ∷ [])
            h (if-false {b = fd == f} _ _ (ground (arith, ne))))
          (to_fd-packets f fd chunks ne)
answer_join-Told f fd m s (o, e, t) ne h = returns (Told-trans h (Told-send f t fd _ λ g k. refl))

handle_join-Told :
    (f fd : ℕ) (m : MsgJoin) (s : Server)
    → fd ≢ f
    → Inv s
    → Listens f s
    → Ensures (Told f s) (handle_join fd m s)
unfolding handle_join
handle_join-Told f fd m s ne v l =
    Ensures-bind _ _ (user_add-Added fd m.nickname s v l) λ r _ h. answer_join-Told f fd m s r ne h

handle_sendmsg-Told :
    (f : ℕ) (msg : Message) (m : MsgSendmsg) (s : Server) → Told f s (handle_sendmsg msg m s)
unfolding handle_sendmsg find_id if_null
handle_sendmsg-Told f msg m s = go (find_id s m.id)
  where
    same : Told f s s
    same = Told-quiet f s s refl λ k. refl

    copied : List (ℕ × Message)
    copied = copies none (wiped msg m) (fds_of s s.by_id)

    copy_told : Told f s (sends s copied)
    copy_told = record {
      packets = copied;
      grows = refl;
      follows = λ k.
          heard-copies_cases none (wiped msg m) f refl (fds_of s s.by_id) (server_info s) k
          ∙ either (mem f (fds_of s s.by_id)) (server_info s k);
    }
      where
        either : (b : Bool) (o : Option Info) → (if b then o else o) ≡ o
        either true o = refl
        either false o = refl

    go :
        (o : Option Ptr)
        → Told f s (
            if_null o s λ user.
              if (s.users user).key == m.key then msg_to_all none (wiped msg m) s s.by_id else s)
    go none = same
    go (some user) =
        if_cases (Told f s) ((s.users user).key == m.key)
          (λ _. subst (Told f s) (sym (msg_to_all_lem none (wiped msg m) s s.by_id)) copy_told)
          (λ _. same)

-- A JOIN on this connection.
abbrev pub joins_on : Entry → ℕ → Bool
joins_on (emsg fd msg) f = is_join msg.body && fd == f
  where
    is_join : Body → Bool
    is_join (join m) = true
    is_join (join_r m) = false
    is_join (quit m) = false
    is_join (uchange m) = false
    is_join (challenge m) = false
    is_join (challenge_r m) = false
    is_join (turn m) = false
    is_join (turn_r m) = false
    is_join (sendmsg m) = false
joins_on (edisconn fd) f = false

pub handle_entry-Told :
    (f : ℕ) (e : Entry) (s : Server)
    → joins_on e f ≡ false
    → Inv s
    → Listens f s
    → Ensures (Told f s) (handle_entry e s)
unfolding handle_entry handle_body
handle_entry-Told f (edisconn fd) s n v l = handle_disconnect-Told f fd s v l
handle_entry-Told f (emsg fd msg) s n v l = go msg.body n
  where
    go :
        (b : Body)
        → joins_on (emsg fd (record msg { body = b })) f ≡ false
        → Ensures (Told f s) (handle_body fd msg b s)
    go (join m) n = handle_join-Told f fd m s (ground (arith, n)) v l
    go (quit m) n = handle_quit-Told f m s l
    go (challenge m) n = Informs-Told l (handle_challenge-Informs fd m s)
    go (turn m) n = Informs-Told l (handle_turn-Informs m s)
    go (sendmsg m) n = returns (handle_sendmsg-Told f msg m s)
    go (join_r m) n = returns (Told-quiet f s s refl λ k. refl)
    go (uchange m) n = returns (Told-quiet f s s refl λ k. refl)
    go (challenge_r m) n = returns (Told-quiet f s s refl λ k. refl)
    go (turn_r m) n = returns (Told-quiet f s s refl λ k. refl)
