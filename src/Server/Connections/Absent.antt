-- ===== src/Server/Connections/Absent.antt =====
-- Who has an fd: an entry of another connection gives it to no user.
use janken.Base.{
  ℕ, zero, suc, compare, ◌≡◌, ◌≢◌, sym, ◌∙◌, subst, Bool, true, false, Option, none, some, List,
  arith, leb, ◌==◌, if◌then◌else◌, if-false,
}
use janken.Tree.Laws.{mem, eqb, compare-IsOrder, tfind_agree, tfind_sound, tfind-tsearch}
use janken.Message.{
  Message, Body, join, quit, challenge, turn, sendmsg, MsgJoin, MsgQuit, MsgErr, me_ok,
}
use janken.Server.{Server, Ptr, Run, done, fds, find_fd, max_user_count}
use janken.Server.Ensures.{
  Ensures, returns, crashes, Ensures-bind, Ensures-check, Ensures-if_null, Ensures-if,
  Ensures-deref,
}
use janken.Server.Frame.{
  Frame, Frame-trans, find_fd-Frame, send-Frame, send_all_info-Frame, send_new_info-Frame,
  handle_turn-Frame,
}
use janken.Server.Invite.Frame.{handle_challenge-Frame}
use janken.Server.Index.{
  Inv, Inv-Frame, kept_outside, write_outside-Inv, write_randoms, fresh_outside, tfind_of_tsearch,
}
use janken.Server.Index.Handlers.{forfeit-Frame, handle_sendmsg-Frame}
use janken.Server.Login.Enter.{named, named-Inv, find_fd-named, fd_key}
use janken.Server.Logout.{
  found_inside, found_fd_inside, without_fd, Gone-Frame, mem-Frame, go_offline-Gone,
}
use janken.Server.Users.{user_create, enter_user, add_rounds, user_add}
use janken.Server.Handlers.{
  Entry, emsg, edisconn, answer_join, handle_join, quit_user, handle_disconnect, handle_quit,
  handle_body, handle_entry,
}
use janken.Server.Connections.{fd_of}

Ensures-known : {A : Type 0} {P : A → Type 0} {m : Run A} {a : A} → m ≡ done a → P a → Ensures P m
Ensures-known {P = P} e h = subst (Ensures P) (sym e) (returns h)

Ensures-map :
    {A : Type 0} {P Q : A → Type 0} {m : Run A} → ((a : A) → P a → Q a) → Ensures P m → Ensures Q m
Ensures-map f (returns h) = returns (f _ h)
Ensures-map f crashes = crashes

-- A user who leaves takes the fd along.
quit_user-Without :
    (f : ℕ) (p : Ptr) (s : Server)
    → Inv s
    → mem p s.by_id ≡ true
    → Ensures (λ t. find_fd t f ≡ without_fd s p f) (quit_user p s)
unfolding quit_user
quit_user-Without f p s v inside = Ensures-bind _ _ (forfeit-Frame p s) λ t _ fr.
    let (u, e, g) = go_offline-Gone t p (Inv-Frame fr v) (mem-Frame p fr inside) in
    Ensures-known e ((Gone-Frame p fr g).by_fd f)

fd_found : (s : Server) (f : ℕ) (p : Ptr) → find_fd s f ≡ some p → fds s p ≡ f
unfolding find_fd
fd_found s f p e = grind (arith, tfind_sound compare-IsOrder (fds s) f s.by_fd p e)

-- After a lost connection is dealt with no user has its fd.
pub handle_disconnect-Absent :
    (f : ℕ) (s : Server) → Inv s → Ensures (λ t. find_fd t f ≡ none) (handle_disconnect f s)
unfolding handle_disconnect
handle_disconnect-Absent f s v =
    Ensures-if_null _ _ _ (λ e. returns e)
      λ p e.
        Ensures-map (λ t d. d ∙ own p e)
          (quit_user-Without f p s v (sym (v.same_fd p) ∙ found_fd_inside s f p e))
  where
    own : (p : Ptr) → find_fd s f ≡ some p → without_fd s p f ≡ none
    own p e = grind (arith, fd_found s f p e)

module _ (f : ℕ) where
  abbrev pub Absent : Server → Type 0
  Absent s = find_fd s f ≡ none

  Absent-Frame : {s t : Server} → Frame s t → Absent s → Absent t
  Absent-Frame fr h = find_fd-Frame fr f ∙ h

  framed-Absent : {s : Server} {m : Run Server} → Absent s → Ensures (Frame s) m → Ensures Absent m
  framed-Absent h (returns fr) = returns (Absent-Frame fr h)
  framed-Absent h crashes = crashes

  quit_user-Absent :
      (p : Ptr) (s : Server)
      → Inv s
      → mem p s.by_id ≡ true
      → Absent s
      → Ensures Absent (quit_user p s)
  quit_user-Absent p s v inside h =
      Ensures-map (λ t e. e ∙ skipped _ _ h) (quit_user-Without f p s v inside)
    where
      skipped : (b : Bool) (o : Option Ptr) → o ≡ none → (if b then none else o) ≡ none
      skipped b o e = ground arith

  enter_user-Absent :
      (p : Ptr) (fd id : ℕ) (s : Server)
      → Inv s
      → mem p s.by_id ≡ false
      → fd ≢ f
      → Absent s
      → Ensures Absent (enter_user p fd id s)
  unfolding enter_user find_fd
  enter_user-Absent p fd id s v out ne h = Ensures-check _ _ λ h1. Ensures-check _ _ λ h2.
      Ensures-check _ _ λ h3.
        let nv = named-Inv v p out fd id in
        let absent =
          tfind_of_tsearch compare-IsOrder (fds (named p fd id s)) p s.by_fd (nv.same_fd p ∙ out)
            h2 in
        returns (
          tfind-tsearch compare-IsOrder (fds (named p fd id s)) p s.by_fd f nv.fd_order absent
          ∙ if-false _ _ (other (fd_key v p out fd id))
          ∙ find_fd-named v p out fd id f
          ∙ h)
    where
      other : {k : ℕ} → k ≡ fd → eqb (compare f k) ≡ false
      other e = grind (arith, e, ne)

  abbrev AddedAbsent : Option Ptr × MsgErr × Server → Type 0
  AddedAbsent (p, e, s) = Absent s

  add_rounds-Absent :
      (n : ℕ) (p : Ptr) (fd id : ℕ) (s : Server)
      → Inv s
      → mem p s.by_id ≡ false
      → fd ≢ f
      → Absent s
      → Ensures AddedAbsent (add_rounds n p fd id s)
  unfolding add_rounds find_fd
  add_rounds-Absent zero p fd id s v out ne h = returns h
  add_rounds-Absent (suc n) p fd id s v out ne h =
      Ensures-if_null _ _ _
        (λ _. Ensures-bind _ _ (enter_user-Absent p fd id s v out ne h) λ t _ h'. returns h')
        λ q _. add_rounds-Absent n p fd _ _ (write_randoms v) out ne h

  user_add-Absent :
      (fd : ℕ) (nickname : List ℕ) (s : Server)
      → Inv s
      → fd ≢ f
      → Absent s
      → Ensures AddedAbsent (user_add fd nickname s)
  unfolding user_add user_create find_fd
  user_add-Absent fd nickname s v ne h =
      let v' = write_outside-Inv s.next _ (suc s.next) _ v (fresh_outside v) (omega arith) in
      Ensures-if (leb max_user_count s.user_cnt) _ _ (λ _. returns made)
        λ _.
          Ensures-if_null _ _ _
            (λ _.
              Ensures-if_null _ _ _
                (λ _. add_rounds-Absent 16 s.next fd _ _ v' (fresh_outside v) ne made)
                λ q _. returns made)
            λ q _. returns made
    where
      made : Absent (user_create nickname s).1
      made =
          tfind_agree compare (fds s) _ f s.by_fd
            (λ q m. kept_outside s s.next _ (λ w. w.fd) q (fresh_outside v) (sym (v.same_fd q) ∙ m))
          ∙ h

  handle_join-Absent :
      (fd : ℕ) (m : MsgJoin) (s : Server)
      → Inv s
      → fd ≢ f
      → Absent s
      → Ensures Absent (handle_join fd m s)
  unfolding handle_join answer_join
  handle_join-Absent fd m s v ne h =
      Ensures-bind _ _ (user_add-Absent fd m.nickname s v ne h) λ (p, e, t) _ w. answer p e t w
    where
      answer :
          (p : Option Ptr) (e : MsgErr) (t : Server)
          → Absent t
          → Ensures Absent (answer_join fd m (p, e, t))
      answer p me_ok t w = Ensures-deref _ _ λ q _. returns (
          Absent-Frame
            (Frame-trans (Frame-trans (send-Frame t fd _) (send_all_info-Frame fd _))
              (send_new_info-Frame fd q _))
            w)
      answer p e t w = returns (Absent-Frame (send-Frame t fd _) w)

  handle_quit-Absent :
      (m : MsgQuit) (s : Server) → Inv s → Absent s → Ensures Absent (handle_quit m s)
  unfolding handle_quit
  handle_quit-Absent m s v h =
      Ensures-if_null _ _ _ (λ _. returns h)
        λ p e.
          Ensures-if ((s.users p).key == m.key) _ _
            (λ _. quit_user-Absent p s v (found_inside s m.id p e) h) λ _. returns h

  handle_body-Absent :
      (fd : ℕ) (msg : Message) (b : Body) (s : Server)
      → Inv s
      → fd ≢ f
      → Absent s
      → Ensures Absent (handle_body fd msg b s)
  unfolding handle_body
  handle_body-Absent fd msg (join m) s v ne h = handle_join-Absent fd m s v ne h
  handle_body-Absent fd msg (quit m) s v ne h = handle_quit-Absent m s v h
  handle_body-Absent fd msg (challenge m) s v ne h = framed-Absent h (handle_challenge-Frame fd m s)
  handle_body-Absent fd msg (turn m) s v ne h = framed-Absent h (handle_turn-Frame m s)
  handle_body-Absent fd msg (sendmsg m) s v ne h =
      returns (Absent-Frame (handle_sendmsg-Frame msg m s) h)
  handle_body-Absent fd msg b s v ne h = returns h

  handle_any_disconnect-Absent :
      (fd : ℕ) (s : Server) → Inv s → Absent s → Ensures Absent (handle_disconnect fd s)
  unfolding handle_disconnect
  handle_any_disconnect-Absent fd s v h =
      Ensures-if_null _ _ _ (λ _. returns h)
        λ p e. quit_user-Absent p s v (sym (v.same_fd p) ∙ found_fd_inside s fd p e) h

  pub handle_entry-Absent :
      (e : Entry) (s : Server) → Inv s → fd_of e ≢ f → Absent s → Ensures Absent (handle_entry e s)
  unfolding handle_entry
  handle_entry-Absent (emsg fd msg) s v ne h = handle_body-Absent fd msg msg.body s v ne h
  handle_entry-Absent (edisconn fd) s v ne h = handle_any_disconnect-Absent fd s v h
