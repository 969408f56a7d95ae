-- ===== src/Client/Login/Joined.antt =====
-- What the login hands over to `ui_main`.
use janken.Base.{
  ℕ, ◌+◌, ◌%◌, ◌≡◌, ◌≢◌, refl, sym, ◌∙◌, subst, true, not, Option, none, some, List, [], ◌∷◌, arith,
  leb, ◌==◌, if_cases,
}
use janken.Text.{nickname_len, is_nickchar, is_nickstr}
use janken.Message.{
  Message, Body, join, join_r, quit, uchange, challenge, challenge_r, turn, turn_r, sendmsg,
  MsgJoinR, make_join,
}
use janken.Client.Receive.{UiMsg, um_disconn, um_recv}
use janken.Client.Login.{
  Keys, LoginState, wait_input, to_connect, send_join, wait_msg, success, is_bksp, is_arrow, Login,
  Inputs, no_info, ui_login_begin, erase, type_char, enter, handle_input, handle_connect,
  handle_send, handle_reply, handle_packet, handle_message, step_in, step, ui_login,
}

-- A JOIN_R without an error: what `ui_main` asserts of the packet that it is given.
abbrev pub Accepted : Option Message → Type 0
Accepted none = ⊥
Accepted (some msg) = (r : MsgJoinR) × (msg.body ≡ join_r r) × (r.error ≡ 0)

record Joined (l : Login) : Type 0 where
  succeeds : l.state ≡ success → Accepted l.join_msg
  ends : l.done ≡ true → Accepted l.join_msg

-- Most rounds leave the packet alone and do not succeed.
abbrev Kept : Login → Login → Type 0
Kept l l' = (l'.state ≢ success) × (l'.done ≡ l.done) × (l'.join_msg ≡ l.join_msg)

Kept-Joined : (l l' : Login) → Kept l l' → Joined l → Joined l'
Kept-Joined l l' (s, d, m) j = record {
  succeeds = λ e. elim (s e) [ ];
  ends = λ e. subst Accepted (sym m) (j.ends (sym d ∙ e));
}

handle_input-Kept :
    (k : Keys) (key : ℕ) (l : Login) → l.state ≡ wait_input → Kept l (handle_input k key l)
unfolding handle_input enter erase type_char
handle_input-Kept k key l e =
    if_cases (Kept l) (key == 10)
      (λ t.
        if_cases (Kept l) (is_nickstr l.nick_buf) (λ f. (λ g. cc, refl, refl))
          (λ f. (λ g. cc, refl, refl)))
      (λ t.
        if_cases (Kept l) (is_bksp k key)
          (λ f.
            if_cases (Kept l) (leb 1 l.nick_len) (λ g. (λ h. cc, refl, refl))
              (λ g. (λ h. cc, refl, refl)))
          (λ f.
            if_cases (Kept l) (is_arrow k key) (λ g. (λ h. cc, refl, refl))
              (λ g.
                if_cases (Kept l) (not (is_nickchar (key % 256))) (λ n. (λ h. cc, refl, refl))
                  (λ n.
                    if_cases (Kept l) (leb nickname_len (l.nick_len + 1))
                      (λ m. (λ h. cc, refl, refl)) (λ m. (λ h. cc, refl, refl))))))

handle_connect-Kept : (i : Option ℕ) (l : Login) → Kept l (handle_connect i l)
unfolding handle_connect
handle_connect-Kept none l =
    if_cases (Kept l) l.connected (λ e. (λ h. cc, refl, refl)) (λ e. (λ h. cc, refl, refl))
handle_connect-Kept (some n) l =
    if_cases (Kept l) l.connected (λ e. (λ h. cc, refl, refl)) (λ e. (λ h. cc, refl, refl))

handle_reply-Joined :
    (msg : Message) (r : MsgJoinR) (l : Login)
    → msg.body ≡ join_r r
    → Joined l
    → Joined (handle_reply msg r l)
unfolding handle_reply
handle_reply-Joined msg r l b j =
    if_cases Joined (r.error == 0)
      (λ e.
        let a : Accepted (some msg) = (r, b, ground arith) in
        record { succeeds = λ _. a; ends = λ _. a })
      (λ e. Kept-Joined l _ (λ h. cc, refl, refl) j)

handle_packet-Joined :
    (msg : Message) (b : Body) (l : Login)
    → msg.body ≡ b
    → l.state ≡ wait_msg
    → Joined l
    → Joined (handle_packet msg b l)
unfolding handle_packet
handle_packet-Joined msg (join_r r) l b e j = handle_reply-Joined msg r l b j
handle_packet-Joined msg (join m) l b e j = Kept-Joined l _ (λ h. cc, refl, refl) j
handle_packet-Joined msg (quit m) l b e j = Kept-Joined l _ (λ h. cc, refl, refl) j
handle_packet-Joined msg (uchange m) l b e j = Kept-Joined l _ (λ h. cc, refl, refl) j
handle_packet-Joined msg (challenge m) l b e j = Kept-Joined l _ (λ h. cc, refl, refl) j
handle_packet-Joined msg (challenge_r m) l b e j = Kept-Joined l _ (λ h. cc, refl, refl) j
handle_packet-Joined msg (turn m) l b e j = Kept-Joined l _ (λ h. cc, refl, refl) j
handle_packet-Joined msg (turn_r m) l b e j = Kept-Joined l _ (λ h. cc, refl, refl) j
handle_packet-Joined msg (sendmsg m) l b e j = Kept-Joined l _ (λ h. cc, refl, refl) j

handle_message-Joined :
    (u : UiMsg) (l : Login) → l.state ≡ wait_msg → Joined l → Joined (handle_message u l)
unfolding handle_message
handle_message-Joined (um_disconn err) l e j = Kept-Joined l _ (λ h. cc, refl, refl) j
handle_message-Joined (um_recv msg) l e j = handle_packet-Joined msg msg.body l refl e j

abbrev JoinedIf : Option Login → Type 0
JoinedIf none = Unit
JoinedIf (some l) = Joined l

step_in-Joined :
    (k : Keys) (i : Inputs) (s : LoginState) (l : Login)
    → l.state ≡ s
    → Joined l
    → JoinedIf (step_in k s i l)
unfolding step_in handle_send make_join
step_in-Joined k i wait_input l e j =
    Kept-Joined l _ (handle_input-Kept k i.key (record l { info = no_info }) e) j
step_in-Joined k i to_connect l e j = Kept-Joined l _ (handle_connect-Kept i.connect l) j
step_in-Joined k i send_join l e j =
    if_cases JoinedIf l.connected (λ c. Kept-Joined l _ (λ h. cc, refl, refl) j) (λ c. tt)
step_in-Joined k i wait_msg l e j = handle_message-Joined i.message l e j
step_in-Joined k i success l e j = record { succeeds = j.succeeds; ends = λ _. j.succeeds e }

ui_login-Joined : (k : Keys) (is : List Inputs) (l : Login) → Joined l → JoinedIf (ui_login k is l)
unfolding ui_login step
ui_login-Joined k [] l j = j
ui_login-Joined k (i ∷ is) l j =
    if_cases JoinedIf l.done (λ _. j)
      (λ _.
        next (step_in k l.state i l) (step_in-Joined k i l.state l refl j) (ui_login-Joined k is))
  where
    next :
        (r : Option Login)
        → JoinedIf r
        → ((l' : Login) → Joined l' → JoinedIf (ui_login k is l'))
        → JoinedIf (elim r [ none ↦ none | some l' ↦ ui_login k is l' ])
    next none h g = tt
    next (some l') h g = g l' h

-- When the login is done, whatever was typed, answered and received, the packet that it hands to
-- `ui_main` is a JOIN_R without an error, as `ui_main` asserts at its beginning.
pub ui_login-Accepted :
    (k : Keys) (fd : Option ℕ) (is : List Inputs) (l : Login)
    → ui_login k is (ui_login_begin fd) ≡ some l
    → l.done ≡ true
    → Accepted l.join_msg
unfolding ui_login_begin
ui_login-Accepted k fd is l e d = j.ends d
  where
    begins : Joined (ui_login_begin fd)
    begins = record { succeeds = λ h. cc; ends = λ h. cc }

    j : Joined l
    j = subst JoinedIf e (ui_login-Joined k is (ui_login_begin fd) begins)
