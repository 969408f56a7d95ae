-- ===== src/Client/Login/Connected.antt =====
-- The login and the thread that receives for it: what happens when the connection is lost before the
-- server has answered.
use janken.Base.{
  ℕ, ◌≡◌, refl, ◌∙◌, ap, Bool, true, false, not, ◌&&◌, arith, Option, none, some, List, [], ◌∷◌,
  map, if-false,
}
use janken.Message.{
  Message, Body, join, join_r, quit, uchange, challenge, challenge_r, turn, turn_r, sendmsg,
}
use janken.Client.Receive.{um_disconn, um_recv}
use janken.Client.Worker.{io_worker_in}
use janken.Client.Login.{
  Keys, wait_msg, Login, Inputs, disconnected, handle_packet, handle_message, step_in, step,
  ui_login,
}

abbrev pub is_join_r : Body → Bool
is_join_r (join_r r) = true
is_join_r (join m) = false
is_join_r (quit m) = false
is_join_r (uchange m) = false
is_join_r (challenge m) = false
is_join_r (challenge_r m) = false
is_join_r (turn m) = false
is_join_r (turn_r m) = false
is_join_r (sendmsg m) = false

-- A call of `msg_recv` fails before a JOIN_R is received.
abbrev pub is_unanswered : List (Option Message) → Bool
is_unanswered [] = false
is_unanswered (none ∷ rs) = true
is_unanswered (some msg ∷ rs) = not (is_join_r msg.body) && is_unanswered rs

-- The login waits: it reads no key.
pub record Waits (l : Login) : Type 0 where
  pub state : l.state ≡ wait_msg
  pub going : l.done ≡ false

-- The login waits, without a connection, and says why.
pub record Stuck (err : ℕ) (l : Login) : Type 0 where
  pub state : l.state ≡ wait_msg
  pub going : l.done ≡ false
  pub connected : l.connected ≡ false
  pub info : l.info ≡ disconnected err

module _ (k : Keys) where
  -- A round of a login that waits.
  waiting_step :
      (i : Inputs) (is : List Inputs) (l : Login)
      → Waits l
      → ui_login k (i ∷ is) l ≡ ui_login k is (handle_message i.message l)
  unfolding ui_login step step_in
  waiting_step i is l w = if-false _ _ w.going ∙ rw w.state refl

  other_packet-Waits :
      (msg : Message) (b : Body) (l : Login)
      → is_join_r b ≡ false
      → Waits l
      → Waits (handle_packet msg b l)
  unfolding handle_packet
  other_packet-Waits msg (join_r r) l e w = cc
  other_packet-Waits msg b l e w = record { state = w.state; going = w.going }

  -- The thread that receives puts what it gets before the connection is lost in the queue, and after it
  -- one notice: nothing follows. Where no JOIN_R is among it, a login that waits for the answer takes all
  -- of it and still waits for an answer, with no connection left and no key read: it hangs.
  pub ui_login-io_worker_in :
      (err : ℕ) (rs : List (Option Message)) (is : List Inputs) (l : Login)
      → is_unanswered rs ≡ true
      → map (λ i. i.message) is ≡ io_worker_in err rs
      → Waits l
      → (l' : Login) × (ui_login k is l ≡ some l') × Stuck err l'
  unfolding io_worker_in handle_message ui_login
  ui_login-io_worker_in err [] is l h q w = cc
  ui_login-io_worker_in err (none ∷ rs) [] l h q w = cc
  ui_login-io_worker_in err (none ∷ rs) (i ∷ j ∷ is) l h q w = cc
  ui_login-io_worker_in err (none ∷ rs) (i ∷ []) l h q w = (
    handle_message (um_disconn err) l,
    waiting_step i [] l w
        ∙ ap (λ m. some (handle_message m l)) {x = i.message} {y = um_disconn err} (cc (q)),
    record { state = w.state; going = w.going; connected = refl; info = refl },
  )
  ui_login-io_worker_in err (some msg ∷ rs) [] l h q w = cc
  ui_login-io_worker_in err (some msg ∷ rs) (i ∷ is) l h q w =
      let (l', e, s) =
        ui_login-io_worker_in err rs is (handle_packet msg msg.body l) (ground arith) (cc (q))
          (other_packet-Waits msg msg.body l (ground arith) w) in
      (
        l',
        waiting_step i is l w
            ∙ ap (λ m. ui_login k is (handle_message m l)) {x = i.message} {y = um_recv msg}
                (cc (q))
            ∙ e,
        s,
      )
