-- ===== src/Client/Login/Nickname.antt =====
-- The nickname that is typed: what its buffer holds, and that Enter refuses the empty one alone.
use janken.Base.{
  ℕ, zero, suc, ◌+◌, ◌-◌, ◌%◌, ◌≤◌, ◌<◌, ◌≡◌, ◌≢◌, refl, sym, ◌∙◌, ap, Bool, true, false, not,
  Option, none, some, Bool-cases, inl, inr, List, [], ◌∷◌, arith, leb, ltb, ◌==◌, if◌then◌else◌,
  set, get_elem?, ==_iff, subst, get_elem?-set_self, get_elem?-set_ne, length, length-set,
  replicate, if-true, if-false, if_cases,
}
use janken.Text.{nickname_len, is_nickchar, is_nickstr, c_str}
use janken.Text.Nick.{visible, all_visible, is_nickchar-visible, is_nickstr_lem}
use janken.Message.{
  Message, Body, join, join_r, quit, uchange, challenge, challenge_r, turn, turn_r, sendmsg,
  make_join,
}
use janken.Client.Login.{
  Keys, LoginState, wait_input, to_connect, send_join, wait_msg, success, is_bksp, is_arrow,
  no_info, connect_failed, Login, Inputs, ui_login_begin, erase, type_char, enter, handle_input,
  handle_connect, handle_send, handle_reply, handle_packet, handle_message, step_in, step, ui_login,
}
use janken.Client.Receive.{UiMsg, um_disconn, um_recv}

abbrev is_visible : Option ℕ → Bool
is_visible none = false
is_visible (some c) = visible c

abbrev visible_at : List ℕ → ℕ → Bool
visible_at buf i = is_visible (get_elem? buf i)

-- A read after a write that is in bounds.
get_elem?-set :
    (buf : List ℕ) (i j v : ℕ)
    → i < length buf
    → get_elem? (set buf i v) j ≡ (if j == i then some v else get_elem? buf j)
get_elem?-set buf i j v h = elim (Bool-cases (j == i)) [
  | inl e ↦
      ap (get_elem? (set buf i v)) ((==_iff j i).0 e)
      ∙ get_elem?-set_self buf i v h
      ∙ sym (if-true _ _ e)
  | inr e ↦ get_elem?-set_ne buf i j v (λ x. ne j i e (sym x)) ∙ sym (if-false _ _ e)
]
  where
    ne : (a b : ℕ) → (a == b) ≡ false → a ≢ b
    ne a b f g = ground arith

-- The buffer holds `n` visible characters, and then NULs.
pub record Typed (buf : List ℕ) (n : ℕ) : Type 0 where
  pub room : n < nickname_len
  pub size : length buf ≡ nickname_len
  pub chars : (i : ℕ) → i < n → visible_at buf i ≡ true
  pub nuls : (i : ℕ) → n ≤ i → i < nickname_len → get_elem? buf i ≡ some 0

-- The string of such a buffer.
c_str-visible :
    (buf : List ℕ) (n : ℕ)
    → n < length buf
    → ((i : ℕ) → i < n → visible_at buf i ≡ true)
    → get_elem? buf n ≡ some 0
    → (length (c_str buf) ≡ n) × (all_visible (c_str buf) ≡ true)
unfolding all_visible
c_str-visible [] n h v z = elim h [ ]
c_str-visible (c ∷ buf) zero h v z = ground arith
c_str-visible (c ∷ buf) (suc n) h v z = ground (
  arith,
  v 0 (omega arith),
  c_str-visible buf n (omega arith) (λ i lt. v (suc i) (omega arith)) z,
)

is_nickstr-Typed : (buf : List ℕ) (n : ℕ) → Typed buf n → is_nickstr buf ≡ ltb 0 n
is_nickstr-Typed buf n t =
    let (e, v) =
      c_str-visible buf n (omega (arith, t.room, t.size)) t.chars (t.nuls n (omega arith) t.room) in
    is_nickstr_lem buf ∙ ground (arith, e, v, t.room)

begin-Typed : (fd : Option ℕ) → Typed (ui_login_begin fd).nick_buf (ui_login_begin fd).nick_len
unfolding ui_login_begin
begin-Typed fd = record {
  room = omega arith;
  size = refl;
  chars = λ i h. elim h [ ];
  nuls = λ i h lt. zeros 32 i lt;
}
  where
    zeros : (n i : ℕ) → i < n → get_elem? {A = ℕ} (replicate n 0) i ≡ some 0
    zeros zero i h = elim h [ ]
    zeros (suc n) zero h = refl
    zeros (suc n) (suc i) h = zeros n i (omega arith)

erased-Typed : (buf : List ℕ) (n : ℕ) → Typed buf (suc n) → Typed (set buf n 0) n
erased-Typed buf n t = record {
  room = omega (arith, t.room);
  size = length-set buf n 0 ∙ t.size;
  chars = λ i h. ground (arith, t.chars i, t.room, t.size, get_elem?-set buf n i 0);
  nuls = λ i h lt. ground (arith, t.nuls i, t.room, t.size, get_elem?-set buf n i 0);
}

added-Typed :
    (buf : List ℕ) (n c : ℕ)
    → visible c ≡ true
    → n + 1 < nickname_len
    → Typed buf n
    → Typed (set (set buf n c) (n + 1) 0) (n + 1)
added-Typed buf n c v room t = record {
  room = room;
  size = length-set (set buf n c) (n + 1) 0 ∙ length-set buf n c ∙ t.size;
  chars = λ i h. ground (
    arith,
    t.chars i,
    v,
    t.room,
    t.size,
    length-set buf n c,
    get_elem?-set buf n i c,
    get_elem?-set (set buf n c) (n + 1) i 0,
  );
  nuls = λ i h lt. ground (
    arith,
    t.nuls i,
    t.room,
    t.size,
    length-set buf n c,
    get_elem?-set buf n i c,
    get_elem?-set (set buf n c) (n + 1) i 0,
  );
}

abbrev pub Sound : Login → Type 0
Sound l = Typed l.nick_buf l.nick_len

-- A key keeps the buffer in order.
module _ (l : Login) (t : Sound l) where
  erase-Sound : Sound (erase l)
  unfolding erase
  erase-Sound =
      if_cases Sound (leb 1 l.nick_len)
        (λ e. erased-Typed l.nick_buf (l.nick_len - 1) (subst (Typed l.nick_buf) (one e) t))
        (λ e. t)
    where
      one : leb 1 l.nick_len ≡ true → l.nick_len ≡ suc (l.nick_len - 1)
      one e = ground arith

  type_char-Sound : (key : ℕ) → Sound (type_char key l)
  unfolding type_char
  type_char-Sound key =
      if_cases Sound (not (is_nickchar (key % 256))) (λ e. t)
        (λ e.
          if_cases Sound (leb nickname_len (l.nick_len + 1)) (λ f. t)
            (λ f. added-Typed l.nick_buf l.nick_len (key % 256) (typed e) (room f) t))
    where
      typed : not (is_nickchar (key % 256)) ≡ false → visible (key % 256) ≡ true
      typed e = ground (arith, e, is_nickchar-visible (key % 256))

      room : leb nickname_len (l.nick_len + 1) ≡ false → l.nick_len + 1 < nickname_len
      room f = ground arith

  handle_input-Sound : (k : Keys) (key : ℕ) → Sound (handle_input k key l)
  unfolding handle_input enter
  handle_input-Sound k key =
      if_cases Sound (key == 10) (λ e. if_cases Sound (is_nickstr l.nick_buf) (λ f. t) (λ f. t))
        (λ e.
          if_cases Sound (is_bksp k key) (λ f. erase-Sound)
            (λ f. if_cases Sound (is_arrow k key) (λ g. t) (λ g. type_char-Sound key)))

-- What every state of the login has.
pub record Ready (l : Login) : Type 0 where
  pub typed : Typed l.nick_buf l.nick_len
  pub joins : l.state ≡ send_join → l.connected ≡ true

pub begin-Ready : (fd : Option ℕ) → Ready (ui_login_begin fd)
unfolding ui_login_begin
begin-Ready fd = record { typed = begin-Typed fd; joins = λ e. cc }

abbrev pub Idle : Login → Type 0
Idle l = l.state ≢ send_join

handle_input-Idle :
    (k : Keys) (key : ℕ) (l : Login) → l.state ≡ wait_input → Idle (handle_input k key l)
unfolding handle_input enter erase type_char
handle_input-Idle k key l e =
    if_cases Idle (key == 10) (λ t. if_cases Idle (is_nickstr l.nick_buf) (λ f g. cc) (λ f g. cc))
      (λ t.
        if_cases Idle (is_bksp k key)
          (λ f. if_cases Idle (leb 1 l.nick_len) (λ g h. cc) (λ g h. cc))
          (λ f.
            if_cases Idle (is_arrow k key) (λ g h. cc)
              (λ g.
                if_cases Idle (not (is_nickchar (key % 256))) (λ n h. cc)
                  (λ n.
                    if_cases Idle (leb nickname_len (l.nick_len + 1)) (λ m h. cc) (λ m h. cc)))))

handle_input-Ready :
    (k : Keys) (key : ℕ) (l : Login) → Sound l → l.state ≡ wait_input → Ready (handle_input k key l)
handle_input-Ready k key l t e = record {
  typed = handle_input-Sound l t k key;
  joins = λ f. elim (handle_input-Idle k key l e f) [ ];
}

handle_connect-Ready : (i : Option ℕ) (l : Login) → Sound l → Ready (handle_connect i l)
unfolding handle_connect
handle_connect-Ready i l t =
    if_cases Ready l.connected (λ e. record { typed = t; joins = λ f. e }) (λ e. connects i)
  where
    connects :
        (i : Option ℕ)
        → Ready (elim i [
          | none ↦ record l { fd = none; info = connect_failed; state = wait_input }
          | some n ↦ record l { fd = some n; connected = true; state = send_join }
        ])
    connects none = record { typed = t; joins = λ f. cc }
    connects (some n) = record { typed = t; joins = λ f. refl }

handle_packet-Ready :
    (msg : Message) (b : Body) (l : Login)
    → Sound l
    → l.state ≡ wait_msg
    → Ready (handle_packet msg b l)
unfolding handle_packet handle_reply
handle_packet-Ready msg (join_r r) l t e =
    if_cases Ready (r.error == 0) (λ g. record { typed = t; joins = λ f. cc })
      (λ g. record { typed = t; joins = λ f. cc })
handle_packet-Ready msg (join m) l t e = record { typed = t; joins = λ f. cc }
handle_packet-Ready msg (quit m) l t e = record { typed = t; joins = λ f. cc }
handle_packet-Ready msg (uchange m) l t e = record { typed = t; joins = λ f. cc }
handle_packet-Ready msg (challenge m) l t e = record { typed = t; joins = λ f. cc }
handle_packet-Ready msg (challenge_r m) l t e = record { typed = t; joins = λ f. cc }
handle_packet-Ready msg (turn m) l t e = record { typed = t; joins = λ f. cc }
handle_packet-Ready msg (turn_r m) l t e = record { typed = t; joins = λ f. cc }
handle_packet-Ready msg (sendmsg m) l t e = record { typed = t; joins = λ f. cc }

handle_message-Ready :
    (u : UiMsg) (l : Login) → Sound l → l.state ≡ wait_msg → Ready (handle_message u l)
unfolding handle_message
handle_message-Ready (um_disconn err) l t e = record { typed = t; joins = λ f. cc }
handle_message-Ready (um_recv msg) l t e = handle_packet-Ready msg msg.body l t e

-- Every round goes on, in a state that is ready again.
step_in-Ready :
    (k : Keys) (i : Inputs) (s : LoginState) (l : Login)
    → l.state ≡ s
    → Ready l
    → (l' : Login) × (step_in k s i l ≡ some l') × Ready l'
unfolding step_in handle_send make_join
step_in-Ready k i wait_input l e r =
    (_, refl, handle_input-Ready k i.key (record l { info = no_info }) r.typed e)
step_in-Ready k i to_connect l e r = (_, refl, handle_connect-Ready i.connect l r.typed)
step_in-Ready k i send_join l e r =
    (_, if-true _ _ (r.joins e), record { typed = r.typed; joins = λ f. cc })
step_in-Ready k i wait_msg l e r = (_, refl, handle_message-Ready i.message l r.typed e)
step_in-Ready k i success l e r = (_, refl, record { typed = r.typed; joins = λ f. cc })

ui_login-Ready :
    (k : Keys) (is : List Inputs) (l : Login)
    → Ready l
    → (l' : Login) × (ui_login k is l ≡ some l') × Ready l'
unfolding ui_login step
ui_login-Ready k [] l r = (l, refl, r)
ui_login-Ready k (i ∷ is) l r =
    let (l1, e1, r1) = step_in-Ready k i l.state l refl r in
    let (l2, e2, r2) = ui_login-Ready k is l1 r1 in
    elim (Bool-cases l.done) [
      | inl e ↦ (l, if-true _ _ e, r)
      | inr e ↦ (l2, if-false _ _ e ∙ rw e1 e2, r2)
    ]

-- Whatever is typed, answered and received, the login's assertion on the connection holds, the buffer of
-- the nickname is written in its bounds, and Enter refuses the empty nickname alone.
pub ui_login_succeeds :
    (k : Keys) (fd : Option ℕ) (is : List Inputs)
    → (l : Login) × (ui_login k is (ui_login_begin fd) ≡ some l)
      × (l.nick_len < nickname_len)
      × (length l.nick_buf ≡ nickname_len)
      × (is_nickstr l.nick_buf ≡ ltb 0 l.nick_len)
ui_login_succeeds k fd is =
    let (l, e, r) = ui_login-Ready k is (ui_login_begin fd) (begin-Ready fd) in
    (l, e, r.typed.room, r.typed.size, is_nickstr-Typed l.nick_buf l.nick_len r.typed)
