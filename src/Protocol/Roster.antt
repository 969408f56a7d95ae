-- ===== src/Protocol/Roster.antt =====
-- The users on the server and the user list of a client that has just joined.
use janken.Base.{
  subst, if-true, if-false, ==_iff, ==_refl, ℕ, compare, Ordering, Ordering-cases, ◌≡◌, ◌≢◌, refl,
  sym, ◌∙◌, ap, Bool, true, false, ◌||◌, Option, none, some, inl, inr, List, [], ◌∷◌, ◌++◌, arith,
  map, take, ◌==◌, if◌then◌else◌,
}
use janken.Text.{c_str}
use janken.Text.Buffer.{take-take, c_str-snprintf}
use janken.Tree.{tfind}
use janken.Tree.Laws.{mem, Sorted, Below, Below-trans, tfind-Below, compare-IsOrder}
use janken.Message.{Message, UserEntry, state_code, fill_entry, zero_name}
use janken.Message.Filled.{taken}
use janken.Server.{Server, User, Ptr, ids, find_id}
use janken.Server.Notify.{send_all_info}
use janken.Server.Broadcast.{sends}
use janken.Server.Broadcast.Chunks.{
  entry_of, entries_of, packet_of, packets, concat, send_all_info_lem,
}
use janken.Client.{Client, goes, ◌>>=◌}
use janken.Client.Receive.{
  um_recv, apply_changes, handle_uchange, handle_body, handle_ui_msg, receive,
}
use janken.Client.Users.{Info, Inv, said_info}
use janken.Client.Users.Change.{known}
use janken.Client.Users.Packet.{after, after_agree, dismisses, apply_changes_lem}

-- What the server has of a user, by id, as a client is to know it.
abbrev pub user_info : User → Option Info
user_info u =
    if state_code u.state == 0
    then none
    else some (record {
      nickname = take 31 (c_str u.nickname);
      state = state_code u.state;
      score = u.score;
    })

abbrev pub server_info : Server → ℕ → Option Info
server_info s k = elim (find_id s k) [ none ↦ none | some p ↦ user_info (s.users p) ]

pub said_info-entry_of : (u : User) → said_info (entry_of u) ≡ user_info u
unfolding fill_entry
said_info-entry_of u = λ i.
    if state_code u.state == 0
    then none
    else some (record { nickname = name i; state = state_code u.state; score = u.score })
  where
    name : take 31 (c_str (entry_of u).nickname) ≡ take 31 (c_str u.nickname)
    name = ap (take 31) (c_str-snprintf zero_name u.nickname) ∙ take-take 31 (c_str u.nickname)

pub eq_of_compare : (a b : ℕ) → compare a b ≡ Ordering.eq → a ≡ b
eq_of_compare a b h = ground arith

-- Entries of an ordered tree's users, entered into a map.
after-entries_of :
    (s : Server) (t : List Ptr) (f : ℕ → Option Info) (k : ℕ)
    → Sorted compare (ids s) t
    → after (entries_of s t) f k
      ≡ elim (tfind compare (ids s) k t) [ none ↦ f k | some p ↦ user_info (s.users p) ]
unfolding after tfind fill_entry
after-entries_of s [] f k h = refl
after-entries_of s (p ∷ t) f k (b, h) =
    after-entries_of s t f' k h ∙ elim (Ordering-cases (compare k (ids s p))) [
      | inl o ↦
          let absent =
            tfind-Below compare-IsOrder (ids s) k t
              (Below-trans compare-IsOrder (ids s) k (ids s p) t o b) in
          met none absent ∙ other (ground (arith, o)) ∙ sym (stopped Ordering.lt o)
      | inr (inl o) ↦
          let same = eq_of_compare k (ids s p) o in
          let absent =
            tfind-Below compare-IsOrder (ids s) k t
              (subst (λ j. Below compare (ids s) j t) (sym same) b) in
          met none absent
          ∙ if-true _ _ ((==_iff k (ids s p)).1 same)
          ∙ said_info-entry_of (s.users p)
          ∙ sym (stopped Ordering.eq o)
      | inr (inr o) ↦ further (ground (arith, o)) ∙ sym (stopped Ordering.gt o)
    ]
  where
    f' : ℕ → Option Info
    f' j = if j == ids s p then said_info (entry_of (s.users p)) else f j

    found : (ℕ → Option Info) → Option Ptr → Option Info
    found g o = elim o [ none ↦ g k | some q ↦ user_info (s.users q) ]

    met :
        (o : Option Ptr)
        → tfind compare (ids s) k t ≡ o
        → found f' (tfind compare (ids s) k t) ≡ found f' o
    met o e = ap (found f') e

    other : (k == ids s p) ≡ false → f' k ≡ f k
    other e = if-false _ _ e

    further :
        (k == ids s p) ≡ false
        → found f' (tfind compare (ids s) k t) ≡ found f (tfind compare (ids s) k t)
    further e = either (tfind compare (ids s) k t)
      where
        either : (o : Option Ptr) → found f' o ≡ found f o
        either none = other e
        either (some q) = refl

    stopped :
        (o : Ordering)
        → compare k (ids s p) ≡ o
        → found f (tfind compare (ids s) k (p ∷ t))
          ≡ found f (elim o [
            | Ordering.lt ↦ none
            | Ordering.eq ↦ some p
            | Ordering.gt ↦ tfind compare (ids s) k t
          ])
    stopped o e =
        ap
          (λ r. found f (elim r [
            | Ordering.lt ↦ none
            | Ordering.eq ↦ some p
            | Ordering.gt ↦ tfind compare (ids s) k t
          ]))
          e

after-append :
    (es fs : List UserEntry) (f : ℕ → Option Info) (k : ℕ)
    → after (es ++ fs) f k ≡ after fs (after es f) k
unfolding after
after-append [] fs f k = refl
after-append (e ∷ es) fs f k = after-append es fs _ k

dismisses-append :
    (es fs : List UserEntry) (id : ℕ)
    → dismisses (es ++ fs) id ≡ (dismisses es id || dismisses fs id)
unfolding dismisses
dismisses-append [] fs id = refl
dismisses-append (e ∷ es) fs id = ground (arith, dismisses-append es fs id)

-- The entries do not say that a user is offline who is not.
dismisses-entries_of :
    (s : Server) (id : ℕ) (t : List Ptr)
    → ((p : Ptr) → mem p t ≡ true → ids s p ≡ id → state_code (s.users p).state ≢ 0)
    → dismisses (entries_of s t) id ≡ false
unfolding dismisses fill_entry
dismisses-entries_of s id [] h = refl
dismisses-entries_of s id (p ∷ t) h = ground (
  arith,
  dismisses-entries_of s id t (λ q m. h q (ground (arith, m))),
  h p (ground (arith, ==_refl p)),
)

-- Packets one after the other are their entries one after the other.
receive-chunks :
    (chunks : List (List UserEntry)) (c : Client)
    → Inv c
    → dismisses (concat chunks) c.gs.id ≡ false
    → (c' : Client) × (receive (map (λ es. um_recv (packet_of es)) chunks) c ≡ goes c')
      × Inv c'
      × ((k : ℕ) → known c' k ≡ after (concat chunks) (known c) k)
unfolding receive handle_ui_msg handle_body handle_uchange ◌>>=◌ dismisses after
receive-chunks [] c v h = (c, refl, v, λ k. refl)
receive-chunks (es ∷ chunks) c v h =
    let (c1, e1, v1, i1, u1) = apply_changes_lem es c v (or_left _ _ split) in
    let (c2, e2, v2, u2) =
      receive-chunks chunks c1 v1
        (ap (dismisses (concat chunks)) i1 ∙ or_right (dismisses es c.gs.id) _ split) in
    (
      c2,
      ap (λ l. apply_changes l c >>= receive (map (λ es. um_recv (packet_of es)) chunks)) (taken es)
          ∙ ap (λ f. f >>= receive (map (λ es. um_recv (packet_of es)) chunks)) e1
          ∙ e2,
      v2,
      λ k.
          u2 k
          ∙ after_agree (concat chunks) (known c1) _ k u1
          ∙ sym (after-append es (concat chunks) (known c) k),
    )
  where
    split : (dismisses es c.gs.id || dismisses (concat chunks) c.gs.id) ≡ false
    split = sym (dismisses-append es (concat chunks) c.gs.id) ∙ h

    or_left : (a b : Bool) → (a || b) ≡ false → a ≡ false
    or_left a b e = ground arith

    or_right : (a b : Bool) → (a || b) ≡ false → b ≡ false
    or_right a b e = ground arith

-- What a new user is sent of the users on the server, received by a client that knows of none: no
-- assertion fails, and afterwards it knows exactly the users of the server, with their nicknames,
-- states and scores. The server's id tree is ordered, the client's user list sound, and the client's
-- own user, if it is in the tree, not offline there.
pub receive-send_all_info :
    (fd : ℕ) (s : Server) (c : Client)
    → Sorted compare (ids s) s.by_id
    → Inv c
    → ((k : ℕ) → known c k ≡ none)
    → ((p : Ptr) → mem p s.by_id ≡ true → ids s p ≡ c.gs.id → state_code (s.users p).state ≢ 0)
    → (l : List Message) × (send_all_info fd s ≡ sends s (map (λ msg. (fd, msg)) l))
      × ((c' : Client) × (receive (map um_recv l) c ≡ goes c')
          × Inv c'
          × ((k : ℕ) → known c' k ≡ server_info s k))
unfolding find_id
receive-send_all_info fd s c o v none_known own =
    let (chunks, e1, f, e2) = send_all_info_lem fd s in
    let stays = ap (λ es. dismisses es c.gs.id) e2 ∙ dismisses-entries_of s c.gs.id s.by_id own in
    let (c', e3, w, u) = receive-chunks chunks c v stays in
    (
      map packet_of chunks,
      e1 ∙ ap (sends s) (split_pairs chunks),
      (
        c',
        ap (λ ums. receive ums c) (split_received chunks) ∙ e3,
        w,
        λ k.
            u k
            ∙ ap (λ es. after es (known c) k) e2
            ∙ after_agree (entries_of s s.by_id) (known c) (λ j. none) k none_known
            ∙ after-entries_of s s.by_id (λ j. none) k o,
      ),
    )
  where
    split_pairs :
        (chunks : List (List UserEntry))
        → packets fd chunks ≡ map (λ msg. (fd, msg)) (map packet_of chunks)
    split_pairs [] = refl
    split_pairs (es ∷ chunks) = ap (◌∷◌ (fd, packet_of es)) (split_pairs chunks)

    split_received :
        (chunks : List (List UserEntry))
        → map um_recv (map packet_of chunks) ≡ map (λ es. um_recv (packet_of es)) chunks
    split_received [] = refl
    split_received (es ∷ chunks) = ap (◌∷◌ (um_recv (packet_of es))) (split_received chunks)
