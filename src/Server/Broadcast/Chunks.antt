-- ===== src/Server/Broadcast/Chunks.antt =====
-- What `handle_join` tells a new user of the users that are there: packets of at most 16 entries each.
use janken.Base.{
  ℕ, ◌≤◌, ◌<◌, ◌≡◌, refl, sym, ◌∙◌, ap, Bool, true, Bool-cases, ◌⊎◌, ltb→lt, Option, none, some,
  inl, inr, List, [], ◌∷◌, ◌++◌, append-nil, append_assoc, arith, ltb, map, length, length-append,
}
use janken.Message.{Message, UserEntry, MsgUchange, uchange, init_msg_buf, uchange_add_or_create}
use janken.Message.Filled.{filled, new_entry, uchange_add_or_create-filled}
use janken.Server.{Server, User, Ptr, if_null, msg_send}
use janken.Server.Notify.{or_new, keep_or_flush, info_of_one, info_of_all, send_all_info}
use janken.Server.Broadcast.{sends, sends-sends, sends-nil}

-- The entry of a user, and those of a tree's users.
abbrev pub entry_of : User → UserEntry
entry_of u = new_entry u.nickname u.id u.state u.score

abbrev pub entries_of : Server → List Ptr → List UserEntry
entries_of s t = map (λ p. entry_of (s.users p)) t

-- Packets with these lists of entries, to one fd.
abbrev pub packet_of : List UserEntry → Message
packet_of es = init_msg_buf (uchange (filled es))

abbrev pub packets : (fd : ℕ) → List (List UserEntry) → List (ℕ × Message)
packets fd chunks = map (λ es. (fd, packet_of es)) chunks

abbrev pub concat : List (List UserEntry) → List UserEntry
concat [] = []
concat (es ∷ chunks) = es ++ concat chunks

-- No packet is empty, and none has more than 16 entries.
abbrev pub Fitting : List (List UserEntry) → Type 0
Fitting [] = Unit {0}
Fitting (es ∷ chunks) = (1 ≤ length es) × (length es ≤ 16) × Fitting chunks

-- `arg->msg`: NULL before the first user.
abbrev packed : List UserEntry → Option MsgUchange
packed [] = none
packed (e ∷ es) = some (filled (e ∷ es))

packed-append :
    (es : List UserEntry) (e : UserEntry) → packed (es ++ e ∷ []) ≡ some (filled (es ++ e ∷ []))
packed-append [] e = refl
packed-append (x ∷ es) e = refl

or_new-packed : (es : List UserEntry) → or_new (packed es) ≡ filled es
or_new-packed [] = refl
or_new-packed (e ∷ es) = refl

module _ (fd : ℕ) (s : Server) (p : Ptr) (es : List UserEntry) where
  abbrev e : UserEntry
  e = entry_of (s.users p)

  started_lem :
      (o : Bool × MsgUchange × Option MsgUchange)
      → uchange_add_or_create true
          (filled es)
          (s.users p).nickname
          (s.users p).id
          (s.users p).state
          (s.users p).score
        ≡ o
      → info_of_one fd (s, packed es) p ≡ keep_or_flush fd s o.0 o.1 o.2
  unfolding info_of_one
  started_lem o h =
      ap
        (λ m.
          let o =
            uchange_add_or_create true m (s.users p).nickname (s.users p).id (s.users p).state
              (s.users p).score in
          keep_or_flush fd s o.0 o.1 o.2)
        (or_new-packed es)
      ∙ ap (λ o. keep_or_flush fd s o.0 o.1 o.2) h

  -- A user for whom there is room, and one for whom there is none.
  with_room : length es < 16 → info_of_one fd (s, packed es) p ≡ (s, packed (es ++ e ∷ []))
  unfolding keep_or_flush
  with_room h =
      started_lem _ ((uchange_add_or_create-filled es _ _ _ _).0 h)
      ∙ ap (λ m. (s, m)) (sym (packed-append es e))

  without_room :
      16 ≤ length es
      → info_of_one fd (s, packed es) p ≡ (sends s ((fd, packet_of es) ∷ []), packed (e ∷ []))
  unfolding keep_or_flush
  without_room h = started_lem _ ((uchange_add_or_create-filled es _ _ _ _).1 h)

fits : (n : ℕ) → (n < 16) ⊎ (16 ≤ n)
fits n = elim (Bool-cases (ltb n 16)) [
  | inl b ↦ inl (ltb→lt n 16 b)
  | inr b ↦ inr (ground (arith, b))
]

abbrev Walked : (fd : ℕ) → Server → List UserEntry → List Ptr → Type 0
Walked fd s es t =
    (chunks : List (List UserEntry)) × (rest : List UserEntry) × (info_of_all fd (s, packed es) t
      ≡ (sends s (packets fd chunks), packed rest))
    × Fitting chunks
    × (length rest ≤ 16)
    × (concat chunks ++ rest ≡ es ++ entries_of s t)

walk_lem :
    (fd : ℕ) (s : Server) (es : List UserEntry) (t : List Ptr) → length es ≤ 16 → Walked fd s es t
unfolding info_of_all
walk_lem fd s es [] h =
    ([], es, ap (λ s'. (s', packed es)) (sym (sends-nil s)), tt, h, sym (append-nil es))
walk_lem fd s es (p ∷ t) h = elim (fits (length es)) [
  | inl b ↦
      let (chunks, rest, e1, f, k, e2) =
        walk_lem fd s (es ++ entry_of (s.users p) ∷ []) t (longer b) in
      (
        chunks,
        rest,
        ap (λ st. info_of_all fd st t) (with_room fd s p es b) ∙ e1,
        f,
        k,
        e2 ∙ append_assoc es (entry_of (s.users p) ∷ []) (entries_of s t),
      )
  | inr b ↦
      let s' = sends s ((fd, packet_of es) ∷ []) in
      let (chunks, rest, e1, f, k, e2) =
        walk_lem fd s' (entry_of (s.users p) ∷ []) t (omega arith) in
      (
        es ∷ chunks,
        rest,
        ap (λ st. info_of_all fd st t) (without_room fd s p es b)
            ∙ e1
            ∙ ap (λ z. (z, packed rest))
                (sends-sends s ((fd, packet_of es) ∷ []) (packets fd chunks)),
        (omega (arith, b), h, f),
        k,
        append_assoc es (concat chunks) rest ∙ ap (λ l. es ++ l) e2,
      )
]
  where
    longer : length es < 16 → length (es ++ entry_of (s.users p) ∷ []) ≤ 16
    longer b = omega (arith, b, length-append es (entry_of (s.users p) ∷ []))

-- What `send_all_info_lem` says of a new user's fd.
abbrev pub Sent : (fd : ℕ) → Server → Type 0
Sent fd s =
    (chunks : List (List UserEntry)) × (send_all_info fd s ≡ sends s (packets fd chunks))
    × Fitting chunks
    × (concat chunks ≡ entries_of s s.by_id)

Fitting-last :
    (chunks : List (List UserEntry)) (es : List UserEntry)
    → Fitting chunks
    → 1 ≤ length es
    → length es ≤ 16
    → Fitting (chunks ++ es ∷ [])
Fitting-last [] es f h k = (h, k, tt)
Fitting-last (c ∷ chunks) es (a, b, f) h k = (a, b, Fitting-last chunks es f h k)

concat-last :
    (chunks : List (List UserEntry)) (es : List UserEntry)
    → concat (chunks ++ es ∷ []) ≡ concat chunks ++ es
concat-last [] es = append-nil es
concat-last (c ∷ chunks) es =
    ap (λ l. c ++ l) (concat-last chunks es) ∙ sym (append_assoc c (concat chunks) es)

packets-last :
    (fd : ℕ) (chunks : List (List UserEntry)) (es : List UserEntry)
    → packets fd chunks ++ (fd, packet_of es) ∷ [] ≡ packets fd (chunks ++ es ∷ [])
packets-last fd [] es = refl
packets-last fd (c ∷ chunks) es = ap (◌∷◌ (fd, packet_of c)) (packets-last fd chunks es)

-- A new user is told of all users: the packets, none of them empty and none with more than 16 entries,
-- hold together one entry for each user, in the order of the id tree, and nothing else changes.
pub send_all_info_lem : (fd : ℕ) (s : Server) → Sent fd s
unfolding send_all_info if_null
send_all_info_lem fd s =
    let (chunks, rest, e1, f, k, e2) = walk_lem fd s [] s.by_id (omega arith) in
    ends chunks rest e1 f k e2
  where
    ends :
        (chunks : List (List UserEntry)) (rest : List UserEntry)
        → info_of_all fd (s, none) s.by_id ≡ (sends s (packets fd chunks), packed rest)
        → Fitting chunks
        → length rest ≤ 16
        → concat chunks ++ rest ≡ entries_of s s.by_id
        → Sent fd s
    ends chunks [] e1 f k e2 = (
      chunks,
      ap (λ (s', msg). if_null msg s' λ m. msg_send s' fd (init_msg_buf (uchange m))) e1,
      f,
      sym (append-nil (concat chunks)) ∙ e2,
    )
    ends chunks (e ∷ es) e1 f k e2 = (
      chunks ++ (e ∷ es) ∷ [],
      ap (λ (s', msg). if_null msg s' λ m. msg_send s' fd (init_msg_buf (uchange m))) e1
          ∙ sends-sends s (packets fd chunks) ((fd, packet_of (e ∷ es)) ∷ [])
          ∙ ap (sends s) (packets-last fd chunks (e ∷ es)),
      Fitting-last chunks (e ∷ es) f (omega arith) k,
      concat-last chunks (e ∷ es) ∙ e2,
    )
