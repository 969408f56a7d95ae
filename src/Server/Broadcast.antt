-- ===== src/Server/Broadcast.antt =====
-- Who gets a packet that `send_user_info` sends to all, and what SENDMSG does.
pub mod Chunks
use janken.Base.{
  ℕ, ◌≡◌, ◌≢◌, refl, sym, ◌∙◌, ap, Option, none, some, ==_iff, Bool-cases, Option-cases, inl, inr,
  List, [], ◌∷◌, ◌++◌, append-nil, append_assoc, arith, ◌==◌, if◌then◌else◌, ◌⊎◌, if-true, if-false,
}
use janken.Message.{Message, MsgSendmsg}
use janken.Server.{Server, Ptr, fds, find_id}
use janken.Server.Ensures.{if_null-none, if_null-some}
use janken.Server.Notify.{excepted, msg_to_one, msg_to_all}
use janken.Server.Handlers.{wiped, handle_sendmsg}

-- One copy of the packet for each of the users, in their order, but for the excepted fd.
unfoldable pub copies : Option ℕ → Message → List ℕ → List (ℕ × Message)
copies except msg [] = []
copies except msg (fd ∷ t) =
    let rest = copies except msg t in if excepted except fd then rest else (fd, msg) ∷ rest

unfoldable pub fds_of : Server → List Ptr → List ℕ
fds_of s [] = []
fds_of s (p ∷ t) = fds s p ∷ fds_of s t

abbrev pub sends : Server → List (ℕ × Message) → Server
sends s l = record s { sent = s.sent ++ l }

sends-sends : (s : Server) (l k : List (ℕ × Message)) → sends (sends s l) k ≡ sends s (l ++ k)
sends-sends s l k = λ i. record s { sent = append_assoc s.sent l k i }

sends-nil : (s : Server) → sends s [] ≡ s
sends-nil s = λ i. record s { sent = append-nil s.sent i }

fds_of-sends :
    (s : Server) (l : List (ℕ × Message)) (t : List Ptr) → fds_of (sends s l) t ≡ fds_of s t
unfolding fds_of
fds_of-sends s l [] = refl
fds_of-sends s l (p ∷ t) = ap (◌∷◌ (fds s p)) (fds_of-sends s l t)

-- A walk at `MSG_TO_ALL` sends one copy to each user in the tree whose fd is not the excepted one, in
-- the tree's order, and changes nothing else.
pub msg_to_all_lem :
    (except : Option ℕ) (msg : Message) (s : Server) (t : List Ptr)
    → msg_to_all except msg s t ≡ sends s (copies except msg (fds_of s t))
unfolding msg_to_all msg_to_one copies fds_of
msg_to_all_lem except msg s [] = sym (sends-nil s)
msg_to_all_lem except msg s (p ∷ t) = elim (Bool-cases (excepted except (fds s p))) [
  | inl e ↦
      ap (λ s'. msg_to_all except msg s' t) (if-true s _ e)
      ∙ msg_to_all_lem except msg s t
      ∙ ap (sends s) (sym (if-true _ _ e))
  | inr e ↦
      ap (λ s'. msg_to_all except msg s' t) (if-false s _ e)
      ∙ msg_to_all_lem except msg (sends s ((fds s p, msg) ∷ [])) t
      ∙ ap (λ l. sends (sends s ((fds s p, msg) ∷ [])) (copies except msg l))
          (fds_of-sends s ((fds s p, msg) ∷ []) t)
      ∙ sends-sends s ((fds s p, msg) ∷ []) (copies except msg (fds_of s t))
      ∙ ap (sends s) (sym (if-false (copies except msg (fds_of s t)) _ e))
]

-- SENDMSG on every branch: with an id that no user has, or a key that is not that user's, nothing
-- changes and nothing is sent; otherwise one copy of the packet, without the key, goes to every
-- user, the sender too, in the order of the id tree, and nothing else
-- changes.
pub handle_sendmsg_lem :
    (msg : Message) (m : MsgSendmsg) (s : Server)
    → ((find_id s m.id ≡ none) × (handle_sendmsg msg m s ≡ s))
      ⊎ ((p : Ptr) × (find_id s m.id ≡ some p)
          × (((s.users p).key ≢ m.key) × (handle_sendmsg msg m s ≡ s)
              ⊎ ((s.users p).key ≡ m.key)
                × (handle_sendmsg msg m s
                    ≡ sends s (copies none (wiped msg m) (fds_of s s.by_id)))))
unfolding handle_sendmsg
handle_sendmsg_lem msg m s = elim (Option-cases (find_id s m.id)) [
  | inl e ↦ inl (e, if_null-none _ _ e)
  | inr (p, e) ↦ inr (p, e, known p e)
]
  where
    known :
        (p : Ptr)
        → find_id s m.id ≡ some p
        → ((s.users p).key ≢ m.key) × (handle_sendmsg msg m s ≡ s)
          ⊎ ((s.users p).key ≡ m.key)
            × (handle_sendmsg msg m s ≡ sends s (copies none (wiped msg m) (fds_of s s.by_id)))
    known p e = elim (Bool-cases ((s.users p).key == m.key)) [
      | inl k ↦ inr (
        (==_iff _ _).0 k,
        if_null-some _ _ p e ∙ if-true _ _ k ∙ msg_to_all_lem none (wiped msg m) s s.by_id,
      )
      | inr k ↦ inl (ground arith, if_null-some _ _ p e ∙ if-false _ _ k)
    ]
