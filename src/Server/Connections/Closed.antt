-- ===== src/Server/Connections/Closed.antt =====
-- A connection from its first packet to its end: `serve` on one side of the incoming queue,
-- `pkt_handler` on the other.
use janken.Base.{
  ℕ, ◌≡◌, sym, ◌∙◌, Bool, Bool-cases, true, false, none, List, [], ◌∷◌, arith, ◌==◌, if-true,
  if-false, subst, inl, inr,
}
use janken.Client.Worker.{Received, packet, failed, serve}
use janken.Server.{Server, User, Ptr, Challenge, done, model_init, find_fd}
use janken.Server.Ensures.{Ensures, returns, Ensures-bind, Ensures-of_eq}
use janken.Server.Index.{Inv, model_init-Inv}
use janken.Server.Index.Handlers.{handle_entry-Inv}
use janken.Server.Handlers.{Entry, edisconn, handle_entry, pkt_handler}
use janken.Server.Connections.{fd_of, of_fd}
use janken.Server.Connections.Absent.{Absent, handle_disconnect-Absent, handle_entry-Absent}

-- A call of `msg_recv` fails for another reason than that it would block.
unfoldable pub is_lost : List Received → Bool
is_lost [] = false
is_lost (packet msg ∷ rs) = is_lost rs
is_lost (failed true ∷ rs) = is_lost rs
is_lost (failed false ∷ rs) = true

-- The last of the entries is the notice that the connection is lost.
data Closes (f : ℕ) : List Entry → Type 0 where
  last : Closes f (edisconn f ∷ [])
  more : {e : Entry} {es : List Entry} → Closes f es → Closes f (e ∷ es)

serve-Closes : (f : ℕ) (rs : List Received) → is_lost rs ≡ true → Closes f (serve f rs)
unfolding is_lost serve
serve-Closes f [] h = cc
serve-Closes f (packet msg ∷ rs) h = more (serve-Closes f rs h)
serve-Closes f (failed true ∷ rs) h = serve-Closes f rs h
serve-Closes f (failed false ∷ rs) h = last

-- Once no user has the fd, entries of other connections leave it so.
others-Absent :
    (f : ℕ) (es : List Entry) (s : Server)
    → of_fd f es ≡ []
    → Inv s
    → Absent f s
    → Ensures (Absent f) (pkt_handler es s)
unfolding of_fd pkt_handler
others-Absent f [] s n v h = returns h
others-Absent f (e ∷ es) s n v h = elim (Bool-cases (fd_of e == f)) [
  | inl b ↦ absurd (grind (arith, n, b))
  | inr b ↦ Ensures-bind _ _ (handle_entry-Absent f e s v (grind (arith, b)) h) λ t d h'.
      others-Absent f es t (grind (arith, n, b)) (Ensures-of_eq (handle_entry-Inv e s v) d) h'
]

handle_last-Absent :
    (f : ℕ) (e : Entry) (s : Server)
    → edisconn f ≡ e
    → Inv s
    → Ensures (Absent f) (handle_entry e s)
unfolding handle_entry
handle_last-Absent f e s q v =
    subst (λ x. Ensures (Absent f) (handle_entry x s)) q (handle_disconnect-Absent f s v)

module _ (f : ℕ) (e : Entry) (es : List Entry) where
  of_fd-own : (fd_of e == f) ≡ true → of_fd f (e ∷ es) ≡ e ∷ of_fd f es
  unfolding of_fd
  of_fd-own b = if-true _ _ b

  of_fd-other : (fd_of e == f) ≡ false → of_fd f (e ∷ es) ≡ of_fd f es
  unfolding of_fd
  of_fd-other b = if-false _ _ b

closed :
    (f : ℕ) (es : List Entry) (s : Server) {l : List Entry}
    → of_fd f es ≡ l
    → Closes f l
    → Inv s
    → Ensures (Absent f) (pkt_handler es s)
unfolding pkt_handler of_fd
closed f [] s q last v = absurd (cc)
closed f [] s q (more c) v = absurd (cc)
closed f (e ∷ es) s q last v = elim (Bool-cases (fd_of e == f)) [
  | inl b ↦ Ensures-bind _ _ (handle_last-Absent f e s (cc (q, of_fd-own f e es b)) v) λ t d h.
      others-Absent f es t (cc (q, of_fd-own f e es b)) (Ensures-of_eq (handle_entry-Inv e s v) d) h
  | inr b ↦
      Ensures-bind _ _ (handle_entry-Inv e s v)
        λ t _ w. closed f es t (sym (of_fd-other f e es b) ∙ q) last w
]
closed f (e ∷ es) s q (more c) v = elim (Bool-cases (fd_of e == f)) [
  | inl b ↦
      Ensures-bind _ _ (handle_entry-Inv e s v)
        λ t _ w. closed f es t (cc (q, of_fd-own f e es b)) c w
  | inr b ↦
      Ensures-bind _ _ (handle_entry-Inv e s v)
        λ t _ w. closed f es t (sym (of_fd-other f e es b) ∙ q) (more c) w
]

-- Where the entries that the packet handler has dealt with since its start hold, of one fd, those that
-- one thread of `serve` put into the queue, in their order and up to a failure of `msg_recv` that ends
-- the thread, no user has the fd when the handler is done with them: whatever the packets, and
-- whatever came from other connections in between or afterwards.
pub serve-pkt_handler :
    (users : Ptr → User) (challenges : Ptr → Challenge) (randoms : ℕ → ℕ) (f : ℕ)
    (rs : List Received) (es : List Entry) {s : Server}
    → is_lost rs ≡ true
    → of_fd f es ≡ serve f rs
    → pkt_handler es (model_init users challenges randoms) ≡ done s
    → find_fd s f ≡ none
serve-pkt_handler users challenges randoms f rs es h q e =
    Ensures-of_eq (closed f es _ q (serve-Closes f rs h) (model_init-Inv users challenges randoms))
      e
