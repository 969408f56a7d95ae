-- ===== src/Server/Connections.antt =====
-- `do_listen` of server/server.c, and the loop of its `main` that starts a thread for each connection.
-- What the library's calls return is a parameter.
pub mod Absent
pub mod Closed
use janken.Base.{ℕ, ◌%◌, ◌^◌, Bool, Option, none, some, List, [], ◌∷◌, ◌==◌, if◌then◌else◌}
use janken.Server.{Run, done, crash, ◌>>=◌, check}
use janken.Server.Handlers.{Entry, emsg, edisconn}

-- What is used of the sockets.
pub record Sockets : Type 0 where
  pub inet_aton : List ℕ → Option ℕ
  pub socket : Option ℕ
  pub bind : (fd addr port : ℕ) → Bool
  pub listen : (fd backlog : ℕ) → Bool

-- The address and the port, of 16 bits, or `ppanic`.
unfoldable pub build_inet_addr : Sockets → List ℕ → (port : ℕ) → Run (ℕ × ℕ)
build_inet_addr k address port = elim (k.inet_aton address) [
  | none ↦ crash
  | some a ↦ done (a, port % 2 ^ 16)
]

unfoldable pub do_listen : Sockets → List ℕ → (port : ℕ) → Run ℕ
unfolding build_inet_addr
do_listen k address port = build_inet_addr k address port >>= λ (a, p). elim k.socket [
  | none ↦ crash
  | some fd ↦ check (k.bind fd a p) (check (k.listen fd 4096) (done fd))
]

-- The loop of `main`, over what `accept` returns (`none` for -1) and whether `pthread_create` succeeds:
-- the connections for which `serve` is started.
unfoldable pub accept_loop : List (Option ℕ × Bool) → Run (List ℕ)
accept_loop [] = done []
accept_loop ((none, ok) ∷ rs) = accept_loop rs
accept_loop ((some fd, ok) ∷ rs) =
    let rest = accept_loop rs in check ok (rest >>= λ fds. done (fd ∷ fds))

abbrev pub fd_of : Entry → ℕ
fd_of (emsg fd msg) = fd
fd_of (edisconn fd) = fd

-- The entries that the thread on one connection put into the incoming queue, in their order.
unfoldable pub of_fd : ℕ → List Entry → List Entry
of_fd f [] = []
of_fd f (e ∷ es) = let rest = of_fd f es in if fd_of e == f then e ∷ rest else rest
