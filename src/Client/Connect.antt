-- ===== src/Client/Connect.antt =====
-- `do_connect` of client/client.c, whose result `handle_connect` of the login reads. What the library's
-- calls return is a parameter.
use janken.Base.{
  ℕ, ◌%◌, ◌^◌, ◌≡◌, ◌≢◌, refl, Bool, false, Bool-cases, Option, none, some, List, [], ◌∷◌,
  if◌then◌else◌, ◌⊎◌, inl, inr, arith,
}

-- What is used of the sockets.
pub record Sockets : Type 0 where
  pub socket : Option ℕ
  pub inet_aton : List ℕ → Option ℕ
  pub connect : (fd addr port : ℕ) → Bool

-- What `err` says.
pub data ConnectError : Type 0 where
  no_socket invalid_address no_connection : ConnectError

-- The fd (none for -1), what is written to `err` and the fds that are closed.
pub record Connected : Type 0 where
  pub fd : Option ℕ
  pub err : Option ConnectError
  pub closed : List ℕ

unfoldable pub fail : (fd : ℕ) → ConnectError → Connected
fail fd e = record { fd = none; err = some e; closed = fd ∷ [] }

-- The rest, once there is a socket, over the address that `inet_aton` reads.
unfoldable pub connect_to : Sockets → (port fd : ℕ) → Option ℕ → Connected
unfolding fail
connect_to k port fd none = fail fd invalid_address
connect_to k port fd (some a) =
    if k.connect fd a (port % 2 ^ 16)
    then record { fd = some fd; err = none; closed = [] }
    else fail fd no_connection

unfoldable pub connect_on : Sockets → List ℕ → (port : ℕ) → Option ℕ → Connected
connect_on k addr port none = record { fd = none; err = some no_socket; closed = [] }
connect_on k addr port (some fd) = connect_to k port fd (k.inet_aton addr)

unfoldable pub do_connect : Sockets → List ℕ → (port : ℕ) → Connected
do_connect k addr port = connect_on k addr port k.socket

-- Without a socket there is no fd, and the error says so. A socket is returned, with no error and
-- nothing closed, or it alone is closed and there is an error.
abbrev pub Settled : Option ℕ → Connected → Type 0
Settled none r = (r.fd ≡ none) × (r.err ≡ some no_socket) × (r.closed ≡ [])
Settled (some fd) r =
    ((r.fd ≡ some fd) × (r.err ≡ none) × (r.closed ≡ []))
    ⊎ ((r.fd ≡ none) × (r.err ≢ none) × (r.closed ≡ fd ∷ []))

module _ (k : Sockets) (addr : List ℕ) (port : ℕ) where
  connect_to-Settled : (fd : ℕ) (a : Option ℕ) → Settled (some fd) (connect_to k port fd a)
  unfolding connect_to fail
  connect_to-Settled fd none = inr (refl, (λ e. cc), refl)
  connect_to-Settled fd (some a) = elim (Bool-cases (k.connect fd a (port % 2 ^ 16))) [
    | inl e ↦ inl (rw e, rw e, rw e)
    | inr e ↦ inr (rw e, (λ d. no_error e d), rw e)
  ]
    where
      no_error :
          (k.connect fd a (port % 2 ^ 16)) ≡ false → (connect_to k port fd (some a)).err ≡ none → ⊥
      no_error e d = ground (arith, e, d)

  connect_on-Settled : (o : Option ℕ) → Settled o (connect_on k addr port o)
  unfolding connect_on
  connect_on-Settled none = (refl, refl, refl)
  connect_on-Settled (some fd) = connect_to-Settled fd (k.inet_aton addr)

  -- The socket that `do_connect` opens is the one that it returns, or it is closed.
  do_connect-Settled : Settled k.socket (do_connect k addr port)
  unfolding do_connect
  do_connect-Settled = connect_on-Settled k.socket
