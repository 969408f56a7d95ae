-- ===== src/Client/Worker.antt =====
-- The threads on a connection: `io_worker` of client/client.c and `serve` of server/server.c. What
-- `msg_recv`, `msg_send` and `queue_take` give is a list; what a thread puts in a queue is a list.
use janken.Base.{ℕ, Bool, true, false, Option, none, some, List, [], ◌∷◌}
use janken.Message.{Message}
use janken.Client.Receive.{UiMsg, um_disconn, um_recv}
use janken.Server.Handlers.{Entry, emsg, edisconn}

-- `io_worker` at IN: the packets that are received, until a call fails with `err`.
unfoldable pub io_worker_in : (err : ℕ) → List (Option Message) → List UiMsg
io_worker_in err [] = []
io_worker_in err (none ∷ rs) = um_disconn err ∷ []
io_worker_in err (some msg ∷ rs) = um_recv msg ∷ io_worker_in err rs

-- `io_worker` at OUT, over the entries that it takes, each with whether `msg_send` returns 0: what it
-- sends, and the notice that it puts in its own queue (that of the packets to send) when a call fails.
unfoldable pub io_worker_out : (err : ℕ) → List (Message × Bool) → List Message × List UiMsg
io_worker_out err [] = ([], [])
io_worker_out err ((msg, false) ∷ rs) = ([], um_disconn err ∷ [])
io_worker_out err ((msg, true) ∷ rs) =
    let (sent, notices) = io_worker_out err rs in (msg ∷ sent, notices)

-- A call of `msg_recv` in `serve`: a packet, or a failure, with whether `errno` is EWOULDBLOCK or
-- EAGAIN.
pub data Received : Type 0 where
  packet : Message → Received
  failed : (again : Bool) → Received

-- `serve`: what it puts in the incoming queue.
unfoldable pub serve : (fd : ℕ) → List Received → List Entry
serve fd [] = []
serve fd (packet msg ∷ rs) = emsg fd msg ∷ serve fd rs
serve fd (failed true ∷ rs) = serve fd rs
serve fd (failed false ∷ rs) = edisconn fd ∷ []
