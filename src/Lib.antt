-- ===== src/Lib.antt =====
-- Janken is a rock-paper-scissors game over TCP: a server that keeps users and battles, and a client with
-- a text interface, over a small library. This development models the library's packets, queue, strings,
-- arguments and log levels, all of the server's packet handling, and the client's login, its handling of
-- packets, keys and commands, and its user list.
--
-- The parts of the program and how they interact. On the server a thread per connection (`serve` in
-- server/server.c) receives packets (`msg_recv` in lib/messages.c, over `recv_count` in lib/common.c)
-- and puts them in a bounded queue (lib/queue.c). One thread, `pkt_handler`, takes the entries and runs
-- a handler on each; the handlers alone read and write the users and the challenges, which four search
-- trees of <search.h> index, and they answer by `msg_send`. The client has a thread that receives and one
-- that sends (`io_worker` in client/client.c), each with a queue, and a thread `ui` that shows one screen
-- after the other: `ui_login` joins, and `ui_main` takes packets and keys in turn.
--
-- What models which part:
--   Queue.antt: lib/queue.c, the ring buffer and the calls `queue_add` and `queue_take` as they run
--     under the mutex; Queue/Run, sequences of calls; Queue/Monitor, the threads that wait on the two
--     conditions.
--   Text.antt: the strings of lib/common.c (`nick_cmp`, `is_nickstr`, `null_terminated`).
--   Tree.antt: `tfind`, `tsearch` and `tdelete` as documented, over the pointers in their order.
--   Message.antt: the structs of lib/common.h and their making in lib/messages.c; Message/Error:
--     `msg_strerror`.
--   Message/Layout.antt: the same packets as bytes in memory, `msg_body_conv`, `msg_head_conv` and
--     `msg_check_form`, with the layout of the structs in Message/Layout/Network; Message/Wire.antt:
--     `recv_count`, `msg_recv` and `msg_send`; Message/Wire/Dup: `msg_dup`.
--   Server.antt: the state of server/server.c; Server/Notify: `send_user_info` and
--     `broadcast_user_changes`; Server/Users: `user_create`, `user_add`, `user_del_and_destroy`;
--     Server/Battle: `judge_turn` and `handle_turn`; Server/Invite: `add_challenge` and
--     `handle_challenge`; Server/Handlers: the other handlers and `pkt_handler`;
--     Server/Connections: `do_listen` and the loop of `main`.
--   Client.antt: the state of `ui_main` in client/client.c; Client/Receive: its switch over the packets;
--     Client/Input: its keys and commands; Client/Loop: its rounds;
--     Client/Focus: its menus and its form, over the library of Client/Curses;
--     Client/Menu: `populate_user_list` and `cmp_item_for_sort`; Client/Connect: `do_connect`;
--     Client/Login: `ui_login`; Client/Screens: `ui`; Client/Worker: `io_worker`, and `serve` of the
--     server.
--   Args.antt: `parse_args` of lib/argparse.c. Log.antt: the levels of lib/logging.c.
--   Protocol.antt: client and server together, a packet of one at the other's handler.
--   The other modules hold proofs, and the modules named Tests examples.
--
-- How state and operations correspond. A user or a challenge is an object at an address, and the memory
-- maps addresses to objects; `malloc` gives the next address, with whatever its memory held. A handler
-- of the server is a function from the state to `Run Server`: it returns the new state, or the process
-- ends (`crash`) at a failed assertion or at a NULL that is followed. A step of `ui_main` goes on, leaves
-- the loop (`goto done`) or crashes (`Flow`). What is handed to `msg_send`, what the client puts in its
-- send queue and what it prints are lists in the state. `random()` is a stream of numbers, the results of
-- `recv` are a list, and the byte order of the host is an argument. A key comes with the command that the
-- focused menu or form of ncurses gives for it. `qsort_r` and `strtol` are parameters, and what
-- `getopt_long` returns is a list. Numbers are unbounded with the wrap-around of the source written out:
-- a 32-bit signed number is its bit pattern.
--
-- Bounds and fuel. The loops of 16 rounds in `user_add` and `add_challenge` are recursion on the number
-- of rounds that are left, so they need no fuel; the loops of `ui_main` and `ui_login` are recursion on
-- the list of what their rounds read, and that of `ui` on the number of screens; all other loops are
-- recursion on the list or the count that they go through.
--
-- Not modelled: the initialisers, the starting of threads; windows, drawing and the libraries menu,
-- form and panel of ncurses; the time and the formatting of a log line; xmalloc and xcalloc (memory
-- does not run out). Freed memory is not given out again, so a use of freed memory is not seen.
pub mod Base
pub mod Queue
pub mod Text
pub mod Tree
pub mod Message
pub mod Server
pub mod Log
pub mod Args
pub mod Client
pub mod Protocol
