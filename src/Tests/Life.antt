-- ===== src/Tests/Life.antt =====
-- Runs of the theorems about the server's life.
use podcache.Prelude.{ℕ, true, false, Option, some, List, [], ◌∷◌, ◌+◌, ◌≡◌, ◌≤◌, refl, sym, arith}
use podcache.Server.Life.{
  ServerState, Setup, Accepted, Reach, here, next, enter, accepts, waiting, count, close,
  close_socket, signal_handler, cleanup_server, accept_step, admit, tcp_server_start, listening,
  setup_server_socket,
}
use podcache.Server.Life.End.{cleanup_server-frees}

abbrev calls : Setup
calls = record { socket = some 3; setsockopt_ok = true; bind_ok = true; listen_ok = true }

abbrev before : List ℕ
before = 2 ∷ []

once : (b : ℕ) → count b before ≤ 1
unfolding count
once b = ground arith

new : (fd : ℕ) → Option.some 3 ≡ some fd → count fd before ≡ 0
unfolding count
new fd h = let e : 3 ≡ fd = cc in rw (sym e) refl

-- the server while it waits
abbrev waits : ServerState
waits = record (tcp_server_start true calls before) { phase = waiting }

waits-reached : Reach (tcp_server_start true calls before) waits
unfolding tcp_server_start listening setup_server_socket
waits-reached = next here (enter refl refl)

-- the server with one client
abbrev busy : ServerState
busy = accept_step (Accepted.client 4 true true true) waits

busy-reached : Reach (tcp_server_start true calls before) busy
unfolding tcp_server_start listening setup_server_socket count
busy-reached = next waits-reached (accepts 4 true true true refl refl)

stopped_flag : (signal_handler busy).running ≡ false
unfolding signal_handler close_socket close accept_step admit tcp_server_start listening
    setup_server_socket
stopped_flag = refl

cleanup_server-frees_example :
    count 4 (cleanup_server busy).open_fds ≡ count 4 before + count 4 busy.threads
cleanup_server-frees_example = cleanup_server-frees true calls before 4 once new busy-reached

-- a client comes in while the signal is handled
abbrev awake : ServerState
awake = accept_step (Accepted.client 5 true true true) (signal_handler waits)
