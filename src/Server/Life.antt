-- ===== src/Server/Life.antt =====
-- The life of the server in src/server_tcp.c: its start, the accept loop, signals and the end. The
-- state keeps the descriptors that are open, and the ones that handler threads own.
pub mod Owned
pub mod End
use podcache.Prelude.{
  ℕ, ◌+◌, ◌≡◌, Bool, true, false, Option, none, some, List, [], ◌∷◌, ◌==◌, ◌||◌, not, if◌then◌else◌,
}

-- Where the accept loop stands: before its test, in `accept`, or behind it.
pub data Phase : Type 0 where
  testing waiting done : Phase

-- `g_server`, without the cache, and what `close` and `pthread_create` act on. `bad_close` says whether
-- a descriptor was closed that was not open.
pub record ServerState : Type 0 where
  pub running : Bool
  pub socket_fd : Option ℕ
  pub open_fds : List ℕ
  pub bad_close : Bool
  pub threads : List ℕ
  pub phase : Phase

unfoldable pub count : ℕ → List ℕ → ℕ
count a [] = 0
count a (x ∷ xs) = (if x == a then 1 else 0) + count a xs

-- the list less one `fd`
unfoldable pub drop_fd : ℕ → List ℕ → List ℕ
drop_fd fd [] = []
drop_fd fd (x ∷ xs) = let rest = drop_fd fd xs in if x == fd then xs else x ∷ rest

unfoldable pub close : ℕ → ServerState → ServerState
unfolding drop_fd count
close fd s = record s {
  open_fds = drop_fd fd s.open_fds;
  bad_close = s.bad_close || (count fd s.open_fds == 0);
}

-- the lines that `signal_handler` and `cleanup_server` share
unfoldable pub close_socket : Option ℕ → ServerState → ServerState
unfolding close
close_socket none s = s
close_socket (some fd) s = record (close fd s) { socket_fd = none }

unfoldable pub signal_handler : ServerState → ServerState
unfolding close_socket
signal_handler s = close_socket s.socket_fd (record s { running = false })

unfoldable pub cleanup_server : ServerState → ServerState
unfolding close_socket
cleanup_server s = close_socket s.socket_fd s

-- What the calls of `setup_server_socket` return.
pub record Setup : Type 0 where
  pub socket : Option ℕ
  pub setsockopt_ok : Bool
  pub bind_ok : Bool
  pub listen_ok : Bool

-- The descriptor, and the state; each failure behind `socket` closes it.
unfoldable pub setup_server_socket : Setup → Option ℕ → ServerState → Option ℕ × ServerState
unfolding close
setup_server_socket calls none s = (none, s)
setup_server_socket calls (some fd) s =
    let opened : ServerState = record s { open_fds = fd ∷ s.open_fds } in
    if not calls.setsockopt_ok
    then (none, close fd opened)
    else if not calls.bind_ok
    then (none, close fd opened)
    else if not calls.listen_ok
    then (none, close fd opened)
    else (some fd, opened)

-- The part of `tcp_server_start` in front of the loop. Without a cache or a socket it returns.
unfoldable pub listening : Option ℕ × ServerState → ServerState
listening (none, s) = record s { phase = done }
listening (some fd, s) = record s { socket_fd = some fd; phase = testing }

unfoldable pub tcp_server_start : (cache_ok : Bool) → Setup → List ℕ → ServerState
unfolding setup_server_socket listening
tcp_server_start cache_ok calls open_fds =
    let s : ServerState = record {
      running = true;
      socket_fd = none;
      open_fds = open_fds;
      bad_close = false;
      threads = [];
      phase = done;
    } in
    if not cache_ok then s else listening (setup_server_socket calls calls.socket s)

-- What `accept` returns, with the outcomes of the calls that follow for a client, or `errno`: EINTR,
-- EBADF or ENOTSOCK, another one.
pub data Accepted : Type 0 where
  client : (fd : ℕ) (context_ok params_ok thread_ok : Bool) → Accepted
  interrupted : Accepted
  bad_socket : Accepted
  failed : Accepted

-- `create_client_context` and what follows up to `pthread_detach`: the client goes to a thread of its
-- own, or its descriptor is closed
unfoldable pub admit : ℕ → (context_ok params_ok thread_ok : Bool) → ServerState → ServerState
unfolding close
admit fd context_ok params_ok thread_ok s =
    let opened : ServerState = record s { open_fds = fd ∷ s.open_fds } in
    if not context_ok
    then close fd opened
    else if not params_ok
    then close fd opened
    else if not thread_ok
    then close fd opened
    else record opened { threads = fd ∷ s.threads }

-- the body of the accept loop behind the call of `accept`
unfoldable pub accept_step : Accepted → ServerState → ServerState
unfolding admit
accept_step (client fd context_ok params_ok thread_ok) s =
    record (admit fd context_ok params_ok thread_ok s) { phase = testing }
accept_step interrupted s = record s { phase = if not s.running then done else testing }
accept_step bad_socket s = record s { phase = done }
accept_step failed s = record s { phase = if not s.running then done else testing }

-- the end of `client_handler_thread`: `destroy_client_context` closes the client's descriptor
unfoldable pub hang_up : ℕ → ServerState → ServerState
unfolding close drop_fd
hang_up fd s = record (close fd s) { threads = drop_fd fd s.threads }

-- A step of the process once its start is over. The kernel gives a descriptor that is not open, and
-- EBADF or ENOTSOCK for a socket that is closed; from then on a signal comes at any time, and a thread ends at any time.
pub data Step (s : ServerState) : ServerState → Type 0 where
  enter : s.phase ≡ testing → s.running ≡ true → Step s (record s { phase = waiting })
  leave : s.phase ≡ testing → s.running ≡ false → Step s (record s { phase = done })
  accepts :
      (fd : ℕ) (context_ok params_ok thread_ok : Bool)
      → s.phase ≡ waiting
      → count fd s.open_fds ≡ 0
      → Step s (accept_step (client fd context_ok params_ok thread_ok) s)
  refuses : s.phase ≡ waiting → Step s (accept_step failed s)
  breaks : s.phase ≡ waiting → s.socket_fd ≡ none → Step s (accept_step bad_socket s)
  interrupts : s.phase ≡ waiting → Step s (accept_step interrupted s)
  signals : Step s (signal_handler s)
  ends : (fd : ℕ) → count fd s.threads ≡ 1 → Step s (hang_up fd s)

pub data Reach (s : ServerState) : ServerState → Type 0 where
  here : Reach s s
  next : {t u : ServerState} → Reach s t → Step t u → Reach s u
