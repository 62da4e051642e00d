-- ===== src/Server/Life/End.antt =====
-- How the server in src/server_tcp.c ends.
use podcache.Prelude.{
  ℕ, ◌+◌, ◌≡◌, ◌≤◌, ◌∙◌, refl, sym, ap, ◌≢◌, Bool, true, false, Option, none, some, List, inl, inr,
  arith,
}
use podcache.Server.Life.{
  Phase, testing, waiting, done, ServerState, Setup, Step, enter, leave, accepts, refuses, breaks,
  interrupts, signals, ends, Reach, here, next, count, close, close_socket, signal_handler,
  cleanup_server, accept_step, admit, hang_up, tcp_server_start, listening, setup_server_socket,
}
use podcache.Server.Life.Owned.{
  held, Reach-IsOwned, close_socket-IsOwned, started, setup_server_socket-cases,
}

close_socket-none :
    (fd : Option ℕ) (s : ServerState) → s.socket_fd ≡ fd → (close_socket fd s).socket_fd ≡ none
unfolding close_socket
close_socket-none none s h = h
close_socket-none (some fd) s h = refl

close_socket-same :
    (fd : Option ℕ) (s : ServerState)
    → ((close_socket fd s).running ≡ s.running)
      × ((close_socket fd s).phase ≡ s.phase)
      × ((close_socket fd s).threads ≡ s.threads)
unfolding close_socket close
close_socket-same none s = (refl, refl, refl)
close_socket-same (some fd) s = (refl, refl, refl)

-- The admission of a client leaves the flag and the socket.
admit-same :
    (fd : ℕ) (c m k : Bool) (s : ServerState)
    → ((admit fd c m k s).running ≡ s.running) × ((admit fd c m k s).socket_fd ≡ s.socket_fd)
unfolding admit close
admit-same fd c m k s = ground arith

-- When the flag is down the listening socket is closed, and `g_server` says so.
abbrev IsQuiet : ServerState → Type 0
IsQuiet s = s.running ≡ false → s.socket_fd ≡ none

Step-IsQuiet : {s t : ServerState} → Step s t → IsQuiet s → IsQuiet t
unfolding accept_step signal_handler hang_up close
Step-IsQuiet (enter p r) q = q
Step-IsQuiet (leave p r) q = q
Step-IsQuiet {s = s} (accepts fd c m k p new) q =
    let (flag, socket) = admit-same fd c m k s in λ h. socket ∙ q (sym flag ∙ h)
Step-IsQuiet (refuses p) q = q
Step-IsQuiet (breaks p n) q = q
Step-IsQuiet (interrupts p) q = q
Step-IsQuiet {s = s} signals q =
    λ h. close_socket-none s.socket_fd (record s { running = false }) refl
Step-IsQuiet (ends fd h) q = q

start_runs :
    (cache_ok : Bool) (calls : Setup) (before : List ℕ)
    → (tcp_server_start cache_ok calls before).running ≡ true
unfolding tcp_server_start listening setup_server_socket
start_runs false calls before = refl
start_runs true calls before = go calls.socket
  where
    go :
        (fd : Option ℕ) → (listening (setup_server_socket calls fd (started before))).running ≡ true
    go none = refl
    go (some fd) = elim (setup_server_socket-cases calls fd (started before)) [
      | inl e ↦ ap (λ r. (listening r).running) e
      | inr e ↦ ap (λ r. (listening r).running) e
    ]

not_both : true ≢ false
not_both e = cc

-- After the start, while no signal came during it: whenever the flag is down, which a signal brings
-- about, the listening socket is closed.
pub Reach-IsQuiet :
    (cache_ok : Bool) (calls : Setup) (before : List ℕ) {s : ServerState}
    → Reach (tcp_server_start cache_ok calls before) s
    → s.running ≡ false
    → s.socket_fd ≡ none
Reach-IsQuiet cache_ok calls before here =
    λ h. absurd (not_both (sym (start_runs cache_ok calls before) ∙ h))
Reach-IsQuiet cache_ok calls before (next r step) =
    Step-IsQuiet step (Reach-IsQuiet cache_ok calls before r)

-- After `cleanup_server`, at any time, the open descriptors are the ones from before the start and those
-- of the threads that still run.
pub cleanup_server-frees :
    (cache_ok : Bool) (calls : Setup) (before : List ℕ) {s : ServerState} (a : ℕ)
    → ((b : ℕ) → count b before ≤ 1)
    → ((fd : ℕ) → calls.socket ≡ some fd → count fd before ≡ 0)
    → Reach (tcp_server_start cache_ok calls before) s
    → count a (cleanup_server s).open_fds ≡ count a before + count a s.threads
unfolding cleanup_server count
cleanup_server-frees cache_ok calls before {s} a once new r =
    let o = Reach-IsOwned cache_ok calls before once new r in
    let closed = close_socket-IsOwned before s s.socket_fd refl o in
    let gone = close_socket-none s.socket_fd s refl in
    let (_, _, threads) = close_socket-same s.socket_fd s in
    let own : count a (close_socket s.socket_fd s).open_fds
        ≡ count a before + (count a (held none) + count a s.threads) =
      rw (gone, threads) at closed.owners a in
    omega (arith, own)

-- how far the loop is from its end
abbrev pub rank : Phase → ℕ
rank done = 0
rank testing = 1
rank waiting = 2
