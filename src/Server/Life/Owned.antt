-- ===== src/Server/Life/Owned.antt =====
-- Every descriptor that the server opened has one owner.
use podcache.Prelude.{
  ℕ, ◌+◌, ◌≤◌, ◌<◌, ◌≡◌, refl, sym, Bool, true, false, Option, none, some, List, [], ◌∷◌, ◌==◌,
  if◌then◌else◌, arith, inl, inr, ◌⊎◌, subst,
}
use podcache.Server.Life.{
  Phase, waiting, done, ServerState, Setup, Step, enter, leave, accepts, refuses, breaks,
  interrupts, signals, ends, Reach, here, next, count, drop_fd, close, close_socket, signal_handler,
  setup_server_socket, listening, tcp_server_start, admit, accept_step, hang_up,
}

abbrev pub held : Option ℕ → List ℕ
held none = []
held (some fd) = fd ∷ []

-- The descriptors open beyond those at the start are the listening socket and the ones of the handler
-- threads, each owned once.
pub record IsOwned (before : List ℕ) (s : ServerState) : Type 0 where
  pub owners :
      (a : ℕ)
      → count a s.open_fds ≡ count a before + (count a (held s.socket_fd) + count a s.threads)
  pub once : (a : ℕ) → count a s.open_fds ≤ 1
  -- no descriptor was closed that was not open
  pub closes : s.bad_close ≡ false

count-drop_fd :
    (a fd : ℕ) (l : List ℕ)
    → 0 < count fd l
    → count a (drop_fd fd l) + (if fd == a then 1 else 0) ≡ count a l
unfolding count drop_fd
count-drop_fd a fd [] h = absurd (omega arith)
count-drop_fd a fd (x ∷ l) h = ground (arith, count-drop_fd a fd l)

-- What a descriptor counts for itself.
count_self : (a : ℕ) (l : List ℕ) → 0 < count a (a ∷ l)
unfolding count
count_self a l = ground arith

-- Closing a descriptor that is open.
open-close :
    (fd : ℕ) (s : ServerState)
    → 0 < count fd s.open_fds
    → s.bad_close ≡ false
    → (close fd s).bad_close ≡ false
unfolding close
open-close fd s there h = ground arith

pub close_socket-IsOwned :
    (before : List ℕ) (s : ServerState) (fd : Option ℕ)
    → s.socket_fd ≡ fd
    → IsOwned before s
    → IsOwned before (close_socket fd s)
unfolding close_socket close count
close_socket-IsOwned before s none e h = h
close_socket-IsOwned before s (some fd) e h =
    let own : (a : ℕ)
        → count a s.open_fds ≡ count a before + (count a (held (some fd)) + count a s.threads) =
      subst
        (λ o.
          (a : ℕ) → count a s.open_fds ≡ count a before + (count a (held o) + count a s.threads))
        e h.owners in
    let there : 0 < count fd s.open_fds = omega (arith, own fd, count_self fd []) in
    let less : (a : ℕ)
        → count a (drop_fd fd s.open_fds) + (if fd == a then 1 else 0) ≡ count a s.open_fds =
      λ a. count-drop_fd a fd s.open_fds there in
    record {
      owners = λ a. omega (arith, less a, own a);
      once = λ a. omega (arith, h.once a, less a);
      closes = open-close fd s there h.closes;
    }

-- What an open descriptor adds, and what closing it again takes away.
close-opened : (fd : ℕ) (s : ServerState) → close fd (record s { open_fds = fd ∷ s.open_fds }) ≡ s
unfolding close drop_fd count
close-opened fd s = ground arith

one_more : (fd a : ℕ) (l : List ℕ) → count fd l ≡ 0 → count a l ≤ 1 → count a (fd ∷ l) ≤ 1
unfolding count
one_more fd a l new once = ground arith

admit-IsOwned :
    (before : List ℕ) (fd : ℕ) (context_ok params_ok thread_ok : Bool) (s : ServerState)
    → count fd s.open_fds ≡ 0
    → IsOwned before s
    → IsOwned before (admit fd context_ok params_ok thread_ok s)
unfolding admit count
admit-IsOwned before fd false params_ok thread_ok s new h =
    subst (IsOwned before) (sym (close-opened fd s)) h
admit-IsOwned before fd true false thread_ok s new h =
    subst (IsOwned before) (sym (close-opened fd s)) h
admit-IsOwned before fd true true false s new h = subst (IsOwned before) (sym (close-opened fd s)) h
admit-IsOwned before fd true true true s new h = record {
  owners = λ a. omega (arith, h.owners a);
  once = λ a. one_more fd a s.open_fds new (h.once a);
  closes = h.closes;
}

-- A state that differs in the phase and the flag owns the same.
same-IsOwned :
    {before : List ℕ} {s : ServerState} (running : Bool) (phase : Phase)
    → IsOwned before s
    → IsOwned before (record s { running = running; phase = phase })
same-IsOwned running phase h = record { owners = h.owners; once = h.once; closes = h.closes }

hang_up-IsOwned :
    (before : List ℕ) (fd : ℕ) (s : ServerState)
    → 0 < count fd s.threads
    → IsOwned before s
    → IsOwned before (hang_up fd s)
unfolding hang_up close
hang_up-IsOwned before fd s owned h =
    let there : 0 < count fd s.open_fds = omega (arith, h.owners fd) in
    record {
      owners = λ a. omega (
        arith,
        h.owners a,
        count-drop_fd a fd s.open_fds there,
        count-drop_fd a fd s.threads owned,
      );
      once = λ a. omega (arith, h.once a, count-drop_fd a fd s.open_fds there);
      closes = open-close fd s there h.closes;
    }

Step-IsOwned :
    {before : List ℕ} {s t : ServerState} → Step s t → IsOwned before s → IsOwned before t
unfolding accept_step signal_handler
Step-IsOwned {s = s} (enter p r) h = same-IsOwned s.running waiting h
Step-IsOwned {s = s} (leave p r) h = same-IsOwned s.running done h
Step-IsOwned {before} {s} (accepts fd c m k p new) h =
    let a = admit-IsOwned before fd c m k s new h in
    record { owners = a.owners; once = a.once; closes = a.closes }
Step-IsOwned {s = s} (refuses p) h = record { owners = h.owners; once = h.once; closes = h.closes }
Step-IsOwned {s = s} (breaks p q) h = same-IsOwned s.running done h
Step-IsOwned {s = s} (interrupts p) h = record {
  owners = h.owners;
  once = h.once;
  closes = h.closes;
}
Step-IsOwned {before} {s} signals h =
    close_socket-IsOwned before (record s { running = false }) s.socket_fd refl
      (same-IsOwned false s.phase h)
Step-IsOwned {before} {s} (ends fd owned) h = hang_up-IsOwned before fd s (omega (arith, owned)) h

-- `setup_server_socket` fails with every descriptor closed again, or gives an open one.
pub setup_server_socket-cases :
    (calls : Setup) (fd : ℕ) (s : ServerState)
    → (setup_server_socket calls (some fd) s ≡ (none, s))
      ⊎ (setup_server_socket calls (some fd) s ≡ (some fd, record s { open_fds = fd ∷ s.open_fds }))
unfolding setup_server_socket
setup_server_socket-cases calls fd s = ground (arith, close-opened fd s)

-- the state before the socket is set up
abbrev pub started : List ℕ → ServerState
started before = record {
  running = true;
  socket_fd = none;
  open_fds = before;
  bad_close = false;
  threads = [];
  phase = done;
}

started-IsOwned :
    (before : List ℕ) → ((a : ℕ) → count a before ≤ 1) → IsOwned before (started before)
unfolding count
started-IsOwned before once = record { owners = λ a. omega arith; once = once; closes = refl }

setup_none :
    (calls : Setup) (before : List ℕ)
    → setup_server_socket calls none (started before) ≡ (none, started before)
unfolding setup_server_socket
setup_none calls before = refl

listening-IsOwned :
    (calls : Setup) (fd : Option ℕ) (before : List ℕ)
    → ((a : ℕ) → count a before ≤ 1)
    → ((a : ℕ) → fd ≡ some a → count a before ≡ 0)
    → IsOwned before (listening (setup_server_socket calls fd (started before)))
unfolding listening count
listening-IsOwned calls none before once new =
    subst (λ r. IsOwned before (listening r)) (sym (setup_none calls before))
      (same-IsOwned true done (started-IsOwned before once))
listening-IsOwned calls (some fd) before once new =
    elim (setup_server_socket-cases calls fd (started before)) [
      | inl e ↦
          subst (λ r. IsOwned before (listening r)) (sym e)
            (same-IsOwned true done (started-IsOwned before once))
      | inr e ↦
          subst (λ r. IsOwned before (listening r)) (sym e)
            (record {
              owners = λ a. omega arith;
              once = λ a. one_more fd a before (new fd refl) (once a);
              closes = refl;
            })
    ]

start-IsOwned :
    (cache_ok : Bool) (calls : Setup) (before : List ℕ)
    → ((a : ℕ) → count a before ≤ 1)
    → ((fd : ℕ) → calls.socket ≡ some fd → count fd before ≡ 0)
    → IsOwned before (tcp_server_start cache_ok calls before)
unfolding tcp_server_start
start-IsOwned false calls before once new = started-IsOwned before once
start-IsOwned true calls before once new = listening-IsOwned calls calls.socket before once new

pub Reach-IsOwned :
    (cache_ok : Bool) (calls : Setup) (before : List ℕ) {s : ServerState}
    → ((a : ℕ) → count a before ≤ 1)
    → ((fd : ℕ) → calls.socket ≡ some fd → count fd before ≡ 0)
    → Reach (tcp_server_start cache_ok calls before) s
    → IsOwned before s
Reach-IsOwned cache_ok calls before once new here = start-IsOwned cache_ok calls before once new
Reach-IsOwned cache_ok calls before once new (next r step) =
    Step-IsOwned step (Reach-IsOwned cache_ok calls before once new r)
