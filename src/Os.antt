-- ===== src/Os.antt =====
-- What the native code calls but does not implement: the C library and the kernel. Each call is
-- appended to a trace (the latest first), and its result is a function of the trace before it.
use nroxy.Prelude.{ℕ, Bool, false, Option, none, some, List, ◌∷◌, ◌==◌, length}
use nroxy.Prelude.Int.{ℤ, pos, negsuc}

-- `errno` after a failed call, as far as the code tells its values apart.
pub data Errno : Type 0 where
  eintr eagain other : Errno

-- The bits of an epoll event mask that the code uses.
pub record Events : Type 0 where
  pub input : Bool
  pub output : Bool
  pub error : Bool

-- Where a socket is connected to: an address and a port, or the proxy by its text and port.
pub data Target : Type 0 where
  direct : List ℕ → ℕ → Target
  proxy : List ℕ → ℕ → Target

pub data Call : Type 0 where
  time get_ms rand : Call
  write_tun : List ℕ → Call
  open_socket : ℕ → Call
  protect_socket : ℕ → Call
  set_nonblocking : ℕ → Call
  connect : ℕ → Target → Call
  send : ℕ → List ℕ → Bool → Call
  recv : ℕ → ℕ → Call
  get_sndbuf get_outq get_error keep_alive set_option : ℕ → Call
  close : ℕ → Call
  epoll_add epoll_mod : ℕ → Events → Call
  epoll_create watch_pipe watch_tun poll_tun read_tun read_pipe close_epoll : Call
  create_thread join_thread write_pipe close_pipe : Call
  epoll_wait : ℕ → Call
  poll : ℕ → Call

abbrev pub Trace : Type 0
Trace = List Call

-- `received` is empty at the end of the stream.
pub data Recv : Type 0 where
  received : List ℕ → Recv
  recv_failed : Errno → Recv

-- What `epoll_wait` reports: the stop pipe, the tun device, or the socket of a session.
pub data Ready : Type 0 where
  pipe_ready : Ready
  tun_ready : Events → Ready
  socket_ready : ℕ → Events → Ready

pub data Polled : Type 0 where
  polled : List Ready → Polled
  poll_failed : Errno → Polled

pub record Kernel : Type 0 where
  pub now : Trace → ℕ
  pub milliseconds : Trace → ℕ
  pub random : Trace → ℕ
  pub tun_written : Trace → List ℕ → ℤ
  pub new_socket : Trace → ℕ → Option ℕ
  pub is_protected : Trace → ℕ → Bool
  pub is_nonblocking : Trace → ℕ → Bool
  pub connects : Trace → ℕ → Target → Bool
  pub bytes_sent : Trace → ℕ → List ℕ → Bool → ℤ
  pub errno : Trace → Errno
  pub bytes_received : Trace → ℕ → ℕ → Recv
  -- What repeated reads return until one returns nothing or fails.
  pub unread : Trace → ℕ → List (List ℕ)
  pub sndbuf : Trace → ℕ → Option ℕ
  pub outq : Trace → ℕ → Option ℕ
  pub modifies : Trace → ℕ → Events → Bool
  pub inet_ntoa : List ℕ → List ℕ
  pub creates_epoll : Trace → Bool
  pub watches_pipe : Trace → Bool
  pub watches_tun : Trace → Bool
  pub polls : Trace → ℕ → Polled
  pub tun_read : Trace → Recv
  pub creates_thread : Trace → Bool
  pub writes_pipe : Trace → Bool
  -- `RLIMIT_NOFILE`, the soft limit.
  pub file_limit : Trace → ℕ
  -- How often in a row the tun device, or a socket, is found readable.
  pub tun_waiting : Trace → ℕ
  pub waiting : Trace → ℕ → ℕ

-- A computation that makes calls.
abbrev pub M {ℓ} : Type ℓ → Type ℓ
M A = Trace → A × Trace

abbrev pub pure {ℓ} : {A : Type ℓ} → A → M A
pure a tr = (a, tr)

infixl 5 ◌>>=◌ ◌>>◌
abbrev pub ◌>>=◌ {ℓ κ} : {A : Type ℓ} {B : Type κ} → M A → (A → M B) → M B
◌>>=◌ m f tr = let (a, after) = m tr in f a after

abbrev pub ◌>>◌ {ℓ} : {B : Type ℓ} → M (Unit {0}) → M B → M B
m >> n = m >>= λ _. n

-- A value that depends on the calls so far.
abbrev pub ask {ℓ} : {A : Type ℓ} → (Trace → A) → M A
ask f tr = (f tr, tr)

-- A call whose result the code does not look at, or only logs.
abbrev pub log_call : Call → M (Unit {0})
log_call c tr = (tt, c ∷ tr)

-- `sendto(...) == length`
abbrev pub is_all : ℤ → ℕ → Bool
is_all (pos n) len = n == len
is_all (negsuc _) len = false

module _ (k : Kernel) where
  abbrev pub get_time : M ℕ
  get_time tr = (k.now tr, time ∷ tr)

  -- `write(args->tun, buffer, len)`; the code asks whether all of the packet was written.
  abbrev pub write_all : List ℕ → M Bool
  write_all packet tr = (
    elim (k.tun_written tr packet) [ pos n ↦ n == length packet | negsuc _ ↦ false ],
    write_tun packet ∷ tr,
  )

  abbrev pub socket_send : ℕ → List ℕ → Bool → M ℤ
  socket_send sock bytes more tr = (k.bytes_sent tr sock bytes more, send sock bytes more ∷ tr)

  -- On a socket below 0 the call fails.
  abbrev pub send_on : Option ℕ → List ℕ → M ℤ
  send_on none bytes tr = (negsuc 0, tr)
  send_on (some sock) bytes tr = socket_send sock bytes false tr

  abbrev pub socket_recv : ℕ → ℕ → M Recv
  socket_recv sock size tr = (k.bytes_received tr sock size, recv sock size ∷ tr)
