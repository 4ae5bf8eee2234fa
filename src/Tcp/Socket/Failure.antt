-- ===== src/Tcp/Socket/Failure.antt =====
-- What the forwarding loop of tun2http/tcp.c counts as sent.
use nroxy.Prelude.{ℕ, ◌+◌, ◌≤◌, ◌<◌, ◌≡◌, Bool, true, not, [], ◌∷◌, arith, u32}
use nroxy.Prelude.Int.{negsuc}
use nroxy.Os.{Kernel, Trace}
use nroxy.Net.Session.{TcpSession, Segment}
use nroxy.Tcp.Monitor.{can_forward}
use nroxy.Tcp.Socket.Forward.{clamp_sent, outgoing, advance, forward_data}

-- A failed `send` of the only segment of the queue, which comes next, fits the buffer and is
-- shorter than 65536 bytes, is taken for a complete one: the segment leaves the queue, its number
-- is acknowledged, and the state stays.
pub forward_data_failure :
    (k : Kernel) (sock buffer_size : ℕ) (s : Segment) (t : TcpSession) (fwd : Bool) (tr : Trace)
    (n : ℕ)
    → can_forward t s buffer_size ≡ true
    → s.sent ≤ s.len
    → s.len < 65536
    → n < 9223372036854775808
    → k.bytes_sent tr sock (outgoing t s) (not s.psh) ≡ negsuc n
    → let t' = (forward_data k sock buffer_size (s ∷ []) t fwd tr).0.0 in
      (t'.forward ≡ []) × ((t'.remote_seq ≡ u32 (s.seq + s.len)) × (t'.state ≡ t.state))
unfolding forward_data clamp_sent advance
forward_data_failure k sock buffer_size s t fwd tr n c l b small failed = ground arith
