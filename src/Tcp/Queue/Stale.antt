-- ===== src/Tcp/Queue/Stale.antt =====
-- The length that `queue_tcp` of tun2http/tcp.c leaves behind when it replaces the data of a segment.
use nroxy.Prelude.{ℕ, ◌<◌, ◌≡◌, Bool, List, [], ◌∷◌, arith}
use nroxy.Net.Session.{TcpSession}
use nroxy.Util.Serial.{compare_u32}
use nroxy.Tcp.Queue.{queue_tcp}

-- An empty acknowledgement and then data, both of the next number that is expected, into an empty
-- queue: the queue holds the data with the length 0, whatever the length of the data is.
pub queue_tcp-stale :
    (seq : ℕ) (psh psh' : Bool) (bytes : List ℕ) (n : ℕ) (cur : TcpSession)
    → cur.forward ≡ []
    → cur.remote_seq ≡ seq
    → 0 < n
    → (queue_tcp seq psh' bytes n (queue_tcp seq psh [] 0 cur)).forward
      ≡ record { seq = seq; len = 0; sent = 0; psh = psh; bytes = bytes } ∷ []
unfolding queue_tcp compare_u32
queue_tcp-stale seq psh psh' bytes n cur e r h = ground arith
