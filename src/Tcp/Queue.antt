-- ===== src/Tcp/Queue.antt =====
-- `queue_tcp` of tun2http/tcp.c: the queue of the segments that wait to be forwarded.
pub mod Order
pub mod Serial
pub mod Find
pub mod Stale
use nroxy.Prelude.{ℕ, Bool, true, false, ◌&&◌, List, [], ◌∷◌, ltb, ◌==◌, if◌then◌else◌}
use nroxy.Prelude.Int.{ℤ, pos, negsuc}
use nroxy.Net.Session.{TcpSession, Segment}
use nroxy.Util.Serial.{compare_u32}

abbrev pub is_neg : ℤ → Bool
is_neg (pos _) = false
is_neg (negsuc _) = true

abbrev pub is_pos : ℤ → Bool
is_pos (pos n) = ltb 0 n
is_pos (negsuc _) = false

-- What happens at the first segment whose number is not below `seq`. Where a longer segment comes
-- for the same number the data is replaced, and `len` is left as it is.
unfoldable pub place : Segment → Segment → List Segment → List Segment
place new s rest =
    if is_pos (compare_u32 s.seq new.seq)
    then new ∷ s ∷ rest
    else if s.seq == new.seq && ltb s.len new.len
    then (record s { bytes = new.bytes }) ∷ rest
    else s ∷ rest

-- The walk along the list, and the insertion before the segment at which it stops.
unfoldable pub insert_segment : Segment → List Segment → List Segment
unfolding place
insert_segment new [] = new ∷ []
insert_segment new (s ∷ rest) =
    if is_neg (compare_u32 s.seq new.seq) then s ∷ insert_segment new rest else place new s rest

unfoldable pub queue_tcp : ℕ → Bool → List ℕ → ℕ → TcpSession → TcpSession
unfolding insert_segment
queue_tcp seq psh bytes datalen cur =
    if is_neg (compare_u32 seq cur.remote_seq) then cur else record cur {
      forward =
          insert_segment (record { seq = seq; len = datalen; sent = 0; psh = psh; bytes = bytes })
            cur.forward;
    }
