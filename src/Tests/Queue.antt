-- ===== src/Tests/Queue.antt =====
-- The queue and the comparison of sequence numbers at concrete numbers.
use nroxy.Prelude.{
  ◌≡◌, refl, true, false, ◌&&◌, not, some, [], ◌∷◌, arith, ◌==◌, if◌then◌else◌, codes,
}
use nroxy.Prelude.Int.{pos, negsuc}
use nroxy.Net.Session.{established, TcpSession}
use nroxy.Tests.World.{session_in, segment_at}
use nroxy.Util.Serial.{serial_lt, compare_u32, compare_u32_across}
use nroxy.Tcp.Queue.{queue_tcp}
use nroxy.Tcp.Queue.Serial.{IsSerial, queue_tcp-IsSerial}
use nroxy.Tcp.Queue.Find.{find_segment, find-queue_tcp}
use nroxy.Tcp.Queue.Stale.{queue_tcp-stale}

compare_u32_across_example :
    (serial_lt 0x7FFFFF00 0x80000100 ≡ true)
    × (compare_u32 0x7FFFFF00 0x80000100 ≡ pos 1)
    × (compare_u32 0x80000100 0x7FFFFF00 ≡ negsuc 0)
compare_u32_across_example =
    compare_u32_across 0x7FFFFF00 0x80000100 (omega arith) (omega arith) (omega arith)

-- Two segments wait behind a gap, which is filled.
abbrev gap_session : TcpSession
gap_session =
    session_in established (segment_at 105 (codes "world") ∷ segment_at 110 (codes "!") ∷ [])

queue_tcp-IsSerial_example : IsSerial (queue_tcp 100 true (codes "hello") 5 gap_session).forward
queue_tcp-IsSerial_example =
    queue_tcp-IsSerial 0 100 true (codes "hello") 5 gap_session (ground arith) (ground arith)
      (ground arith)

find-queue_tcp_example :
    find_segment 105 (queue_tcp 105 true (codes "worldwide") 9 gap_session).forward ≡ (
      if not (serial_lt 105 100) && 105 == 105
      then some (record (segment_at 105 (codes "world")) { bytes = codes "worldwide" })
      else some (segment_at 105 (codes "world")))
find-queue_tcp_example =
    find-queue_tcp 0 105 105 true (codes "worldwide") 9 gap_session (ground arith) (ground arith)
      (omega arith) (ground arith) (ground arith)

queue_tcp-stale_example :
    (queue_tcp 100 true
      (codes "hello")
      5
      (queue_tcp 100 false [] 0 (session_in established []))).forward
    ≡ record { seq = 100; len = 0; sent = 0; psh = false; bytes = codes "hello" } ∷ []
queue_tcp-stale_example =
    queue_tcp-stale 100 false true (codes "hello") 5 (session_in established []) refl refl
      (omega arith)
