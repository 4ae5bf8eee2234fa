-- ===== src/Tcp/Queue/Find.antt =====
-- What `queue_tcp` of tun2http/tcp.c keeps of a segment.
use nroxy.Prelude.{
  ℕ, ◌≡◌, ◌≢◌, ◌+◌, ◌∙◌, sym, refl, inl, inr, Bool, true, ◌&&◌, not, Option, none, some, List, [],
  ◌∷◌, arith, ltb, ◌==◌, if◌then◌else◌, Bool-cases, All,
}
use nroxy.Net.Session.{TcpSession, Segment}
use nroxy.Util.Serial.{compare_u32, serial_lt, compare_u32_same_half}
use nroxy.Tcp.Queue.{is_neg, insert_segment, queue_tcp}
use nroxy.Tcp.Queue.Serial.{
  IsInHalf, AllNear, IsSerial, IsSerial-IsOrdered, AllNear-AllInHalf, AllNear-IsNear,
}
use nroxy.Tcp.Queue.Order.{int_lt, IsNear, IsOrdered, compare_near, int_lt_trans}

-- The segment with a number.
abbrev pub find_segment : ℕ → List Segment → Option Segment
find_segment q [] = none
find_segment q (s ∷ rest) = if s.seq == q then some s else find_segment q rest

-- A segment that comes for one that is there: longer data replaces its data, and nothing else of it.
abbrev pub merged : Segment → Option Segment → Segment
merged new none = new
merged new (some s) = if ltb s.len new.len then record s { bytes = new.bytes } else s

find_after :
    (q : ℕ) (list : List Segment)
    → All (λ t. int_lt q t.seq ≡ true) list
    → find_segment q list ≡ none
find_after q [] h = refl
find_after q (t ∷ list) h = ground (arith, find_after q list h.1)

find_before :
    (q : ℕ) (s : Segment) (rest : List Segment)
    → int_lt q s.seq ≡ true
    → All (λ t. int_lt s.seq t.seq ≡ true) rest
    → find_segment q rest ≡ none
find_before q s rest p h = find_after q rest (int_lt_trans q s.seq rest p h)

-- The queue is a map by number: a new segment changes the entry of its own number only.
pub find-insert_segment :
    (q : ℕ) (new : Segment) (list : List Segment)
    → All (λ s. IsNear s.seq new.seq) list
    → IsOrdered list
    → find_segment q (insert_segment new list)
      ≡ (if new.seq == q then some (merged new (find_segment q list)) else find_segment q list)
unfolding insert_segment
find-insert_segment q new [] near h = refl
find-insert_segment q new (s ∷ rest) near h =
    ground (
      arith,
      compare_near s.seq new.seq,
      find-insert_segment q new rest,
      find_before new.seq s rest,
    )

serial_neg :
    (half a b : ℕ)
    → IsInHalf half a
    → IsInHalf half b
    → a + 2147483647 ≢ b
    → is_neg (compare_u32 a b) ≡ serial_lt a b
serial_neg half a b ha hb d =
    let e = compare_u32_same_half a b ha.0 hb.0 (ha.1 ∙ sym hb.1) d in ground (arith, e)

-- Where the numbers of the queue, of the segment and of what is acknowledged are in one half of their range,
-- all below 2 ^ 31 or all above, none is exactly 2 ^ 31 - 1 away from the segment's, and the queue is
-- ordered by sequence number, in the order of RFC 1982: a segment that is before what is acknowledged
-- changes nothing; any other is looked up as it came, or as it was there before, with its data replaced
-- where the new data is longer, and every other number is looked up as before.
pub find-queue_tcp :
    (half q seq : ℕ) (psh : Bool) (bytes : List ℕ) (datalen : ℕ) (cur : TcpSession)
    → IsInHalf half seq
    → IsInHalf half cur.remote_seq
    → seq + 2147483647 ≢ cur.remote_seq
    → AllNear half seq cur.forward
    → IsSerial cur.forward
    → let new : Segment = record { seq = seq; len = datalen; sent = 0; psh = psh; bytes = bytes } in
      find_segment q (queue_tcp seq psh bytes datalen cur).forward ≡ (
        if not (serial_lt seq cur.remote_seq) && seq == q
        then some (merged new (find_segment q cur.forward))
        else find_segment q cur.forward)
unfolding queue_tcp
find-queue_tcp half q seq psh bytes datalen cur own known away near ordered =
    let new : Segment = record { seq = seq; len = datalen; sent = 0; psh = psh; bytes = bytes } in
    let order =
      IsSerial-IsOrdered half cur.forward (AllNear-AllInHalf half seq cur.forward near) ordered in
    let e = serial_neg half seq cur.remote_seq own known away in
    rw (sym e) (elim (Bool-cases (is_neg (compare_u32 seq cur.remote_seq))) [
      | inl old ↦ rw old refl
      | inr fresh ↦ rw fresh (
          find-insert_segment q new cur.forward (AllNear-IsNear half seq cur.forward own near)
            order)
    ])
