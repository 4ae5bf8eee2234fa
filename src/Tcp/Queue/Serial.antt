-- ===== src/Tcp/Queue/Serial.antt =====
-- The queue of tun2http/tcp.c stays ordered by sequence number, in the order of RFC 1982, where all numbers
-- are in one half of their range.
use nroxy.Prelude.{
  ℕ, ◌+◌, ◌/◌, ◌<◌, ◌≡◌, sym, ◌∙◌, ◌≢◌, inl, inr, Bool, true, List, [], ◌∷◌, arith, Bool-cases, All,
}
use nroxy.Net.Session.{TcpSession, Segment}
use nroxy.Util.Serial.{compare_u32, serial_lt}
use nroxy.Tcp.Queue.{is_neg, insert_segment, queue_tcp}
use nroxy.Tcp.Queue.Order.{int_lt, IsNear, IsOrdered, queue_tcp_keeps_order}

-- A 32-bit number in a half of the range, 0 below 2 ^ 31 and 1 above.
abbrev pub IsInHalf : ℕ → ℕ → Type 0
IsInHalf half n = (n < 4294967296) × (n / 2147483648 ≡ half)

-- The numbers of a queue are in one half, and none is exactly 2 ^ 31 - 1 away from another number.
abbrev pub AllNear : ℕ → ℕ → List Segment → Type 0
AllNear half seq =
    All (λ s. IsInHalf half s.seq × ((s.seq + 2147483647 ≢ seq) × (seq + 2147483647 ≢ s.seq)))

-- Every segment comes before all behind it, in the order of RFC 1982; in particular no number occurs twice.
abbrev pub IsSerial : List Segment → Type 0
IsSerial [] = Unit
IsSerial (s ∷ rest) = All (λ t. serial_lt s.seq t.seq ≡ true) rest × IsSerial rest

pub half_serial : (half a b : ℕ) → IsInHalf half a → IsInHalf half b → serial_lt a b ≡ int_lt a b
half_serial half a b ha hb = ground (arith, ha, hb)

pub half-IsNear :
    (half a b : ℕ)
    → IsInHalf half a
    → IsInHalf half b
    → a + 2147483647 ≢ b
    → b + 2147483647 ≢ a
    → IsNear a b
half-IsNear half a b ha hb p q = ground (arith, ha, hb, p, q)

abbrev pub AllInHalf : ℕ → List Segment → Type 0
AllInHalf half = All (λ s. IsInHalf half s.seq)

pub AllNear-AllInHalf :
    (half seq : ℕ) (list : List Segment) → AllNear half seq list → AllInHalf half list
AllNear-AllInHalf half seq [] h = tt
AllNear-AllInHalf half seq (s ∷ list) h = (h.0.0, AllNear-AllInHalf half seq list h.1)

pub AllNear-IsNear :
    (half seq : ℕ) (list : List Segment)
    → IsInHalf half seq
    → AllNear half seq list
    → All (λ s. IsNear s.seq seq) list
AllNear-IsNear half seq [] own h = tt
AllNear-IsNear half seq (s ∷ list) own h =
    (half-IsNear half s.seq seq h.0.0 own h.0.1.0 h.0.1.1, AllNear-IsNear half seq list own h.1)

to_int :
    (half a : ℕ) (list : List Segment)
    → IsInHalf half a
    → AllInHalf half list
    → All (λ t. serial_lt a t.seq ≡ true) list
    → All (λ t. int_lt a t.seq ≡ true) list
to_int half a [] own h l = tt
to_int half a (t ∷ list) own h l =
    (sym (half_serial half a t.seq own h.0) ∙ l.0, to_int half a list own h.1 l.1)

to_serial :
    (half a : ℕ) (list : List Segment)
    → IsInHalf half a
    → AllInHalf half list
    → All (λ t. int_lt a t.seq ≡ true) list
    → All (λ t. serial_lt a t.seq ≡ true) list
to_serial half a [] own h l = tt
to_serial half a (t ∷ list) own h l =
    (half_serial half a t.seq own h.0 ∙ l.0, to_serial half a list own h.1 l.1)

pub IsSerial-IsOrdered :
    (half : ℕ) (list : List Segment) → AllInHalf half list → IsSerial list → IsOrdered list
IsSerial-IsOrdered half [] h o = tt
IsSerial-IsOrdered half (s ∷ list) h o =
    (to_int half s.seq list h.0 h.1 o.0, IsSerial-IsOrdered half list h.1 o.1)

IsOrdered-IsSerial :
    (half : ℕ) (list : List Segment) → AllInHalf half list → IsOrdered list → IsSerial list
IsOrdered-IsSerial half [] h o = tt
IsOrdered-IsSerial half (s ∷ list) h o =
    (to_serial half s.seq list h.0 h.1 o.0, IsOrdered-IsSerial half list h.1 o.1)

insert-AllInHalf :
    (half : ℕ) (new : Segment) (list : List Segment)
    → IsInHalf half new.seq
    → AllInHalf half list
    → AllInHalf half (insert_segment new list)
unfolding insert_segment
insert-AllInHalf half new [] own h = (own, tt)
insert-AllInHalf half new (s ∷ list) own h =
    ground (arith, insert-AllInHalf half new list own h.1, own, h)

queue_tcp-AllInHalf :
    (half seq : ℕ) (psh : Bool) (bytes : List ℕ) (datalen : ℕ) (cur : TcpSession)
    → IsInHalf half seq
    → AllInHalf half cur.forward
    → AllInHalf half (queue_tcp seq psh bytes datalen cur).forward
unfolding queue_tcp
queue_tcp-AllInHalf half seq psh bytes datalen cur own h =
    let new : Segment = record { seq = seq; len = datalen; sent = 0; psh = psh; bytes = bytes } in
    elim (Bool-cases (is_neg (compare_u32 seq cur.remote_seq))) [
      | inl old ↦ rw old h
      | inr fresh ↦ rw fresh (insert-AllInHalf half new cur.forward own h)
    ]

-- Whatever segment comes, a queue that is ordered by sequence number, in the order of RFC 1982, stays so and
-- without double numbers, where its numbers and the segment's are in one half of their range, all below
-- 2 ^ 31 or all above, and none is exactly 2 ^ 31 - 1 away from the segment's.
pub queue_tcp-IsSerial :
    (half seq : ℕ) (psh : Bool) (bytes : List ℕ) (datalen : ℕ) (cur : TcpSession)
    → IsInHalf half seq
    → AllNear half seq cur.forward
    → IsSerial cur.forward
    → IsSerial (queue_tcp seq psh bytes datalen cur).forward
queue_tcp-IsSerial half seq psh bytes datalen cur own near ordered =
    let halves = AllNear-AllInHalf half seq cur.forward near in
    IsOrdered-IsSerial half _ (queue_tcp-AllInHalf half seq psh bytes datalen cur own halves) (
      queue_tcp_keeps_order seq psh bytes datalen cur (AllNear-IsNear half seq cur.forward own near)
        (IsSerial-IsOrdered half cur.forward halves ordered))
