-- ===== src/Tcp/Queue/Order.antt =====
-- The queue of tun2http/tcp.c stays ordered: by its numbers as signed ones.
use nroxy.Prelude.{
  ℕ, ◌+◌, ◌<◌, ◌≡◌, ◌≢◌, inl, inr, Bool, true, List, [], ◌∷◌, arith, Bool-cases, u32, All,
}
use nroxy.Prelude.Int.{ltb_ℤ}
use nroxy.Net.Session.{TcpSession, Segment}
use nroxy.Util.Serial.{signed, compare_u32}
use nroxy.Tcp.Queue.{is_neg, is_pos, insert_segment, queue_tcp}

-- The order of the numbers as `int`.
abbrev pub int_lt : ℕ → ℕ → Bool
int_lt a b = ltb_ℤ (signed a) (signed b)

-- Two 32-bit numbers that are not exactly 2 ^ 31 - 1 apart, where `compare_u32` is no order.
abbrev pub IsNear : ℕ → ℕ → Type 0
IsNear a b =
    (a < 4294967296) × (b < 4294967296) × (u32 (a + 2147483647) ≢ b) × (u32 (b + 2147483647) ≢ a)

-- Every segment comes, by its number as a signed one, before all behind it; in particular no number occurs
-- twice.
abbrev pub IsOrdered : List Segment → Type 0
IsOrdered [] = Unit
IsOrdered (s ∷ rest) = All (λ t. int_lt s.seq t.seq ≡ true) rest × IsOrdered rest

pub compare_near :
    (a b : ℕ)
    → IsNear a b
    → (is_neg (compare_u32 a b) ≡ int_lt a b) × (is_pos (compare_u32 a b) ≡ int_lt b a)
unfolding compare_u32
compare_near a b h = ground arith

pub int_lt_trans :
    (a b : ℕ) (rest : List Segment)
    → int_lt a b ≡ true
    → All (λ t. int_lt b t.seq ≡ true) rest
    → All (λ t. int_lt a t.seq ≡ true) rest
int_lt_trans a b [] p h = tt
int_lt_trans a b (t ∷ rest) p h = (ground arith, int_lt_trans a b rest p h.1)

-- What comes before the whole list and before the new segment comes before the new list.
insert-All :
    (a : ℕ) (new : Segment) (list : List Segment)
    → int_lt a new.seq ≡ true
    → All (λ t. int_lt a t.seq ≡ true) list
    → All (λ t. int_lt a t.seq ≡ true) (insert_segment new list)
unfolding insert_segment
insert-All a new [] p h = (p, tt)
insert-All a new (s ∷ rest) p h = ground (arith, insert-All a new rest p h.1)

pub insert-IsOrdered :
    (new : Segment) (list : List Segment)
    → All (λ s. IsNear s.seq new.seq) list
    → IsOrdered list
    → IsOrdered (insert_segment new list)
unfolding insert_segment
insert-IsOrdered new [] near h = (tt, tt)
insert-IsOrdered new (s ∷ rest) near h = ground (
  arith,
  compare_near s.seq new.seq,
  insert-All s.seq new rest,
  insert-IsOrdered new rest,
  int_lt_trans new.seq s.seq rest,
)

-- The queue stays ordered by its numbers as signed ones, where none is exactly 2 ^ 31 - 1 away from the
-- segment's.
pub queue_tcp_keeps_order :
    (seq : ℕ) (psh : Bool) (bytes : List ℕ) (datalen : ℕ) (cur : TcpSession)
    → All (λ s. IsNear s.seq seq) cur.forward
    → IsOrdered cur.forward
    → IsOrdered (queue_tcp seq psh bytes datalen cur).forward
unfolding queue_tcp
queue_tcp_keeps_order seq psh bytes datalen cur near h =
    elim (Bool-cases (is_neg (compare_u32 seq cur.remote_seq))) [
      | inl old ↦ rw old h
      | inr fresh ↦ rw fresh (
          insert-IsOrdered (record { seq = seq; len = datalen; sent = 0; psh = psh; bytes = bytes })
            cur.forward near h)
    ]
