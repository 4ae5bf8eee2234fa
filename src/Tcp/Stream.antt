-- ===== src/Tcp/Stream.antt =====
-- The client's stream of bytes, and what the forwarding queue of tun2http/tcp.c holds of it.
pub mod Delivers
pub mod Forwards
pub mod Drains
use nroxy.Prelude.{
  ℕ, zero, suc, ◌+◌, ◌-◌, ◌≤◌, ◌≡◌, refl, ap, List, [], ◌∷◌, ◌++◌, arith, ◌==◌, if◌then◌else◌,
  length, take, drop, u32,
}
use nroxy.Prelude.Int.{pos_part}
use native.Mathlib.Numerals.{unary_clauses}
use nroxy.Os.{Kernel, Trace, send}
use nroxy.Net.Session.{Segment}
use nroxy.Tcp.Socket.Progress.{IsSegment}

-- The `n` bytes of the stream from a sequence number on.
abbrev pub stretch : (ℕ → ℕ) → ℕ → ℕ → List ℕ
stretch stream seq zero = []
stretch stream seq (suc n) = stream (u32 seq) ∷ stretch stream (suc seq) n

-- The segment holds the bytes of the stream at its number.
abbrev pub IsPart : (ℕ → ℕ) → Segment → Type 0
IsPart stream s =
    IsSegment s × (s.len ≤ length s.bytes) × (take s.len s.bytes ≡ stretch stream s.seq s.len)

-- What the socket has taken: of each `send` as much as its result says.
abbrev pub delivered : Kernel → ℕ → Trace → List ℕ
delivered k sock [] = []
delivered k sock (send other bytes more ∷ tr) =
    if other == sock
    then delivered k sock tr ++ take (pos_part (k.bytes_sent tr other bytes more)) bytes
    else delivered k sock tr
delivered k sock (_ ∷ tr) = delivered k sock tr

u32-suc : (a b : ℕ) → u32 a ≡ u32 b → u32 (suc a) ≡ u32 (suc b)
u32-suc a b e = omega arith

-- Only the number modulo 2 ^ 32 counts.
pub stretch_cong :
    (stream : ℕ → ℕ) (a b n : ℕ) → u32 a ≡ u32 b → stretch stream a n ≡ stretch stream b n
stretch_cong stream a b zero e = refl
stretch_cong stream a b (suc n) e =
    rw e (ap (λ l. stream (u32 b) ∷ l) (stretch_cong stream (suc a) (suc b) n (u32-suc a b e)))

pub length-stretch : (stream : ℕ → ℕ) (seq n : ℕ) → length (stretch stream seq n) ≡ n
length-stretch stream seq zero = refl
length-stretch stream seq (suc n) = ground (arith, length-stretch stream (suc seq) n)

zero_add : (n : ℕ) → 0 + n ≡ n
zero_add n = omega arith

add_zero : (n : ℕ) → n + 0 ≡ n
add_zero n = omega arith

sub_suc : (m n : ℕ) → suc n - suc m ≡ n - m
sub_suc m n = omega arith

suc_add : (m n : ℕ) → suc m + n ≡ suc (m + n)
suc_add m n = omega arith

add_suc : (m n : ℕ) → m + suc n ≡ suc m + n
add_suc m n = omega arith

pub stretch-append :
    (stream : ℕ → ℕ) (seq m n : ℕ)
    → stretch stream seq m ++ stretch stream (seq + m) n ≡ stretch stream seq (m + n)
stretch-append stream seq zero n = simp (zero_add n, add_zero seq)
stretch-append stream seq (suc m) n =
    rw (suc_add m n, add_suc seq m)
      (ap (λ l. stream (u32 seq) ∷ l) (stretch-append stream (suc seq) m n))

pub take-stretch :
    (stream : ℕ → ℕ) (seq m n : ℕ) → m ≤ n → take m (stretch stream seq n) ≡ stretch stream seq m
take-stretch stream seq zero n h = refl
take-stretch stream seq (suc m) zero h = absurd (omega arith)
take-stretch stream seq (suc m) (suc n) h =
    ap (λ l. stream (u32 seq) ∷ l) (take-stretch stream (suc seq) m n (omega arith))

pub drop-stretch :
    (stream : ℕ → ℕ) (seq m n : ℕ)
    → m ≤ n
    → drop m (stretch stream seq n) ≡ stretch stream (seq + m) (n - m)
drop-stretch stream seq zero n h = simp unary_clauses
drop-stretch stream seq (suc m) zero h = absurd (omega arith)
drop-stretch stream seq (suc m) (suc n) h =
    rw (add_suc seq m, sub_suc m n) (drop-stretch stream (suc seq) m n (omega arith))

pub take-drop : (m n : ℕ) (bytes : List ℕ) → take n (drop m bytes) ≡ drop m (take (m + n) bytes)
take-drop zero n bytes = rw (zero_add n) refl
take-drop (suc m) zero [] = rw (suc_add m 0) refl
take-drop (suc m) (suc n) [] = rw (suc_add m (suc n)) refl
take-drop (suc m) n (b ∷ bytes) = rw (suc_add m n) (take-drop m n bytes)

pub take-take : (m n : ℕ) (bytes : List ℕ) → m ≤ n → take m (take n bytes) ≡ take m bytes
take-take zero n bytes h = refl
take-take (suc m) zero bytes h = absurd (omega arith)
take-take (suc m) (suc n) [] h = refl
take-take (suc m) (suc n) (b ∷ bytes) h = ap (λ l. b ∷ l) (take-take m n bytes (omega arith))
