-- ===== src/Tcp/Window/Bounds.antt =====
-- The bounds of the windows that tun2http/tcp.c computes.
use nroxy.Prelude.{
  ℕ, zero, suc, ◌+◌, ◌-◌, ◌*◌, ◌/◌, ◌^◌, ◌≤◌, ◌<◌, ◌≡◌, refl, ◌≢◌, ◌⊎◌, inl, inr, false, arith, ltb,
  ◌==◌, if◌then◌else◌, ltb→lt, ltb→le, ==→ne, Bool-cases, u32,
}
use native.Mathlib.Nat.{div-le_of_le-mul}
use nroxy.Net.Session.{TcpSession}
use nroxy.Util.Serial.{compare_u32}
use nroxy.Tcp.Window.{get_send_window, to_forward, window_for}

-- While the two numbers are in one half of their range, the send window is what the client offers less
-- the bytes that it has not acknowledged.
pub get_send_window_lem :
    (t : TcpSession)
    → t.acked ≤ t.local_seq
    → t.local_seq < 4294967296
    → t.acked / 2147483648 ≡ t.local_seq / 2147483648
    → t.acked + 2147483647 ≢ t.local_seq
    → get_send_window t ≡ t.send_window - (t.local_seq - t.acked)
unfolding get_send_window compare_u32
get_send_window_lem t a l h d = ground arith

div-le : (w m p : ℕ) → 0 < p → w ≤ m * p → w / p ≤ m
div-le w m p h b = div-le_of_le-mul p (omega arith)

div-zero : (w p : ℕ) → w < p → w / p ≡ 0
div-zero w p h = grind arith

pow_pos : (n : ℕ) → 0 < 2 ^ n
pow_pos zero = omega arith
pow_pos (suc n) = omega (arith, pow_pos n)

capped_bound :
    (p waiting buffer : ℕ)
    → let max = u32 (65535 * p) in
      let capped = if ltb max buffer then max else buffer in
      (if ltb waiting capped then capped - waiting else 0) ≤ 65535 * p
capped_bound p waiting buffer = ground arith

unit-le : (w p : ℕ) → 0 < p → (w / p == 0) ≡ false → p ≤ w
unit-le w p h n = elim (Bool-cases (ltb w p)) [
  | inl small ↦ absurd (==→ne _ _ n (div-zero w p (ltb→lt _ _ small)))
  | inr large ↦ ltb→le _ _ large
]

shown_bounds :
    (w p : ℕ)
    → 0 < p
    → w ≤ 65535 * p
    → let shown = if w / p == 0 then 0 else w in (shown / p ≤ 65535) × ((shown ≡ 0) ⊎ (p ≤ shown))
shown_bounds w p h b = elim (Bool-cases (w / p == 0)) [
  | inl none' ↦ rw none' (omega (arith, div-zero 0 p h), inl refl)
  | inr some' ↦ rw some' (div-le w 65535 p h b, inr (unit-le w p h some'))
]

-- The window is no larger than what the socket's buffer takes, it fits the field of the header once it
-- is scaled, and it is 0 or at least one unit of the scale.
pub window_for_bounds :
    (t : TcpSession) (buffer : ℕ)
    → (window_for t buffer ≤ buffer)
      × (window_for t buffer / 2 ^ t.recv_scale ≤ 65535)
      × ((window_for t buffer ≡ 0) ⊎ (2 ^ t.recv_scale ≤ window_for t buffer))
unfolding window_for
window_for_bounds t buffer =
    let (fits, unit) =
      shown_bounds _ (2 ^ t.recv_scale) (pow_pos t.recv_scale)
        (capped_bound (2 ^ t.recv_scale) (to_forward 0 t.forward) buffer) in
    (ground arith, fits, unit)
