-- ===== src/Tcp/Window.antt =====
-- The send and receive windows of tun2http/tcp.c.
pub mod Bounds
use nroxy.Prelude.{
  ℕ, ◌+◌, ◌-◌, ◌*◌, ◌/◌, ◌^◌, Bool, true, Option, none, some, List, [], ◌∷◌, ltb, ◌==◌,
  if◌then◌else◌, u32, sub_u32,
}
use nroxy.Prelude.Int.{ℤ, pos, negsuc}
use nroxy.Os.{Kernel, M, pure, ◌>>=◌, ◌>>◌, get_sndbuf, get_outq}
use nroxy.Net.Session.{TcpSession, TcpNode, Segment}
use nroxy.Util.Serial.{compare_u32}

-- `x <= 0` of an `int`.
abbrev pub is_nonpos : ℤ → Bool
is_nonpos (pos n) = n == 0
is_nonpos (negsuc _) = true

unfoldable pub get_send_window : TcpSession → ℕ
get_send_window cur =
    let behind =
      if is_nonpos (compare_u32 cur.acked cur.local_seq)
      then sub_u32 cur.local_seq cur.acked
      else cur.acked in
    if ltb behind cur.send_window then cur.send_window - behind else 0

-- `q->len - q->sent` summed over the queue into a `uint32_t`.
unfoldable pub to_forward : ℕ → List Segment → ℕ
to_forward acc [] = acc
to_forward acc (q ∷ rest) = to_forward (u32 (acc + sub_u32 q.len q.sent)) rest

-- The room that a send buffer of `sendbuf` bytes, 0 if unknown, has beside the unsent bytes.
unfoldable pub buffer_room : ℕ → ℕ → ℕ
buffer_room reported unsent =
    let sendbuf = if reported == 0 then 16384 else reported in
    if ltb unsent (sendbuf / 2) then sendbuf / 2 - unsent else 0

abbrev pub known : Option ℕ → ℕ
known none = 0
known (some n) = n

-- The window that `get_receive_window` computes from the receive buffer.
unfoldable pub window_for : TcpSession → ℕ → ℕ
unfolding to_forward
window_for t buffer =
    let max = u32 (65535 * 2 ^ t.recv_scale) in
    let waiting = to_forward 0 t.forward in
    let capped = if ltb max buffer then max else buffer in
    let window = if ltb waiting capped then capped - waiting else 0 in
    if window / 2 ^ t.recv_scale == 0 then 0 else window

module _ (k : Kernel) where
  unfoldable pub get_receive_buffer : Option ℕ → M ℕ
  unfolding buffer_room
  get_receive_buffer none = pure 0
  get_receive_buffer (some sock) = λ tr.
      let reported = known (k.sndbuf tr sock) in
      let asked = get_sndbuf sock ∷ tr in
      (buffer_room reported (known (k.outq asked sock)), get_outq sock ∷ asked)

  unfoldable pub get_receive_window : TcpNode → M ℕ
  unfolding get_receive_buffer window_for
  get_receive_window s = do
    buffer ← get_receive_buffer s.socket
    pure (window_for s.tcp (u32 buffer))
