-- ===== src/Tcp/Socket/Forward.antt =====
-- The forwarding loop of `check_tcp_socket` in tun2http/tcp.c.
use nroxy.Prelude.{
  ℕ, ◌+◌, ◌-◌, Bool, true, false, not, none, some, List, [], ◌∷◌, ltb, ◌==◌, if◌then◌else◌, take,
  drop, u16, u32, sub_u32,
}
use nroxy.Prelude.Int.{ℤ, pos, negsuc}
use nroxy.Os.{Kernel, M, Errno, eintr, eagain, other, socket_send}
use nroxy.Net.Session.{TcpSession, Segment}
use nroxy.Tcp.Write.{write_rst}
use nroxy.Tcp.Monitor.{can_forward}
use nroxy.Http.{patch_http_url}

abbrev pub is_empty : List Segment → Bool
is_empty [] = true
is_empty (_ ∷ _) = false

abbrev pub is_retry : Errno → Bool
is_retry eintr = true
is_retry eagain = true
is_retry other = false

-- A `ssize_t` compared with a `size_t` is converted to the unsigned type.
abbrev pub as_unsigned : ℤ → ℕ
as_unsigned (pos n) = n
as_unsigned (negsuc n) = 18446744073709551615 - n

-- `if (sent > len) { sent = len; }`
unfoldable pub clamp_sent : ℤ → ℕ → ℤ
clamp_sent sent len = if ltb len (as_unsigned sent) then pos len else sent

-- What is sent: on port 80 with the request's target patched.
unfoldable pub outgoing : TcpSession → Segment → List ℕ
outgoing t s =
    let rest = take (sub_u32 s.len s.sent) (drop s.sent s.bytes) in
    if t.dest == 80
    then elim (patch_http_url rest) [ none ↦ rest | some patched ↦ patched ]
    else rest

-- The session after `n` bytes of its first segment are sent.
unfoldable pub advance : TcpSession → Segment → List Segment → ℕ → TcpSession
advance t s rest n =
    let total = u16 (s.sent + n) in
    record t {
      sent = t.sent + n;
      remote_seq = u32 (s.seq + total);
      forward = if s.len == total then rest else (record s { sent = total }) ∷ rest;
    }

module _ (k : Kernel) where
  -- The list is the queue of the session; the last argument is `fwd`.
  unfoldable pub forward_data : ℕ → ℕ → List Segment → TcpSession → Bool → M (TcpSession × Bool)
  unfolding clamp_sent outgoing advance write_rst
  forward_data sock buffer_size [] t fwd tr = ((t, fwd), tr)
  forward_data sock buffer_size (s ∷ rest) t fwd tr =
      let len = sub_u32 s.len s.sent in
      let (result, tr') = socket_send k sock (outgoing t s) (not s.psh) tr in
      elim (can_forward t s buffer_size) [
        | false ↦ ((t, fwd), tr)
        | true ↦ (elim (clamp_sent result len) [
          | negsuc _ ↦
              (if is_retry (k.errno tr')
                then ((t, fwd), tr')
                else let (t', tr'') = write_rst k t tr' in ((t', fwd), tr''))
          | pos n ↦ (elim (s.len == u16 (s.sent + n)) [
            | true ↦ forward_data sock (sub_u32 buffer_size n) rest (advance t s rest n) true tr'
            | false ↦ ((advance t s rest n, true), tr')
          ])
        ])
      ]
