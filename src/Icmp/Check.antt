-- ===== src/Icmp/Check.antt =====
-- `check_icmp_session` and `check_icmp_socket` of tun2http/icmp.c.
use nroxy.Prelude.{
  ℕ, ◌+◌, ◌-◌, ◌/◌, ◌%◌, Bool, true, false, ◌||◌, none, some, List, [], ◌∷◌, ◌++◌, ◌==◌,
  if◌then◌else◌, length,
}
use nroxy.Os.{
  Kernel, M, pure, ◌>>=◌, ◌>>◌, Events, get_time, log_call, get_error, socket_recv, received,
  recv_failed, close as close_call,
}
use nroxy.Net.Bytes.{le16}
use nroxy.Net.Session.{IcmpSession, IcmpNode}
use nroxy.Timeout.{get_icmp_timeout, has_expired}
use nroxy.Tcp.Socket.Forward.{is_retry}
use nroxy.Util.Checksum.{calc_checksum}
use nroxy.Icmp.Packet.{with_id, write_icmp}

-- The 32-bit length of the pseudo header is stored without a conversion, 40 bytes too small.
abbrev pub le32 : ℕ → List ℕ
le32 n = le16 n ++ le16 (n / 65536)

unfoldable pub icmp6_sum : IcmpSession → ℕ → ℕ
icmp6_sum cur len = calc_checksum 0 (
    cur.daddr
    ++ (cur.saddr ++ (le32 ((len + 4294967296 - 40) % 4294967296) ++ (0 ∷ 0 ∷ 0 ∷ 58 ∷ []))))

module _ (k : Kernel) where
  -- The result is whether the session is to be deleted.
  unfoldable pub check_icmp_session : IcmpNode → ℕ → ℕ → M (IcmpNode × Bool)
  check_icmp_session s sessions maxsessions = do
    now ← get_time k
    let timeout = get_icmp_timeout s.icmp sessions maxsessions
    if s.icmp.stop || has_expired s.icmp.time timeout now
        then (do
          elim s.socket [ none ↦ pure tt | some sock ↦ log_call (close_call sock) ]
          pure (record s { socket = none }, true))
        else pure (s, false)

  -- An answer goes to the client under the client's identifier.
  unfoldable pub icmp_received : List ℕ → IcmpSession → M IcmpSession
  icmp_received bytes cur = do
    let start = if cur.version == 6 then icmp6_sum cur (length bytes) else 0
    written ← write_icmp k cur (with_id start cur.id bytes)
    pure (if written then cur else record cur { stop = true })

  unfoldable pub check_icmp_socket : ℕ → Events → IcmpSession → M IcmpSession
  check_icmp_socket sock ev cur =
      if ev.error
      then (do
        now ← get_time k
        log_call (get_error sock)
        pure (record cur { time = now; stop = true }))
      else if ev.input
      then (do
        now ← get_time k
        let u = record cur { time = now }
        result ← socket_recv k sock (if cur.version == 4 then 65535 - 20 - 8 else 65535 - 40 - 8)
        elim result [
          | recv_failed e ↦ pure (if is_retry e then u else record u { stop = true })
          | received [] ↦ pure (record u { stop = true })
          | received (b ∷ bytes) ↦ icmp_received (b ∷ bytes) u
        ])
      else pure cur
