-- ===== src/Icmp/Handle.antt =====
-- `handle_icmp` and `open_icmp_socket` of tun2http/icmp.c: an ICMP message from the client.
use nroxy.Prelude.{
  ℕ, ◌/◌, Bool, true, false, ◌&&◌, ◌||◌, not, Option, none, some, List, [], ◌∷◌, ◌++◌, ◌==◌,
  if◌then◌else◌, length, drop,
}
use nroxy.Prelude.Int.{ℤ}
use nroxy.Os.{
  Kernel, M, pure, ◌>>=◌, ◌>>◌, Events, open_socket, protect_socket, epoll_add, get_time, log_call,
  socket_send, is_all,
}
use nroxy.Net.Bytes.{byte_at, bytes_eq, slice}
use nroxy.Net.Session.{IcmpSession, IcmpNode, NgSession, icmp_session}
use nroxy.Tcp.Open.{source_address, dest_address}
use nroxy.Tcp.Socket.Forward.{is_retry}
use nroxy.Util.Checksum.{calc_checksum, complement}
use nroxy.Icmp.Packet.{icmp_id, with_id}

-- The condition of the search.
unfoldable pub is_icmp_session_of : List ℕ → IcmpSession → Bool
is_icmp_session_of pkt u =
    (not u.stop && u.version == byte_at pkt 0 / 16)
    && (bytes_eq u.saddr (source_address pkt) && bytes_eq u.daddr (dest_address pkt))

-- The start of the checksum: the pseudo header takes its fields from the IPv6 header.
unfoldable pub echo_sum : List ℕ → ℕ
echo_sum pkt =
    if byte_at pkt 0 / 16 == 6
    then calc_checksum 0 (
        slice pkt 24 16
        ++ (slice pkt 8 16 ++ (slice pkt 4 2 ++ (0 ∷ 0 ∷ 0 ∷ 0 ∷ 0 ∷ byte_at pkt 6 ∷ []))))
    else 0

-- The message that goes to the socket: its identifier is complemented.
unfoldable pub outgoing_echo : List ℕ → ℕ → List ℕ
outgoing_echo pkt off =
    let message = drop off pkt in with_id (echo_sum pkt) (complement (icmp_id message)) message

module _ (k : Kernel) where
  -- `none` is the result -1.
  unfoldable pub open_icmp_socket : IcmpSession → M (Option ℕ)
  open_icmp_socket cur tr =
      let opened = open_socket cur.version ∷ tr in
      elim (k.new_socket tr cur.version) [
        | none ↦ (none, opened)
        | some sock ↦
            (if k.is_protected opened sock
              then (some sock, protect_socket sock ∷ opened)
              else (none, protect_socket sock ∷ opened))
      ]

  -- The result is whether the function returns 1.
  unfoldable pub send_echo : List ℕ → ℕ → IcmpNode → M (IcmpNode × Bool)
  send_echo pkt off s = do
    now ← get_time k
    let u = record (s.icmp) { time = now }
    let message = outgoing_echo pkt off
    elim s.socket [
      | none ↦ pure (record s { icmp = record u { stop = true } }, false)
      | some sock ↦ (do
        result ← socket_send k sock message false
        λ tr. (
          if is_all result (length message) || is_retry (k.errno tr)
              then (record s { icmp = u }, true)
              else (record s { icmp = record u { stop = true } }, false),
          tr,
        ))
    ]

  unfoldable pub update_icmp : List ℕ → ℕ → List NgSession → M (Option (List NgSession × Bool))
  update_icmp pkt off [] = pure none
  update_icmp pkt off (icmp_session s ∷ rest) =
      if is_icmp_session_of pkt s.icmp
      then (do (s', sent) ← send_echo pkt off s; pure (some (icmp_session s' ∷ rest, sent)))
      else (do
        found ← update_icmp pkt off rest
        elim found [
          | none ↦ pure none
          | some (rest', sent) ↦ pure (some (icmp_session s ∷ rest', sent))
        ])
  update_icmp pkt off (other ∷ rest) = do
    found ← update_icmp pkt off rest
    elim found [ none ↦ pure none | some (rest', sent) ↦ pure (some (other ∷ rest', sent)) ]

  unfoldable pub handle_icmp : List ℕ → ℕ → ℤ → List NgSession → M (List NgSession × Bool)
  handle_icmp pkt off uid sessions =
      if not (byte_at pkt off == 8) then pure (sessions, false) else (do
        found ← update_icmp pkt off sessions
        elim found [
          | some result ↦ pure result
          | none ↦ (do
            now ← get_time k
            let u : IcmpSession = record {
              uid = uid;
              time = now;
              version = byte_at pkt 0 / 16;
              saddr = source_address pkt;
              daddr = dest_address pkt;
              id = icmp_id (drop off pkt);
              stop = false;
            }
            socket ← open_icmp_socket u
            elim socket [
              | none ↦ pure (sessions, false)
              | some sock ↦ (do
                let events : Events = record { input = true; output = false; error = true }
                log_call (epoll_add sock events)
                (s', sent) ←
                    send_echo pkt off (record { icmp = u; socket = some sock; events = events })
                pure (icmp_session s' ∷ sessions, sent))
            ])
        ])
