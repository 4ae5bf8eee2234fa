-- ===== src/Udp/Handle.antt =====
-- `handle_udp`, `has_udp_session`, `block_udp` and `open_udp_socket` of tun2http/udp.c.
use nroxy.Prelude.{
  ℕ, ◌+◌, ◌-◌, ◌/◌, Bool, true, false, ◌&&◌, ◌||◌, not, Option, none, some, List, [], ◌∷◌, ◌==◌,
  if◌then◌else◌, length, drop,
}
use nroxy.Prelude.Int.{ℤ}
use nroxy.Os.{
  Kernel, M, pure, ◌>>=◌, ◌>>◌, Events, open_socket, protect_socket, set_option, epoll_add,
  get_time, log_call, socket_send, is_all,
}
use nroxy.Net.Bytes.{byte_at, be16_at, bytes_eq}
use nroxy.Net.Session.{
  Arguments, UdpState, active, finishing, blocked, UdpSession, UdpNode, NgSession, udp_session,
}
use nroxy.Tcp.Open.{source_address, dest_address}
use nroxy.Tcp.Socket.Forward.{is_retry}
use nroxy.Dns.{get_dns_query}
use nroxy.Dhcp.{refused, done, out_of_bounds, check_dhcp}
use nroxy.Udp.Check.{is_active}

-- The ports of the datagram at `off`.
abbrev pub udp_source : List ℕ → ℕ → ℕ
udp_source pkt off = be16_at pkt off

abbrev pub udp_dest : List ℕ → ℕ → ℕ
udp_dest pkt off = be16_at pkt (off + 2)

-- The condition of the search.
unfoldable pub is_udp_session_of : List ℕ → ℕ → UdpSession → Bool
is_udp_session_of pkt off u =
    (u.version == byte_at pkt 0 / 16
      && (u.source == udp_source pkt off && u.dest == udp_dest pkt off))
    && (bytes_eq u.saddr (source_address pkt) && bytes_eq u.daddr (dest_address pkt))

unfoldable pub find_udp : List ℕ → ℕ → List NgSession → Bool
find_udp pkt off [] = false
find_udp pkt off (udp_session s ∷ rest) = is_udp_session_of pkt off s.udp || find_udp pkt off rest
find_udp pkt off (_ ∷ rest) = find_udp pkt off rest

unfoldable pub has_udp_session : Arguments → List ℕ → ℕ → List NgSession → Bool
unfolding find_udp
has_udp_session args pkt off sessions =
    if udp_dest pkt off == 53 && not args.fwd53 then true else find_udp pkt off sessions

abbrev no_events : Events
no_events = record { input = false; output = false; error = false }

-- The session that a datagram opens. `UDP4_MAXMSG` and `UDP6_MAXMSG` follow from the largest packets.
unfoldable pub new_udp : List ℕ → ℕ → ℤ → ℕ → UdpState → UdpSession
new_udp pkt off uid now state = record {
  uid = uid;
  time = now;
  version = byte_at pkt 0 / 16;
  mss = if byte_at pkt 0 / 16 == 4 then 65535 - 20 - 8 else 65535 - 40 - 8;
  sent = 0;
  received = 0;
  saddr = source_address pkt;
  source = udp_source pkt off;
  daddr = dest_address pkt;
  dest = udp_dest pkt off;
  state = state;
}

-- An element in front of the list that a search has changed.
abbrev pub behind :
    NgSession → Option (Option (List NgSession × Bool)) → Option (Option (List NgSession × Bool))
behind s none = none
behind s (some none) = some none
behind s (some (some (rest, sent))) = some (some (s ∷ rest, sent))

module _ (k : Kernel) where
  -- A session that only marks its addresses as blocked; its members that are not set are zero here.
  unfoldable pub block_udp : List ℕ → ℕ → ℤ → List NgSession → M (List NgSession)
  unfolding new_udp
  block_udp pkt off uid sessions = do
    now ← get_time k
    pure (
        udp_session (record {
          udp = record (new_udp pkt off uid now blocked) { mss = 0 };
          socket = none;
          events = no_events;
        })
        ∷ sessions)

  -- `none` is the result -1. The options of broadcasts and multicasts are set without a check.
  unfoldable pub open_udp_socket : UdpSession → M (Option ℕ)
  open_udp_socket cur tr =
      let opened = open_socket cur.version ∷ tr in
      elim (k.new_socket tr cur.version) [
        | none ↦ (none, opened)
        | some sock ↦
            (let guarded = protect_socket sock ∷ opened in
              let is_broadcast =
                if cur.version == 4
                then bytes_eq cur.daddr (255 ∷ 255 ∷ 255 ∷ 255 ∷ [])
                else byte_at cur.daddr 0 == 255 in
              if not (k.is_protected opened sock) then (none, guarded) else (
                some sock,
                if not is_broadcast
                    then guarded
                    else if cur.version == 4
                    then set_option sock ∷ guarded
                    else set_option sock ∷ set_option sock ∷ set_option sock ∷ guarded,
              ))
      ]

  -- Forward the datagram; the result is whether the function returns 1.
  unfoldable pub send_datagram : List ℕ → UdpNode → M (UdpNode × Bool)
  send_datagram bytes s = do
    now ← get_time k
    let u = record (s.udp) { time = now }
    elim s.socket [
      | none ↦ pure (record s { udp = record u { state = finishing } }, false)
      | some sock ↦ (do
        result ← socket_send k sock bytes false
        λ tr. (
          if is_all result (length bytes)
              then (record s { udp = record u { sent = u.sent + length bytes } }, true)
              else if is_retry (k.errno tr)
              then (record s { udp = u }, true)
              else (record s { udp = record u { state = finishing } }, false),
          tr,
        ))
    ]

  -- What `handle_udp` does once it has an active session: `none` is a DNS query whose reading does not
  -- end, or a write out of bounds.
  unfoldable pub forward_udp : List ℕ → ℕ → UdpNode → M (Option (UdpNode × Bool))
  forward_udp pkt off s =
      let bytes = drop (off + 8) pkt in
      elim (if udp_dest pkt off == 53 then get_dns_query bytes else some none) [
        | none ↦ pure none
        | some _ ↦
            (if udp_source pkt off == 68 || udp_dest pkt off == 67
              then (do
                result ← check_dhcp k s.udp bytes
                elim result [
                  | refused _ ↦ (do sent ← send_datagram bytes s; pure (some sent))
                  | done u ↦ pure (some (record s { udp = u }, true))
                  | out_of_bounds ↦ pure none
                ])
              else (do sent ← send_datagram bytes s; pure (some sent)))
      ]

  -- The session found is changed in place. `none` outside is that none fits.
  unfoldable pub update_udp :
      List ℕ → ℕ → List NgSession → M (Option (Option (List NgSession × Bool)))
  update_udp pkt off [] = pure none
  update_udp pkt off (udp_session s ∷ rest) =
      if is_udp_session_of pkt off s.udp
      then (if is_active s.udp.state
          then (do
            result ← forward_udp pkt off s
            elim result [
              | none ↦ pure (some none)
              | some (s', sent) ↦ pure (some (some (udp_session s' ∷ rest, sent)))
            ])
          else pure (some (some (udp_session s ∷ rest, false))))
      else (do found ← update_udp pkt off rest; pure (behind (udp_session s) found))
  update_udp pkt off (other ∷ rest) = do found ← update_udp pkt off rest; pure (behind other found)

  -- `none` is as for `forward_udp`; the result is that of the function.
  unfoldable pub handle_udp : List ℕ → ℕ → ℤ → List NgSession → M (Option (List NgSession × Bool))
  handle_udp pkt off uid sessions = do
    found ← update_udp pkt off sessions
    elim found [
      | some result ↦ pure result
      | none ↦ (do
        now ← get_time k
        let u = new_udp pkt off uid now active
        socket ← open_udp_socket u
        elim socket [
          | none ↦ pure (some (sessions, false))
          | some sock ↦ (do
            let events : Events = record { input = true; output = false; error = true }
            log_call (epoll_add sock events)
            result ← forward_udp pkt off (record { udp = u; socket = some sock; events = events })
            elim result [
              | none ↦ pure none
              | some (s', sent) ↦ pure (some (udp_session s' ∷ sessions, sent))
            ])
        ])
    ]
