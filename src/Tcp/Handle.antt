-- ===== src/Tcp/Handle.antt =====
-- `handle_tcp` of tun2http/tcp.c: a TCP segment from the client.
pub mod Known
pub mod Search
use nroxy.Prelude.{
  ℕ, ◌+◌, ◌/◌, Bool, true, false, ◌&&◌, ◌||◌, Option, none, some, List, [], ◌∷◌, ◌++◌, ltb, ◌==◌,
  if◌then◌else◌, length, take, drop, u32, codes,
}
use nroxy.Prelude.Int.{ℤ, pos, negsuc}
use nroxy.Os.{Kernel, M, pure, ◌>>=◌, ◌>>◌, send_on}
use nroxy.Net.Bytes.{byte_at, bytes_eq}
use nroxy.Net.Session.{
  Arguments, TcpSession, TcpNode, NgSession, tcp_session, ConnectSent, not_sent, request_sent,
  connected, zeroed, listen,
}
use nroxy.Tls.{parse_tls_header, c_string}
use nroxy.Tcp.Header.{TcpHdr, tcphdr_at, tcp_opt_len, tcp_data_len}
use nroxy.Tcp.Queue.{queue_tcp}
use nroxy.Tcp.Write.{write_rst}
use nroxy.Tcp.Open.{open_session, source_address, dest_address}
use nroxy.Tcp.Handle.Known.{handle_known}

-- The condition of the search: the same version, ports and addresses.
unfoldable pub is_session_of : List ℕ → TcpHdr → TcpSession → Bool
is_session_of pkt h t =
    (t.version == byte_at pkt 0 / 16 && (t.source == h.source && t.dest == h.dest))
    && (bytes_eq t.saddr (source_address pkt) && bytes_eq t.daddr (dest_address pkt))

-- `CONNECT %s:443 HTTP/1.0` and an empty line.
unfoldable pub connect_request : List ℕ → List ℕ
connect_request hostname =
    codes "CONNECT " ++ (hostname ++ (codes ":443 HTTP/1.0" ++ (13 ∷ 10 ∷ 13 ∷ 10 ∷ [])))

abbrev pub is_not_sent : ConnectSent → Bool
is_not_sent not_sent = true
is_not_sent _ = false

abbrev pub is_connected : ConnectSent → Bool
is_connected connected = true
is_connected _ = false

-- The session by which an unknown segment is answered. It is zeroed, and of version 4 whatever the
-- packet is: of an IPv6 address it then keeps the first four bytes.
unfoldable pub rst_session : List ℕ → TcpHdr → ℕ → TcpSession
rst_session pkt h datalen = record {
  uid = pos 0;
  time = 0;
  version = 4;
  mss = 0;
  recv_scale = 0;
  send_scale = 0;
  recv_window = 0;
  send_window = 0;
  remote_seq = u32 (h.seq + datalen + (if h.syn || h.fin then 1 else 0));
  local_seq = h.ack_seq;
  remote_start = 0;
  local_start = 0;
  acked = 0;
  last_keep_alive = 0;
  sent = 0;
  received = 0;
  saddr = take 4 (source_address pkt);
  source = h.source;
  daddr = take 4 (dest_address pkt);
  dest = h.dest;
  state = zeroed;
  forward = [];
  hostname = [];
  connect_sent = not_sent;
}

module _ (k : Kernel) where
  -- The name that the client hello gives, or else the address as a text: of an IPv6 address the first four
  -- bytes.
  unfoldable pub host_of : List ℕ → TcpSession → List ℕ
  host_of [] t = c_string 511 (k.inet_ntoa (take 4 t.daddr))
  host_of (c ∷ sni) t = c ∷ sni

  unfoldable pub store_host : List ℕ → TcpSession → TcpSession
  store_host [] t = t
  store_host (c ∷ host) t = record t { hostname = c ∷ host }

  -- On port 443: ask the proxy for a tunnel, once.
  unfoldable pub request_tunnel : List ℕ → TcpNode → M TcpSession
  unfolding host_of store_host connect_request write_rst
  request_tunnel sni s =
      let host = host_of sni s.tcp in
      let t = store_host host s.tcp in
      if is_not_sent t.connect_sent && ltb 0 (length host)
      then (do
        sent ← send_on k s.socket (connect_request t.hostname)
        elim sent [
          | negsuc _ ↦ write_rst k t
          | pos _ ↦ pure (record t { connect_sent = request_sent; state = listen })
        ])
      else pure t

  unfoldable pub handle_session : List ℕ → TcpHdr → List ℕ → ℕ → TcpNode → M TcpNode
  handle_session sni h bytes datalen s =
      if h.urg
      then pure s
      else if h.dest == 443
      then (do
        t ← request_tunnel sni s
        if is_connected t.connect_sent
            then (do
              t' ← handle_known k h bytes datalen (record s { tcp = t })
              pure (record s { tcp = t' }))
            else pure (record s { tcp = queue_tcp h.seq h.psh bytes datalen t }))
      else (do t' ← handle_known k h bytes datalen s; pure (record s { tcp = t' }))

  -- No session is found: `none` inside is that none is registered.
  unfoldable pub handle_unknown :
      Arguments → List ℕ → ℕ → TcpHdr → List ℕ → ℕ → ℤ → M (Option (Option TcpNode))
  handle_unknown args pkt off h bytes datalen uid =
      if h.urg
      then pure (some none)
      else if h.syn
      then open_session k args pkt h (drop (off + 20) pkt) (tcp_opt_len h.doff) uid bytes datalen
      else (do write_rst k (rst_session pkt h datalen) >>= λ _. pure (some none))

  -- The search, and the change in place. `none` is that no session fits.
  unfoldable pub update_session :
      List ℕ → List ℕ → TcpHdr → List ℕ → ℕ → List NgSession → M (Option (List NgSession))
  update_session sni pkt h bytes datalen [] = pure none
  update_session sni pkt h bytes datalen (tcp_session s ∷ rest) =
      if is_session_of pkt h s.tcp
      then (do s' ← handle_session sni h bytes datalen s; pure (some (tcp_session s' ∷ rest)))
      else (do
        found ← update_session sni pkt h bytes datalen rest
        elim found [ none ↦ pure none | some rest' ↦ pure (some (tcp_session s ∷ rest')) ])
  update_session sni pkt h bytes datalen (other ∷ rest) = do
    found ← update_session sni pkt h bytes datalen rest
    elim found [ none ↦ pure none | some rest' ↦ pure (some (other ∷ rest')) ]

  abbrev pub register : List NgSession → Option (Option TcpNode) → Option (List NgSession)
  register sessions none = none
  register sessions (some none) = some sessions
  register sessions (some (some s)) = some (tcp_session s ∷ sessions)

  -- The payload is at `off`. `none` is a read outside of the packet by the TLS parser, or a loop over
  -- the options that does not end within its fuel.
  unfoldable pub handle_tcp :
      Arguments → List ℕ → ℕ → ℤ → List NgSession → M (Option (List NgSession))
  handle_tcp args pkt off uid sessions =
      let h = tcphdr_at pkt off in
      let datalen = tcp_data_len (length pkt) off h.doff in
      let rest = drop (off + 20 + tcp_opt_len h.doff) pkt in
      let bytes = take datalen rest in
      elim (parse_tls_header rest datalen) [
        | none ↦ pure none
        | some name ↦ (do
          let sni : List ℕ = elim name [ none ↦ [] | some host ↦ host ]
          found ← update_session sni pkt h bytes datalen sessions
          elim found [
            | some sessions' ↦ pure (some sessions')
            | none ↦ (do
              opened ← handle_unknown args pkt off h bytes datalen uid
              pure (register sessions opened))
          ])
      ]
