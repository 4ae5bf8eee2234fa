-- ===== src/Session/Watch/Packets.antt =====
-- The sessions and the watched sockets after a packet of the client, in tun2http/tcp.c and
-- tun2http/ip.c.
use nroxy.Prelude.{
  ℕ, suc, ◌+◌, ◌/◌, ◌≡◌, refl, ◌∙◌, inl, inr, true, false, Option, none, some, List, [], ◌∷◌, arith,
  if◌then◌else◌, Option-cases, length, take, drop, u32,
}
use nroxy.Prelude.Int.{ℤ}
use nroxy.Os.{Kernel, Trace, M, pure, ◌>>=◌, Events, epoll_add, rand, time}
use nroxy.Net.Session.{
  Arguments, TcpSession, TcpNode, NgSession, tcp_session, udp_session, icmp_session,
}
use nroxy.Tls.{parse_tls_header}
use nroxy.Tcp.Header.{TcpHdr, tcphdr_at, tcp_data_len, tcp_opt_len, SynOptions, syn_options}
use nroxy.Tcp.Open.{open_session, open_tcp_socket, new_session}
use nroxy.Tcp.Handle.{rst_session, handle_unknown, update_session, register, handle_tcp}
use nroxy.Tcp.Machine.Life.{handle_session-socket, handle_session-SocketInv}
use nroxy.Tcp.Window.{get_receive_window}
use nroxy.Ip.{get_default_mss}
use nroxy.Net.Bytes.{byte_at}
use nroxy.Tcp.Machine.Edges.{is_shut}
use nroxy.Session.Events.{is_own}
use nroxy.Session.Watch.{watched, AllShut, Good, Found}
use nroxy.Session.Watch.Tcp.{handle_session-watched, write_rst-watched, get_receive_window-watched}

module _ (k : Kernel) (w : ℕ) where
  update_session-Found :
      (sni pkt : List ℕ) (h : TcpHdr) (bytes : List ℕ) (n : ℕ) (sessions : List NgSession)
      (tr : Trace)
      → AllShut sessions
      → let after = update_session k sni pkt h bytes n sessions tr in
        Found w sessions tr after.0 after.1
  unfolding update_session
  update_session-Found sni pkt h bytes n [] tr inv = refl
  update_session-Found sni pkt h bytes n (tcp_session s ∷ rest) tr inv = ground (
    arith,
    update_session-Found sni pkt h bytes n rest tr inv.1,
    handle_session-watched k w sni h bytes n s tr,
    handle_session-socket k sni h bytes n s tr inv.0,
    handle_session-SocketInv k sni h bytes n s tr inv.0,
  )
  update_session-Found sni pkt h bytes n (udp_session s ∷ rest) tr inv =
      ground (arith, update_session-Found sni pkt h bytes n rest tr inv.1)
  update_session-Found sni pkt h bytes n (icmp_session s ∷ rest) tr inv =
      ground (arith, update_session-Found sni pkt h bytes n rest tr inv.1)

  -- A new session has the socket that it makes epoll watch.
  abbrev Opened : Trace → Option (Option TcpNode) → Trace → Type 0
  Opened tr none tr' = Unit
  Opened tr (some none) tr' = watched w tr' ≡ watched w tr
  Opened tr (some (some s)) tr' =
      (is_shut s.tcp.state ≡ false)
      × (watched w tr' ≡ (if is_own w s.socket then true else watched w tr))

  open_tcp_socket-watched :
      (args : Arguments) (t : TcpSession) (tr : Trace)
      → watched w (open_tcp_socket k args t tr).1 ≡ watched w tr
  unfolding open_tcp_socket
  open_tcp_socket-watched args t tr = ground arith

  -- What is done with the socket of a new session.
  abbrev watch_session : TcpSession → Option ℕ → M (Option (Option TcpNode))
  watch_session t none = pure (some none)
  watch_session t (some sock) = do
    let events : Events = record { input = false; output = true; error = true }
    window ← get_receive_window k (record { tcp = t; socket = some sock; events = events })
    λ tr. (
      some (
          some (record {
            tcp = record t { recv_window = window };
            socket = some sock;
            events = events;
          })),
      epoll_add sock events ∷ tr,
    )

  watch_session-Opened :
      (t : TcpSession) (socket : Option ℕ) (tr : Trace)
      → is_shut t.state ≡ false
      → let after = watch_session t socket tr in Opened tr after.0 after.1
  watch_session-Opened t none tr h = refl
  watch_session-Opened t (some sock) tr h = (
    h,
    ground (
      arith,
      get_receive_window-watched k w
          (record {
            tcp = t;
            socket = some sock;
            events = record { input = false; output = true; error = true };
          })
          tr,
    ),
  )

  Opened-after :
      (tr tr' tr'' : Trace) (opened : Option (Option TcpNode))
      → watched w tr' ≡ watched w tr
      → Opened tr' opened tr''
      → Opened tr opened tr''
  Opened-after tr tr' tr'' none e o = tt
  Opened-after tr tr' tr'' (some none) e o = o ∙ e
  Opened-after tr tr' tr'' (some (some s)) e o = (o.0, ground (arith, o.1))

  open_session-Opened :
      (args : Arguments) (pkt : List ℕ) (h : TcpHdr) (options : List ℕ) (optlen : ℕ) (uid : ℤ)
      (bytes : List ℕ) (n : ℕ) (tr : Trace)
      → let after = open_session k args pkt h options optlen uid bytes n tr in
        Opened tr after.0 after.1
  unfolding open_session new_session
  open_session-Opened args pkt h options optlen uid bytes n tr =
      let start : SynOptions = record { mss = get_default_mss (byte_at pkt 0 / 16); ws = 0 } in
      elim (Option-cases (syn_options (suc optlen) options optlen start)) [
        | inl e ↦ rw (e, open_session) tt
        | inr (found, e) ↦
            rw (e, open_session)
              (let tr' = rand ∷ time ∷ tr in
                let isn = u32 (k.random (time ∷ tr)) in
                let t = new_session k pkt h found uid bytes n (k.now tr) isn in
                let socket = open_tcp_socket k args t tr' in
                Opened-after tr socket.1 _ _ (open_tcp_socket-watched args t tr')
                  (watch_session-Opened t socket.0 socket.1 refl))
      ]

  handle_unknown-Opened :
      (args : Arguments) (pkt : List ℕ) (off : ℕ) (h : TcpHdr) (bytes : List ℕ) (n : ℕ) (uid : ℤ)
      (tr : Trace)
      → let after = handle_unknown k args pkt off h bytes n uid tr in Opened tr after.0 after.1
  unfolding handle_unknown
  handle_unknown-Opened args pkt off h bytes n uid tr = ground (
    arith,
    open_session-Opened args pkt h (drop (off + 20) pkt) (tcp_opt_len h.doff) uid bytes n tr,
    write_rst-watched k w (rst_session pkt h n) tr,
  )

  register-Good :
      (sessions : List NgSession) (tr : Trace) (opened : Option (Option TcpNode)) (tr' : Trace)
      → AllShut sessions
      → Opened tr opened tr'
      → Good w sessions tr (register k sessions opened) tr'
  register-Good sessions tr none tr' inv o = tt
  register-Good sessions tr (some none) tr' inv o = (inv, ground arith)
  register-Good sessions tr (some (some s)) tr' inv o = ((inl o.0, inv), ground arith)

  -- What `handle_tcp` does with the result of the search.
  abbrev after_search :
      Arguments
      → List ℕ
      → ℕ
      → TcpHdr
      → List ℕ
      → ℕ
      → ℤ
      → List NgSession
      → Option (List NgSession)
      → M (Option (List NgSession))
  after_search args pkt off h bytes n uid sessions (some after) = pure (some after)
  after_search args pkt off h bytes n uid sessions none = do
    opened ← handle_unknown k args pkt off h bytes n uid
    pure (register k sessions opened)

  search_keeps :
      (args : Arguments) (pkt : List ℕ) (off : ℕ) (h : TcpHdr) (bytes : List ℕ) (n : ℕ) (uid : ℤ)
      (sessions : List NgSession) (tr : Trace) (found : Option (List NgSession)) (tr' : Trace)
      → AllShut sessions
      → Found w sessions tr found tr'
      → let after = after_search args pkt off h bytes n uid sessions found tr' in
        Good w sessions tr after.0 after.1
  search_keeps args pkt off h bytes n uid sessions tr (some after) tr' inv f = f
  search_keeps args pkt off h bytes n uid sessions tr none tr' inv f =
      let opened = handle_unknown k args pkt off h bytes n uid tr' in
      register-Good sessions tr opened.0 opened.1 inv (
        Opened-after tr tr' opened.1 opened.0 f
          (handle_unknown-Opened args pkt off h bytes n uid tr'))

  pub handle_tcp-Good :
      (args : Arguments) (pkt : List ℕ) (off : ℕ) (uid : ℤ) (sessions : List NgSession) (tr : Trace)
      → AllShut sessions
      → let after = handle_tcp k args pkt off uid sessions tr in Good w sessions tr after.0 after.1
  unfolding handle_tcp
  handle_tcp-Good args pkt off uid sessions tr inv =
      let h = tcphdr_at pkt off in
      let datalen = tcp_data_len (length pkt) off h.doff in
      let rest = drop (off + 20 + tcp_opt_len h.doff) pkt in
      elim (Option-cases (parse_tls_header rest datalen)) [
        | inl e ↦ rw (e, handle_tcp) tt
        | inr (name, e) ↦
            rw (e, handle_tcp)
              (let sni : List ℕ = elim name [ none ↦ [] | some host ↦ host ] in
                let bytes = take datalen rest in
                let found = update_session k sni pkt h bytes datalen sessions tr in
                search_keeps args pkt off h bytes datalen uid sessions tr found.0 found.1 inv
                  (update_session-Found sni pkt h bytes datalen sessions tr inv))
      ]
