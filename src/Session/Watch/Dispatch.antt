-- ===== src/Session/Watch/Dispatch.antt =====
-- The sessions and the watched sockets after a packet of the client, in tun2http/icmp.c and
-- tun2http/ip.c.
use nroxy.Prelude.{
  ℕ, ◌/◌, ◌≡◌, refl, ◌∙◌, inl, inr, Bool, true, false, ◌&&◌, ◌||◌, Option, none, some, List, [],
  ◌∷◌, arith, leb, ◌==◌, if◌then◌else◌, Bool-cases, Option-cases, drop,
}
use nroxy.Prelude.Int.{ℤ}
use nroxy.Os.{Kernel, Trace, M, pure, ◌>>=◌, ◌>>◌, Events, epoll_add, time, get_time, log_call}
use nroxy.Net.Session.{
  Arguments, IcmpSession, IcmpNode, NgSession, tcp_session, udp_session, icmp_session,
}
use nroxy.Ip.Parse.{Parsed, dropped, payload, parse_ip, is_too_short}
use nroxy.Net.Bytes.{byte_at}
use nroxy.Tcp.Open.{source_address, dest_address}
use nroxy.Icmp.Packet.{icmp_id}
use nroxy.Icmp.Handle.{open_icmp_socket, send_echo, update_icmp, handle_icmp}
use nroxy.Handle.{dispatch, handle_ip, header_size, opens_session}
use nroxy.Session.Watch.{watched, AllShut, Carries, Good}
use nroxy.Session.Watch.Others.{send_echo-watched}
use nroxy.Session.Watch.Udp.{handle_udp-GoodFlag}
use nroxy.Session.Watch.Packets.{handle_tcp-Good}

module _ (k : Kernel) (w : ℕ) where
  open_icmp_socket-watched :
      (u : IcmpSession) (tr : Trace) → watched w (open_icmp_socket k u tr).1 ≡ watched w tr
  unfolding open_icmp_socket
  open_icmp_socket-watched u tr = ground arith

  abbrev FoundIcmp : List NgSession → Trace → Option (List NgSession × Bool) → Trace → Type 0
  FoundIcmp sessions tr none tr' = watched w tr' ≡ watched w tr
  FoundIcmp sessions tr (some (after, sent)) tr' = AllShut after × Carries w sessions tr after tr'

  update_icmp-FoundIcmp :
      (pkt : List ℕ) (off : ℕ) (sessions : List NgSession) (tr : Trace)
      → AllShut sessions
      → let after = update_icmp k pkt off sessions tr in FoundIcmp sessions tr after.0 after.1
  unfolding update_icmp
  update_icmp-FoundIcmp pkt off [] tr inv = refl
  update_icmp-FoundIcmp pkt off (icmp_session s ∷ rest) tr inv =
      ground (
        arith,
        update_icmp-FoundIcmp pkt off rest tr inv.1,
        send_echo-watched k w pkt off s tr,
        inv,
      )
  update_icmp-FoundIcmp pkt off (tcp_session s ∷ rest) tr inv =
      ground (arith, update_icmp-FoundIcmp pkt off rest tr inv.1, inv)
  update_icmp-FoundIcmp pkt off (udp_session s ∷ rest) tr inv =
      ground (arith, update_icmp-FoundIcmp pkt off rest tr inv.1, inv)

  -- What `handle_icmp` does with a new socket.
  abbrev start_icmp :
      List ℕ → ℕ → IcmpSession → List NgSession → Option ℕ → M (List NgSession × Bool)
  start_icmp pkt off u sessions none = pure (sessions, false)
  start_icmp pkt off u sessions (some sock) = do
    let events : Events = record { input = true; output = false; error = true }
    log_call (epoll_add sock events)
    (s', sent) ← send_echo k pkt off (record { icmp = u; socket = some sock; events = events })
    pure (icmp_session s' ∷ sessions, sent)

  -- What `handle_icmp` does with the result of the search.
  abbrev after_icmp :
      List ℕ → ℕ → ℤ → List NgSession → Option (List NgSession × Bool) → M (List NgSession × Bool)
  after_icmp pkt off uid sessions (some result) = pure result
  after_icmp pkt off uid sessions none = do
    now ← get_time k
    let u : IcmpSession = record {
      uid = uid;
      time = now;
      version = byte_at pkt 0 / 16;
      saddr = source_address pkt;
      daddr = dest_address pkt;
      id = icmp_id (drop off pkt);
      stop = false;
    }
    socket ← open_icmp_socket k u
    start_icmp pkt off u sessions socket

  start_icmp-Good :
      (pkt : List ℕ) (off : ℕ) (u : IcmpSession) (sessions : List NgSession) (socket : Option ℕ)
      (tr tr' : Trace)
      → AllShut sessions
      → watched w tr' ≡ watched w tr
      → let after = start_icmp pkt off u sessions socket tr' in
        Good w sessions tr (some after.0.0) after.1
  start_icmp-Good pkt off u sessions none tr tr' inv e = (inv, ground arith)
  start_icmp-Good pkt off u sessions (some sock) tr tr' inv e =
      let events : Events = record { input = true; output = false; error = true } in
      let s : IcmpNode = record { icmp = u; socket = some sock; events = events } in
      ground (arith, send_echo-watched k w pkt off s (epoll_add sock events ∷ tr'), inv)

  after_icmp-Good :
      (pkt : List ℕ) (off : ℕ) (uid : ℤ) (sessions : List NgSession) (tr : Trace)
      (found : Option (List NgSession × Bool)) (tr' : Trace)
      → AllShut sessions
      → FoundIcmp sessions tr found tr'
      → let after = after_icmp pkt off uid sessions found tr' in
        Good w sessions tr (some after.0.0) after.1
  after_icmp-Good pkt off uid sessions tr (some r) tr' inv f = f
  after_icmp-Good pkt off uid sessions tr none tr' inv f =
      let u : IcmpSession = record {
        uid = uid;
        time = k.now tr';
        version = byte_at pkt 0 / 16;
        saddr = source_address pkt;
        daddr = dest_address pkt;
        id = icmp_id (drop off pkt);
        stop = false;
      } in
      let socket = open_icmp_socket k u (time ∷ tr') in
      start_icmp-Good pkt off u sessions socket.0 tr socket.1 inv
        (open_icmp_socket-watched u (time ∷ tr') ∙ f)

  -- Nothing has happened.
  same-Good :
      (sessions : List NgSession) (tr : Trace)
      → AllShut sessions
      → Good w sessions tr (some sessions) tr
  same-Good sessions tr inv = (inv, ground arith)

  handle_icmp-Good :
      (pkt : List ℕ) (off : ℕ) (uid : ℤ) (sessions : List NgSession) (tr : Trace)
      → AllShut sessions
      → let after = handle_icmp k pkt off uid sessions tr in
        Good w sessions tr (some after.0.0) after.1
  unfolding handle_icmp
  handle_icmp-Good pkt off uid sessions tr inv =
      let found = update_icmp k pkt off sessions tr in
      elim (Bool-cases (byte_at pkt off == 8)) [
        | inl e ↦
            rw (e, handle_icmp)
              (after_icmp-Good pkt off uid sessions tr found.0 found.1 inv
                (update_icmp-FoundIcmp pkt off sessions tr inv))
        | inr e ↦ rw (e, handle_icmp) (same-Good sessions tr inv)
      ]

  module _ (args : Arguments) (uid : ℤ) (pkt : List ℕ) (sessions : List NgSession) (tr : Trace)
      (inv : AllShut sessions) where
    dispatch-Good :
        (protocol off : ℕ)
        → let after = dispatch k args uid pkt protocol off sessions tr in
          Good w sessions tr after.0 after.1
    unfolding dispatch
    dispatch-Good protocol off = ground (
      arith,
      handle_icmp-Good pkt off uid sessions tr inv,
      handle_udp-GoodFlag k w pkt off uid sessions tr inv,
      handle_tcp-Good k w args pkt off uid sessions tr inv,
      inv,
    )

    -- What `handle_ip` does with the parsed headers.
    abbrev handle_parsed : ℕ → ℕ → Parsed → M (Option (List NgSession))
    handle_parsed count maxsessions dropped = pure (some sessions)
    handle_parsed count maxsessions (payload protocol off) =
        if is_too_short pkt off (header_size protocol)
          || (leb maxsessions count && opens_session args pkt protocol off sessions)
        then pure (some sessions)
        else dispatch k args uid pkt protocol off sessions

    parsed-Good :
        (count maxsessions : ℕ) (parsed : Parsed)
        → let after = handle_parsed count maxsessions parsed tr in
          Good w sessions tr after.0 after.1
    parsed-Good count maxsessions dropped = same-Good sessions tr inv
    parsed-Good count maxsessions (payload protocol off) =
        ground (arith, dispatch-Good protocol off, same-Good sessions tr inv)

    pub handle_ip-Good :
        (count maxsessions : ℕ)
        → let after = handle_ip k args uid pkt count maxsessions sessions tr in
          Good w sessions tr after.0 after.1
    unfolding handle_ip
    handle_ip-Good count maxsessions = elim (Option-cases (parse_ip pkt)) [
      | inl e ↦ rw (e, handle_ip) tt
      | inr (parsed, e) ↦ rw (e, handle_ip) (parsed-Good count maxsessions parsed)
    ]
