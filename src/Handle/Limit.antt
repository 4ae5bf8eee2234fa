-- ===== src/Handle/Limit.antt =====
-- The limit on the number of sessions in `handle_ip` of tun2http/ip.c.
use nroxy.Prelude.{
  ℕ, ◌+◌, ◌≤◌, ◌≡◌, refl, ◌∙◌, inl, inr, Bool, true, false, ◌&&◌, ◌||◌, Option, none, some, List,
  [], ◌∷◌, arith, leb, if◌then◌else◌, Option-cases, length, take, drop,
}
use nroxy.Prelude.Int.{ℤ}
use nroxy.Os.{Kernel, Trace, M, pure}
use nroxy.Net.Session.{Arguments, NgSession, icmp_session, udp_session, tcp_session}
use nroxy.Ip.Parse.{Parsed, dropped, payload, parse_ip, is_too_short}
use nroxy.Tcp.Header.{TcpHdr, tcphdr_at, tcp_data_len, tcp_opt_len}
use nroxy.Tls.{parse_tls_header}
use nroxy.Tcp.Handle.{update_session, handle_unknown, handle_tcp}
use nroxy.Udp.Handle.{find_udp, has_udp_session, update_udp, handle_udp, behind}
use nroxy.Handle.{header_size, opens_session, dispatch, handle_ip}

-- A result list of the size of the list before.
abbrev pub Sized : List NgSession → Option (List NgSession) → Type 0
Sized before none = Unit
Sized before (some after) = length after ≡ length before

module _ (k : Kernel) where
  update_session-Sized :
      (sni pkt : List ℕ) (h : TcpHdr) (bytes : List ℕ) (n : ℕ) (sessions : List NgSession)
      (tr : Trace)
      → Sized sessions (update_session k sni pkt h bytes n sessions tr).0
  unfolding update_session
  update_session-Sized sni pkt h bytes n [] tr = tt
  update_session-Sized sni pkt h bytes n (tcp_session s ∷ rest) tr =
      ground (arith, update_session-Sized sni pkt h bytes n rest tr)
  update_session-Sized sni pkt h bytes n (udp_session s ∷ rest) tr =
      ground (arith, update_session-Sized sni pkt h bytes n rest tr)
  update_session-Sized sni pkt h bytes n (icmp_session s ∷ rest) tr =
      ground (arith, update_session-Sized sni pkt h bytes n rest tr)

  -- Nothing is opened without a SYN.
  unknown_opens_nothing :
      (args : Arguments) (pkt : List ℕ) (off : ℕ) (h : TcpHdr) (bytes : List ℕ) (n : ℕ) (uid : ℤ)
      (tr : Trace)
      → h.syn ≡ false
      → (handle_unknown k args pkt off h bytes n uid tr).0 ≡ some none
  unfolding handle_unknown
  unknown_opens_nothing args pkt off h bytes n uid tr syn = ground arith

  handle_tcp-Sized :
      (args : Arguments) (pkt : List ℕ) (off : ℕ) (uid : ℤ) (sessions : List NgSession) (tr : Trace)
      → (tcphdr_at pkt off).syn ≡ false
      → Sized sessions (handle_tcp k args pkt off uid sessions tr).0
  unfolding handle_tcp
  handle_tcp-Sized args pkt off uid sessions tr syn =
      let h = tcphdr_at pkt off in
      let datalen = tcp_data_len (length pkt) off h.doff in
      let rest = drop (off + 20 + tcp_opt_len h.doff) pkt in
      elim (Option-cases (parse_tls_header rest datalen)) [
        | inl e ↦ rw (e, handle_tcp) tt
        | inr (name, e) ↦
            rw (e, handle_tcp)
              (let sni : List ℕ = elim name [ none ↦ [] | some host ↦ host ] in
                let bytes = take datalen rest in
                ground (
                  arith,
                  update_session-Sized sni pkt h bytes datalen sessions tr,
                  unknown_opens_nothing args pkt off h bytes datalen uid
                      (update_session k sni pkt h bytes datalen sessions tr).1 syn,
                ))
      ]

  abbrev Kept : List NgSession → Option (Option (List NgSession × Bool)) → Type 0
  Kept before none = Unit
  Kept before (some none) = Unit
  Kept before (some (some (after, sent))) = length after ≡ length before

  behind-Kept :
      (s : NgSession) (before : List NgSession) (found : Option (Option (List NgSession × Bool)))
      → Kept before found
      → Kept (s ∷ before) (behind s found)
  behind-Kept s before none h = tt
  behind-Kept s before (some none) h = tt
  behind-Kept s before (some (some (after, sent))) h = omega arith

  update_udp-Kept :
      (pkt : List ℕ) (off : ℕ) (sessions : List NgSession) (tr : Trace)
      → Kept sessions (update_udp k pkt off sessions tr).0
  unfolding update_udp
  update_udp-Kept pkt off [] tr = tt
  update_udp-Kept pkt off (udp_session s ∷ rest) tr =
      let later =
        behind-Kept (udp_session s) rest (update_udp k pkt off rest tr).0
          (update_udp-Kept pkt off rest tr) in
      ground (arith, later)
  update_udp-Kept pkt off (tcp_session s ∷ rest) tr =
      behind-Kept (tcp_session s) rest (update_udp k pkt off rest tr).0
        (update_udp-Kept pkt off rest tr)
  update_udp-Kept pkt off (icmp_session s ∷ rest) tr =
      behind-Kept (icmp_session s) rest (update_udp k pkt off rest tr).0
        (update_udp-Kept pkt off rest tr)

  abbrev is_found : Option (Option (List NgSession × Bool)) → Bool
  is_found none = false
  is_found (some _) = true

  behind-found :
      (s : NgSession) (o : Option (Option (List NgSession × Bool)))
      → is_found (behind s o) ≡ is_found o
  behind-found s none = refl
  behind-found s (some none) = refl
  behind-found s (some (some r)) = refl

  find_udp-found :
      (pkt : List ℕ) (off : ℕ) (sessions : List NgSession) (tr : Trace)
      → is_found (update_udp k pkt off sessions tr).0 ≡ find_udp pkt off sessions
  unfolding update_udp find_udp
  find_udp-found pkt off [] tr = refl
  find_udp-found pkt off (udp_session s ∷ rest) tr = ground (
    arith,
    behind-found (udp_session s) (update_udp k pkt off rest tr).0,
    find_udp-found pkt off rest tr,
  )
  find_udp-found pkt off (tcp_session s ∷ rest) tr =
      behind-found (tcp_session s) (update_udp k pkt off rest tr).0 ∙ find_udp-found pkt off rest tr
  find_udp-found pkt off (icmp_session s ∷ rest) tr =
      behind-found (icmp_session s) (update_udp k pkt off rest tr).0
      ∙ find_udp-found pkt off rest tr

  abbrev Result : List NgSession → Option (List NgSession × Bool) → Type 0
  Result before none = Unit
  Result before (some (after, sent)) = length after ≡ length before

  handle_udp-Result :
      (pkt : List ℕ) (off : ℕ) (uid : ℤ) (sessions : List NgSession) (tr : Trace)
      → find_udp pkt off sessions ≡ true
      → Result sessions (handle_udp k pkt off uid sessions tr).0
  unfolding handle_udp
  handle_udp-Result pkt off uid sessions tr f =
      ground (arith, update_udp-Kept pkt off sessions tr, find_udp-found pkt off sessions tr)

  module _ (args : Arguments) (uid : ℤ) (pkt : List ℕ) (sessions : List NgSession)
      (tr : Trace) where
    dispatch-Sized :
        (protocol off : ℕ)
        → args.fwd53 ≡ true
        → opens_session args pkt protocol off sessions ≡ false
        → Sized sessions (dispatch k args uid pkt protocol off sessions tr).0
    unfolding dispatch opens_session has_udp_session
    dispatch-Sized protocol off fwd o = ground (
      arith,
      handle_udp-Result pkt off uid sessions tr,
      handle_tcp-Sized args pkt off uid sessions tr,
    )

    -- What `handle_ip` does with the parsed headers.
    abbrev handle_parsed : ℕ → ℕ → Parsed → M (Option (List NgSession))
    handle_parsed count maxsessions dropped = pure (some sessions)
    handle_parsed count maxsessions (payload protocol off) =
        if is_too_short pkt off (header_size protocol)
          || (leb maxsessions count && opens_session args pkt protocol off sessions)
        then pure (some sessions)
        else dispatch k args uid pkt protocol off sessions

    handle_parsed-Sized :
        (count maxsessions : ℕ) (parsed : Parsed)
        → maxsessions ≤ count
        → args.fwd53 ≡ true
        → Sized sessions (handle_parsed count maxsessions parsed tr).0
    handle_parsed-Sized count maxsessions dropped full fwd = refl
    handle_parsed-Sized count maxsessions (payload protocol off) full fwd =
        ground (arith, dispatch-Sized protocol off fwd)

  -- Where as many sessions are counted as are allowed, and DNS is forwarded, no packet opens a
  -- session: the list that `handle_ip` leaves, where it stays inside of the packet, has as many
  -- sessions as before.
  pub handle_ip_limit :
      (args : Arguments) (uid : ℤ) (pkt : List ℕ) (count maxsessions : ℕ)
      (sessions : List NgSession) (tr : Trace)
      → maxsessions ≤ count
      → args.fwd53 ≡ true
      → Sized sessions (handle_ip k args uid pkt count maxsessions sessions tr).0
  unfolding handle_ip
  handle_ip_limit args uid pkt count maxsessions sessions tr full fwd =
      elim (Option-cases (parse_ip pkt)) [
        | inl e ↦ rw (e, handle_ip) tt
        | inr (parsed, e) ↦
            rw (e, handle_ip)
              (handle_parsed-Sized args uid pkt sessions tr count maxsessions parsed full fwd)
      ]
