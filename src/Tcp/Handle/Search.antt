-- ===== src/Tcp/Handle/Search.antt =====
-- Which session `handle_tcp` of tun2http/tcp.c changes.
use nroxy.Prelude.{
  ℕ, ◌/◌, ◌≡◌, refl, true, false, none, some, List, [], ◌∷◌, ◌++◌, arith, ◌==◌, All, if◌then◌else◌,
  inl, inr, Bool-cases, take, drop,
}
use mathlib.Core.Path.{subst}
use nroxy.Os.{Kernel, Trace}
use nroxy.Net.Bytes.{byte_at, bytes_eq, bytes_eq_refl, bytes_eq→eq}
use nroxy.Net.Session.{NgSession, icmp_session, udp_session, tcp_session, TcpSession, TcpNode}
use nroxy.Tcp.Open.{source_address, dest_address}
use nroxy.Tcp.Header.{TcpHdr}
use nroxy.Tcp.Handle.{is_session_of, handle_session, update_session}

-- The connection of a segment, by its five parts: the version in the first byte of the packet, the two
-- ports, and the two addresses of the IP header, of 4 bytes from the 12th byte and from the 16th on, or of 16
-- bytes from the 8th and from the 24th.
abbrev pub IsConnection : List ℕ → TcpHdr → TcpSession → Type 0
IsConnection pkt h t =
    (t.version ≡ byte_at pkt 0 / 16)
    × ((t.source ≡ h.source)
        × ((t.dest ≡ h.dest)
            × ((t.saddr ≡ (
                  if byte_at pkt 0 / 16 == 4 then take 4 (drop 12 pkt) else take 16 (drop 8 pkt)))
                × (t.daddr ≡ (
                    if byte_at pkt 0 / 16 == 4
                    then take 4 (drop 16 pkt)
                    else take 16 (drop 24 pkt))))))

-- A session that is not the segment's.
abbrev pub IsOther : List ℕ → TcpHdr → NgSession → Type 0
IsOther pkt h (tcp_session s) = ¬ IsConnection pkt h s.tcp
IsOther pkt h (icmp_session s) = Unit
IsOther pkt h (udp_session s) = Unit

equal : (a b : List ℕ) → a ≡ b → bytes_eq a b ≡ true
equal a b e = subst (λ x. bytes_eq a x ≡ true) e (bytes_eq_refl a)

is_session_of_complete :
    (pkt : List ℕ) (h : TcpHdr) (t : TcpSession)
    → IsConnection pkt h t
    → is_session_of pkt h t ≡ true
unfolding is_session_of
is_session_of_complete pkt h t (v, (s, (d, (sa, da)))) =
    ground
      (arith, v, s, d, equal t.saddr (source_address pkt) sa, equal t.daddr (dest_address pkt) da)

is_session_of_sound :
    (pkt : List ℕ) (h : TcpHdr) (t : TcpSession)
    → is_session_of pkt h t ≡ true
    → IsConnection pkt h t
unfolding is_session_of
is_session_of_sound pkt h t e = (
  ground (arith, e),
  (
    ground (arith, e),
    (
      ground (arith, e),
      (
        bytes_eq→eq t.saddr (source_address pkt) (ground (arith, e)),
        bytes_eq→eq t.daddr (dest_address pkt) (ground (arith, e)),
      ),
    ),
  ),
)

is_other :
    (pkt : List ℕ) (h : TcpHdr) (t : TcpSession)
    → ¬ IsConnection pkt h t
    → is_session_of pkt h t ≡ false
is_other pkt h t other = elim (Bool-cases (is_session_of pkt h t)) [
  | inl same ↦ absurd (other (is_session_of_sound pkt h t same))
  | inr e ↦ e
]

module _ (k : Kernel) (sni pkt : List ℕ) (h : TcpHdr) (bytes : List ℕ) (n : ℕ) where
  -- Where no session is the segment's, nothing is called and none is found.
  pub update_session_absent :
      (sessions : List NgSession) (tr : Trace)
      → All (IsOther pkt h) sessions
      → update_session k sni pkt h bytes n sessions tr ≡ (none, tr)
  unfolding update_session
  update_session_absent [] tr a = refl
  update_session_absent (tcp_session s ∷ rest) tr a =
      rw (is_other pkt h s.tcp a.0, update_session_absent rest tr a.1) refl
  update_session_absent (udp_session s ∷ rest) tr a = rw (update_session_absent rest tr a.1) refl
  update_session_absent (icmp_session s ∷ rest) tr a = rw (update_session_absent rest tr a.1) refl

  -- A segment reaches the first TCP session that has its version, its two ports and its two addresses,
  -- and that one only: the list is the list with this session changed by `handle_session`, and the calls
  -- are those of `handle_session`.
  pub update_session_first :
      (before : List NgSession) (s : TcpNode) (after : List NgSession) (tr : Trace)
      → All (IsOther pkt h) before
      → IsConnection pkt h s.tcp
      → update_session k sni pkt h bytes n (before ++ (tcp_session s ∷ after)) tr ≡ (
        some (before ++ (tcp_session (handle_session k sni h bytes n s tr).0 ∷ after)),
        (handle_session k sni h bytes n s tr).1,
      )
  unfolding update_session
  update_session_first [] s after tr a m = rw (is_session_of_complete pkt h s.tcp m) refl
  update_session_first (tcp_session b ∷ before) s after tr a m =
      rw (is_other pkt h b.tcp a.0, update_session_first before s after tr a.1 m) refl
  update_session_first (udp_session b ∷ before) s after tr a m =
      rw (update_session_first before s after tr a.1 m) refl
  update_session_first (icmp_session b ∷ before) s after tr a m =
      rw (update_session_first before s after tr a.1 m) refl
