-- ===== src/Handle.antt =====
-- `handle_ip` of tun2http/ip.c: a packet of the client goes to the relay of its protocol.
pub mod Limit
use nroxy.Prelude.{ℕ, Bool, ◌&&◌, ◌||◌, not, Option, none, some, List, leb, ◌==◌, if◌then◌else◌}
use nroxy.Prelude.Int.{ℤ}
use nroxy.Os.{Kernel, M, pure, ◌>>=◌}
use nroxy.Net.Session.{Arguments, NgSession}
use nroxy.Ip.Parse.{dropped, payload, parse_ip, is_too_short}
use nroxy.Tcp.Header.{tcphdr_at}
use nroxy.Tcp.Handle.{handle_tcp}
use nroxy.Udp.Handle.{has_udp_session, handle_udp}
use nroxy.Icmp.Handle.{handle_icmp}

abbrev pub is_icmp : ℕ → Bool
is_icmp protocol = protocol == 1 || protocol == 58

-- The size of the header that the payload must hold: `struct icmp`, `struct udphdr`, `struct tcphdr`.
abbrev pub header_size : ℕ → ℕ
header_size protocol =
    if is_icmp protocol then 28 else if protocol == 17 then 8 else if protocol == 6 then 20 else 0

-- The packets that may open a session, and that are dropped where there are too many.
unfoldable pub opens_session : Arguments → List ℕ → ℕ → ℕ → List NgSession → Bool
opens_session args pkt protocol off sessions =
    is_icmp protocol
    || ((protocol == 17 && not (has_udp_session args pkt off sessions))
        || (protocol == 6 && (tcphdr_at pkt off).syn))

-- `uid` is what `get_uid` finds for a packet that may open a session, and -1 for the others.
module _ (k : Kernel) (args : Arguments) (uid : ℤ) where
  unfoldable pub dispatch : List ℕ → ℕ → ℕ → List NgSession → M (Option (List NgSession))
  dispatch pkt protocol off sessions =
      if is_icmp protocol
      then (do (sessions', _) ← handle_icmp k pkt off uid sessions; pure (some sessions'))
      else if protocol == 17
      then (do
        result ← handle_udp k pkt off uid sessions
        elim result [ none ↦ pure none | some (sessions', _) ↦ pure (some sessions') ])
      else if protocol == 6
      then handle_tcp k args pkt off uid sessions
      else pure (some sessions)

  -- `count` is the number of sessions as it was last counted. `none` is a read outside of the packet
  -- or a loop that does not end.
  unfoldable pub handle_ip : List ℕ → ℕ → ℕ → List NgSession → M (Option (List NgSession))
  handle_ip pkt count maxsessions sessions = elim (parse_ip pkt) [
    | none ↦ pure none
    | some dropped ↦ pure (some sessions)
    | some (payload protocol off) ↦
        (if is_too_short pkt off (header_size protocol)
            || (leb maxsessions count && opens_session args pkt protocol off sessions)
          then pure (some sessions)
          else dispatch pkt protocol off sessions)
  ]
