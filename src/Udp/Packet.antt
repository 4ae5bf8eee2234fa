-- ===== src/Udp/Packet.antt =====
-- The packet that `write_udp` of tun2http/udp.c builds.
pub mod Datagram
use nroxy.Prelude.{ℕ, ◌+◌, Bool, List, [], ◌∷◌, ◌++◌, ◌==◌, if◌then◌else◌, length}
use nroxy.Os.{Kernel, M, write_all}
use nroxy.Net.Bytes.{be16, le16}
use nroxy.Net.Session.{UdpSession}
use nroxy.Ip.Header.{ip4_header, pseudo4, ip6_header, pseudo6}
use nroxy.Util.Checksum.{calc_checksum, complement}

-- The header up to its checksum.
unfoldable pub udp_header : UdpSession → ℕ → List ℕ
udp_header cur datalen = be16 cur.dest ++ (be16 cur.source ++ be16 (8 + datalen))

unfoldable pub udp_pseudo : UdpSession → ℕ → List ℕ
udp_pseudo cur datalen =
    if cur.version == 4
    then pseudo4 (8 + datalen) 17 cur.daddr cur.saddr
    else pseudo6 (8 + datalen) 17 cur.saddr cur.daddr

-- The checksum over the pseudo header, continued over the header and the data.
unfoldable pub udp_check : UdpSession → List ℕ → ℕ
unfolding udp_header udp_pseudo
udp_check cur bytes =
    let n = length bytes in
    complement (
      calc_checksum
        (calc_checksum (calc_checksum 0 (udp_pseudo cur n)) (udp_header cur n ++ (0 ∷ 0 ∷ [])))
        bytes)

unfoldable pub udp_packet : UdpSession → List ℕ → List ℕ
unfolding udp_check
udp_packet cur bytes =
    let n = length bytes in
    let datagram = udp_header cur n ++ (le16 (udp_check cur bytes) ++ bytes) in
    if cur.version == 4
    then ip4_header (20 + 8 + n) 17 cur.daddr cur.saddr ++ datagram
    else ip6_header (8 + n) 17 cur.daddr cur.saddr ++ datagram

module _ (k : Kernel) where
  -- The result is whether the function returns 0 or more.
  unfoldable pub write_udp : UdpSession → List ℕ → M Bool
  write_udp cur bytes = write_all k (udp_packet cur bytes)
