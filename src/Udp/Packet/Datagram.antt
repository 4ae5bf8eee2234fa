-- ===== src/Udp/Packet/Datagram.antt =====
-- The checksums of the packets that tun2http/udp.c writes.
use nroxy.Prelude.{
  ℕ, ◌+◌, ◌<◌, ◌≡◌, refl, ap, ◌∙◌, List, [], ◌∷◌, ◌++◌, arith, ◌==◌, if◌then◌else◌, length,
  length-append, IsBytes, All-append,
}
use nroxy.Net.Bytes.{le16}
use nroxy.Net.Session.{UdpSession}
use nroxy.Net.Sums.{field_verifies}
use nroxy.Util.Checksum.{calc_checksum, complement}
use nroxy.Udp.Packet.{udp_header, udp_pseudo, udp_check, udp_packet}
use nroxy.Tcp.Packet.Verifies.{
  rfc_pseudo, IsAddress, code_pseudo, code_pseudo-rfc, code_pseudo-parts,
}
use nroxy.Ip.Header.{ip4_header, ip6_header}

-- The datagram behind the IP header.
abbrev pub datagram : UdpSession → List ℕ → List ℕ
datagram cur bytes = udp_header cur (length bytes) ++ (le16 (udp_check cur bytes) ++ bytes)

udp_pseudo-code_pseudo :
    (cur : UdpSession) (n : ℕ)
    → udp_pseudo cur n ≡ code_pseudo cur.version (8 + n) 17 cur.daddr cur.saddr
unfolding udp_pseudo
udp_pseudo-code_pseudo cur n = ground arith

udp_header-IsBytes :
    (cur : UdpSession) (n : ℕ) → IsBytes (udp_header cur n) × (length (udp_header cur n) ≡ 6)
unfolding udp_header
udp_header-IsBytes cur n = ground arith

-- The packet that is written is an IP header and a datagram that verifies against the pseudo
-- header of RFC 768 or RFC 8200, for fewer than 60000 bytes of data and addresses of an even
-- number of at most 16 bytes.
pub udp_packet_verifies :
    (cur : UdpSession) (bytes : List ℕ)
    → IsAddress cur.saddr
    → IsAddress cur.daddr
    → IsBytes bytes
    → length bytes < 60000
    → (udp_packet cur bytes
        ≡ (if cur.version == 4
            then ip4_header (20 + length (datagram cur bytes)) 17 cur.daddr cur.saddr
            else ip6_header (length (datagram cur bytes)) 17 cur.daddr cur.saddr)
          ++ datagram cur bytes)
      × (calc_checksum 0 (
            rfc_pseudo cur.version (length (datagram cur bytes)) 17 cur.daddr cur.saddr
            ++ datagram cur bytes)
          ≡ 65535)
unfolding udp_packet udp_check
udp_packet_verifies cur bytes hs hd hb n =
    let (hh, lh) = udp_header-IsBytes cur (length bytes) in
    let len = 8 + length bytes in
    let pseudo = code_pseudo cur.version len 17 cur.daddr cur.saddr in
    let (hp, ep, np) =
      code_pseudo-parts cur.version len 17 cur.daddr cur.saddr hd hs (omega arith) in
    let stored = complement (
      calc_checksum
        (calc_checksum (calc_checksum 0 pseudo) (udp_header cur (length bytes) ++ (0 ∷ 0 ∷ [])))
        bytes) in
    let same : udp_check cur bytes ≡ stored =
      ap
        (λ p. complement (
          calc_checksum
            (calc_checksum (calc_checksum 0 p) (udp_header cur (length bytes) ++ (0 ∷ 0 ∷ [])))
            bytes))
        (udp_pseudo-code_pseudo cur (length bytes)) in
    let datagram_len : length (datagram cur bytes) ≡ len = omega (
      arith,
      length-append (udp_header cur (length bytes)) (le16 (udp_check cur bytes) ++ bytes),
    ) in
    let hs' : IsBytes (datagram cur bytes) =
      All-append _ (udp_header cur (length bytes)) (le16 (udp_check cur bytes) ++ bytes) hh
        (omega arith, (omega arith, hb)) in
    (
      rw datagram_len (ground arith),
      code_pseudo-rfc cur.version (length (datagram cur bytes)) 17 cur.daddr cur.saddr _ hd hs
            (omega arith) hs' (omega arith)
          ∙ (rw datagram_len (
              rw same (
                field_verifies pseudo (udp_header cur (length bytes)) [] bytes hp hh tt hb ep
                  (omega arith) refl (omega arith)))),
    )
