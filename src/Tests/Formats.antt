-- ===== src/Tests/Formats.antt =====
-- Checksums and parsers at concrete packets.
use nroxy.Prelude.{
  ℕ, ◌+◌, ◌≡◌, refl, false, none, some, List, [], ◌∷◌, ◌++◌, arith, length, replicate, codes,
}
use nroxy.Net.Sums.{ip4_header_verifies}
use nroxy.Tests.World.{quiet, client_address, server_address, udp_node}
use nroxy.Util.Checksum.{calc_checksum, ones_complement, total, calc_checksum-ones_complement}
use nroxy.Ip.Header.{ip4_header, ip6_header}
use nroxy.Ip.Parse.{payload, parse_ip6, is_upper_layer}
use nroxy.Net.Bytes.{byte_at}
use nroxy.Ip.Parse.Extensions.{parse_ip6_extensions}
use nroxy.Tls.{parse_tls_header}
use nroxy.Tls.Reads.{Hello, encode_record, encode_extensions, parse_tls_header_reads}
use nroxy.Tls.Safe.{FitsName, parse_tls_header_safe}
use nroxy.Dns.Name.{get_qname_within}
use nroxy.Dns.Labels.{encode_name, get_qname_reads}
use nroxy.Dns.Pointers.{get_qname_hangs}
use nroxy.Dhcp.{out_of_bounds, check_dhcp}
use nroxy.Dhcp.Options.{check_dhcp_out}
use nroxy.Icmp.Packet.{icmp_id, with_id}
use nroxy.Icmp.Rewrite.{with_id_verifies, with_id_restores}
use nroxy.Udp.Packet.{udp_packet}
use nroxy.Udp.Packet.Datagram.{datagram, udp_packet_verifies}
use nroxy.Tcp.Packet.Verifies.{rfc_pseudo}

abbrev three_bytes : List ℕ
three_bytes = 255 ∷ 254 ∷ 3 ∷ []

calc_checksum-ones_complement_example :
    calc_checksum 9 three_bytes ≡ ones_complement (9 + total three_bytes)
calc_checksum-ones_complement_example =
    calc_checksum-ones_complement 9 three_bytes (omega arith) (ground arith) (omega arith)

ip4_header_verifies_example :
    calc_checksum 0 (ip4_header 40 6 server_address client_address) ≡ 65535
ip4_header_verifies_example =
    ip4_header_verifies 40 6 server_address client_address (ground arith) (ground arith) refl refl
      (omega arith)

udp_packet_verifies_example :
    (udp_packet udp_node.udp three_bytes
      ≡ ip4_header
          (20 + length (datagram udp_node.udp three_bytes))
          17
          server_address
          client_address
        ++ datagram udp_node.udp three_bytes)
    × (calc_checksum 0 (
          rfc_pseudo 4 (length (datagram udp_node.udp three_bytes)) 17 server_address client_address
          ++ datagram udp_node.udp three_bytes)
        ≡ 65535)
udp_packet_verifies_example =
    udp_packet_verifies udp_node.udp three_bytes (ground arith) (ground arith) (ground arith)
      (omega arith)

-- An echo request with the identifier 0x0201.
abbrev echo : List ℕ
echo = 8 ∷ 0 ∷ 0 ∷ 0 ∷ 1 ∷ 2 ∷ 0 ∷ 1 ∷ 97 ∷ []

with_id_verifies_example : calc_checksum 17 (with_id 17 513 echo) ≡ 65535
with_id_verifies_example =
    with_id_verifies 17 513 echo (omega arith) (ground arith) (omega arith) (omega arith)

with_id_restores_example :
    (with_id 0 513 (with_id 0 65022 echo) ≡ with_id 0 513 echo)
    × (icmp_id (with_id 0 513 (with_id 0 65022 echo)) ≡ 513)
with_id_restores_example = with_id_restores 0 0 513 65022 echo (omega arith) (omega arith)

-- A record that promises more bytes than there are.
abbrev short_record : List ℕ
short_record = 0x16 ∷ 3 ∷ 1 ∷ 2 ∷ 0 ∷ 1 ∷ 0 ∷ []

parse_tls_header_safe_example : FitsName (parse_tls_header short_record 7)
parse_tls_header_safe_example = parse_tls_header_safe short_record 7 (omega arith)

-- A hello with one cipher suite and an extension in front of the server's name.
abbrev small_hello : Hello
small_hello = record {
  minor = 1;
  lengths = (0, 0, 66);
  version = (3, 3);
  random = replicate 32 9;
  session_id = [];
  cipher_suites = 19 ∷ 1 ∷ [];
  compression_methods = 0 ∷ [];
}

abbrev hello_extensions : List ℕ
hello_extensions = encode_extensions ((23, []) ∷ []) (codes "example.org") []

parse_tls_header_reads_example :
    parse_tls_header
      (encode_record small_hello hello_extensions ++ (7 ∷ []))
      (length (encode_record small_hello hello_extensions))
    ≡ some (some (codes "example.org"))
parse_tls_header_reads_example =
    parse_tls_header_reads small_hello ((23, []) ∷ []) (codes "example.org") [] (7 ∷ [])
      (refl, omega arith, omega arith, omega arith) ((omega arith, omega arith, omega arith), tt)
      (omega arith) (omega arith) (omega arith) (omega arith)

abbrev host_labels : List (List ℕ)
host_labels = codes "example" ∷ codes "org" ∷ []

get_qname_reads_example :
    get_qname_within 9
      (replicate 12 0 ++ (encode_name (codes "www" ∷ host_labels) ++ (0 ∷ 1 ∷ 0 ∷ 1 ∷ [])))
      12
    ≡ some (some (record { name = codes "www.example.org"; next = 29 }))
get_qname_reads_example =
    get_qname_reads 9 (codes "www") host_labels (replicate 12 0) (0 ∷ 1 ∷ 0 ∷ 1 ∷ []) (ground arith)
      (omega arith) (omega arith) (omega arith)

get_qname_hangs_example : get_qname_within 1000 (replicate 12 0 ++ (0xC0 ∷ 12 ∷ [])) 12 ≡ none
get_qname_hangs_example = get_qname_hangs 1000 (replicate 12 0 ++ (0xC0 ∷ 12 ∷ [])) 12 (omega arith)

abbrev request : List ℕ
request = codes "GET / HTTP/1.1  Host: a"

-- Hop-by-hop options in front of a TCP header.
abbrev extended : List ℕ
extended = ip6_header 28 0 (replicate 16 1) (replicate 16 2) ++ (6 ∷ 0 ∷ replicate 26 0)

parse_ip6_extensions_example : let off : ℕ = 40 in (0 ≡ byte_at extended 6) × (off ≡ 40)
unfolding ip6_header parse_ip6
parse_ip6_extensions_example = parse_ip6_extensions extended 0 40 next_lower parsed
  where
    next_lower : is_upper_layer (byte_at extended 6) ≡ false
    next_lower = refl

    parsed : parse_ip6 extended ≡ some (payload 0 40)
    parsed = refl

abbrev boot_request : List ℕ
boot_request = 1 ∷ 1 ∷ 6 ∷ replicate 233 0 ++ (0x63 ∷ 0x82 ∷ 0x53 ∷ 0x63 ∷ [])

check_dhcp_out_example : (check_dhcp quiet udp_node.udp boot_request []).0 ≡ out_of_bounds
check_dhcp_out_example =
    check_dhcp_out quiet udp_node.udp boot_request [] (omega arith) refl refl refl refl
