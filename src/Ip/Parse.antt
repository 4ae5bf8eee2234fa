-- ===== src/Ip/Parse.antt =====
-- How `handle_ip` of tun2http/ip.c finds the protocol and the payload of a packet.
pub mod Extensions
use nroxy.Prelude.{
  ℕ, zero, suc, ◌+◌, ◌-◌, ◌*◌, ◌/◌, ◌%◌, Bool, true, false, ◌&&◌, ◌||◌, not, Option, none, some,
  List, ltb, ◌==◌, if◌then◌else◌, length, get_elem?, u8, u16,
}
use nroxy.Net.Bytes.{byte_at, be16_at}

abbrev pub is_lower_layer : ℕ → Bool
is_lower_layer protocol =
    protocol == 0
    || (protocol == 60
        || (protocol == 43
            || (protocol == 44
                || (protocol == 51 || (protocol == 50 || (protocol == 60 || protocol == 135))))))

-- TCP, UDP, ICMP, ICMPv6.
abbrev pub is_upper_layer : ℕ → Bool
is_upper_layer protocol = protocol == 6 || (protocol == 17 || (protocol == 1 || protocol == 58))

-- What the headers say, or why the packet is not looked at further.
pub data Parsed : Type 0 where
  dropped : Parsed
  payload : (protocol off : ℕ) → Parsed

-- `frag_off & IP_MF`, the field as it lies in memory: bit 13 of the number is in its second byte.
abbrev pub more_fragments : List ℕ → Bool
more_fragments pkt = byte_at pkt 7 / 32 % 2 == 1

-- `(uint8_t) ((ip4hdr->ihl - 5) * 4)`
abbrev pub ip_opt_len : ℕ → ℕ
ip_opt_len ihl = u8 ((ihl + 59) * 4)

unfoldable pub parse_ip4 : List ℕ → Parsed
parse_ip4 pkt =
    if ltb (length pkt) 20 || more_fragments pkt
    then dropped
    else if be16_at pkt 2 == length pkt
    then payload (byte_at pkt 9) (20 + ip_opt_len (byte_at pkt 0 % 16))
    else dropped

-- The loop over the extension headers, on fuel: the protocol that it ends with. `none` is a read
-- behind the end of the packet.
unfoldable pub extension_loop : ℕ → List ℕ → ℕ → ℕ → Option (ℕ × ℕ)
extension_loop zero pkt protocol off = none
extension_loop (suc fuel) pkt protocol off = elim (get_elem? pkt off) [
  | none ↦ none
  | some next ↦ (elim (is_lower_layer next && not (is_upper_layer protocol)) [
    | false ↦ some (protocol, off)
    | true ↦ extension_loop fuel pkt next (u16 (off + (8 + byte_at pkt (off + 1))))
  ])
]

unfoldable pub parse_ip6 : List ℕ → Option Parsed
unfolding extension_loop
parse_ip6 pkt =
    let next = byte_at pkt 6 in
    if ltb (length pkt) 40
    then some dropped
    else if is_upper_layer next
    then some (payload next 40)
    else (elim (extension_loop (length pkt) pkt next 40) [
      | none ↦ none
      | some (protocol, off) ↦
          some (if is_upper_layer protocol then payload protocol (40 + off) else payload next 40)
    ])

unfoldable pub parse_ip : List ℕ → Option Parsed
unfolding parse_ip4 parse_ip6
parse_ip pkt =
    let version = byte_at pkt 0 / 16 in
    if version == 4
    then some (parse_ip4 pkt)
    else if version == 6
    then parse_ip6 pkt
    else some dropped

-- `length - (payload - pkt) < size` of a `size_t`.
abbrev pub is_too_short : List ℕ → ℕ → ℕ → Bool
is_too_short pkt off size =
    ltb ((length pkt + 18446744073709551616 - off) % 18446744073709551616) size
