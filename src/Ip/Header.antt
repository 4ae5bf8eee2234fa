-- ===== src/Ip/Header.antt =====
-- The IPv4 and IPv6 headers and the pseudo headers of their checksums, as tcp.c, udp.c and icmp.c
-- lay them out.
use nroxy.Prelude.{ℕ, List, [], ◌∷◌, ◌++◌}
use nroxy.Net.Bytes.{be16, le16}
use nroxy.Util.Checksum.{calc_checksum, complement}

-- The header with the given value in its checksum field, in front of `len - 20` bytes.
unfoldable pub ip4_header_with : ℕ → ℕ → ℕ → List ℕ → List ℕ → List ℕ
ip4_header_with check len protocol source dest =
    (0x45 ∷ 0 ∷ be16 len ++ (0 ∷ 0 ∷ 0 ∷ 0 ∷ 64 ∷ protocol ∷ []))
    ++ (le16 check ++ (source ++ dest))

unfoldable pub ip4_header : ℕ → ℕ → List ℕ → List ℕ → List ℕ
unfolding ip4_header_with
ip4_header len protocol source dest =
    ip4_header_with (complement (calc_checksum 0 (ip4_header_with 0 len protocol source dest))) len
      protocol source dest

-- `struct ippseudo`
unfoldable pub pseudo4 : ℕ → ℕ → List ℕ → List ℕ → List ℕ
pseudo4 len protocol source dest = source ++ (dest ++ (0 ∷ protocol ∷ be16 len))

unfoldable pub ip6_header : ℕ → ℕ → List ℕ → List ℕ → List ℕ
ip6_header len protocol source dest =
    0x60 ∷ 0 ∷ 0 ∷ 0 ∷ (be16 len ++ (protocol ∷ 64 ∷ (source ++ dest)))

-- `struct ip6_hdr_pseudo`: the 16-bit length is assigned to the 32-bit field as it lies in memory.
unfoldable pub pseudo6 : ℕ → ℕ → List ℕ → List ℕ → List ℕ
pseudo6 len protocol source dest =
    source ++ (dest ++ (be16 len ++ (0 ∷ 0 ∷ 0 ∷ 0 ∷ 0 ∷ protocol ∷ [])))
