-- ===== src/Icmp/Packet.antt =====
-- The messages that tun2http/icmp.c rewrites, and the packet that `write_icmp` builds.
use nroxy.Prelude.{ℕ, ◌+◌, ◌*◌, ◌/◌, ◌%◌, Bool, List, ◌++◌, ◌==◌, if◌then◌else◌, length, set}
use nroxy.Os.{Kernel, M, write_all}
use nroxy.Net.Bytes.{byte_at}
use nroxy.Net.Session.{IcmpSession}
use nroxy.Ip.Header.{ip4_header, ip6_header}
use nroxy.Util.Checksum.{calc_checksum, complement}

-- `icmp->icmp_id`, loaded as it lies in memory.
abbrev pub icmp_id : List ℕ → ℕ
icmp_id bytes = byte_at bytes 4 + 256 * byte_at bytes 5

abbrev pub store16 : List ℕ → ℕ → ℕ → List ℕ
store16 bytes off n = set (set bytes off (n % 256)) (off + 1) (n / 256 % 256)

-- The message with another identifier and its checksum anew, from a start for the pseudo header.
unfoldable pub with_id : ℕ → ℕ → List ℕ → List ℕ
with_id start id bytes =
    let zeroed = store16 (store16 bytes 4 id) 2 0 in
    store16 zeroed 2 (complement (calc_checksum start zeroed))

unfoldable pub icmp_packet : IcmpSession → List ℕ → List ℕ
icmp_packet cur bytes =
    if cur.version == 4
    then ip4_header (20 + length bytes) 1 cur.daddr cur.saddr ++ bytes
    else ip6_header (length bytes) 58 cur.daddr cur.saddr ++ bytes

module _ (k : Kernel) where
  -- The result is whether the function returns 0 or more.
  unfoldable pub write_icmp : IcmpSession → List ℕ → M Bool
  write_icmp cur bytes = write_all k (icmp_packet cur bytes)
