-- ===== src/Tcp/Packet.antt =====
-- The packet that `write_tcp` of tun2http/tcp.c builds.
use nroxy.Prelude.{ℕ, ◌+◌, ◌*◌, ◌/◌, ◌^◌, Bool, List, [], ◌∷◌, ◌++◌, ◌==◌, if◌then◌else◌, length}
pub mod Verifies
use nroxy.Net.Bytes.{be16, be32, le16}
use nroxy.Net.Session.{TcpSession}
use nroxy.Ip.{get_default_mss}
use nroxy.Ip.Header.{ip4_header, pseudo4, ip6_header, pseudo6}
use nroxy.Util.Checksum.{calc_checksum, complement}

-- The last four arguments of `write_tcp`.
pub record Flags : Type 0 where
  pub syn : Bool
  pub ack : Bool
  pub fin : Bool
  pub rst : Bool

-- `optlen`
unfoldable pub option_len : Flags → ℕ
option_len f = if f.syn then 4 + 3 + 1 else 0

unfoldable pub tcp_options : TcpSession → Flags → List ℕ
tcp_options cur f =
    if f.syn
    then (2 ∷ 4 ∷ le16 (get_default_mss cur.version)) ++ (3 ∷ 3 ∷ cur.recv_scale ∷ 0 ∷ [])
    else []

-- The byte of the header that holds the flags.
abbrev pub flag_byte : Flags → ℕ
flag_byte f =
    (if f.fin then 1 else 0)
    + (if f.syn then 2 else 0)
    + (if f.rst then 4 else 0)
    + (if f.ack then 16 else 0)

-- The header up to its checksum: `ack_seq` is 0 without ACK.
unfoldable pub tcp_header : TcpSession → Flags → List ℕ
unfolding option_len
tcp_header cur f =
    be16 cur.dest
    ++ (be16 cur.source
        ++ (be32 cur.local_seq
            ++ (be32 (if f.ack then cur.remote_seq else 0)
                ++ (((20 + option_len f) / 4 * 16)
                    ∷ flag_byte f
                    ∷ be16 (cur.recv_window / 2 ^ cur.recv_scale)))))

-- The checksum over the pseudo header.
unfoldable pub pseudo_sum : TcpSession → Flags → List ℕ → ℕ
unfolding option_len
pseudo_sum cur f bytes =
    let len = 20 + option_len f + length bytes in
    if cur.version == 4
    then calc_checksum 0 (pseudo4 len 6 cur.daddr cur.saddr)
    else calc_checksum 0 (pseudo6 len 6 cur.saddr cur.daddr)

-- The checksum continued over the header, the options and the data.
unfoldable pub tcp_check : TcpSession → Flags → List ℕ → ℕ
unfolding tcp_header pseudo_sum tcp_options
tcp_check cur f bytes = complement (
    calc_checksum
      (calc_checksum
        (calc_checksum (pseudo_sum cur f bytes) (tcp_header cur f ++ (0 ∷ 0 ∷ 0 ∷ 0 ∷ [])))
        (tcp_options cur f))
      bytes)

unfoldable pub tcp_segment : TcpSession → Flags → List ℕ → List ℕ
unfolding tcp_check
tcp_segment cur f bytes =
    tcp_header cur f ++ (le16 (tcp_check cur f bytes) ++ (0 ∷ 0 ∷ (tcp_options cur f ++ bytes)))

unfoldable pub tcp_packet : TcpSession → Flags → List ℕ → List ℕ
unfolding tcp_segment
tcp_packet cur f bytes =
    let len = 20 + option_len f + length bytes in
    if cur.version == 4
    then ip4_header (20 + len) 6 cur.daddr cur.saddr ++ tcp_segment cur f bytes
    else ip6_header len 6 cur.daddr cur.saddr ++ tcp_segment cur f bytes
