-- ===== src/Tcp/Header/Payload.antt =====
-- The size of the payload that `handle_tcp` of tun2http/tcp.c computes.
use nroxy.Prelude.{
  ℕ, ◌+◌, ◌-◌, ◌*◌, ◌≤◌, ◌<◌, ◌≡◌, true, some, arith, ltb, not, leb, ◌==◌, if◌then◌else◌,
}
use nroxy.Net.Session.{TcpSession}
use nroxy.Ip.{get_default_mss}
use nroxy.Tcp.Header.{tcp_opt_len, tcp_data_len, SynOptions, syn_options}
use nroxy.Tcp.Packet.{Flags, tcp_options}

-- For a packet of less than 65496 bytes that holds the fixed header, and a header of 5 to 15 words: where
-- the packet holds the header, the size is what is left behind it; where it does not, the size is 65536 less
-- what is missing, and that is more bytes than the packet has.
pub tcp_data_len_lem :
    (len off doff : ℕ)
    → len < 65496
    → off + 20 ≤ len
    → 5 ≤ doff
    → doff < 16
    → (tcp_data_len len off doff ≡ (
        if leb (off + 4 * doff) len
        then len - (off + 4 * doff)
        else len + 65536 - (off + 4 * doff)))
      × (ltb len (tcp_data_len len off doff) ≡ not (leb (off + 4 * doff) len))
unfolding tcp_data_len tcp_opt_len
tcp_data_len_lem len off doff l o d e = ground arith

-- The reader of options in the same file takes the segment size that is written with a SYN for another
-- number: 59430 in place of 9960 for IPv4, 54310 in place of 9940 for IPv6.
pub tcp_options_swapped :
    (cur : TcpSession) (f : Flags) (found : SynOptions)
    → f.syn ≡ true
    → syn_options 4 (tcp_options cur f) 8 found
      ≡ some (record { mss = if cur.version == 4 then 59430 else 54310; ws = cur.recv_scale })
unfolding tcp_options syn_options get_default_mss
tcp_options_swapped cur f found syn = ground arith
