-- ===== src/Tcp/Header.antt =====
-- The fields of a TCP segment from the client, as `handle_tcp` of tun2http/tcp.c reads them.
pub mod Options
pub mod Payload
use nroxy.Prelude.{
  ℕ, zero, suc, ◌+◌, ◌-◌, ◌*◌, ◌/◌, ◌%◌, Bool, true, false, ◌&&◌, ◌||◌, Option, none, some, List,
  ◌==◌, if◌then◌else◌, length, drop, u8,
}
use nroxy.Net.Bytes.{byte_at, be16_at, be32_at}

-- `struct tcphdr`, in host notation.
pub record TcpHdr : Type 0 where
  pub source : ℕ
  pub dest : ℕ
  pub seq : ℕ
  pub ack_seq : ℕ
  pub doff : ℕ
  pub syn : Bool
  pub ack : Bool
  pub psh : Bool
  pub fin : Bool
  pub rst : Bool
  pub urg : Bool
  pub window : ℕ

-- The bit `2 ^ n` of a byte.
abbrev bit : ℕ → ℕ → Bool
bit b power = b / power % 2 == 1

unfoldable pub tcphdr_at : List ℕ → ℕ → TcpHdr
tcphdr_at pkt off =
    let flags = byte_at pkt (off + 13) in
    record {
      source = be16_at pkt off;
      dest = be16_at pkt (off + 2);
      seq = be32_at pkt (off + 4);
      ack_seq = be32_at pkt (off + 8);
      doff = byte_at pkt (off + 12) / 16;
      fin = bit flags 1;
      syn = bit flags 2;
      rst = bit flags 4;
      psh = bit flags 8;
      ack = bit flags 16;
      urg = bit flags 32;
      window = be16_at pkt (off + 14);
    }

-- `(uint8_t) ((tcphdr->doff - 5) * 4)`, an `int` before the conversion.
unfoldable pub tcp_opt_len : ℕ → ℕ
tcp_opt_len doff = u8 ((doff + 59) * 4)

-- `(uint16_t) (length - (data - pkt))`, where the payload is at `off`.
unfoldable pub tcp_data_len : ℕ → ℕ → ℕ → ℕ
unfolding tcp_opt_len
tcp_data_len length off doff =
    let before = off + 20 + tcp_opt_len doff in (length + 18446744073709551616 - before) % 65536

pub record SynOptions : Type 0 where
  pub mss : ℕ
  pub ws : ℕ

-- The loop over the options of a SYN, on fuel; `optlen` is an `int`, and stops the loop below 1.
unfoldable pub syn_options : ℕ → List ℕ → ℕ → SynOptions → Option SynOptions
syn_options zero options optlen found = none
syn_options (suc fuel) options optlen found =
    let kind = byte_at options 0 in
    let len = byte_at options 1 in
    let found' =
      if kind == 2 && len == 4
      then record found { mss = be16_at options 2 }
      else if kind == 3 && len == 3
      then record found { ws = byte_at options 2 }
      else found in
    let step = if kind == 1 then 1 else len in
    elim (optlen == 0 || kind == 0) [
      | true ↦ some found
      | false ↦ syn_options fuel (drop step options) (optlen - step) found'
    ]
