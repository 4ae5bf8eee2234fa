-- ===== src/Tcp/Write.antt =====
-- `write_tcp` and the functions of tun2http/tcp.c that answer the client through it.
use nroxy.Prelude.{ℕ, ◌+◌, Bool, true, false, List, [], if◌then◌else◌, u32}
use nroxy.Os.{Kernel, M, pure, ◌>>=◌, write_all}
use nroxy.Net.Session.{TcpSession, closing, is_listen, is_close}
use nroxy.Tcp.Packet.{Flags, tcp_packet}

abbrev pub syn_ack_flags : Flags
syn_ack_flags = record { syn = true; ack = true; fin = false; rst = false }

abbrev pub ack_flags : Flags
ack_flags = record { syn = false; ack = true; fin = false; rst = false }

abbrev pub fin_ack_flags : Flags
fin_ack_flags = record { syn = false; ack = true; fin = true; rst = false }

abbrev pub rst_flags : Bool → Flags
rst_flags with_ack = record { syn = false; ack = with_ack; fin = false; rst = true }

module _ (k : Kernel) where
  -- The result is whether `write_tcp` returns 0 or more.
  unfoldable pub write_tcp : TcpSession → List ℕ → Flags → M Bool
  write_tcp cur bytes f = write_all k (tcp_packet cur f bytes)

  -- What `write_syn_ack`, `write_ack`, `write_data` and `write_fin_ack` have in common.
  unfoldable pub write_or_close : TcpSession → List ℕ → Flags → M (TcpSession × Bool)
  unfolding write_tcp
  write_or_close cur bytes f = do
    written ← write_tcp cur bytes f
    pure (if written then (cur, true) else (record cur { state = closing }, false))

  unfoldable pub write_syn_ack : TcpSession → M (TcpSession × Bool)
  unfolding write_or_close
  write_syn_ack cur = write_or_close cur [] syn_ack_flags

  unfoldable pub write_ack : TcpSession → M (TcpSession × Bool)
  unfolding write_or_close
  write_ack cur = write_or_close cur [] ack_flags

  unfoldable pub write_data : TcpSession → List ℕ → M (TcpSession × Bool)
  unfolding write_or_close
  write_data cur bytes = write_or_close cur bytes ack_flags

  unfoldable pub write_fin_ack : TcpSession → M (TcpSession × Bool)
  unfolding write_or_close
  write_fin_ack cur = write_or_close cur [] fin_ack_flags

  unfoldable pub write_rst : TcpSession → M TcpSession
  unfolding write_tcp
  write_rst cur = do
    let seen =
        if is_listen cur.state then record cur { remote_seq = u32 (cur.remote_seq + 1) } else cur
    write_tcp seen [] (rst_flags (is_listen cur.state)) >>= λ _.
        pure (if is_close seen.state then seen else record seen { state = closing })
