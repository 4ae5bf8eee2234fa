-- ===== src/Tests/Tcp.antt =====
-- The TCP relay at concrete sessions.
use nroxy.Prelude.{
  ℕ, ltb, ◌+◌, ◌≤◌, ◌≡◌, refl, inl, true, false, none, some, List, [], ◌∷◌, ◌++◌, arith, length,
  length-take, u32, codes,
}
use nroxy.Os.{Trace, Events}
use nroxy.Net.Session.{
  listen, established, TcpSession, TcpNode, tcp_session, udp_session, icmp_session,
}
use nroxy.Util.Checksum.{calc_checksum}
use nroxy.Tests.World.{
  quiet, failing, all_events, client_address, server_address, session_in, node_in, segment_at,
  udp_node, icmp_node, three_sessions,
}
use nroxy.Tcp.Header.{TcpHdr, tcp_data_len, SynOptions, syn_options}
use nroxy.Tcp.Header.Options.{
  SynOption, nop, max_segment, window_scale, unknown, encode_all, syn_options_reads,
  syn_options_hangs,
}
use nroxy.Tcp.Header.Payload.{tcp_data_len_lem, tcp_options_swapped}
use nroxy.Tcp.Packet.{tcp_segment, tcp_options}
use nroxy.Tcp.Packet.Verifies.{rfc_pseudo, tcp_segment_verifies}
use nroxy.Tcp.Write.{syn_ack_flags}
use nroxy.Tcp.Handle.{handle_session, update_session}
use nroxy.Tcp.Handle.Search.{update_session_first}
use nroxy.Tcp.Socket.{check_tcp_socket}
use nroxy.Tcp.Socket.Receive.{receive_data}
use nroxy.Tcp.Socket.Forward.{forward_data}
use nroxy.Tcp.Socket.Flow.{receive_data-window}
use nroxy.Tcp.Socket.Failure.{forward_data_failure}
use nroxy.Tcp.Socket.Progress.{Counts, forward_data-Counts}
use nroxy.Tcp.Check.{check_tcp_session}
use nroxy.Tcp.Machine.Edges.{may_move, of_clock}
use nroxy.Tcp.Machine.Life.{start, next, event, check, Reach-follows}

abbrev waiting : TcpNode
waiting = node_in listen []

abbrev writable : Events
writable = record { input = false; output = true; error = false }

-- The socket of a new session is connected.
abbrev connected_node : TcpNode × Trace
connected_node = check_tcp_socket quiet 5 writable waiting []

Reach-follows_example :
    may_move of_clock connected_node.0.tcp
      (check_tcp_session quiet connected_node.0 3 100 connected_node.1).0.0.tcp.state
    ≡ true
Reach-follows_example =
    Reach-follows quiet (inl refl) (next start (event 5 writable refl)) (check 3 100)

abbrev relaying : TcpSession
relaying = session_in established (segment_at 100 (codes "hello") ∷ [])

tcp_segment_verifies_example :
    calc_checksum 0 (
      rfc_pseudo 4
        (length (tcp_segment relaying syn_ack_flags (codes "hi")))
        6
        server_address
        client_address
      ++ tcp_segment relaying syn_ack_flags (codes "hi"))
    ≡ 65535
tcp_segment_verifies_example =
    tcp_segment_verifies relaying syn_ack_flags (codes "hi") (ground arith) (ground arith)
      (omega arith) (ground arith) (omega arith)

abbrev read_node : TcpNode
read_node = (receive_data quiet 5 all_events (node_in established []) []).0

receive_data-window_example :
    (read_node.tcp.acked ≡ 50)
    × ((read_node.tcp.acked ≤ read_node.tcp.local_seq)
        × (read_node.tcp.local_seq ≤ read_node.tcp.acked + read_node.tcp.send_window))
receive_data-window_example =
    receive_data-window quiet
      (λ tr sock size. omega (arith, length-take {A = ℕ} size (1 ∷ 2 ∷ 3 ∷ []))) 5 all_events
      (node_in established []) [] (omega arith) (omega arith) (omega arith)

forward_data-Counts_example :
    Counts relaying relaying.forward
      (forward_data quiet 5 500 relaying.forward relaying false []).0.0
forward_data-Counts_example =
    forward_data-Counts quiet 5 500 relaying.forward relaying false [] refl (omega arith) refl
      (ground arith)

forward_data_failure_example :
    let t' =
      (forward_data failing 5 500 (segment_at 100 (codes "hello") ∷ []) relaying false []).0.0 in
    (t'.forward ≡ []) × ((t'.remote_seq ≡ u32 (100 + 5)) × (t'.state ≡ established))
forward_data_failure_example =
    forward_data_failure failing 5 500 (segment_at 100 (codes "hello")) relaying false [] 0 refl
      (omega arith) (omega arith) (omega arith) refl

-- An acknowledgement of all that was sent, of the connection of `relaying`.
abbrev ack_segment : TcpHdr
ack_segment = record {
  source = 40000;
  dest = 8080;
  seq = 100;
  ack_seq = 60;
  doff = 5;
  syn = false;
  ack = true;
  psh = false;
  fin = false;
  rst = false;
  urg = false;
  window = 300;
}

-- The IP header of a packet from the client to the server.
abbrev client_packet : List ℕ
client_packet =
    0x45 ∷ 0 ∷ 0 ∷ 40 ∷ 0 ∷ 0 ∷ 0 ∷ 0 ∷ 64 ∷ 6 ∷ 0 ∷ 0 ∷ client_address ++ server_address

update_session_first_example :
    update_session quiet [] client_packet ack_segment [] 0 three_sessions [] ≡ (
      some (
          icmp_session icmp_node
          ∷ udp_session udp_node
          ∷ tcp_session (handle_session quiet [] ack_segment [] 0 (node_in established []) []).0
          ∷ []),
      (handle_session quiet [] ack_segment [] 0 (node_in established []) []).1,
    )
update_session_first_example =
    update_session_first quiet [] client_packet ack_segment [] 0
      (icmp_session icmp_node ∷ udp_session udp_node ∷ []) (node_in established []) [] []
      (tt, (tt, tt)) (refl, (refl, (refl, (refl, refl))))

abbrev offered : List SynOption
offered =
    max_segment 1460 ∷ nop ∷ window_scale 7 ∷ unknown 8 (0 ∷ 0 ∷ 0 ∷ 1 ∷ 0 ∷ 0 ∷ 0 ∷ 0 ∷ []) ∷ []

abbrev defaults : SynOptions
defaults = record { mss = 9960; ws = 0 }

syn_options_reads_example :
    syn_options 40 (encode_all offered ++ (1 ∷ 1 ∷ [])) 18 defaults
    ≡ some (record { mss = 1460; ws = 7 })
syn_options_reads_example =
    syn_options_reads 40 offered (1 ∷ 1 ∷ []) defaults
      (omega arith, (tt, (tt, ((omega arith, omega arith), tt)))) (omega arith)

syn_options_hangs_example : syn_options 1000 (8 ∷ 0 ∷ 1 ∷ 1 ∷ []) 4 defaults ≡ none
syn_options_hangs_example =
    syn_options_hangs 1000 8 (1 ∷ 1 ∷ []) 4 defaults (omega arith) (omega arith)

tcp_data_len_lem_example : (tcp_data_len 60 20 15 ≡ 65516) × (ltb 60 (tcp_data_len 60 20 15) ≡ true)
tcp_data_len_lem_example =
    tcp_data_len_lem 60 20 15 (omega arith) (omega arith) (omega arith) (omega arith)

tcp_options_swapped_example :
    syn_options 4 (tcp_options relaying syn_ack_flags) 8 defaults
    ≡ some (record { mss = 59430; ws = 2 })
tcp_options_swapped_example = tcp_options_swapped relaying syn_ack_flags defaults refl
