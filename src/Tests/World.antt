-- ===== src/Tests/World.antt =====
-- A kernel, addresses and sessions for the tests.
use nroxy.Prelude.{ℕ, true, false, none, some, List, [], ◌∷◌, length, take, codes}
use nroxy.Prelude.Int.{pos, negsuc}
use nroxy.Os.{Kernel, Events, received, recv_failed, eagain, other, polled}
use nroxy.Net.Session.{
  Arguments, TcpState, established, TcpSession, TcpNode, Segment, connected, UdpNode, active,
  IcmpNode, NgSession, tcp_session, udp_session, icmp_session,
}

-- Every call succeeds; `recv` returns what it is asked for, up to three bytes.
abbrev pub quiet : Kernel
quiet = record {
  now = λ tr. 1000;
  milliseconds = λ tr. 5000;
  random = λ tr. 7;
  tun_written = λ tr packet. pos (length packet);
  new_socket = λ tr version. some 5;
  is_protected = λ tr sock. true;
  is_nonblocking = λ tr sock. true;
  connects = λ tr sock target. true;
  bytes_sent = λ tr sock bytes more. pos (length bytes);
  errno = λ tr. other;
  bytes_received = λ tr sock size. received (take size (1 ∷ 2 ∷ 3 ∷ []));
  unread = λ tr sock. [];
  sndbuf = λ tr sock. some 1000;
  outq = λ tr sock. some 0;
  modifies = λ tr sock events. true;
  inet_ntoa = λ address. address;
  creates_epoll = λ tr. true;
  watches_pipe = λ tr. true;
  watches_tun = λ tr. true;
  polls = λ tr timeout. polled [];
  tun_read = λ tr. recv_failed eagain;
  creates_thread = λ tr. true;
  writes_pipe = λ tr. true;
  file_limit = λ tr. 1024;
  tun_waiting = λ tr. 0;
  waiting = λ tr sock. 0;
}

-- The kernel where every `send` fails.
abbrev pub failing : Kernel
failing = record quiet { bytes_sent = λ tr sock bytes more. negsuc 0 }

abbrev pub all_events : Events
all_events = record { input = true; output = true; error = false }

abbrev pub client_address : List ℕ
client_address = 10 ∷ 1 ∷ 10 ∷ 1 ∷ []

abbrev pub server_address : List ℕ
server_address = 93 ∷ 184 ∷ 216 ∷ 34 ∷ []

abbrev pub session_in : TcpState → List Segment → TcpSession
session_in state queue = record {
  uid = pos 10001;
  time = 990;
  version = 4;
  mss = 1400;
  recv_scale = 2;
  send_scale = 2;
  recv_window = 400;
  send_window = 1000;
  remote_seq = 100;
  local_seq = 60;
  remote_start = 99;
  local_start = 7;
  acked = 50;
  last_keep_alive = 0;
  sent = 0;
  received = 0;
  saddr = client_address;
  source = 40000;
  daddr = server_address;
  dest = 8080;
  state = state;
  forward = queue;
  hostname = [];
  connect_sent = connected;
}

abbrev pub node_in : TcpState → List Segment → TcpNode
node_in state queue = record { tcp = session_in state queue; socket = some 5; events = all_events }

abbrev pub segment_at : ℕ → List ℕ → Segment
segment_at seq bytes = record { seq = seq; len = length bytes; sent = 0; psh = true; bytes = bytes }

abbrev pub udp_node : UdpNode
udp_node = record {
  udp = record {
    uid = pos 10001;
    time = 990;
    version = 4;
    mss = 1400;
    sent = 0;
    received = 0;
    saddr = client_address;
    source = 40000;
    daddr = server_address;
    dest = 53;
    state = active;
  };
  socket = some 6;
  events = all_events;
}

abbrev pub icmp_node : IcmpNode
icmp_node = record {
  icmp = record {
    uid = pos 10001;
    time = 990;
    version = 4;
    saddr = client_address;
    daddr = server_address;
    id = 77;
    stop = false;
  };
  socket = none;
  events = all_events;
}

abbrev pub three_sessions : List NgSession
three_sessions =
    icmp_session icmp_node ∷ udp_session udp_node ∷ tcp_session (node_in established []) ∷ []

-- DNS is forwarded, and the proxy runs on the device.
abbrev pub settings : Arguments
settings = record { fwd53 = true; proxy_ip = codes "127.0.0.1"; proxy_port = 8888 }
