-- ===== src/Net/Session.antt =====
-- The session types of tun2http/tun2http.h. Ports are in host notation, addresses are their bytes
-- (four or sixteen, as `version` says), a socket below 0 is `none`.
use nroxy.Prelude.{ℕ, Bool, true, false, Option, List}
use nroxy.Prelude.Int.{ℤ}
use nroxy.Os.{Events}

-- `struct arguments`, without the handles of the Java side.
pub record Arguments : Type 0 where
  pub fwd53 : Bool
  pub proxy_ip : List ℕ
  pub proxy_port : ℕ

-- The states of `netinet/tcp.h`; a session that is zeroed by `memset` is in none of them.
pub data TcpState : Type 0 where
  zeroed established syn_sent syn_recv fin_wait1 fin_wait2 time_wait close close_wait last_ack
        listen closing :
      TcpState

-- `TCP_CONNECT_NOT_SENT`, `TCP_CONNECT_SENT`, `TCP_CONNECT_ESTABLISHED`.
pub data ConnectSent : Type 0 where
  not_sent request_sent connected : ConnectSent

pub record Segment : Type 0 where
  pub seq : ℕ
  pub len : ℕ
  pub sent : ℕ
  pub psh : Bool
  pub bytes : List ℕ

pub record TcpSession : Type 0 where
  pub uid : ℤ
  pub time : ℕ
  pub version : ℕ
  pub mss : ℕ
  pub recv_scale : ℕ
  pub send_scale : ℕ
  pub recv_window : ℕ
  pub send_window : ℕ
  pub remote_seq : ℕ
  pub local_seq : ℕ
  pub remote_start : ℕ
  pub local_start : ℕ
  pub acked : ℕ
  pub last_keep_alive : ℕ
  pub sent : ℕ
  pub received : ℕ
  pub saddr : List ℕ
  pub source : ℕ
  pub daddr : List ℕ
  pub dest : ℕ
  pub state : TcpState
  pub forward : List Segment
  pub hostname : List ℕ
  pub connect_sent : ConnectSent

-- The members of `struct ng_session` around a TCP session.
pub record TcpNode : Type 0 where
  pub tcp : TcpSession
  pub socket : Option ℕ
  pub events : Events

-- `UDP_ACTIVE`, `UDP_FINISHING`, `UDP_CLOSED`, `UDP_BLOCKED`.
pub data UdpState : Type 0 where
  active finishing closed blocked : UdpState

pub record UdpSession : Type 0 where
  pub uid : ℤ
  pub time : ℕ
  pub version : ℕ
  pub mss : ℕ
  pub sent : ℕ
  pub received : ℕ
  pub saddr : List ℕ
  pub source : ℕ
  pub daddr : List ℕ
  pub dest : ℕ
  pub state : UdpState

pub record UdpNode : Type 0 where
  pub udp : UdpSession
  pub socket : Option ℕ
  pub events : Events

pub record IcmpSession : Type 0 where
  pub uid : ℤ
  pub time : ℕ
  pub version : ℕ
  pub saddr : List ℕ
  pub daddr : List ℕ
  pub id : ℕ
  pub stop : Bool

pub record IcmpNode : Type 0 where
  pub icmp : IcmpSession
  pub socket : Option ℕ
  pub events : Events

-- `struct ng_session`, its `protocol` being the tag of the union; `ng_session` is a list of them.
pub data NgSession : Type 0 where
  icmp_session : IcmpNode → NgSession
  udp_session : UdpNode → NgSession
  tcp_session : TcpNode → NgSession

abbrev pub is_listen : TcpState → Bool
is_listen listen = true
is_listen _ = false

abbrev pub is_established : TcpState → Bool
is_established established = true
is_established _ = false

abbrev pub is_close_wait : TcpState → Bool
is_close_wait close_wait = true
is_close_wait _ = false

abbrev pub is_closing : TcpState → Bool
is_closing closing = true
is_closing _ = false

abbrev pub is_close : TcpState → Bool
is_close close = true
is_close _ = false

-- `state == TCP_CLOSING || state == TCP_CLOSE`
abbrev pub is_over : TcpState → Bool
is_over closing = true
is_over close = true
is_over _ = false

-- `state == TCP_ESTABLISHED || state == TCP_CLOSE_WAIT`
abbrev pub is_open : TcpState → Bool
is_open established = true
is_open close_wait = true
is_open _ = false
