-- ===== src/Tcp/Open.antt =====
-- `open_tcp_socket` of tun2http/tcp.c, and the session that a SYN opens.
use nroxy.Prelude.{
  ℕ, suc, ◌*◌, ◌/◌, ◌^◌, Bool, true, false, ◌||◌, not, Option, none, some, List, [], ◌∷◌, ◌==◌,
  if◌then◌else◌, take, u32,
}
use nroxy.Prelude.Int.{ℤ}
use nroxy.Os.{
  Kernel, M, pure, ◌>>=◌, Events, Target, direct, proxy, get_time, rand, open_socket,
  protect_socket, set_nonblocking, connect, epoll_add,
}
use nroxy.Net.Bytes.{byte_at, slice}
use nroxy.Net.Session.{Arguments, TcpSession, TcpNode, listen, not_sent, connected}
use nroxy.Ip.{get_default_mss}
use nroxy.Tcp.Header.{TcpHdr, SynOptions, syn_options}
use nroxy.Tcp.Window.{get_receive_window}

-- `strstr(text, ":") != NULL`
abbrev pub has_colon : List ℕ → Bool
has_colon [] = false
has_colon (b ∷ text) = b == b':' || has_colon text

-- The ports whose connections go to the proxy.
abbrev pub is_proxied : ℕ → Bool
is_proxied dest = dest == 80 || dest == 443

unfoldable pub target_of : Arguments → TcpSession → Target
target_of args cur =
    if is_proxied cur.dest then proxy args.proxy_ip args.proxy_port else direct cur.daddr cur.dest

unfoldable pub target_version : Arguments → TcpSession → ℕ
target_version args cur =
    if is_proxied cur.dest then (if has_colon args.proxy_ip then 6 else 4) else cur.version

-- The addresses in the IP header.
abbrev pub source_address : List ℕ → List ℕ
source_address pkt = if byte_at pkt 0 / 16 == 4 then slice pkt 12 4 else slice pkt 8 16

abbrev pub dest_address : List ℕ → List ℕ
dest_address pkt = if byte_at pkt 0 / 16 == 4 then slice pkt 16 4 else slice pkt 24 16

module _ (k : Kernel) where
  -- `none` is the result -1.
  unfoldable pub open_tcp_socket : Arguments → TcpSession → M (Option ℕ)
  unfolding target_of target_version
  open_tcp_socket args cur tr =
      let version = target_version args cur in
      let opened = open_socket version ∷ tr in
      elim (k.new_socket tr version) [
        | none ↦ (none, opened)
        | some sock ↦
            (let guarded = protect_socket sock ∷ opened in
              let unblocked = set_nonblocking sock ∷ guarded in
              let target = target_of args cur in
              if not (k.is_protected opened sock)
              then (none, guarded)
              else if not (k.is_nonblocking guarded sock)
              then (none, unblocked)
              else (
                if k.connects unblocked sock target then some sock else none,
                connect sock target ∷ unblocked,
              ))
      ]

  -- The session that `handle_tcp` registers for a SYN.
  unfoldable pub new_session : List ℕ → TcpHdr → SynOptions → ℤ → List ℕ → ℕ → ℕ → ℕ → TcpSession
  new_session pkt h options uid bytes datalen now isn = record {
    uid = uid;
    time = now;
    version = byte_at pkt 0 / 16;
    mss = options.mss;
    recv_scale = options.ws;
    send_scale = options.ws;
    recv_window = 0;
    send_window = u32 (h.window * 2 ^ options.ws);
    remote_seq = h.seq;
    local_seq = isn;
    remote_start = h.seq;
    local_start = isn;
    acked = 0;
    last_keep_alive = 0;
    sent = 0;
    received = 0;
    saddr = source_address pkt;
    source = h.source;
    daddr = dest_address pkt;
    dest = h.dest;
    state = listen;
    forward =
        if datalen == 0
        then []
        else record {
          seq = h.seq;
          len = datalen;
          sent = 0;
          psh = h.psh;
          bytes = take datalen bytes;
        }
          ∷ [];
    hostname = [];
    connect_sent = if h.dest == 80 then connected else not_sent;
  }

  -- The inner result is the registered session, if its socket could be opened; `none` is a loop over
  -- the options that does not end within its fuel.
  unfoldable pub open_session :
      Arguments → List ℕ → TcpHdr → List ℕ → ℕ → ℤ → List ℕ → ℕ → M (Option (Option TcpNode))
  unfolding syn_options new_session open_tcp_socket get_receive_window
  open_session args pkt h options optlen uid bytes datalen =
      elim (syn_options (suc optlen) options optlen
        (record { mss = get_default_mss (byte_at pkt 0 / 16); ws = 0 })) [
          | none ↦ pure none
          | some found ↦ (do
            now ← get_time k
            isn ← λ tr. (u32 (k.random tr), rand ∷ tr)
            let t = new_session pkt h found uid bytes datalen now isn
            socket ← open_tcp_socket args t
            elim socket [
              | none ↦ pure (some none)
              | some sock ↦ (do
                let events : Events = record { input = false; output = true; error = true }
                window ←
                    get_receive_window k (record { tcp = t; socket = some sock; events = events })
                λ tr. (
                  some (
                      some (record {
                        tcp = record t { recv_window = window };
                        socket = some sock;
                        events = events;
                      })),
                  epoll_add sock events ∷ tr,
                ))
            ])
        ]
