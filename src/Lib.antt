-- ===== src/Lib.antt =====
-- Nroxy's native tunnel: an Android VPN service whose packets are relayed by sockets, with HTTP and
-- HTTPS connections sent to a proxy. The program is app/src/main/cpp/tun2http. Packets of the client
-- come from the tun device into `handle_ip` (ip.c), which gives them to the relay of their protocol
-- (tcp.c, udp.c, icmp.c). A relay keeps sessions in one list (session.c), opens a socket for each, and
-- answers the client by packets that it writes to the device. The loop of session.c counts, monitors and
-- checks the sessions and hands events of sockets to the relays, in a thread that tun2http.c starts and
-- stops. The TCP relay looks for a server name in
-- a client hello (tls.c), patches the target of plain HTTP requests (http.c), and asks the proxy for a
-- tunnel; the UDP relay reads DNS messages (dns.c) and answers DHCP requests (dhcp.c).
--
-- The files, and the code under app/src/main/cpp/tun2http that they are about:
--   Prelude            shared names, lists, words and integers over the native numbers
--   Os                 the kernel and the C library as a parameter: a record of functions of the trace of
--                      calls made so far, the latest first; a stateful function takes and returns the trace
--   Util               util.c: Checksum `calc_checksum`, Serial `compare_u32`, Text `trim` and `hex`
--   Net                Session: the structures of tun2http.h; Bytes: fields of packets; Sums: checksums in
--                      their fields
--   Ip, Handle         ip.c: Parse and Handle are the parts of `handle_ip`; Header the headers written; Uid
--                      `get_uid` with `hex2bytes` of util.c
--   Timeout            the timeouts of tcp.c, udp.c and icmp.c
--   Tcp                tcp.c: Packet and Write `write_tcp` and its callers; Window the two windows; Queue
--                      `queue_tcp`; Check `check_tcp_session`; Monitor `monitor_tcp_session`; Socket
--                      `check_tcp_socket`; Header and Handle `handle_tcp`; Open `open_tcp_socket` and
--                      the session of a SYN; Machine the states of a session and all that changes them;
--                      Stream the client's bytes on their way through the queue to the socket
--   Http, Tls, Dns, Dhcp   http.c, tls.c, dns.c, dhcp.c; Tls/Reads, Dns/Labels and Tcp/Header/Options
--                      have the encodings that the parsers are proved to read, Dns/Reads that of a query; Http/Patch
--                      a request with its target patched, Http/Headers the search for a header
--   Udp, Icmp          udp.c and icmp.c: Packet, Check, Socket, Handle as for TCP; Udp/Life the calls on a
--                      UDP session as steps
--   Session            session.c: Count, Pass, Allowed and Clear; Tun `check_tun` of ip.c and the loop around
--                      it; Events and Round the event loop; Watch which sockets epoll watches, through all
--                      operations; Idle and Stop what the loop does with idle sessions and a stop
--   Jni                tun2http.c: the calls of the Java service, the thread and the sessions as one state
--   Tests              runs at concrete inputs
--
-- A session is a record of the fields of its structure, with ports and numbers in host notation and
-- addresses as bytes; a socket below 0 is `none`. A word of w bits is a native number, with `% 2 ^ w`
-- where it wraps. The targets are little-endian, and `char` is unsigned on arm64. A read behind the end of
-- a packet yields 0, but in the TLS parser, where it is an outcome of its own, with which the model has no
-- result although the code goes on with what its buffer of 20000 bytes holds, and in the walk over IPv6
-- extension headers. The product in the scaled timeout, an `int`, is not bounded: below 21 million sessions
-- it does not overflow. The C library is not modelled beyond what its calls return; allocation succeeds, and
-- logging and the checks of `printf` buffers are left out.
--
-- The loop that reads the device, and that for a UDP socket, run as often in a row as the kernel record
-- says that there is something to read. An event of `epoll_wait` names the socket that was registered, and
-- its session is the one with that socket, where the code has a pointer to the session. The thread's rounds
-- and the calls of the service come one after the other.
--
-- Loops run by structural recursion or on fuel: three rounds fold the carries of a 32-bit sum; the TLS
-- loops have a round for each byte; the search in a request has a round for each byte, and more
-- find nothing else; the options of a SYN have a round for each byte, which is enough for well-formed
-- options, and no number is for an option of length 0; a name of a DNS message has a round for each state of
-- the loop, and for well-formed names as many as labels and one. Fuel that is used up is `none`.
--
-- Not modelled: the test of the IP checksum in `handle_ip`, which is off at the log level that the program
-- sets; the reading of the files under /proc/net, and that the uid of a packet, a parameter of `handle_ip`, is
-- what `get_uid` finds; the lock, and the thread's attachment to Java; the pipe's creation and the wrappers
-- of Java calls in tun2http.c; the names of the states in util.c, and the Java application.
pub mod Prelude
pub mod Util
pub mod Os
pub mod Net
pub mod Ip
pub mod Timeout
pub mod Http
pub mod Tls
pub mod Dns
pub mod Tcp
pub mod Udp
pub mod Icmp
pub mod Dhcp
pub mod Handle
pub mod Session
pub mod Jni
pub mod Tests
