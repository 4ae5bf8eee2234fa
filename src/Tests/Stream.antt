-- ===== src/Tests/Stream.antt =====
-- The client's stream, the owner of a connection and a patched request at concrete inputs.
use nroxy.Prelude.{
  ℕ, ◌≡◌, refl, true, false, none, some, List, [], ◌∷◌, ◌++◌, arith, if◌then◌else◌, length, take,
  drop, codes,
}
use nroxy.Prelude.Int.{pos, negsuc}
use nroxy.Net.Bytes.{bytes_eq}
use nroxy.Net.Session.{TcpSession, established}
use nroxy.Tests.World.{quiet, session_in, server_address}
use nroxy.Tcp.Queue.{queue_tcp, insert_segment, place}
use nroxy.Util.Serial.{compare_u32}
use nroxy.Tcp.Socket.Forward.{forward_data}
use nroxy.Tcp.Stream.Delivers.{Delivers}
use nroxy.Tcp.Stream.Forwards.{here, arrives, forwards, Flow-Delivers}
use nroxy.Tcp.Stream.Drains.{forward_data_drains}
use nroxy.Net.Bytes.{be16}
use nroxy.Dns.{get_dns_query}
use nroxy.Dns.Labels.{encode_name, dotted}
use nroxy.Dns.Reads.{header_of, get_dns_query_reads}
use nroxy.Ip.Uid.{Fields, Wanted, scan_lines, hex2bytes, swap_words}
use nroxy.Ip.Uid.Finds.{
  first_owner, last_port, owner_or, hex_text, scan_lines_finds, hex_address_reads,
}
use nroxy.Http.{patch_http_url, methods}
use nroxy.Http.Find.{find_data, matches, skip_to}
use nroxy.Http.Headers.{get_header, header_value, error, strncpy, eat_blanks}
use nroxy.Http.Headers.Reads.{line_and, lines_and, get_header_reads}
use nroxy.Http.Patch.{patch_http_url_absolute}

-- Each byte is its number; the second segment comes first, and once more with one byte of the first.
abbrev counting : ℕ → ℕ
counting q = q

abbrev empty_session : TcpSession
empty_session = session_in established []

abbrev second : TcpSession
second = queue_tcp 102 true (102 ∷ 103 ∷ []) 2 empty_session

abbrev both : TcpSession
both = queue_tcp 100 true (100 ∷ 101 ∷ []) 2 second

Flow-Delivers_example :
    let after = forward_data quiet 5 1000 both.forward both false [] in
    Delivers counting quiet 5 empty_session [] after.0.0 after.1
Flow-Delivers_example =
    Flow-Delivers counting quiet (λ tr sock bytes more. (length bytes, refl, omega arith)) 5
      empty_session [] refl (omega arith) (omega arith)
      (forwards
        (arrives
          (arrives here 102 2 true (102 ∷ 103 ∷ []) (omega arith) (omega arith) (omega arith) refl)
          100 2 true (100 ∷ 101 ∷ []) (omega arith) (omega arith) (omega arith) refl)
        1000)

abbrev wanted : Wanted
wanted = record { version = 4; sport = 40000; daddr = server_address; dport = 443 }

-- Another connection from the same port, and then the connection itself.
abbrev table : List Fields
table =
    record { count = 4; sport = pos 40000; hex = codes "0100007F"; dport = pos 22; uid = pos 1000 }
    ∷ record {
      count = 4;
      sport = pos 40000;
      hex = codes "22D8B85D";
      dport = pos 443;
      uid = pos 10077;
    }
    ∷ []

scan_lines_finds_example :
    scan_lines wanted table (negsuc 0)
    ≡ owner_or (first_owner wanted table) (last_port wanted table (negsuc 0))
scan_lines_finds_example = scan_lines_finds wanted table (negsuc 0)

hex_address_reads_example :
    swap_words (hex2bytes (hex_text (swap_words server_address))) ≡ server_address
hex_address_reads_example =
    hex_address_reads server_address (omega arith, (omega arith, (omega arith, (omega arith, tt))))

-- What follows the method of a request.
abbrev request_rest : List ℕ
request_rest = codes "/a HTTP/1.1" ++ (13 ∷ 10 ∷ (codes "Host: b" ++ (13 ∷ 10 ∷ 13 ∷ 10 ∷ [])))

patch_http_url_absolute_example : patch_http_url (71 ∷ (codes "ET " ++ request_rest)) ≡ (
    if bytes_eq (take 5 request_rest) (codes "http:")
    then none
    else some (71 ∷ (codes "ET " ++ (codes "http://" ++ (codes "b" ++ request_rest)))))
unfolding find_data matches skip_to
patch_http_url_absolute_example =
    patch_http_url_absolute [] (drop 1 methods) 71 (codes "ET ") request_rest
      (codes "GET /a HTTP/1.1" ++ (13 ∷ 10 ∷ [])) (codes "b") (10 ∷ 13 ∷ 10 ∷ []) refl tt
      (omega arith) refl (ground arith) (omega arith, tt) (omega arith)

forward_data_drains_example :
    let after = forward_data quiet 5 1000 both.forward both false [] in
    (after.0.0.forward ≡ []) × (after.0.1 ≡ true)
unfolding queue_tcp insert_segment place compare_u32
forward_data_drains_example =
    forward_data_drains counting quiet (λ tr sock bytes more. refl) 5 1000 both.forward both false
      [] refl (omega arith)
      (
        ((omega arith, omega arith, omega arith), omega arith, refl),
        (((omega arith, omega arith, omega arith), omega arith, refl), tt),
      )
      (refl, (refl, tt)) (omega arith) (omega arith)

-- The name a.bc
abbrev name_labels : List (List ℕ)
name_labels = codes "a" ∷ codes "bc" ∷ []

get_dns_query_reads_example :
    get_dns_query (header_of 7 256 1 0 2 1 ++ (encode_name name_labels ++ (be16 28 ++ be16 1)))
    ≡ some (some (record { qtype = 28; qclass = 1; qname = take 4 (dotted name_labels) }))
get_dns_query_reads_example =
    get_dns_query_reads 7 256 1 0 2 1 28 1 (codes "a") (codes "bc" ∷ []) (omega arith) (omega arith)
      (omega arith) (omega arith) (omega arith)
      ((omega arith, omega arith), ((omega arith, omega arith), tt)) (omega arith)

-- `GET /`, `A: 1` and `host: b`
abbrev host_line : List ℕ
host_line = codes "host: b"

get_header_reads_example :
    get_header
      (codes "Host:")
      (line_and (codes "GET /") (lines_and (codes "A: 1" ∷ []) (line_and host_line (13 ∷ 10 ∷ []))))
      true
    ≡ some (
        if true
        then header_value (strncpy (eat_blanks (drop (length (codes "Host:")) host_line)))
        else error (negsuc 3))
unfolding matches
get_header_reads_example =
    get_header_reads (codes "Host:") (codes "GET /") (codes "A: 1" ∷ []) host_line (13 ∷ 10 ∷ [])
      true (ground arith) (ground arith) (ground arith) refl (omega arith) (omega arith)
