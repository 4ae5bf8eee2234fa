-- ===== src/Dhcp/Options.antt =====
-- Where `check_dhcp` of tun2http/dhcp.c stores the options of its response.
use nroxy.Prelude.{
  ℕ, ◌+◌, ◌*◌, ◌≤◌, ◌<◌, ◌≡◌, refl, Option, none, some, List, ◌++◌, arith, length, length-append,
  take, drop, replicate, length-take, length-drop,
}
use nroxy.Os.{Kernel, Trace}
use nroxy.Net.Bytes.{byte_at, be32_at}
use nroxy.Net.Session.{UdpSession}
use nroxy.Dhcp.{
  dhcp_size, out_of_bounds, store_bytes, dhcp_header, dhcp_options, dhcp_response, check_dhcp,
}

-- A write that succeeds keeps the size of the buffer.
pub store_bytes-length :
    (buffer : List ℕ) (off : ℕ) (bytes buffer' : List ℕ)
    → store_bytes buffer off bytes ≡ some buffer'
    → length buffer' ≡ length buffer
store_bytes-length buffer off bytes buffer' e =
    let n = length-append (take off buffer) (bytes ++ drop (off + length bytes) buffer) in
    let m = length-append bytes (drop (off + length bytes) buffer) in
    ground (arith, n, m, length-take off buffer, length-drop (off + length bytes) buffer)

store_far :
    (buffer : List ℕ) (off : ℕ) (bytes : List ℕ)
    → length buffer < off
    → store_bytes buffer off bytes ≡ none
store_far buffer off bytes h = ground arith

second_out :
    (o : Option (List ℕ)) (off : ℕ) (bytes : List ℕ)
    → ((buffer : List ℕ) → o ≡ some buffer → length buffer < off)
    → (elim o as (λ x. Option (List ℕ)) [
      | none ↦ none
      | some buffer ↦ store_bytes buffer off bytes
    ])
      ≡ none
second_out none off bytes h = refl
second_out (some buffer) off bytes h = store_far buffer off bytes (h buffer refl)

pub response_out : (request : List ℕ) → dhcp_response request ≡ none
unfolding dhcp_response
response_out request =
    second_out (store_bytes (replicate 500 0) 0 (dhcp_header request)) (dhcp_size * dhcp_size)
      (dhcp_options request)
      λ buffer e.
        omega (arith, store_bytes-length (replicate 500 0) 0 (dhcp_header request) buffer e)

-- Every boot request that passes the checks (at least 240 bytes, the magic number, Ethernet)
-- makes the code write outside of its response, whatever its other fields are.
pub check_dhcp_out :
    (k : Kernel) (u : UdpSession) (request : List ℕ) (tr : Trace)
    → 240 ≤ length request
    → be32_at request 236 ≡ 0x63825363
    → byte_at request 0 ≡ 1
    → byte_at request 1 ≡ 1
    → byte_at request 2 ≡ 6
    → (check_dhcp k u request tr).0 ≡ out_of_bounds
unfolding check_dhcp
check_dhcp_out k u request tr n magic op htype hlen = ground (arith, response_out request)
