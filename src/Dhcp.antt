-- ===== src/Dhcp.antt =====
-- `check_dhcp` of tun2http/dhcp.c: the answer to a request for an address.
pub mod Options
use nroxy.Prelude.{
  ℕ, ◌+◌, ◌*◌, Bool, true, ◌&&◌, not, Option, none, some, List, [], ◌∷◌, ◌++◌, ltb, leb, ◌==◌,
  if◌then◌else◌, length, take, drop, replicate,
}
use nroxy.Os.{Kernel, M, pure, ◌>>=◌, ◌>>◌}
use nroxy.Net.Bytes.{byte_at, be32_at, slice}
use nroxy.Net.Session.{UdpSession}
use nroxy.Udp.Packet.{write_udp}

-- `sizeof(struct dhcp_packet)`
abbrev pub dhcp_size : ℕ
dhcp_size = 240

-- What `check_dhcp` can come to.
pub data DhcpResult : Type 0 where
  refused done : UdpSession → DhcpResult
  out_of_bounds : DhcpResult

-- A write behind the end of an allocation is out of bounds.
abbrev pub store_bytes : List ℕ → ℕ → List ℕ → Option (List ℕ)
store_bytes buffer off bytes =
    if leb (off + length bytes) (length buffer)
    then some (take off buffer ++ (bytes ++ drop (off + length bytes) buffer))
    else none

abbrev pub is_zero : List ℕ → Bool
is_zero [] = true
is_zero (b ∷ bytes) = b == 0 && is_zero bytes

-- `request->siaddr == 0`
abbrev pub is_discover : List ℕ → Bool
is_discover request = is_zero (slice request 20 4)

-- The fields of the header of the response.
unfoldable pub dhcp_header : List ℕ → List ℕ
dhcp_header request =
    (if is_discover request then 2 else 4)
    ∷ (slice request 1 7
        ++ ((0 ∷ 0 ∷ 0 ∷ 0 ∷ 0 ∷ 0 ∷ 0 ∷ 0 ∷ 10 ∷ 1 ∷ 10 ∷ 2 ∷ 10 ∷ 1 ∷ 10 ∷ 1 ∷ 0 ∷ 0 ∷ 0 ∷ 0 ∷ [])
            ++ slice request 28 212))

-- The options in the order in which they are stored.
unfoldable pub dhcp_options : List ℕ → List ℕ
dhcp_options request =
    (53 ∷ 1 ∷ (if is_discover request then 2 else 5) ∷ 1 ∷ 4 ∷ 255 ∷ 255 ∷ 255 ∷ 0 ∷ [])
    ++ ((3 ∷ 4 ∷ 10 ∷ 1 ∷ 10 ∷ 1 ∷ 51 ∷ 4 ∷ 16 ∷ 14 ∷ 0 ∷ 0 ∷ [])
        ++ (54 ∷ 4 ∷ 10 ∷ 1 ∷ 10 ∷ 1 ∷ 6 ∷ 4 ∷ 8 ∷ 8 ∷ 8 ∷ 8 ∷ 255 ∷ []))

-- The response is 500 zeroed bytes. The options are stored at `response + sizeof(struct dhcp_packet)`,
-- where `response` points to a `struct dhcp_packet`.
unfoldable pub dhcp_response : List ℕ → Option (List ℕ)
unfolding dhcp_header dhcp_options
dhcp_response request = elim (store_bytes (replicate 500 0) 0 (dhcp_header request)) [
  | none ↦ none
  | some buffer ↦ store_bytes buffer (dhcp_size * dhcp_size) (dhcp_options request)
]

module _ (k : Kernel) where
  -- `refused` is the result -1, `done` the result 0. Four bytes of the source address are written, whatever
  -- its version is.
  unfoldable pub check_dhcp : UdpSession → List ℕ → M DhcpResult
  check_dhcp u request =
      if ltb (length request) dhcp_size
      then pure (refused u)
      else if not (be32_at request 236 == 0x63825363)
      then pure (refused u)
      else if not (byte_at request 1 == 1 && byte_at request 2 == 6)
      then pure (refused u)
      else if byte_at request 0 == 1
      then (do
        let u' = record u { saddr = 10 ∷ 1 ∷ 10 ∷ 1 ∷ drop 4 u.saddr }
        elim (dhcp_response request) [
          | none ↦ pure out_of_bounds
          | some response ↦ (do write_udp k u' response >>= λ _. pure (done u'))
        ])
      else pure (done u)
