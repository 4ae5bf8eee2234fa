-- ===== src/Dns.antt =====
-- The reading of DNS messages, tun2http/dns.c.
pub mod Name
pub mod Pointers
pub mod Labels
pub mod Reads
use nroxy.Prelude.{
  ℕ, zero, suc, ◌+◌, ◌/◌, ◌%◌, Bool, true, false, ◌&&◌, not, Option, none, some, List, ltb, leb,
  ◌==◌, if◌then◌else◌, length, u16,
}
use nroxy.Net.Bytes.{byte_at, be16_at}
use nroxy.Dns.Name.{get_qname}

-- `dns->qr` and `dns->opcode`, bit fields of the third byte.
abbrev pub qr_of : List ℕ → ℕ
qr_of bytes = byte_at bytes 2 / 128

abbrev pub opcode_of : List ℕ → ℕ
opcode_of bytes = byte_at bytes 2 / 8 % 16

-- The loop over the answers: what is left is the place behind the last one, or `none` inside where
-- the code gives up.
unfoldable pub dns_answers : ℕ → List ℕ → ℕ → Option (Option ℕ)
dns_answers zero bytes off = some (some off)
dns_answers (suc acount) bytes off = elim (get_qname bytes (u16 off)) [
  | none ↦ none
  | some none ↦ some none
  | some (some q) ↦
      (let off' = q.next in
        let end' = off' + 10 + be16_at bytes (off' + 8) in
        if not (ltb 0 off' && leb (off' + 10) (length bytes))
        then some none
        else elim (leb end' (length bytes)) [
          | true ↦ dns_answers acount bytes end'
          | false ↦ some none
        ])
]

-- `none` is a name that does not end. Nothing of the message is kept.
unfoldable pub parse_dns_response : List ℕ → Option (Option ℕ)
parse_dns_response bytes =
    let qcount = be16_at bytes 4 in
    let acount = be16_at bytes 6 in
    if ltb (length bytes) 13
    then some none
    else if (qr_of bytes == 1 && opcode_of bytes == 0) && (ltb 0 qcount && ltb 0 acount)
    then (elim (get_qname bytes 12) [
      | none ↦ none
      | some none ↦ some none
      | some (some q) ↦
          (if ltb 0 q.next && leb (q.next + 4) (length bytes)
            then dns_answers acount bytes (q.next + 4)
            else some none)
    ])
    else some none

pub record Query : Type 0 where
  pub qtype : ℕ
  pub qclass : ℕ
  pub qname : List ℕ

-- The inner `none` is the result -1.
unfoldable pub get_dns_query : List ℕ → Option (Option Query)
get_dns_query bytes =
    if ltb (length bytes) 13
    then some none
    else if qr_of bytes == 0 && (opcode_of bytes == 0 && ltb 0 (be16_at bytes 4))
    then (elim (get_qname bytes 12) [
      | none ↦ none
      | some none ↦ some none
      | some (some q) ↦
          (if ltb 0 q.next && q.next + 4 == length bytes
            then some (
                some (record {
                  qtype = be16_at bytes q.next;
                  qclass = be16_at bytes (q.next + 2);
                  qname = q.name;
                }))
            else some none)
    ])
    else some none

-- `check_domain` blocks nothing.
unfoldable pub check_domain : Query → Bool
check_domain q = false
