-- ===== src/Tcp/Packet/Verifies.antt =====
-- The checksums of the packets that tun2http/tcp.c writes.
use nroxy.Prelude.{
  ℕ, ◌+◌, ◌%◌, ◌≤◌, ◌<◌, ◌≡◌, refl, ap, ◌∙◌, inl, inr, List, [], ◌∷◌, ◌++◌, arith, ◌==◌,
  if◌then◌else◌, Bool-cases, length, length-append, IsBytes, All-append,
}
use nroxy.Net.Bytes.{be16, le16}
use nroxy.Net.Session.{TcpSession}
use nroxy.Net.Sums.{calc_checksum-lt, field_verifies, total-calc_checksum}
use nroxy.Ip.Header.{pseudo4, pseudo6}
use nroxy.Util.Checksum.{calc_checksum, complement, calc_checksum-append, total, total-append}
use nroxy.Tcp.Packet.{
  Flags, option_len, tcp_options, tcp_header, pseudo_sum, tcp_check, tcp_segment,
}

-- The pseudo headers of RFC 793 and RFC 8200, of a packet from the server to the client.
abbrev pub rfc_pseudo : ℕ → ℕ → ℕ → List ℕ → List ℕ → List ℕ
rfc_pseudo version len protocol source dest =
    if version == 4
    then source ++ (dest ++ (0 ∷ protocol ∷ be16 len))
    else source ++ (dest ++ ((0 ∷ 0 ∷ be16 len) ++ (0 ∷ 0 ∷ 0 ∷ protocol ∷ [])))

-- An IPv4 or IPv6 address.
abbrev pub IsAddress : List ℕ → Type 0
IsAddress a = IsBytes a × (length a % 2 ≡ 0) × (length a ≤ 16)

-- The pseudo header that the code sums.
abbrev pub code_pseudo : ℕ → ℕ → ℕ → List ℕ → List ℕ → List ℕ
code_pseudo version len protocol source dest =
    if version == 4 then pseudo4 len protocol source dest else pseudo6 len protocol dest source

pub three_parts :
    (a b c : List ℕ)
    → IsAddress a
    → IsAddress b
    → IsBytes c
    → length c % 2 ≡ 0
    → length c ≤ 8
    → IsBytes (a ++ (b ++ c))
      × (length (a ++ (b ++ c)) % 2 ≡ 0)
      × (length (a ++ (b ++ c)) ≤ 40)
      × (total (a ++ (b ++ c)) ≡ total a + (total b + total c))
three_parts a b c (ha, ea, la) (hb, eb, lb) hc ec lc =
    let n = length-append a (b ++ c) in
    let m = length-append b c in
    (
      All-append _ a (b ++ c) ha (All-append _ b c hb hc),
      omega arith,
      omega arith,
      omega (arith, total-append a (b ++ c) ea, total-append b c eb),
    )

pub code_pseudo-rfc :
    (version len protocol : ℕ) (source dest rest : List ℕ)
    → IsAddress source
    → IsAddress dest
    → protocol < 256
    → IsBytes rest
    → length rest < 64000
    → calc_checksum 0 (rfc_pseudo version len protocol source dest ++ rest)
      ≡ calc_checksum 0 (code_pseudo version len protocol source dest ++ rest)
unfolding pseudo4 pseudo6
code_pseudo-rfc version len protocol source dest rest hs hd p hr n =
    elim (Bool-cases (version == 4)) [
      | inl four ↦ rw four refl
      | inr six ↦ rw six (
          let (ba, ea, na, ta) =
            three_parts source dest ((0 ∷ 0 ∷ be16 len) ++ (0 ∷ 0 ∷ 0 ∷ protocol ∷ [])) hs hd
              (ground arith) refl (omega arith) in
          let (bb, eb, nb, tb) =
            three_parts dest source (be16 len ++ (0 ∷ 0 ∷ 0 ∷ 0 ∷ 0 ∷ protocol ∷ [])) hd hs
              (ground arith) refl (omega arith) in
          total-calc_checksum _ _ rest ba bb hr ea eb (omega arith) (omega arith) (omega arith))
    ]

pub code_pseudo-parts :
    (version len protocol : ℕ) (source dest : List ℕ)
    → IsAddress source
    → IsAddress dest
    → protocol < 256
    → IsBytes (code_pseudo version len protocol source dest)
      × (length (code_pseudo version len protocol source dest) % 2 ≡ 0)
      × (length (code_pseudo version len protocol source dest) ≤ 40)
unfolding pseudo4 pseudo6
code_pseudo-parts version len protocol source dest hs hd p = elim (Bool-cases (version == 4)) [
  | inl four ↦ rw four (
      let (b, e, n, t) =
        three_parts source dest (0 ∷ protocol ∷ be16 len) hs hd (ground arith) refl (omega arith) in
      (b, e, n))
  | inr six ↦ rw six (
      let (b, e, n, t) =
        three_parts dest source (be16 len ++ (0 ∷ 0 ∷ 0 ∷ 0 ∷ 0 ∷ protocol ∷ [])) hd hs
          (ground arith) refl (omega arith) in
      (b, e, n))
]

tcp_header-IsBytes :
    (cur : TcpSession) (f : Flags) → IsBytes (tcp_header cur f) × (length (tcp_header cur f) ≡ 16)
unfolding tcp_header option_len
tcp_header-IsBytes cur f = ground arith

tcp_options-IsBytes :
    (cur : TcpSession) (f : Flags)
    → cur.recv_scale < 256
    → IsBytes (tcp_options cur f)
      × (length (tcp_options cur f) ≡ option_len f)
      × (length (tcp_options cur f) % 2 ≡ 0)
      × (option_len f ≤ 8)
unfolding tcp_options option_len
tcp_options-IsBytes cur f h = ground arith

pseudo_sum-code_pseudo :
    (cur : TcpSession) (f : Flags) (bytes : List ℕ)
    → pseudo_sum cur f bytes
      ≡ calc_checksum 0
          (code_pseudo cur.version (20 + option_len f + length bytes) 6 cur.daddr cur.saddr)
unfolding pseudo_sum
pseudo_sum-code_pseudo cur f bytes = ground arith

-- The segment that is written verifies against the pseudo header of RFC 793 or RFC 8200, whatever
-- the flags and the data are, for fewer than 60000 bytes of data, addresses of an even number of
-- at most 16 bytes, and a window scale below 256.
pub tcp_segment_verifies :
    (cur : TcpSession) (f : Flags) (bytes : List ℕ)
    → IsAddress cur.saddr
    → IsAddress cur.daddr
    → cur.recv_scale < 256
    → IsBytes bytes
    → length bytes < 60000
    → calc_checksum 0 (
        rfc_pseudo cur.version (length (tcp_segment cur f bytes)) 6 cur.daddr cur.saddr
        ++ tcp_segment cur f bytes)
      ≡ 65535
unfolding tcp_segment tcp_check pseudo_sum
tcp_segment_verifies cur f bytes hs hd scale hb n =
    let (hh, lh) = tcp_header-IsBytes cur f in
    let (ho, lo, eo, few) = tcp_options-IsBytes cur f scale in
    let len = 20 + option_len f + length bytes in
    let (hp, ep, np) =
      code_pseudo-parts cur.version len 6 cur.daddr cur.saddr hd hs (omega arith) in
    let before =
      calc_checksum (pseudo_sum cur f bytes) (tcp_header cur f ++ (0 ∷ 0 ∷ 0 ∷ 0 ∷ [])) in
    let data' = tcp_options cur f ++ bytes in
    let joined : calc_checksum (calc_checksum before (tcp_options cur f)) bytes
        ≡ calc_checksum before data' =
      calc_checksum-append before (tcp_options cur f) bytes (calc_checksum-lt _ _) ho hb eo
        (omega arith) in
    let pseudo : pseudo_sum cur f bytes
        ≡ calc_checksum 0 (code_pseudo cur.version len 6 cur.daddr cur.saddr) =
      pseudo_sum-code_pseudo cur f bytes in
    let zeroed = tcp_header cur f ++ (0 ∷ 0 ∷ 0 ∷ 0 ∷ []) in
    let stored = complement (
      calc_checksum
        (calc_checksum (calc_checksum 0 (code_pseudo cur.version len 6 cur.daddr cur.saddr)) zeroed)
        data') in
    let same : tcp_check cur f bytes ≡ stored =
      ap complement (joined ∙ ap (λ c. calc_checksum (calc_checksum c zeroed) data') pseudo) in
    let segment_len : length (tcp_segment cur f bytes) ≡ len = omega (
      arith,
      length-append (tcp_header cur f) (le16 (tcp_check cur f bytes) ++ (0 ∷ 0 ∷ data')),
      length-append (tcp_options cur f) bytes,
    ) in
    let hd' : IsBytes data' = All-append _ (tcp_options cur f) bytes ho hb in
    let hs' : IsBytes (tcp_segment cur f bytes) =
      All-append _ (tcp_header cur f) (le16 (tcp_check cur f bytes) ++ (0 ∷ 0 ∷ data')) hh
        (omega arith, (omega arith, (omega arith, (omega arith, hd')))) in
    code_pseudo-rfc cur.version (length (tcp_segment cur f bytes)) 6 cur.daddr cur.saddr _ hd hs
      (omega arith) hs' (omega arith)
    ∙ (rw segment_len (
        rw same (
          field_verifies (code_pseudo cur.version len 6 cur.daddr cur.saddr) (tcp_header cur f)
            (0 ∷ 0 ∷ []) data' hp hh (omega arith, (omega arith, tt)) hd' ep (omega arith) refl
            (omega (arith, length-append (tcp_options cur f) bytes)))))
