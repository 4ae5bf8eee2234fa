-- ===== src/Net/Sums.antt =====
-- That a checksum stored in its field verifies, for the headers and messages of tcp.c, udp.c and
-- icmp.c.
use nroxy.Prelude.{
  ℕ, ◌+◌, ◌/◌, ◌%◌, ◌<◌, ◌≡◌, refl, sym, ap, ◌∙◌, List, [], ◌∷◌, ◌++◌, arith, length, length-append,
  IsBytes, All-append,
}
use nroxy.Net.Bytes.{be16, le16}
use nroxy.Util.Checksum.{
  calc_checksum, complement, calc_checksum-append, calc_checksum_verifies,
  calc_checksum-ones_complement, total, total-append, ones_complement,
}
use nroxy.Ip.Header.{ip4_header_with, ip4_header}

pub calc_checksum-lt : (start : ℕ) (buffer : List ℕ) → calc_checksum start buffer < 65536
unfolding calc_checksum
calc_checksum-lt start buffer = omega arith

pub append_assoc : (a b c : List ℕ) → (a ++ b) ++ c ≡ a ++ (b ++ c)
append_assoc [] b c = refl
append_assoc (x ∷ a) b c = rw (append_assoc a b c) refl

-- A checksum computed from part to part, over a pseudo header, a header with a zeroed field, and the
-- data: stored in the field, it verifies.
pub field_verifies :
    (pseudo header gap data' : List ℕ)
    → IsBytes pseudo
    → IsBytes header
    → IsBytes gap
    → IsBytes data'
    → length pseudo % 2 ≡ 0
    → length header % 2 ≡ 0
    → length gap % 2 ≡ 0
    → length pseudo + length header + length gap + length data' < 65000
    → let check =
        complement (
          calc_checksum (calc_checksum (calc_checksum 0 pseudo) (header ++ (0 ∷ 0 ∷ gap))) data') in
      calc_checksum 0 (pseudo ++ (header ++ (le16 check ++ (gap ++ data')))) ≡ 65535
field_verifies pseudo header gap data' hp hh hg hd ep eh eg n =
    let zeroed = header ++ (0 ∷ 0 ∷ gap) in
    let hz : IsBytes zeroed =
      All-append _ header (0 ∷ 0 ∷ gap) hh (omega arith, (omega arith, hg)) in
    let len : length zeroed ≡ length header + 2 + length gap =
      omega (arith, length-append header (0 ∷ 0 ∷ gap)) in
    let lead = pseudo ++ header in
    let hl : IsBytes lead = All-append _ pseudo header hp hh in
    let len_lead : length lead ≡ length pseudo + length header = length-append pseudo header in
    let len_rest : length (gap ++ data') ≡ length gap + length data' = length-append gap data' in
    let joined : calc_checksum (calc_checksum (calc_checksum 0 pseudo) zeroed) data'
        ≡ calc_checksum 0 (lead ++ (0 ∷ 0 ∷ (gap ++ data'))) =
      ap (λ c. calc_checksum c data')
        (calc_checksum-append 0 pseudo zeroed (omega arith) hp hz ep (omega arith))
      ∙ (calc_checksum-append 0 (pseudo ++ zeroed) data' (omega arith)
            (All-append _ pseudo zeroed hp hz) hd (omega (arith, length-append pseudo zeroed))
            (omega (arith, length-append pseudo zeroed))
          ∙ ap (calc_checksum 0) (
              append_assoc pseudo zeroed data'
              ∙ (ap (λ l. pseudo ++ l) (append_assoc header (0 ∷ 0 ∷ gap) data')
                  ∙ sym (append_assoc pseudo header (0 ∷ 0 ∷ (gap ++ data')))))) in
    let check = complement (calc_checksum (calc_checksum (calc_checksum 0 pseudo) zeroed) data') in
    let stored =
      calc_checksum_verifies 0 lead (gap ++ data') check (omega arith) hl
        (All-append _ gap data' hg hd) (omega arith) (omega arith) (ap complement joined) in
    let small : check / 256 % 256 ≡ check / 256 = omega arith in
    rw small (
      ap (calc_checksum 0)
        (sym (append_assoc pseudo header ((check % 256) ∷ (check / 256) ∷ (gap ++ data'))))
      ∙ stored)

-- Pseudo headers of one sum are as good as one another.
pub total-calc_checksum :
    (a b rest : List ℕ)
    → IsBytes a
    → IsBytes b
    → IsBytes rest
    → length a % 2 ≡ 0
    → length b % 2 ≡ 0
    → length a + length rest < 65000
    → length b + length rest < 65000
    → total a ≡ total b
    → calc_checksum 0 (a ++ rest) ≡ calc_checksum 0 (b ++ rest)
total-calc_checksum a b rest ha hb hr ea eb na nb e =
    calc_checksum-ones_complement 0 (a ++ rest) (omega arith) (All-append _ a rest ha hr)
      (omega (arith, length-append a rest))
    ∙ (ap ones_complement (omega (arith, total-append a rest ea, total-append b rest eb))
        ∙ sym (
            calc_checksum-ones_complement 0 (b ++ rest) (omega arith) (All-append _ b rest hb hr)
              (omega (arith, length-append b rest))))

-- The IPv4 header that is written verifies, for addresses of four bytes.
pub ip4_header_verifies :
    (len protocol : ℕ) (source dest : List ℕ)
    → IsBytes source
    → IsBytes dest
    → length source ≡ 4
    → length dest ≡ 4
    → protocol < 256
    → calc_checksum 0 (ip4_header len protocol source dest) ≡ 65535
unfolding ip4_header ip4_header_with
ip4_header_verifies len protocol source dest hs hd ls ld p =
    let lead : List ℕ = 0x45 ∷ 0 ∷ be16 len ++ (0 ∷ 0 ∷ 0 ∷ 0 ∷ 64 ∷ protocol ∷ []) in
    let check = complement (calc_checksum 0 (lead ++ (0 ∷ 0 ∷ (source ++ dest)))) in
    let small : check / 256 % 256 ≡ check / 256 = omega arith in
    rw small (
      calc_checksum_verifies 0 lead (source ++ dest) check (omega arith) (ground arith)
        (All-append _ source dest hs hd) refl (omega (arith, length-append source dest)) refl)
