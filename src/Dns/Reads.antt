-- ===== src/Dns/Reads.antt =====
-- A query that is encoded as RFC 1035 says is read by `get_dns_query` of tun2http/dns.c.
use nroxy.Prelude.{
  ℕ, suc, ◌+◌, ◌-◌, ◌*◌, ◌/◌, ◌%◌, ◌≤◌, ◌<◌, ◌≡◌, refl, sym, ap, ◌∙◌, Bool, true, false, ◌&&◌,
  Option, none, some, List, [], ◌∷◌, ◌++◌, arith, ltb, ◌==◌, if◌then◌else◌, length, length-append,
  take, All,
}
use nroxy.Net.Bytes.{be16_at, be16}
use nroxy.Net.Slices.{byte_at-append}
use nroxy.Net.Sums.{append_assoc}
use nroxy.Dns.Name.{get_qname}
use nroxy.Dns.Labels.{encode_name, dotted, IsLabel, get_qname_reads}
use nroxy.Dns.{Query, get_dns_query, qr_of, opcode_of}

-- The twelve bytes of a header: the identifier, the flags, and the counts of questions, answers,
-- authorities and additional records.
abbrev pub header_of : ℕ → ℕ → ℕ → ℕ → ℕ → ℕ → List ℕ
header_of id flags questions answers authorities additional =
    be16 id
    ++ (be16 flags ++ (be16 questions ++ (be16 answers ++ (be16 authorities ++ be16 additional))))

length-encode_name :
    (labels : List (List ℕ)) → length (encode_name labels) ≡ suc (length (dotted labels))
length-encode_name [] = refl
length-encode_name (l ∷ labels) = omega (
  arith,
  length-append l (encode_name labels),
  length-append l (b'.' ∷ dotted labels),
  length-encode_name labels,
)

count-le : (labels : List (List ℕ)) → length labels ≤ length (dotted labels)
count-le [] = omega arith
count-le (l ∷ labels) = omega (arith, length-append l (b'.' ∷ dotted labels), count-le labels)

be16_reads : (n : ℕ) → n < 65536 → 256 * (n / 256 % 256) + n % 256 ≡ n
be16_reads n h = omega arith

-- The two numbers behind the name.
number_at :
    (before rest : List ℕ) (n i : ℕ)
    → i ≡ length before
    → n < 65536
    → be16_at (before ++ (be16 n ++ rest)) i ≡ n
number_at before rest n i e h =
    let high = byte_at-append before (be16 n ++ rest) 0 i (omega arith) in
    let low = byte_at-append before (be16 n ++ rest) 1 (i + 1) (omega arith) in
    rw (high, low) (be16_reads n h)

-- What `get_dns_query` does with a name that is read.
abbrev after_name : List ℕ → List ℕ → ℕ → Option Query
after_name bytes name next =
    if ltb 0 next && next + 4 == length bytes
    then some
        (record { qtype = be16_at bytes next; qclass = be16_at bytes (next + 2); qname = name })
    else none

query_of_name :
    (bytes name : List ℕ) (next : ℕ)
    → 12 < length bytes
    → qr_of bytes ≡ 0
    → opcode_of bytes ≡ 0
    → 0 < be16_at bytes 4
    → get_qname bytes 12 ≡ some (some (record { name = name; next = next }))
    → get_dns_query bytes ≡ some (after_name bytes name next)
unfolding get_dns_query
query_of_name bytes name next long qr opcode questions e =
    let first : ltb (length bytes) 13 ≡ false = ground arith in
    let standard : (qr_of bytes == 0 && (opcode_of bytes == 0 && ltb 0 (be16_at bytes 4))) ≡ true =
      ground arith in
    rw (first, standard, e, get_dns_query) (found (ltb 0 next && next + 4 == length bytes))
  where
    found :
        (b : Bool)
        → ◌≡◌ {A = Option (Option Query)}
            (if b
              then some (
                  some (record {
                    qtype = be16_at bytes next;
                    qclass = be16_at bytes (next + 2);
                    qname = name;
                  }))
              else some none)
            (some (
              if b
              then some (record {
                qtype = be16_at bytes next;
                qclass = be16_at bytes (next + 2);
                qname = name;
              })
              else none))
    found true = refl
    found false = refl

behind_name :
    (before : List ℕ) (qtype qclass : ℕ) (name : List ℕ) (next : ℕ)
    → next ≡ length before
    → 0 < next
    → qtype < 65536
    → qclass < 65536
    → after_name (before ++ (be16 qtype ++ be16 qclass)) name next
      ≡ some (record { qtype = qtype; qclass = qclass; qname = name })
behind_name before qtype qclass name next e some_next t c =
    let tail = be16 qtype ++ be16 qclass in
    let bytes = before ++ tail in
    let whole : (ltb 0 next && next + 4 == length bytes) ≡ true =
      ground (arith, length-append before tail) in
    let class : be16_at bytes (next + 2) ≡ qclass =
      rw
        (
          byte_at-append before tail 2 (next + 2) (omega arith),
          byte_at-append before tail 3 (next + 2 + 1) (omega arith),
        )
        (be16_reads qclass c) in
    rw (whole, number_at before (be16 qclass) qtype next e t, class) refl

-- A query is read as it was written: a standard query, of the opcode 0, with at least one question, for a name of at
-- least one label, of labels of 1 to 63 bytes and less than 256 bytes with its dots, that is encoded as
-- RFC 1035 says and ends with the type and the class, yields them and the name with dots between its
-- labels, whatever the identifier and the three other counts are.
pub get_dns_query_reads :
    (id flags questions answers authorities additional qtype qclass : ℕ) (label : List ℕ)
    (labels : List (List ℕ))
    → flags < 2048
    → 0 < questions
    → questions < 65536
    → qtype < 65536
    → qclass < 65536
    → All IsLabel (label ∷ labels)
    → length (dotted (label ∷ labels)) < 256
    → let text = dotted (label ∷ labels) in
      get_dns_query (
        header_of id flags questions answers authorities additional
        ++ (encode_name (label ∷ labels) ++ (be16 qtype ++ be16 qclass)))
      ≡ some (some (record { qtype = qtype; qclass = qclass; qname = take (length text - 1) text }))
unfolding get_dns_query get_qname
get_dns_query_reads id flags questions answers authorities additional qtype qclass label labels f q₀
      q₁ t c h n =
    let header = header_of id flags questions answers authorities additional in
    let encoded = encode_name (label ∷ labels) in
    let after = be16 qtype ++ be16 qclass in
    let text = dotted (label ∷ labels) in
    let count = count-le (label ∷ labels) in
    let size : length encoded ≡ suc (length text) = length-encode_name (label ∷ labels) in
    let bytes = header ++ (encoded ++ after) in
    let name = take (length text - 1) text in
    let next = length header + length encoded in
    let found =
      get_qname_reads 16777217 label labels header after h (omega arith) (omega arith) n in
    query_of_name bytes name next (omega (arith, length-append encoded after)) (omega arith)
      (omega arith) (omega arith) found
    ∙ ap some (
        ap (λ b. after_name b name next) (sym (append_assoc header encoded after))
        ∙ behind_name (header ++ encoded) qtype qclass name next
            (sym (length-append header encoded)) (omega arith) t c)
