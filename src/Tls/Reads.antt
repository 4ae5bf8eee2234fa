-- ===== src/Tls/Reads.antt =====
-- What the parser of tun2http/tls.c makes of a well-formed client hello.
use nroxy.Prelude.{
  ℕ, suc, ◌+◌, ◌/◌, ◌%◌, ◌≤◌, ◌<◌, ◌≡◌, refl, sym, ap, ◌∙◌, some, List, [], ◌∷◌, ◌++◌, arith,
  length, get_elem?, length-append, All,
}
use nroxy.Net.Bytes.{be16}
use nroxy.Net.Sums.{append_assoc}
use nroxy.Tls.Defs.{extensions, parse_extensions, parse_ciphers, parse_tls_header}
use nroxy.Tls.Steps.{
  get-append, read16-append, read16-skip, block_step, compression_step, ciphers_step, hello_step,
  header_step, IsText,
}
use nroxy.Tls.Extensions.{sni_extension, encode_others, IsOther, extensions_read}

-- The fields in front of the extensions, in records with the fields of RFC 5246.
pub record Hello : Type 0 where
  pub minor : ℕ
  pub lengths : ℕ × ℕ × ℕ
  pub version : ℕ × ℕ
  pub random : List ℕ
  pub session_id : List ℕ
  pub cipher_suites : List ℕ
  pub compression_methods : List ℕ

abbrev pub IsHello : Hello → Type 0
IsHello r =
    (length r.random ≡ 32)
    × (length r.session_id < 256)
    × (length r.cipher_suites < 65536)
    × (length r.compression_methods < 256)

-- From the type of the handshake to the compression methods.
abbrev pub encode_hello : Hello → List ℕ
encode_hello r =
    let (a, b, c) = r.lengths in
    let (d, e) = r.version in
    (1 ∷ a ∷ b ∷ c ∷ d ∷ e ∷ [])
    ++ (r.random
        ++ ((length r.session_id ∷ r.session_id)
            ++ ((be16 (length r.cipher_suites) ++ r.cipher_suites)
                ++ (length r.compression_methods ∷ r.compression_methods))))

-- A record of one client hello.
abbrev pub encode_record : Hello → List ℕ → List ℕ
encode_record r exts =
    let hello = encode_hello r in
    (0x16 ∷ 3 ∷ r.minor ∷ be16 (length hello + (2 + length exts)))
    ++ (hello ++ (be16 (length exts) ++ exts))

-- The server's name among other extensions.
abbrev pub encode_extensions : List (ℕ × List ℕ) → List ℕ → List ℕ → List ℕ
encode_extensions others host after = encode_others others ++ (sni_extension host ++ after)

flatten4 : (a b c d x : List ℕ) → (a ++ (b ++ (c ++ d))) ++ x ≡ a ++ (b ++ (c ++ (d ++ x)))
flatten4 a b c d x =
    append_assoc a (b ++ (c ++ d)) x
    ∙ ap (λ l. a ++ l) (append_assoc b (c ++ d) x ∙ ap (λ l. b ++ l) (append_assoc c d x))

others-le : (others : List (ℕ × List ℕ)) → length others ≤ length (encode_others others)
others-le [] = omega arith
others-le ((kind, payload) ∷ others) =
    omega (arith, others-le others, length-append payload (encode_others others))

-- The parser from the session's id on, at the places where the fields stand.
module _ (lead session_id cipher_suites methods exts more : List ℕ) where
  abbrev fields : List ℕ
  fields =
      lead
      ++ ((length session_id ∷ session_id)
          ++ ((be16 (length cipher_suites) ++ cipher_suites)
              ++ ((length methods ∷ methods) ++ (be16 (length exts) ++ (exts ++ more)))))

  abbrev exts_place : ℕ
  exts_place =
      length lead + (1 + length session_id) + (2 + length cipher_suites) + (1 + length methods)

  fields_read :
      (major minor : ℕ)
      → length session_id < 256
      → length cipher_suites < 65536
      → length methods < 256
      → length exts < 65536
      → (get_elem? fields (length lead) ≡ some (length session_id))
        × (parse_ciphers fields
              (exts_place + 2 + length exts)
              major
              minor
              (length lead + (1 + length session_id))
            ≡ parse_extensions fields (exts_place + 2) (length exts))
  fields_read major minor ls lc lm le =
      let s = length session_id ∷ session_id in
      let c = be16 (length cipher_suites) ++ cipher_suites in
      let m = length methods ∷ methods in
      let x = be16 (length exts) ++ (exts ++ more) in
      let size = exts_place + 2 + length exts in
      (
        get-append lead (s ++ (c ++ (m ++ x))) 0 (length lead) (omega arith),
        ciphers_step fields size major minor (length lead + (1 + length session_id))
              (length cipher_suites) (omega arith)
              (read16-skip lead (s ++ (c ++ (m ++ x))) (1 + length session_id) _ (omega arith)
                ∙ read16-append s (cipher_suites ++ (m ++ x)) (length cipher_suites)
                    (1 + length session_id) lc (omega arith))
            ∙ (compression_step fields size major minor
                  (length lead + (1 + length session_id) + (2 + length cipher_suites))
                  (length methods) (omega arith)
                  (get-append lead (s ++ (c ++ (m ++ x)))
                      (1 + length session_id + (2 + length cipher_suites)) _ (omega arith)
                    ∙ (get-append s (c ++ (m ++ x)) (2 + length cipher_suites)
                          (1 + length session_id + (2 + length cipher_suites)) (omega arith)
                        ∙ get-append c (m ++ x) 0 (2 + length cipher_suites) (omega arith)))
                ∙ block_step fields size exts_place (length exts) (omega arith) (
                    read16-skip lead (s ++ (c ++ (m ++ x)))
                      (1 + length session_id + (2 + length cipher_suites) + (1 + length methods)) _
                      (omega arith)
                    ∙ (read16-skip s (c ++ (m ++ x))
                          (2 + length cipher_suites + (1 + length methods))
                          (1
                            + length session_id
                            + (2 + length cipher_suites)
                            + (1 + length methods))
                          (omega arith)
                        ∙ (read16-skip c (m ++ x) (1 + length methods)
                              (2 + length cipher_suites + (1 + length methods)) (omega arith)
                            ∙ read16-append m (exts ++ more) (length exts) (1 + length methods) le
                                (omega arith))))),
      )

-- The extensions behind the other fields.
extensions_at :
    (lead s c m : List ℕ) (others : List (ℕ × List ℕ)) (host after more : List ℕ) (base : ℕ)
    → All IsOther others
    → IsText host
    → 0 < length host
    → length host < 256
    → base ≡ length lead + length s + length c + length m + 2
    → let exts = encode_extensions others host after in
      parse_extensions
        (lead ++ (s ++ (c ++ (m ++ (be16 (length exts) ++ (exts ++ more))))))
        base
        (length exts)
      ≡ some (some host)
unfolding parse_extensions
extensions_at lead s c m others host after more base o h z n b =
    let exts = encode_extensions others host after in
    let size = be16 (length exts) in
    let encoded = encode_others others in
    let before = lead ++ (s ++ (c ++ (m ++ size))) in
    let regroup : lead ++ (s ++ (c ++ (m ++ (size ++ (exts ++ more)))))
        ≡ before ++ (encoded ++ (sni_extension host ++ (after ++ more))) =
      ap (λ l. lead ++ (s ++ (c ++ l))) (sym (append_assoc m size (exts ++ more)))
      ∙ (sym (flatten4 lead s c (m ++ size) (exts ++ more))
          ∙ ap (λ l. before ++ l)
              (append_assoc encoded (sni_extension host ++ after) more
                ∙ ap (λ l. encoded ++ l) (append_assoc (sni_extension host) after more))) in
    let before_len : length before ≡ length lead + length s + length c + length m + 2 = omega (
      arith,
      length-append lead (s ++ (c ++ (m ++ size))),
      length-append s (c ++ (m ++ size)),
      length-append c (m ++ size),
      length-append m size,
    ) in
    let exts_len : length encoded + 9 + length host ≤ length exts =
      omega
        (arith, length-append encoded (sni_extension host ++ after), length-append host after) in
    ap (λ l. extensions (suc (length exts)) l base (length exts) 0) regroup
    ∙ extensions_read (suc (length exts)) others before host (after ++ more) base (length exts) 0 o
        h z n (omega arith) (omega arith) (omega (arith, others-le others))

-- A record of a client hello with any extensions in front of the server's name and anything
-- behind it yields the name, whatever follows the record, for a name of 1 to 255 bytes without
-- zeros, a random value of 32 bytes, and fields that fit their lengths.
pub parse_tls_header_reads :
    (r : Hello) (others : List (ℕ × List ℕ)) (host after more : List ℕ)
    → IsHello r
    → All IsOther others
    → IsText host
    → 0 < length host
    → length host < 256
    → length (encode_hello r) + (2 + length (encode_extensions others host after)) < 65536
    → parse_tls_header
        (encode_record r (encode_extensions others host after) ++ more)
        (length (encode_record r (encode_extensions others host after)))
      ≡ some (some host)
parse_tls_header_reads r others host after more (lr, ls, lc, lm) o h z n small =
    let exts = encode_extensions others host after in
    let s = length r.session_id ∷ r.session_id in
    let c = be16 (length r.cipher_suites) ++ r.cipher_suites in
    let m = length r.compression_methods ∷ r.compression_methods in
    let hello = encode_hello r in
    let size = length hello + (2 + length exts) in
    let front : List ℕ =
      0x16
      ∷ 3
      ∷ r.minor
      ∷ (size / 256 % 256)
      ∷ (size % 256)
      ∷ 1
      ∷ r.lengths.0
      ∷ r.lengths.1
      ∷ r.lengths.2
      ∷ r.version.0
      ∷ r.version.1
      ∷ [] in
    let lead = front ++ r.random in
    let e = be16 (length exts) ++ exts in
    let bytes = fields lead r.session_id r.cipher_suites r.compression_methods exts more in
    let data_len = length (encode_record r exts) in
    let regroup : encode_record r exts ++ more ≡ bytes =
      ap (λ l. front ++ l)
        (append_assoc (r.random ++ (s ++ (c ++ m))) e more ∙ flatten4 r.random s c m (e ++ more)) in
    let hello_len : length hello
        ≡ 6
          + 32
          + (1 + length r.session_id)
          + (2 + length r.cipher_suites)
          + (1 + length r.compression_methods) =
      omega (
        arith,
        length-append r.random (s ++ (c ++ m)),
        length-append r.session_id (c ++ m),
        length-append r.cipher_suites m,
      ) in
    let record_len : data_len ≡ size + 5 =
      omega (arith, length-append (r.random ++ (s ++ (c ++ m))) e) in
    let (first, rest) =
      fields_read lead r.session_id r.cipher_suites r.compression_methods exts more 3 r.minor ls lc
        lm (omega arith) in
    let at_exts =
      length lead
      + (1 + length r.session_id)
      + (2 + length r.cipher_suites)
      + (1 + length r.compression_methods)
      + 2 in
    let found : parse_extensions bytes at_exts (length exts) ≡ some (some host) =
      extensions_at lead s c m others host after more at_exts o h z n (omega arith) in
    let at43 : 43 ≡ length lead = omega arith in
    let at_eq : 43 + (1 + length r.session_id) ≡ length lead + (1 + length r.session_id) =
      omega arith in
    let size_eq : data_len ≡ at_exts + length exts = omega (arith, record_len, hello_len, at43) in
    ap (λ l. parse_tls_header l data_len) regroup
    ∙ (header_step bytes data_len r.minor size record_len refl refl refl (
          read16-append (0x16 ∷ 3 ∷ r.minor ∷ [])
            (1
              ∷ r.lengths.0
              ∷ r.lengths.1
              ∷ r.lengths.2
              ∷ r.version.0
              ∷ r.version.1
              ∷ (r.random ++ (s ++ (c ++ (m ++ (be16 (length exts) ++ (exts ++ more)))))))
            size 3 small refl)
        ∙ (hello_step bytes data_len 3 r.minor (length r.session_id) (omega arith) refl
              (ap (get_elem? bytes) at43 ∙ first)
            ∙ (ap (λ n'. parse_ciphers bytes n' 3 r.minor (43 + (1 + length r.session_id))) size_eq
                ∙ (ap (λ at. parse_ciphers bytes (at_exts + length exts) 3 r.minor at) at_eq
                    ∙ (rest ∙ found)))))
