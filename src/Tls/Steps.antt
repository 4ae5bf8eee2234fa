-- ===== src/Tls/Steps.antt =====
-- The steps of the parser of tun2http/tls.c where the bytes that it reads are known.
use nroxy.Prelude.{
  ℕ, zero, suc, ◌+◌, ◌≤◌, ◌<◌, min, ◌≡◌, refl, sym, ap, ◌∙◌, some, List, [], ◌∷◌, ◌++◌, arith,
  length, get_elem?, length-append, drop, All,
}
use nroxy.Net.Bytes.{be16}
use nroxy.Net.Sums.{append_assoc}
use nroxy.Tls.Defs.{
  read16, c_string, server_name, parse_server_name_extension, extensions, parse_extensions,
  parse_extension_block, parse_compression, parse_ciphers, parse_hello, parse_tls_header,
}

pub get-append :
    (before rest : List ℕ) (i n : ℕ)
    → n ≡ length before + i
    → get_elem? (before ++ rest) n ≡ get_elem? rest i
get-append [] rest i n e = ap (get_elem? rest) (omega arith)
get-append (x ∷ before) rest i zero e = absurd (omega arith)
get-append (x ∷ before) rest i (suc n) e = get-append before rest i n (omega arith)

drop-append_at : (before rest : List ℕ) (n : ℕ) → n ≡ length before → drop n (before ++ rest) ≡ rest
drop-append_at [] rest zero e = refl
drop-append_at [] rest (suc n) e = absurd (omega arith)
drop-append_at (x ∷ before) rest zero e = absurd (omega arith)
drop-append_at (x ∷ before) rest (suc n) e = drop-append_at before rest n (omega arith)

pub read16-append :
    (before rest : List ℕ) (n at : ℕ)
    → n < 65536
    → at ≡ length before
    → read16 (before ++ (be16 n ++ rest)) at ≡ some n
read16-append before rest n at small e =
    rw
      (
        get-append before (be16 n ++ rest) 0 at (omega arith),
        get-append before (be16 n ++ rest) 1 (at + 1) (omega arith),
      )
      (ap some (omega arith))

-- Bytes of a host name, none of them zero.
abbrev pub IsText : List ℕ → Type 0
IsText = All (λ b. 0 < b)

c_string-text : (host rest : List ℕ) → IsText host → c_string (length host) (host ++ rest) ≡ host
c_string-text [] rest h = refl
c_string-text (b ∷ host) rest h = ground (arith, c_string-text host rest h.1)

pub read16-skip :
    (before rest : List ℕ) (i n : ℕ)
    → n ≡ length before + i
    → read16 (before ++ rest) n ≡ read16 rest i
read16-skip before rest i n e =
    rw (get-append before rest i n e, get-append before rest (i + 1) (n + 1) (omega arith)) refl

-- The steps of the parser, where the bytes that it reads are known.
module _ (bytes : List ℕ) where
  name_step :
      (fuel base data_len at len : ℕ)
      → at + 3 < data_len
      → at + 3 + len ≤ data_len
      → read16 bytes (base + at + 1) ≡ some len
      → get_elem? bytes (base + at) ≡ some 0
      → server_name (suc fuel) bytes base data_len at
        ≡ some (some (c_string (min len 255) (drop (base + at + 3) bytes)))
  unfolding server_name
  name_step fuel base data_len at len a b r g = ground arith

  pub other_step :
      (fuel base data_len at len kind : ℕ)
      → at + 4 ≤ data_len
      → 0 < kind
      → read16 bytes (base + at + 2) ≡ some len
      → read16 bytes (base + at) ≡ some kind
      → extensions (suc fuel) bytes base data_len at
        ≡ extensions fuel bytes base data_len (at + (4 + len))
  unfolding extensions
  other_step fuel base data_len at len kind a z r g = ground arith

  pub sni_step :
      (fuel base data_len at len : ℕ)
      → at + 4 + len ≤ data_len
      → read16 bytes (base + at + 2) ≡ some len
      → read16 bytes (base + at) ≡ some 0
      → extensions (suc fuel) bytes base data_len at
        ≡ parse_server_name_extension bytes (base + at + 4) len
  unfolding extensions
  sni_step fuel base data_len at len a r g = ground arith

  pub block_step :
      (data_len at len : ℕ)
      → at + 2 + len ≤ data_len
      → read16 bytes at ≡ some len
      → parse_extension_block bytes data_len at ≡ parse_extensions bytes (at + 2) len
  unfolding parse_extension_block
  block_step data_len at len a r = ground arith

  pub compression_step :
      (data_len major minor at len : ℕ)
      → at + (1 + len) < data_len
      → get_elem? bytes at ≡ some len
      → parse_compression bytes data_len major minor at
        ≡ parse_extension_block bytes data_len (at + (1 + len))
  unfolding parse_compression
  compression_step data_len major minor at len a r = ground arith

  pub ciphers_step :
      (data_len major minor at len : ℕ)
      → at + 2 ≤ data_len
      → read16 bytes at ≡ some len
      → parse_ciphers bytes data_len major minor at
        ≡ parse_compression bytes data_len major minor (at + (2 + len))
  unfolding parse_ciphers
  ciphers_step data_len major minor at len a r = ground arith

  pub hello_step :
      (data_len major minor len : ℕ)
      → 44 ≤ data_len
      → get_elem? bytes 5 ≡ some 1
      → get_elem? bytes 43 ≡ some len
      → parse_hello bytes data_len major minor
        ≡ parse_ciphers bytes data_len major minor (43 + (1 + len))
  unfolding parse_hello
  hello_step data_len major minor len a k r = ground arith

  pub header_step :
      (data_len minor len : ℕ)
      → data_len ≡ len + 5
      → get_elem? bytes 0 ≡ some 0x16
      → get_elem? bytes 1 ≡ some 3
      → get_elem? bytes 2 ≡ some minor
      → read16 bytes 3 ≡ some len
      → parse_tls_header bytes data_len ≡ parse_hello bytes data_len 3 minor
  unfolding parse_tls_header
  header_step data_len minor len a t major mi r = ground arith

-- RFC 6066: the list of one host name, with its length and its type in front.
abbrev pub name_list : List ℕ → List ℕ
name_list host = be16 (3 + length host) ++ (0 ∷ be16 (length host) ++ host)

-- The extension is read.
pub server_name_reads :
    (before host after : List ℕ) (fuel base data_len : ℕ)
    → IsText host
    → 0 < length host
    → length host < 256
    → base ≡ length before
    → data_len ≡ 5 + length host
    → server_name (suc fuel) (before ++ (name_list host ++ after)) base data_len 2
      ≡ some (some host)
server_name_reads before host after fuel base data_len h z n b d =
    let listed = name_list host ++ after in
    let rest = host ++ after in
    name_step (before ++ listed) fuel base data_len 2 (length host) (omega arith) (omega arith)
      (read16-skip before listed 3 (base + 2 + 1) (omega arith)
        ∙ read16-append (be16 (3 + length host) ++ (0 ∷ [])) rest (length host) 3 (omega arith)
            refl)
      (get-append before listed 2 (base + 2) (omega arith))
    ∙ ap (λ s. some (some s))
        (ap (λ m. c_string m (drop (base + 2 + 3) (before ++ listed))) (omega arith)
          ∙ (ap (c_string (length host)) (
                ap (drop (base + 2 + 3)) (
                  sym
                    (append_assoc before (be16 (3 + length host) ++ (0 ∷ be16 (length host))) rest))
                ∙ drop-append_at (before ++ (be16 (3 + length host) ++ (0 ∷ be16 (length host))))
                    rest (base + 2 + 3)
                    (omega (
                      arith,
                      length-append before (be16 (3 + length host) ++ (0 ∷ be16 (length host))),
                    )))
              ∙ c_string-text host after h))
