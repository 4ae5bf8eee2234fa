-- ===== src/Tls/Safe.antt =====
-- The parser reads inside of its buffer and ends.
use nroxy.Prelude.{
  ℕ, zero, suc, ◌+◌, ◌*◌, ◌≤◌, ◌<◌, min, ◌≡◌, refl, Bool, true, false, ◌&&◌, ◌||◌, not, Option,
  none, some, List, [], ◌∷◌, arith, ltb, leb, ◌==◌, if◌then◌else◌, ltb→lt, ltb→le, leb→le, length,
  get_elem?, drop,
}
use nroxy.Tls.Defs.{
  ◌>>=◌, Name, read16, c_string, server_name, parse_server_name_extension, extensions,
  parse_extensions, parse_extension_block, parse_compression, parse_ciphers, parse_hello,
  parse_tls_header,
}

-- A host name has at most 255 bytes.
abbrev pub FitsName : Option Name → Type 0
FitsName none = ⊥
FitsName (some none) = Unit
FitsName (some (some name)) = length name ≤ 255

-- The proof follows the parser: one rule for each kind of step.
get_fits :
    (bytes : List ℕ) (i : ℕ) (f : ℕ → Option Name)
    → i < length bytes
    → ((a : ℕ) → FitsName (f a))
    → FitsName (get_elem? bytes i >>= f)
get_fits [] i f h k = absurd (omega arith)
get_fits (x ∷ bytes) zero f h k = k x
get_fits (x ∷ bytes) (suc i) f h k = get_fits bytes i f (omega arith) k

read16_fits :
    (bytes : List ℕ) (i : ℕ) (f : ℕ → Option Name)
    → i + 1 < length bytes
    → ((a : ℕ) → FitsName (f a))
    → FitsName (read16 bytes i >>= f)
read16_fits bytes i f h k = assoc (get_elem? bytes i) (get_elem? bytes (i + 1)) (
    get_fits bytes i (λ high. get_elem? bytes (i + 1) >>= λ low. f (256 * high + low)) (omega arith)
      (λ high.
        get_fits bytes (i + 1) (λ low. f (256 * high + low)) h (λ low. k (256 * high + low))))
  where
    assoc :
        (a b : Option ℕ)
        → FitsName (a >>= λ high. b >>= λ low. f (256 * high + low))
        → FitsName ((a >>= λ high. b >>= λ low. some (256 * high + low)) >>= f)
    assoc none b p = p
    assoc (some a) none p = p
    assoc (some a) (some b) p = p

if_fits :
    (b : Bool) (x : Option Name) → (b ≡ false → FitsName x) → FitsName (if b then some none else x)
if_fits true x k = tt
if_fits false x k = k refl

split_fits :
    (b : Bool) (x y : Option Name)
    → (b ≡ true → FitsName x)
    → (b ≡ false → FitsName y)
    → FitsName (elim b [ true ↦ x | false ↦ y ])
split_fits true x y k l = k refl
split_fits false x y k l = l refl

length-c_string : (n : ℕ) (bytes : List ℕ) → length (c_string n bytes) ≤ n
length-c_string zero bytes = omega arith
length-c_string (suc n) [] = omega arith
length-c_string (suc n) (b ∷ bytes) = ground (arith, length-c_string n bytes)

server_name_fits :
    (fuel : ℕ) (bytes : List ℕ) (base data_len at : ℕ)
    → base + data_len ≤ length bytes
    → 0 < fuel
    → data_len < fuel + at
    → FitsName (server_name fuel bytes base data_len at)
unfolding server_name
server_name_fits zero bytes base data_len at h p f = absurd (omega arith)
server_name_fits (suc fuel) bytes base data_len at h p f =
    split_fits (ltb (at + 3) data_len) _ _
      (λ inside. read16_fits bytes (base + at + 1) _ (omega (arith, ltb→lt _ _ inside)) λ len.
        if_fits (ltb data_len (at + 3 + len)) _ λ fits.
          get_fits bytes (base + at) _ (omega (arith, ltb→lt _ _ inside)) λ name_type.
            split_fits (name_type == 0) _ _
              (λ _. omega (arith, length-c_string (min len 255) (drop (base + at + 3) bytes)))
              (λ _.
                server_name_fits fuel bytes base data_len (at + (3 + len)) h
                  (omega (arith, ltb→lt _ _ inside)) (omega (arith, ltb→lt _ _ inside))))
      (λ _. tt)

extensions_fits :
    (fuel : ℕ) (bytes : List ℕ) (base data_len at : ℕ)
    → base + data_len ≤ length bytes
    → 0 < fuel
    → data_len < fuel + at
    → FitsName (extensions fuel bytes base data_len at)
unfolding extensions parse_server_name_extension
extensions_fits zero bytes base data_len at h p f = absurd (omega arith)
extensions_fits (suc fuel) bytes base data_len at h p f =
    split_fits (leb (at + 4) data_len) _ _
      (λ inside. read16_fits bytes (base + at + 2) _ (omega (arith, leb→le _ _ inside)) λ len.
        read16_fits bytes (base + at) _ (omega (arith, leb→le _ _ inside)) λ kind.
          split_fits (kind == 0) _ _
            (λ _. if_fits (ltb data_len (at + 4 + len)) _ λ fits.
              server_name_fits (suc len) bytes (base + at + 4) len 2
                (omega (arith, ltb→le _ _ fits)) (omega arith) (omega arith))
            (λ _.
              extensions_fits fuel bytes base data_len (at + (4 + len)) h
                (omega (arith, leb→le _ _ inside)) (omega (arith, leb→le _ _ inside))))
      (λ _. tt)

module _ (bytes : List ℕ) (data_len : ℕ) (inside : data_len ≤ length bytes) where
  block_fits : (at : ℕ) → FitsName (parse_extension_block bytes data_len at)
  unfolding parse_extension_block parse_extensions
  block_fits at = if_fits (ltb data_len (at + 2)) _ λ enough.
      read16_fits bytes at _ (omega (arith, ltb→le _ _ enough)) λ len.
        if_fits (ltb data_len (at + 2 + len)) _ λ fits.
          extensions_fits (suc len) bytes (at + 2) len 0 (omega (arith, ltb→le _ _ fits))
            (omega arith) (omega arith)

  compression_fits :
      (major minor at : ℕ) → FitsName (parse_compression bytes data_len major minor at)
  unfolding parse_compression
  compression_fits major minor at = if_fits (ltb data_len (at + 1)) _ λ enough.
      get_fits bytes at _ (omega (arith, ltb→le _ _ enough)) λ len.
        if_fits (at + (1 + len) == data_len && (major == 3 && minor == 0)) _
          λ _. block_fits (at + (1 + len))

  ciphers_fits : (major minor at : ℕ) → FitsName (parse_ciphers bytes data_len major minor at)
  unfolding parse_ciphers
  ciphers_fits major minor at = if_fits (ltb data_len (at + 2)) _ λ enough.
      read16_fits bytes at _ (omega (arith, ltb→le _ _ enough))
        λ len. compression_fits major minor (at + (2 + len))

  hello_fits : (major minor : ℕ) → FitsName (parse_hello bytes data_len major minor)
  unfolding parse_hello
  hello_fits major minor = if_fits (ltb data_len 6) _ λ enough.
      get_fits bytes 5 _ (omega (arith, ltb→le _ _ enough)) λ kind.
        if_fits (not (kind == 1) || ltb data_len 44) _ λ long.
          get_fits bytes 43 _ (ground arith) λ len. ciphers_fits major minor (43 + (1 + len))

-- On any bytes, of which at least `data_len` are there, the parser reads inside of them, its loops
-- end within their fuel, and a host name that it stores has at most 255 bytes.
pub parse_tls_header_safe :
    (bytes : List ℕ) (data_len : ℕ)
    → data_len ≤ length bytes
    → FitsName (parse_tls_header bytes data_len)
unfolding parse_tls_header
parse_tls_header_safe bytes data_len inside = if_fits (ltb data_len 5) _ λ enough.
    get_fits bytes 0 _ (omega (arith, ltb→le _ _ enough)) λ content_type.
      get_fits bytes 1 _ (omega (arith, ltb→le _ _ enough)) λ major.
        get_fits bytes 2 _ (omega (arith, ltb→le _ _ enough)) λ minor.
          read16_fits bytes 3 _ (omega (arith, ltb→le _ _ enough)) λ record_len.
            let rest = parse_hello bytes (min data_len (record_len + 5)) major minor in
            let short = ltb (min data_len (record_len + 5)) (record_len + 5) in
            let foreign =
              (leb 128 content_type && minor == 1) || (not (content_type == 0x16) || ltb major 3) in
            if_fits foreign (if short then some none else rest) λ _.
              if_fits short rest
                λ _. hello_fits bytes (min data_len (record_len + 5)) (omega arith) major minor
