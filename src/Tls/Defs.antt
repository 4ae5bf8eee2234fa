-- ===== src/Tls/Defs.antt =====
-- The parser of tun2http/tls.c. `none` is a read outside of the buffer, or a loop that does not end
-- within its fuel; `char` is unsigned, as on the arm64 targets.
use nroxy.Prelude.{
  ℕ, zero, suc, ◌+◌, ◌*◌, min, true, false, ◌&&◌, ◌||◌, not, Option, none, some, List, [], ◌∷◌, ltb,
  leb, ◌==◌, if◌then◌else◌, get_elem?, drop,
}

infixl 5 ◌>>=◌
abbrev pub ◌>>=◌ {ℓ κ} : {A : Type ℓ} {B : Type κ} → Option A → (A → Option B) → Option B
none >>= f = none
some a >>= f = f a

-- The big-endian number of two bytes.
abbrev pub read16 : List ℕ → ℕ → Option ℕ
read16 bytes at = do
  high ← get_elem? bytes at
  low ← get_elem? bytes (at + 1)
  some (256 * high + low)

-- `strncpy` of so many bytes and the terminating zero: the string ends at the first zero.
abbrev pub c_string : ℕ → List ℕ → List ℕ
c_string zero bytes = []
c_string (suc n) [] = []
c_string (suc n) (b ∷ bytes) = if b == 0 then [] else b ∷ c_string n bytes

-- The inner result is the host name, if one is stored.
abbrev pub Name : Type 0
Name = Option (List ℕ)

-- `base` is the place of `data` in the buffer.
unfoldable pub server_name : ℕ → List ℕ → ℕ → ℕ → ℕ → Option Name
server_name zero bytes base data_len at = none
server_name (suc fuel) bytes base data_len at = elim (ltb (at + 3) data_len) [
  | false ↦ some none
  | true ↦ (do
    len ← read16 bytes (base + at + 1)
    if ltb data_len (at + 3 + len) then some none else (do
      name_type ← get_elem? bytes (base + at)
      elim (name_type == 0) [
        | true ↦ some (some (c_string (min len 255) (drop (base + at + 3) bytes)))
        | false ↦ server_name fuel bytes base data_len (at + (3 + len))
      ]))
]

unfoldable pub parse_server_name_extension : List ℕ → ℕ → ℕ → Option Name
unfolding server_name
parse_server_name_extension bytes base data_len = server_name (suc data_len) bytes base data_len 2

unfoldable pub extensions : ℕ → List ℕ → ℕ → ℕ → ℕ → Option Name
unfolding parse_server_name_extension
extensions zero bytes base data_len at = none
extensions (suc fuel) bytes base data_len at = elim (leb (at + 4) data_len) [
  | false ↦ some none
  | true ↦ (do
    len ← read16 bytes (base + at + 2)
    kind ← read16 bytes (base + at)
    elim (kind == 0) [
      | true ↦
          (if ltb data_len (at + 4 + len)
            then some none
            else parse_server_name_extension bytes (base + at + 4) len)
      | false ↦ extensions fuel bytes base data_len (at + (4 + len))
    ])
]

unfoldable pub parse_extensions : List ℕ → ℕ → ℕ → Option Name
unfolding extensions
parse_extensions bytes base data_len = extensions (suc data_len) bytes base data_len 0

-- The walk over the variable fields of the hello, from the session's id.
unfoldable pub parse_extension_block : List ℕ → ℕ → ℕ → Option Name
unfolding parse_extensions
parse_extension_block bytes data_len at = if ltb data_len (at + 2) then some none else (do
  len ← read16 bytes at
  if ltb data_len (at + 2 + len) then some none else parse_extensions bytes (at + 2) len)

unfoldable pub parse_compression : List ℕ → ℕ → ℕ → ℕ → ℕ → Option Name
unfolding parse_extension_block
parse_compression bytes data_len major minor at = if ltb data_len (at + 1) then some none else (do
  len ← get_elem? bytes at
  let next = at + (1 + len)
  if next == data_len && (major == 3 && minor == 0)
      then some none
      else parse_extension_block bytes data_len next)

unfoldable pub parse_ciphers : List ℕ → ℕ → ℕ → ℕ → ℕ → Option Name
unfolding parse_compression
parse_ciphers bytes data_len major minor at =
    if ltb data_len (at + 2)
    then some none
    else (do len ← read16 bytes at; parse_compression bytes data_len major minor (at + (2 + len)))

unfoldable pub parse_hello : List ℕ → ℕ → ℕ → ℕ → Option Name
unfolding parse_ciphers
parse_hello bytes data_len major minor = if ltb data_len 6 then some none else (do
  kind ← get_elem? bytes 5
  if not (kind == 1) || ltb data_len 44
      then some none
      else (do len ← get_elem? bytes 43; parse_ciphers bytes data_len major minor (43 + (1 + len))))

unfoldable pub parse_tls_header : List ℕ → ℕ → Option Name
unfolding parse_hello
parse_tls_header bytes data_len = if ltb data_len 5 then some none else (do
  content_type ← get_elem? bytes 0
  major ← get_elem? bytes 1
  minor ← get_elem? bytes 2
  record_len ← read16 bytes 3
  if (leb 128 content_type && minor == 1) || (not (content_type == 0x16) || ltb major 3)
      then some none
      else if ltb (min data_len (record_len + 5)) (record_len + 5)
      then some none
      else parse_hello bytes (min data_len (record_len + 5)) major minor)
