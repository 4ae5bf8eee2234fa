-- ===== src/Ip/Uid/Finds.antt =====
-- What `get_uid_sub` of tun2http/ip.c finds, and how it reads an address.
use nroxy.Prelude.{
  ℕ, zero, suc, ◌+◌, ◌*◌, ◌/◌, ◌%◌, ◌<◌, bit_or, ◌≡◌, refl, ap, inl, inr, Bool, true, ◌&&◌, Option,
  none, some, List, [], ◌∷◌, arith, ltb, ◌==◌, if◌then◌else◌, ==→eq, ==→ne, Bool-cases, u8, IsBytes,
}
use nroxy.Prelude.Int.{ℤ}
use nroxy.Ip.Uid.{
  char2nible, hex2bytes, swap_words, Fields, Wanted, is_port_of, is_connection_of, scan_lines,
}

-- The owner by the first line of the very connection.
abbrev pub first_owner : Wanted → List Fields → Option ℤ
first_owner q [] = none
first_owner q (f ∷ rest) =
    if is_port_of q f && is_connection_of q f then some f.uid else first_owner q rest

-- The owner by the last line with the port, if there is one.
abbrev pub last_port : Wanted → List Fields → ℤ → ℤ
last_port q [] uid = uid
last_port q (f ∷ rest) uid = last_port q rest (if is_port_of q f then f.uid else uid)

abbrev pub owner_or : Option ℤ → ℤ → ℤ
owner_or none other = other
owner_or (some owner) other = owner

-- A table is searched in one pass: the owner is that of the first line of the connection itself, or,
-- if there is none, that of the last line with its port, or what was found before.
pub scan_lines_finds :
    (q : Wanted) (lines : List Fields) (uid : ℤ)
    → scan_lines q lines uid ≡ owner_or (first_owner q lines) (last_port q lines uid)
unfolding scan_lines
scan_lines_finds q [] uid = refl
scan_lines_finds q (f ∷ rest) uid = elim (Bool-cases (is_port_of q f)) [
  | inr other ↦ rw (other, scan_lines) (scan_lines_finds q rest uid)
  | inl port ↦ elim (Bool-cases (is_connection_of q f)) [
    | inl own ↦ rw (port, own, scan_lines) refl
    | inr near ↦ rw (port, near, scan_lines) (scan_lines_finds q rest f.uid)
  ]
]

-- The digits in which the kernel writes a byte, and the text of some bytes.
abbrev pub hex_digit : ℕ → ℕ
hex_digit n = if ltb n 10 then 48 + n else 55 + n

abbrev pub hex_text : List ℕ → List ℕ
hex_text [] = []
hex_text (b ∷ bytes) = hex_digit (b / 16) ∷ hex_digit (b % 16) ∷ hex_text bytes

nible_of_digit : (n : ℕ) → n < 16 → char2nible (hex_digit n) ≡ n
unfolding char2nible
nible_of_digit n h = ground arith

abbrev pub all_below : ℕ → (ℕ → Bool) → Bool
all_below zero p = true
all_below (suc n) p = p n && all_below n p

pub all_below-true : (n : ℕ) (p : ℕ → Bool) (i : ℕ) → all_below n p ≡ true → i < n → p i ≡ true
all_below-true zero p i h lt = absurd (omega arith)
all_below-true (suc n) p i h lt = elim (Bool-cases (i == n)) [
  | inl e ↦ rw (==→eq i n e) (ground (arith, h))
  | inr e ↦ all_below-true n p i (ground (arith, h)) (omega (arith, ==→ne i n e))
]

bits_checked : all_below 256 (λ b. u8 (bit_or (b / 16 * 16) (b % 16)) == b) ≡ true
bits_checked = refl

byte_of_nibles : (b : ℕ) → b < 256 → u8 (bit_or (b / 16 * 16) (b % 16)) ≡ b
byte_of_nibles b h =
    ==→eq (u8 (bit_or (b / 16 * 16) (b % 16))) b
      (all_below-true 256 (λ b. u8 (bit_or (b / 16 * 16) (b % 16)) == b) b bits_checked h)

pub hex2bytes-hex_text : (bytes : List ℕ) → IsBytes bytes → hex2bytes (hex_text bytes) ≡ bytes
unfolding hex2bytes
hex2bytes-hex_text [] h = refl
hex2bytes-hex_text (b ∷ bytes) h =
    rw
      (
        nible_of_digit (b / 16) (omega (arith, h.0)),
        nible_of_digit (b % 16) (omega arith),
        byte_of_nibles b h.0,
      )
      (ap (λ l. b ∷ l) (hex2bytes-hex_text bytes h.1))

swap-swap : (bytes : List ℕ) → swap_words (swap_words bytes) ≡ bytes
unfolding swap_words
swap-swap (a ∷ b ∷ c ∷ d ∷ bytes) = ap (λ l. a ∷ b ∷ c ∷ d ∷ l) (swap-swap bytes)
swap-swap (a ∷ b ∷ c ∷ []) = refl
swap-swap (a ∷ b ∷ []) = refl
swap-swap (a ∷ []) = refl
swap-swap [] = refl

swap-IsBytes : (bytes : List ℕ) → IsBytes bytes → IsBytes (swap_words bytes)
unfolding swap_words
swap-IsBytes (a ∷ b ∷ c ∷ d ∷ bytes) (ha, (hb, (hc, (hd, h)))) =
    (hd, (hc, (hb, (ha, swap-IsBytes bytes h))))
swap-IsBytes (a ∷ b ∷ c ∷ []) h = h
swap-IsBytes (a ∷ b ∷ []) h = h
swap-IsBytes (a ∷ []) h = h
swap-IsBytes [] h = h

-- An address is read as it was written: the text that the kernel writes of the words of an address, as
-- numbers of a little-endian machine in hexadecimal digits, yields the bytes of the address.
pub hex_address_reads :
    (address : List ℕ)
    → IsBytes address
    → swap_words (hex2bytes (hex_text (swap_words address))) ≡ address
hex_address_reads address h =
    rw (hex2bytes-hex_text (swap_words address) (swap-IsBytes address h)) (swap-swap address)
