-- ===== src/Net/Bytes.antt =====
-- Reading and writing fields of packets. A read behind the end of the buffer, which C does not
-- define, yields 0 here: a theorem about a packet states that it is long enough where that matters.
use nroxy.Prelude.{
  ℕ, ◌+◌, ◌*◌, ◌/◌, ◌%◌, ◌≡◌, refl, Bool, true, false, ◌&&◌, List, [], ◌∷◌, arith, ◌==◌, get_or,
  take, drop,
}

abbrev pub byte_at : List ℕ → ℕ → ℕ
byte_at bytes i = get_or bytes i 0

-- `ntohs` and `ntohl` of the two or four bytes at an offset.
abbrev pub be16_at : List ℕ → ℕ → ℕ
be16_at bytes i = 256 * byte_at bytes i + byte_at bytes (i + 1)

abbrev pub be32_at : List ℕ → ℕ → ℕ
be32_at bytes i = 65536 * be16_at bytes i + be16_at bytes (i + 2)

abbrev pub be16 : ℕ → List ℕ
be16 n = (n / 256 % 256) ∷ (n % 256) ∷ []

abbrev pub be32 : ℕ → List ℕ
be32 n = (n / 16777216 % 256) ∷ (n / 65536 % 256) ∷ (n / 256 % 256) ∷ (n % 256) ∷ []

-- A `uint16_t` stored without a conversion, on the little-endian targets.
abbrev pub le16 : ℕ → List ℕ
le16 n = (n % 256) ∷ (n / 256 % 256) ∷ []

abbrev pub slice : List ℕ → ℕ → ℕ → List ℕ
slice bytes off n = take n (drop off bytes)

-- `memcmp(a, b, n) == 0` of two fields of one size, and `strcmp` of two texts.
abbrev pub bytes_eq : List ℕ → List ℕ → Bool
bytes_eq [] [] = true
bytes_eq (a ∷ as') (b ∷ bs) = a == b && bytes_eq as' bs
bytes_eq _ _ = false

pub bytes_eq_refl : (a : List ℕ) → bytes_eq a a ≡ true
bytes_eq_refl [] = refl
bytes_eq_refl (a ∷ as') = ground (arith, bytes_eq_refl as')

pub bytes_eq→eq : (a b : List ℕ) → bytes_eq a b ≡ true → a ≡ b
bytes_eq→eq [] [] h = refl
bytes_eq→eq [] (b ∷ bs) h = cc
bytes_eq→eq (a ∷ as') [] h = cc
bytes_eq→eq (a ∷ as') (b ∷ bs) h = ground (arith, bytes_eq→eq as' bs)
