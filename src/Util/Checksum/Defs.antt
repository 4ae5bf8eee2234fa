-- ===== src/Util/Checksum/Defs.antt =====
-- `calc_checksum` of tun2http/util.c. A 16-bit word is loaded as the little-endian targets load it.
use nroxy.Prelude.{
  ℕ, zero, suc, ◌+◌, ◌-◌, ◌*◌, ◌/◌, ◌%◌, true, false, List, [], ◌∷◌, ◌==◌, u16, u32,
}

-- The two summing loops, with the `uint32_t` sum wrapping.
unfoldable pub add_words : ℕ → List ℕ → ℕ
add_words sum [] = sum
add_words sum (last ∷ []) = u32 (sum + last)
add_words sum (low ∷ high ∷ rest) = add_words (u32 (sum + (low + 256 * high))) rest

-- `while (sum >> 16)`, on fuel.
unfoldable pub fold_carries : ℕ → ℕ → ℕ
fold_carries zero sum = sum
fold_carries (suc fuel) sum = elim (sum / 65536 == 0) [
  | true ↦ sum
  | false ↦ fold_carries fuel (u32 (sum % 65536 + sum / 65536))
]

-- Three rounds are enough for a 32-bit sum.
unfoldable pub calc_checksum : ℕ → List ℕ → ℕ
unfolding add_words fold_carries
calc_checksum start buffer = u16 (fold_carries 3 (add_words start buffer))

-- `~x` stored in a `uint16_t`.
abbrev pub complement : ℕ → ℕ
complement x = 65535 - x
