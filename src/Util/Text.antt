-- ===== src/Util/Text.antt =====
-- `trim` and `hex` of tun2http/util.c. A text is what stands before its zero.
pub mod Hex
pub mod Trims
use nroxy.Prelude.{
  ℕ, zero, suc, ◌+◌, ◌-◌, ◌/◌, bit_and, Bool, ◌&&◌, ◌||◌, List, [], ◌∷◌, leb, ◌==◌, if◌then◌else◌,
  length, take, codes,
}
use nroxy.Net.Bytes.{byte_at}

-- `isspace`
abbrev pub is_space : ℕ → Bool
is_space c = c == 32 || leb 9 c && leb c 13

-- The first loop of `trim`.
unfoldable pub skip_spaces : List ℕ → List ℕ
skip_spaces [] = []
skip_spaces (c ∷ str) = if is_space c then skip_spaces str else c ∷ str

-- The second, from `end` on, as a place in the text.
unfoldable pub trim_end : List ℕ → ℕ → ℕ
trim_end str zero = zero
trim_end str (suc end') =
    let before = trim_end str end' in if is_space (byte_at str (suc end')) then before else suc end'

unfoldable pub trim : List ℕ → List ℕ
unfolding skip_spaces trim_end
trim str =
    let rest = skip_spaces str in
    if length rest == 0 then [] else take (trim_end rest (length rest - 1) + 1) rest

abbrev pub hex_str : List ℕ
hex_str = codes "0123456789ABCDEF"

unfoldable pub hex : List ℕ → List ℕ
hex [] = []
hex (b ∷ data') =
    byte_at hex_str (bit_and (b / 16) 15) ∷ byte_at hex_str (bit_and b 15) ∷ b' ' ∷ hex data'
