-- ===== src/Util/Text/Hex.antt =====
-- The text that `hex` of tun2http/util.c writes, read by its `hex2bytes`.
use nroxy.Prelude.{
  ℕ, ◌/◌, ◌%◌, ◌<◌, bit_and, ◌≡◌, refl, ap, ◌∙◌, false, List, [], ◌∷◌, arith, ◌==◌, if◌then◌else◌,
  ==→eq, IsBytes,
}
use nroxy.Net.Bytes.{byte_at}
use nroxy.Util.Text.{hex_str, hex}
use nroxy.Ip.Uid.{hex2bytes}
use nroxy.Ip.Uid.Finds.{hex_digit, hex_text, all_below-true, hex2bytes-hex_text}

abbrev pub without_spaces : List ℕ → List ℕ
without_spaces [] = []
without_spaces (c ∷ str) = let rest = without_spaces str in if c == 32 then rest else c ∷ rest

digits :
    (b : ℕ)
    → b < 256
    → (byte_at hex_str (bit_and (b / 16) 15) ≡ hex_digit (b / 16))
      × (byte_at hex_str (bit_and b 15) ≡ hex_digit (b % 16))
digits b h = (
  ==→eq _ _ (
      all_below-true 256 (λ i. byte_at hex_str (bit_and (i / 16) 15) == hex_digit (i / 16)) b refl
        h),
  ==→eq _ _
      (all_below-true 256 (λ i. byte_at hex_str (bit_and i 15) == hex_digit (i % 16)) b refl h),
)

without_spaces-hex : (data' : List ℕ) → IsBytes data' → without_spaces (hex data') ≡ hex_text data'
unfolding hex
without_spaces-hex [] h = refl
without_spaces-hex (b ∷ data') h =
    let (high, low) = digits b h.0 in
    let high_digit : (hex_digit (b / 16) == 32) ≡ false = ground arith in
    let low_digit : (hex_digit (b % 16) == 32) ≡ false = ground arith in
    rw (high, low, high_digit, low_digit)
      (ap (λ l. hex_digit (b / 16) ∷ hex_digit (b % 16) ∷ l) (without_spaces-hex data' h.1))

-- What `hex` writes for some bytes, without its spaces, is read back by `hex2bytes` as these bytes.
pub hex2bytes-hex :
    (data' : List ℕ) → IsBytes data' → hex2bytes (without_spaces (hex data')) ≡ data'
hex2bytes-hex data' h = ap hex2bytes (without_spaces-hex data' h) ∙ hex2bytes-hex_text data' h
