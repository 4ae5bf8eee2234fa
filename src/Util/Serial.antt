-- ===== src/Util/Serial.antt =====
-- `compare_u32` of tun2http/util.c, the comparison of TCP sequence numbers.
use nroxy.Prelude.{
  ℕ, ◌+◌, ◌-◌, ◌/◌, ◌≤◌, ◌<◌, ◌≡◌, ◌≢◌, Bool, true, ◌&&◌, ◌||◌, arith, ltb, ◌==◌, if◌then◌else◌,
  sub_u32,
}
use nroxy.Prelude.Int.{ℤ, pos, negsuc, ltb_ℤ}

-- A `uint32_t` assigned to an `int`.
abbrev pub signed : ℕ → ℤ
signed w = if ltb w 2147483648 then pos w else negsuc (4294967295 - w)

-- The differences of two `int` wrap, as two's complement subtraction does.
unfoldable pub compare_u32 : ℕ → ℕ → ℤ
compare_u32 s1 s2 =
    let i1 = signed s1 in
    let i2 = signed s2 in
    if s1 == s2
    then pos 0
    else if (ltb_ℤ i1 i2 && ltb_ℤ (signed (sub_u32 s2 s1)) (pos 0x7FFFFFFF))
        || (ltb_ℤ i2 i1 && ltb_ℤ (pos 0x7FFFFFFF) (signed (sub_u32 s1 s2)))
    then negsuc 0
    else pos 1

-- The order of RFC 1982, which the code cites: `a` comes before `b`.
abbrev pub serial_lt : ℕ → ℕ → Bool
serial_lt a b = (ltb a b && ltb (b - a) 2147483648) || (ltb b a && ltb 2147483648 (a - b))

-- Two numbers in one half of their range are compared in the order of RFC 1982, where the first is not
-- exactly 2 ^ 31 - 1 before the second.
pub compare_u32_same_half :
    (a b : ℕ)
    → a < 4294967296
    → b < 4294967296
    → a / 2147483648 ≡ b / 2147483648
    → a + 2147483647 ≢ b
    → compare_u32 a b ≡ (if a == b then pos 0 else if serial_lt a b then negsuc 0 else pos 1)
unfolding compare_u32
compare_u32_same_half a b ha hb s d = ground arith

-- Across the middle of the range the comparison is the wrong way round: a number below 2 ^ 31 comes
-- before one above, less than 2 ^ 31 away, and the code says that it comes after.
pub compare_u32_across :
    (a b : ℕ)
    → a < 2147483648
    → 2147483648 ≤ b
    → b < a + 2147483648
    → (serial_lt a b ≡ true) × (compare_u32 a b ≡ pos 1) × (compare_u32 b a ≡ negsuc 0)
unfolding compare_u32
compare_u32_across a b ha hb d = ground arith
