-- ===== src/Prelude/Words.antt =====
-- Machine words as native numbers, bytes, and predicates over all elements of a list.
use Prim.Native.Nat.{ℕ, ◌+◌, ◌-◌, ◌%◌, ◌<◌}
use mathlib.Core.List.{List, [], ◌∷◌, ◌++◌}

-- A value converted to an unsigned type keeps its low bits.
abbrev pub u8 : ℕ → ℕ
u8 n = n % 256

abbrev pub u16 : ℕ → ℕ
u16 n = n % 65536

abbrev pub u32 : ℕ → ℕ
u32 n = n % 4294967296

-- `a - b` of two `uint32_t`.
abbrev pub sub_u32 : ℕ → ℕ → ℕ
sub_u32 a b = (a + 4294967296 - b) % 4294967296

-- A predicate by recursion, which the tactics read as a tuple.
abbrev pub All {ℓ κ} : {A : Type ℓ} → (A → Type κ) → List A → Type κ
All P [] = Unit
All P (x ∷ xs) = P x × All P xs

abbrev pub IsBytes : List ℕ → Type 0
IsBytes = All (λ b. b < 256)

pub All-append {ℓ κ} :
    {A : Type ℓ} (P : A → Type κ) (xs ys : List A) → All P xs → All P ys → All P (xs ++ ys)
All-append P [] ys hx hy = hy
All-append P (x ∷ xs) ys hx hy = (hx.0, All-append P xs ys hx.1 hy)
