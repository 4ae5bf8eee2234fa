-- ===== src/Net/Slices.antt =====
-- Reading and cutting lists that are put together from parts.
use nroxy.Prelude.{ℕ, zero, suc, ◌+◌, ◌≡◌, refl, ap, List, [], ◌∷◌, ◌++◌, arith, length, take, drop}
use nroxy.Net.Bytes.{byte_at}

pub byte_at-append :
    (before rest : List ℕ) (i n : ℕ)
    → n ≡ length before + i
    → byte_at (before ++ rest) n ≡ byte_at rest i
byte_at-append [] rest i n e = ap (byte_at rest) (omega arith)
byte_at-append (x ∷ before) rest i zero e = absurd (omega arith)
byte_at-append (x ∷ before) rest i (suc n) e = byte_at-append before rest i n (omega arith)

pub drop-append_more :
    (before rest : List ℕ) (i n : ℕ) → n ≡ length before + i → drop n (before ++ rest) ≡ drop i rest
drop-append_more [] rest i n e = ap (λ m. drop m rest) (omega arith)
drop-append_more (x ∷ before) rest i zero e = absurd (omega arith)
drop-append_more (x ∷ before) rest i (suc n) e = drop-append_more before rest i n (omega arith)

pub take-append : (a b : List ℕ) → take (length a) (a ++ b) ≡ a
take-append [] b = refl
take-append (x ∷ a) b = ap (λ l. x ∷ l) (take-append a b)

pub take-length : (a : List ℕ) → take (length a) a ≡ a
take-length [] = refl
take-length (x ∷ a) = ap (λ l. x ∷ l) (take-length a)

pub append_nil : (a : List ℕ) → a ++ [] ≡ a
append_nil [] = refl
append_nil (x ∷ a) = ap (λ l. x ∷ l) (append_nil a)
