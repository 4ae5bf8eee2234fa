-- ===== src/Util/Checksum/Law.antt =====
-- What `calc_checksum` computes: the one's complement sum of the words of the buffer.
use nroxy.Prelude.{
  ℕ, ◌+◌, ◌-◌, ◌*◌, ◌/◌, ◌%◌, ◌≤◌, ◌<◌, ◌≡◌, ap, ◌∙◌, List, [], ◌∷◌, ◌++◌, arith, ◌==◌,
  if◌then◌else◌, length, length-append, u32, IsBytes, All-append,
}
use nroxy.Util.Checksum.Defs.{add_words, fold_carries, calc_checksum, complement}

-- The sum of the words, with no bound on its size.
abbrev pub total : List ℕ → ℕ
total [] = 0
total (last ∷ []) = last
total (low ∷ high ∷ rest) = low + 256 * high + total rest

-- The representative of a sum modulo 65535 that end-around carries reach.
unfoldable pub ones_complement : ℕ → ℕ
ones_complement sum = if sum == 0 then 0 else (sum - 1) % 65535 + 1

pub add_words-total :
    (sum : ℕ) (buffer : List ℕ)
    → IsBytes buffer
    → sum + 65536 * length buffer < 4294967296
    → add_words sum buffer ≡ sum + total buffer
unfolding add_words
add_words-total sum [] h b = omega arith
add_words-total sum (last ∷ []) h b = omega arith
add_words-total sum (low ∷ high ∷ rest) (l, (h, r)) b =
    omega (arith, add_words-total (u32 (sum + (low + 256 * high))) rest r (omega arith))

pub total_bound : (buffer : List ℕ) → IsBytes buffer → total buffer ≤ 65536 * length buffer
total_bound [] h = omega arith
total_bound (last ∷ []) h = omega arith
total_bound (low ∷ high ∷ rest) (l, (h, r)) = omega (arith, total_bound rest r)

fold_carries_lem : (sum : ℕ) → sum < 4294967296 → fold_carries 3 sum ≡ ones_complement sum
unfolding fold_carries ones_complement
fold_carries_lem sum h = ground arith

pub ones_complement-lt : (sum : ℕ) → ones_complement sum < 65536
unfolding ones_complement
ones_complement-lt sum = ground arith

-- From a 16-bit start and a buffer of at most 65534 bytes, the checksum is the one's complement
-- sum of the start and the 16-bit words, an odd last byte counting as a word.
pub calc_checksum-ones_complement :
    (start : ℕ) (buffer : List ℕ)
    → start < 65536
    → IsBytes buffer
    → length buffer < 65535
    → calc_checksum start buffer ≡ ones_complement (start + total buffer)
unfolding calc_checksum
calc_checksum-ones_complement start buffer s h n =
    rw (add_words-total start buffer h (omega arith)) (
      rw (fold_carries_lem (start + total buffer) (omega (arith, total_bound buffer h)))
        (omega (arith, ones_complement-lt (start + total buffer))))

pub total-append : (a b : List ℕ) → length a % 2 ≡ 0 → total (a ++ b) ≡ total a + total b
total-append [] b e = omega arith
total-append (x ∷ []) b e = absurd (omega arith)
total-append (x ∷ y ∷ a) b e = omega (arith, total-append a b (omega arith))

ones_complement-add : (s t : ℕ) → ones_complement (ones_complement s + t) ≡ ones_complement (s + t)
unfolding ones_complement
ones_complement-add s t = ground arith

ones_complement-complement :
    (s c : ℕ) → c ≡ complement (ones_complement s) → ones_complement (s + c) ≡ 65535
unfolding ones_complement
ones_complement-complement s c e = ground arith

-- Summing two buffers one after the other is summing their concatenation, where the first has an
-- even number of bytes: a checksum may be continued from part to part of a packet.
pub calc_checksum-append :
    (start : ℕ) (a b : List ℕ)
    → start < 65536
    → IsBytes a
    → IsBytes b
    → length a % 2 ≡ 0
    → length a + length b < 65535
    → calc_checksum (calc_checksum start a) b ≡ calc_checksum start (a ++ b)
calc_checksum-append start a b s ha hb e n =
    rw (calc_checksum-ones_complement start a s ha (omega arith)) (
      rw
        (calc_checksum-ones_complement (ones_complement (start + total a)) b
          (ones_complement-lt (start + total a)) hb (omega arith))
        (rw
          (
            calc_checksum-ones_complement start (a ++ b) s (All-append _ a b ha hb)
                (omega (arith, length-append a b)),
            total-append a b e,
            ones_complement-add,
          )
          (ap ones_complement (omega arith))))

-- The receiver's test. In a buffer whose checksum field, at an even place, is zeroed, the
-- complement of the checksum is stored in that field: then the checksum of the whole is 0xFFFF.
pub calc_checksum_verifies :
    (start : ℕ) (before after : List ℕ) (check : ℕ)
    → start < 65536
    → IsBytes before
    → IsBytes after
    → length before % 2 ≡ 0
    → length before + length after < 65533
    → check ≡ complement (calc_checksum start (before ++ (0 ∷ 0 ∷ after)))
    → calc_checksum start (before ++ ((check % 256) ∷ (check / 256) ∷ after)) ≡ 65535
calc_checksum_verifies start before after check s hb ha e n c =
    let zeroed = before ++ (0 ∷ 0 ∷ after) in
    let stored = before ++ ((check % 256) ∷ (check / 256) ∷ after) in
    let small : check < 65536 = omega arith in
    let zeroed_sum : calc_checksum start zeroed ≡ ones_complement (start + total zeroed) =
      calc_checksum-ones_complement start zeroed s
        (All-append _ before (0 ∷ 0 ∷ after) hb (omega arith, (omega arith, ha)))
        (omega (arith, length-append before (0 ∷ 0 ∷ after))) in
    let stored_sum : calc_checksum start stored ≡ ones_complement (start + total stored) =
      calc_checksum-ones_complement start stored s
        (All-append _ before ((check % 256) ∷ (check / 256) ∷ after) hb
          (omega arith, (omega arith, ha)))
        (omega (arith, length-append before ((check % 256) ∷ (check / 256) ∷ after))) in
    let sums : total stored ≡ total zeroed + check = omega (
      arith,
      total-append before (0 ∷ 0 ∷ after) e,
      total-append before ((check % 256) ∷ (check / 256) ∷ after) e,
    ) in
    rw (stored_sum, sums)
      (ap ones_complement (omega arith)
        ∙ ones_complement-complement (start + total zeroed) check (c ∙ ap complement zeroed_sum))
