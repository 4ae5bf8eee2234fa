-- ===== src/Http/Find/First.antt =====
-- `find_data` of tun2http/http.c finds the first place where a text stands.
use nroxy.Prelude.{
  ℕ, zero, suc, ◌+◌, ◌≤◌, ◌<◌, ◌≡◌, refl, sym, ap, ◌∙◌, inl, inr, true, false, ◌&&◌, not, none,
  some, List, [], ◌∷◌, ◌++◌, arith, ltb, ◌==◌, ==→eq, lt→ltb, Bool-cases, length, length-append,
  drop,
}
use nroxy.Net.Bytes.{byte_at}
use nroxy.Http.Find.{matches, skip_to, find_loop, find_data}

-- The text does not stand, in any case of its letters, at a place of the front of a buffer.
abbrev pub IsAbsent : List ℕ → List ℕ → List ℕ → Type 0
IsAbsent text [] behind = Unit
IsAbsent text (b ∷ front) behind =
    (matches text (b ∷ (front ++ behind)) ≡ false) × IsAbsent text front behind

pub matches_self : (word rest : List ℕ) → matches word (word ++ rest) ≡ true
unfolding matches
matches_self [] rest = refl
matches_self (c ∷ word) rest = ground (arith, matches_self word rest)

skip_to-here : (c : ℕ) (rest : List ℕ) → skip_to c (c ∷ rest) ≡ c ∷ rest
unfolding skip_to
skip_to-here c rest = ground arith

skip_to-other :
    (c b : ℕ) (rest : List ℕ)
    → (b == c) ≡ false
    → ltb 2 (suc (length rest)) ≡ true
    → skip_to c (b ∷ rest) ≡ skip_to c rest
unfolding skip_to
skip_to-other c b rest other long = ground (arith, other, long)

-- A round that stops at the text, at its first letter only, and at another letter.
find_loop-here :
    (fuel : ℕ) (text bytes : List ℕ)
    → ltb 2 (length bytes) ≡ true
    → skip_to (byte_at text 0) bytes ≡ bytes
    → matches text bytes ≡ true
    → find_loop (suc fuel) text bytes ≡ some bytes
unfolding find_loop
find_loop-here fuel text bytes long here m = rw (long, here, m, find_loop) (ap some here)

find_loop-on :
    (fuel : ℕ) (text bytes : List ℕ)
    → ltb 2 (length bytes) ≡ true
    → skip_to (byte_at text 0) bytes ≡ bytes
    → matches text bytes ≡ false
    → find_loop (suc fuel) text bytes ≡ find_loop fuel text (drop 1 bytes)
unfolding find_loop
find_loop-on fuel text bytes long here m =
    rw (long, here, m, find_loop) (ap (λ l. find_loop fuel text (drop 1 l)) here)

find_loop-other :
    (fuel b : ℕ) (text bytes : List ℕ)
    → ltb 2 (length bytes) ≡ true
    → ltb 2 (suc (length bytes)) ≡ true
    → skip_to (byte_at text 0) (b ∷ bytes) ≡ skip_to (byte_at text 0) bytes
    → find_loop (suc fuel) text (b ∷ bytes) ≡ find_loop (suc fuel) text bytes
unfolding find_loop
find_loop-other fuel b text bytes long longer same =
    rw (long, longer, find_loop)
      (ap
        (λ here. elim (matches text here) [
          | true ↦ some here
          | false ↦ find_loop fuel text (drop 1 here)
        ])
        same)

find_loop-first :
    (fuel c : ℕ) (text front rest : List ℕ)
    → 2 ≤ length text
    → length front ≤ fuel
    → IsAbsent (c ∷ text) front ((c ∷ text) ++ rest)
    → find_loop (suc fuel) (c ∷ text) (front ++ ((c ∷ text) ++ rest)) ≡ some ((c ∷ text) ++ rest)
find_loop-first fuel c text [] rest long f a =
    find_loop-here fuel (c ∷ text) (c ∷ (text ++ rest))
      (lt→ltb 2 _ (omega (arith, length-append text rest, long))) (skip_to-here c (text ++ rest))
      (matches_self (c ∷ text) rest)
find_loop-first zero c text (b ∷ front) rest long f a = absurd (omega (arith, f))
find_loop-first (suc fuel) c text (b ∷ front) rest long f a =
    let bytes = front ++ ((c ∷ text) ++ rest) in
    let size : 2 < length bytes =
      omega (arith, length-append front ((c ∷ text) ++ rest), length-append text rest, long) in
    let longer = lt→ltb 2 (suc (length bytes)) (omega (arith, size)) in
    elim (Bool-cases (b == c)) [
      | inl here ↦
          find_loop-on (suc fuel) (c ∷ text) (b ∷ bytes) longer
            (ap (λ x. skip_to x (b ∷ bytes)) (sym (==→eq b c here)) ∙ skip_to-here b bytes) a.0
          ∙ find_loop-first fuel c text front rest long (omega (arith, f)) a.1
      | inr there ↦
          find_loop-other (suc fuel) b (c ∷ text) bytes (lt→ltb 2 (length bytes) size) longer
            (skip_to-other c b bytes there longer)
          ∙ find_loop-first (suc fuel) c text front rest long (omega (arith, f)) a.1
    ]

-- A text of at least three letters that stands behind a front in which it does not stand is found there.
pub find_data-first :
    (c : ℕ) (text front rest : List ℕ)
    → 2 ≤ length text
    → IsAbsent (c ∷ text) front ((c ∷ text) ++ rest)
    → find_data (c ∷ text) (front ++ ((c ∷ text) ++ rest)) ≡ some ((c ∷ text) ++ rest)
unfolding find_data
find_data-first c text front rest long a =
    let size = length-append front ((c ∷ text) ++ rest) in
    let rounds : length (front ++ ((c ∷ text) ++ rest))
        ≡ suc (length front + length (text ++ rest)) =
      omega (arith, size) in
    ap (λ n. find_loop n (c ∷ text) (front ++ ((c ∷ text) ++ rest))) rounds
    ∙ find_loop-first (length front + length (text ++ rest)) c text front rest long (omega arith) a

-- The text stands, in any case of its letters, nowhere in a buffer.
abbrev pub IsNowhere : List ℕ → List ℕ → Type 0
IsNowhere text [] = Unit
IsNowhere text (b ∷ bytes) = (matches text (b ∷ bytes) ≡ false) × IsNowhere text bytes

skip_to-IsNowhere :
    (text : List ℕ) (c : ℕ) (bytes : List ℕ)
    → IsNowhere text bytes
    → IsNowhere text (skip_to c bytes)
unfolding skip_to
skip_to-IsNowhere text c [] a = tt
skip_to-IsNowhere text c (b ∷ bytes) a =
    elim (Bool-cases (not (b == c) && ltb 2 (suc (length bytes)))) [
      | inl on ↦ rw on (skip_to-IsNowhere text c bytes a.1)
      | inr stop ↦ rw stop a
    ]

tail-IsNowhere : (text bytes : List ℕ) → IsNowhere text bytes → IsNowhere text (drop 1 bytes)
tail-IsNowhere text [] a = tt
tail-IsNowhere text (b ∷ bytes) a = a.1

no_match :
    (c : ℕ) (text bytes : List ℕ) → IsNowhere (c ∷ text) bytes → matches (c ∷ text) bytes ≡ false
unfolding matches
no_match c text [] a = refl
no_match c text (b ∷ bytes) a = a.0

find_loop-none :
    (fuel c : ℕ) (text bytes : List ℕ)
    → IsNowhere (c ∷ text) bytes
    → find_loop fuel (c ∷ text) bytes ≡ none
unfolding find_loop
find_loop-none zero c text bytes a = refl
find_loop-none (suc fuel) c text bytes a =
    let here = skip_to c bytes in
    let there = skip_to-IsNowhere (c ∷ text) c bytes a in
    let later = find_loop-none fuel c text (drop 1 here) (tail-IsNowhere (c ∷ text) here there) in
    ground (arith, no_match c text here there, later)

-- A text that stands nowhere is not found.
pub find_data-none :
    (c : ℕ) (text bytes : List ℕ) → IsNowhere (c ∷ text) bytes → find_data (c ∷ text) bytes ≡ none
unfolding find_data
find_data-none c text bytes a = find_loop-none (length bytes) c text bytes a
