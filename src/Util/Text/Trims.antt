-- ===== src/Util/Text/Trims.antt =====
-- What `trim` of tun2http/util.c leaves of a text.
use nroxy.Prelude.{
  ℕ, zero, suc, ◌+◌, ◌-◌, ◌≤◌, ◌<◌, ◌≡◌, refl, sym, ap, ◌∙◌, inl, inr, true, false, List, [], ◌∷◌,
  ◌++◌, arith, ◌==◌, ==→eq, ==→ne, Bool-cases, length, length-append, All,
}
use nroxy.Net.Bytes.{byte_at}
use nroxy.Http.Patch.{take-front}
use nroxy.Util.Text.{is_space, skip_spaces, trim_end, trim}

abbrev pub AllSpace : List ℕ → Type 0
AllSpace = All (λ c. is_space c ≡ true)

skip_spaces-append :
    (spaces str : List ℕ) → AllSpace spaces → skip_spaces (spaces ++ str) ≡ skip_spaces str
unfolding skip_spaces
skip_spaces-append [] str h = refl
skip_spaces-append (c ∷ spaces) str h = rw (h.0, skip_spaces) (skip_spaces-append spaces str h.1)

byte_at-left : (xs ys : List ℕ) (i : ℕ) → i < length xs → byte_at (xs ++ ys) i ≡ byte_at xs i
byte_at-left [] ys i h = absurd (omega (arith, h))
byte_at-left (x ∷ xs) ys zero h = refl
byte_at-left (x ∷ xs) ys (suc i) h = byte_at-left xs ys i (omega (arith, h))

space_at :
    (spaces : List ℕ) (i : ℕ)
    → AllSpace spaces
    → i < length spaces
    → is_space (byte_at spaces i) ≡ true
space_at [] i h lt = absurd (omega (arith, lt))
space_at (c ∷ spaces) zero h lt = h.0
space_at (c ∷ spaces) (suc i) h lt = space_at spaces i h.1 (omega (arith, lt))

-- Behind the word there are only spaces.
space_behind :
    (word spaces : List ℕ) (i : ℕ)
    → AllSpace spaces
    → length word ≤ i
    → i < length word + length spaces
    → is_space (byte_at (word ++ spaces) i) ≡ true
space_behind [] spaces i h le lt = space_at spaces i h (omega (arith, lt))
space_behind (c ∷ word) spaces zero h le lt = absurd (omega (arith, le))
space_behind (c ∷ word) spaces (suc i) h le lt =
    space_behind word spaces i h (omega (arith, le)) (omega (arith, lt))

-- From any place behind the word's last letter, the loop goes back to that letter.
trim_end-last :
    (word spaces : List ℕ) (n e : ℕ)
    → length word ≡ suc n
    → is_space (byte_at word n) ≡ false
    → AllSpace spaces
    → n ≤ e
    → e < length word + length spaces
    → trim_end (word ++ spaces) e ≡ n
unfolding trim_end
trim_end-last word spaces n zero len last h le lt = omega (arith, le)
trim_end-last word spaces n (suc e) len last h le lt = elim (Bool-cases (n == suc e)) [
  | inl here ↦
      let at : n ≡ suc e = ==→eq n (suc e) here in
      let stop : is_space (byte_at (word ++ spaces) (suc e)) ≡ false =
        ap (λ i. is_space (byte_at (word ++ spaces) i)) (sym at)
        ∙ ap is_space (byte_at-left word spaces n (omega (arith, len)))
        ∙ last in
      rw (stop, trim_end) (sym at)
  | inr there ↦
      let behind : is_space (byte_at (word ++ spaces) (suc e)) ≡ true =
        space_behind word spaces (suc e) h (omega (arith, len, le, ==→ne n (suc e) there)) lt in
      rw (behind, trim_end)
        (trim_end-last word spaces n e len last h (omega (arith, le, ==→ne n (suc e) there))
          (omega (arith, lt)))
]

-- A word, of which neither the first letter nor the last is a space, with spaces in front and behind:
-- `trim` leaves the word.
pub trim-word :
    (spaces word behind : List ℕ) (n : ℕ)
    → AllSpace spaces
    → AllSpace behind
    → length word ≡ suc n
    → is_space (byte_at word 0) ≡ false
    → is_space (byte_at word n) ≡ false
    → trim (spaces ++ (word ++ behind)) ≡ word
unfolding trim
trim-word spaces [] behind n h h' len first last = absurd (omega (arith, len))
trim-word spaces (c ∷ word) behind n h h' len first last =
    let str = c ∷ (word ++ behind) in
    let size = length-append (c ∷ word) behind in
    let starts : skip_spaces (spaces ++ str) ≡ str =
      skip_spaces-append spaces str h ∙ rw (first, skip_spaces) refl in
    let filled : (length str == 0) ≡ false = ground arith in
    let ends : trim_end str (length str - 1) + 1 ≡ length (c ∷ word) =
      ap (λ e. e + 1)
        (trim_end-last (c ∷ word) behind n (length str - 1) len last h' (omega (arith, len, size))
          (omega (arith, len, size)))
      ∙ omega (arith, len) in
    rw (starts, filled, ends) (take-front (c ∷ word) behind)
