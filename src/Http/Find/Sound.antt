-- ===== src/Http/Find/Sound.antt =====
-- What `find_data` of tun2http/http.c finds.
use nroxy.Prelude.{
  ℕ, zero, suc, ◌≤◌, ◌≡◌, refl, sym, ap, ◌∙◌, ◌⊎◌, inl, inr, true, ◌&&◌, not, some, List, [], ◌∷◌,
  ◌++◌, arith, ltb, ◌==◌, Bool-cases, length, drop, length-drop,
}
use mathlib.Core.Path.{subst}
use nroxy.Http.Find.{matches, skip_to, find_loop, find_data}
use nroxy.Net.Bytes.{byte_at}
use nroxy.Net.Sums.{append_assoc}

-- A rest of a buffer.
abbrev pub IsRest : List ℕ → List ℕ → Type 0
IsRest found bytes = (before : List ℕ) × (before ++ found ≡ bytes)

skip_to-IsRest : (first : ℕ) (bytes : List ℕ) → IsRest (skip_to first bytes) bytes
unfolding skip_to
skip_to-IsRest first [] = ([], refl)
skip_to-IsRest first (b ∷ bytes) =
    elim (Bool-cases (not (b == first) && ltb 2 (suc (length bytes)))) [
      | inl on ↦
          rw on (let (before, e) = skip_to-IsRest first bytes in (b ∷ before, ap (λ l. b ∷ l) e))
      | inr stop ↦ rw stop ([], refl)
    ]

IsRest-trans : {a b c : List ℕ} → IsRest a b → IsRest b c → IsRest a c
IsRest-trans {a} (before, e) (before', e') =
    (before' ++ before, append_assoc before' before a ∙ (ap (λ l. before' ++ l) e ∙ e'))

tail-IsRest : (bytes : List ℕ) → IsRest (drop 1 bytes) bytes
tail-IsRest [] = ([], refl)
tail-IsRest (b ∷ bytes) = (b ∷ [], refl)

find_loop-cases :
    (fuel : ℕ) (value bytes found : List ℕ)
    → find_loop (suc fuel) value bytes ≡ some found
    → let here = skip_to (byte_at value 0) bytes in
      ((matches value here ≡ true) × (here ≡ found))
      ⊎ (find_loop fuel value (drop 1 here) ≡ some found)
unfolding find_loop
find_loop-cases fuel value bytes found e = ground arith

find_loop_sound :
    (fuel : ℕ) (value bytes found : List ℕ)
    → find_loop fuel value bytes ≡ some found
    → (matches value found ≡ true) × IsRest found bytes
unfolding find_loop
find_loop_sound zero value bytes found e = ground arith
find_loop_sound (suc fuel) value bytes found e =
    let here = skip_to (byte_at value 0) bytes in
    let skipped = skip_to-IsRest (byte_at value 0) bytes in
    elim (find_loop-cases fuel value bytes found e) [
      | inl (m, same) ↦
          (ap (matches value) (sym same) ∙ m, subst (λ l. IsRest l bytes) same skipped)
      | inr later ↦
          (let (m, r) = find_loop_sound fuel value (drop 1 here) found later in
            (m, IsRest-trans r (IsRest-trans (tail-IsRest here) skipped)))
    ]

-- What is found is a rest of the buffer that begins with the text, up to the case of letters.
pub find_data_sound :
    (value bytes found : List ℕ)
    → find_data value bytes ≡ some found
    → (matches value found ≡ true) × IsRest found bytes
unfolding find_data
find_data_sound value bytes found e = find_loop_sound (length bytes) value bytes found e

skip_to-length : (first : ℕ) (bytes : List ℕ) → length (skip_to first bytes) ≤ length bytes
unfolding skip_to
skip_to-length first [] = omega arith
skip_to-length first (b ∷ bytes) = ground (arith, skip_to-length first bytes)

find_loop_rounds :
    (fuel fuel' : ℕ) (value bytes : List ℕ)
    → find_loop fuel value (drop 1 (skip_to (byte_at value 0) bytes))
      ≡ find_loop fuel' value (drop 1 (skip_to (byte_at value 0) bytes))
    → find_loop (suc fuel) value bytes ≡ find_loop (suc fuel') value bytes
unfolding find_loop
find_loop_rounds fuel fuel' value bytes e = ground (arith, e)

-- More rounds than there are bytes find nothing else: the fuel is enough.
pub find_loop_enough :
    (fuel fuel' : ℕ) (value bytes : List ℕ)
    → length bytes ≤ fuel
    → fuel ≤ fuel'
    → find_loop fuel' value bytes ≡ find_loop fuel value bytes
unfolding find_loop
find_loop_enough zero zero value bytes h k = refl
find_loop_enough zero (suc fuel') value [] h k = refl
find_loop_enough zero (suc fuel') value (b ∷ bytes) h k = absurd (omega arith)
find_loop_enough (suc fuel) zero value bytes h k = absurd (omega arith)
find_loop_enough (suc fuel) (suc fuel') value bytes h k =
    let here = skip_to (byte_at value 0) bytes in
    find_loop_rounds fuel' fuel value bytes (
      find_loop_enough fuel fuel' value (drop 1 here)
        (omega (arith, length-drop 1 here, skip_to-length (byte_at value 0) bytes)) (omega arith))
