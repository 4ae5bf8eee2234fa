-- ===== src/Http/Find.antt =====
-- `find_data` of tun2http/http.c: where a text occurs in a request. A byte behind the end of the
-- buffer is read as 0.
pub mod Sound
pub mod First
use nroxy.Prelude.{
  ℕ, zero, suc, ◌+◌, Bool, true, false, ◌&&◌, not, Option, none, some, List, [], ◌∷◌, ltb, leb,
  ◌==◌, if◌then◌else◌, length, drop,
}
use nroxy.Net.Bytes.{byte_at}

abbrev pub to_lower : ℕ → ℕ
to_lower c = if leb b'A' c && leb c b'Z' then c + 32 else c

-- `strncasecmp(value, data, strlen(value)) == 0`
unfoldable pub matches : List ℕ → List ℕ → Bool
matches [] bytes = true
matches (v ∷ value) [] = false
matches (v ∷ value) (b ∷ bytes) = to_lower v == to_lower b && matches value bytes

-- The inner loop: on to the first letter, or until two bytes are left.
unfoldable pub skip_to : ℕ → List ℕ → List ℕ
skip_to first [] = []
skip_to first (b ∷ bytes) =
    if not (b == first) && ltb 2 (suc (length bytes)) then skip_to first bytes else b ∷ bytes

-- The outer loop, on fuel.
unfoldable pub find_loop : ℕ → List ℕ → List ℕ → Option (List ℕ)
unfolding matches skip_to
find_loop zero value bytes = none
find_loop (suc fuel) value bytes =
    let here = skip_to (byte_at value 0) bytes in
    elim (ltb 2 (length bytes)) [
      | false ↦ none
      | true ↦ elim (matches value here) [
        | true ↦ some here
        | false ↦ find_loop fuel value (drop 1 here)
      ]
    ]

-- The pointer that C returns is the rest of the buffer from there. A round takes at least a byte,
-- so that as many rounds as there are bytes are enough.
unfoldable pub find_data : List ℕ → List ℕ → Option (List ℕ)
unfolding find_loop
find_data value bytes = find_loop (length bytes) value bytes
