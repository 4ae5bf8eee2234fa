-- ===== src/Http/Headers.antt =====
-- `get_header` and `next_header` of tun2http/http.c: the value of a header of a request. A byte behind
-- the end of the buffer is read as 0. The lengths of
-- lines are numbers of type `int`, and so below 2^31.
pub mod Reads
use nroxy.Prelude.{
  ℕ, zero, suc, ◌+◌, ◌-◌, ◌%◌, Bool, ◌&&◌, ◌||◌, not, Option, none, some, List, [], ◌∷◌, ltb, ◌==◌,
  if◌then◌else◌, length, take, drop, replicate,
}
use nroxy.Prelude.Int.{ℤ, negsuc}
use nroxy.Net.Bytes.{byte_at}
use nroxy.Http.Find.{matches}

-- What `*data` points to, and `*len`, a 64-bit number.
pub record Rest : Type 0 where
  pub bytes : List ℕ
  pub len : ℕ

-- On to the end of the line, or until two bytes are left.
unfoldable pub skip_line : List ℕ → ℕ → Rest
skip_line [] len = record { bytes = []; len = if ltb 2 len then 2 else len }
skip_line (b ∷ bytes) len =
    if ltb 2 len && (not (b == 13) && not (byte_at bytes 0 == 10))
    then skip_line bytes (len - 1)
    else record { bytes = b ∷ bytes; len = len }

-- The length of the line; `h` bytes of it are counted.
unfoldable pub line_length : List ℕ → ℕ → ℕ → ℕ
line_length [] len h = if ltb (h + 1) len then len - 1 else h
line_length (b ∷ bytes) len h =
    if ltb (h + 1) len && (not (b == 13) && not (byte_at bytes 0 == 10))
    then line_length bytes len (h + 1)
    else h

-- The next line, and its length. `*len -= 2` wraps where less is left.
unfoldable pub next_header : Rest → Rest × ℕ
unfolding skip_line line_length
next_header r =
    let end' = skip_line r.bytes r.len in
    let line = drop 2 end'.bytes in
    let left = (end'.len + 18446744073709551616 - 2) % 18446744073709551616 in
    (record { bytes = line; len = left }, line_length line left 0)

-- `isblank`
abbrev pub is_blank : ℕ → Bool
is_blank c = c == 32 || c == 9

-- The value without the blanks in front.
unfoldable pub eat_blanks : List ℕ → List ℕ
eat_blanks [] = []
eat_blanks (c ∷ value) = if is_blank c then eat_blanks value else c ∷ value

-- The value, or the number of an error that is returned.
pub data Header : Type 0 where
  header_value : List ℕ → Header
  error : ℤ → Header

-- `strncpy`: zeros from the first zero on.
unfoldable pub strncpy : List ℕ → List ℕ
strncpy [] = []
strncpy (c ∷ value) = if c == 0 then replicate (suc (length value)) 0 else c ∷ strncpy value

-- The loop's body: `later` is what the lines after this one give, and `given` that `value` is not NULL.
-- The numbers are -1, -2 and -4, where the comment above the function has -3 for a missing buffer.
unfoldable pub on_line : List ℕ → Bool → Option Header → Rest × ℕ → Option Header
on_line header given later (next, len) =
    let name_len = length header in
    if len == 0
    then some (error (if next.len == 0 then negsuc 0 else negsuc 1))
    else if ltb name_len len && matches header next.bytes
    then some (
        if given
        then header_value (strncpy (eat_blanks (drop name_len (take len next.bytes))))
        else error (negsuc 3))
    else later

-- The loop over the lines, on fuel: `none` is that it is used up.
unfoldable pub get_header_within : ℕ → List ℕ → Bool → Rest → Option Header
get_header_within zero header given r = none
get_header_within (suc fuel) header given r =
    let next = next_header r in
    let later = get_header_within fuel header given next.0 in on_line header given later next

-- A line takes two bytes at least.
unfoldable pub get_header : List ℕ → List ℕ → Bool → Option Header
get_header header bytes given =
    get_header_within (suc (length bytes)) header given
      (record { bytes = bytes; len = length bytes })
