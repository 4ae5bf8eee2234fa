-- ===== src/Http/Headers/Reads.antt =====
-- `get_header` of tun2http/http.c reads the lines of a request.
use nroxy.Prelude.{
  ℕ, zero, suc, ◌+◌, ◌-◌, ◌%◌, ◌≤◌, ◌<◌, ◌≡◌, refl, ap, ◌∙◌, ◌≢◌, inl, inr, Bool, true, false, ◌&&◌,
  some, List, [], ◌∷◌, ◌++◌, arith, ltb, ◌==◌, if◌then◌else◌, ltb→lt, Bool-cases, length,
  length-append, drop, All,
}
use nroxy.Prelude.Int.{negsuc}
use nroxy.Net.Bytes.{byte_at}
use nroxy.Http.Find.{to_lower, matches}
use nroxy.Http.Patch.{take-front}
use nroxy.Http.Headers.{
  skip_line, line_length, next_header, eat_blanks, header_value, error, strncpy, on_line,
  get_header_within, get_header,
}

-- A byte of a line.
abbrev pub IsInner : ℕ → Type 0
IsInner b = (b ≢ 13) × (b ≢ 10)

-- A line and what follows it.
abbrev pub line_and : List ℕ → List ℕ → List ℕ
line_and line rest = line ++ (13 ∷ 10 ∷ rest)

abbrev pub lines_and : List (List ℕ) → List ℕ → List ℕ
lines_and [] rest = rest
lines_and (line ∷ lines) rest = line_and line (lines_and lines rest)

not_feed : (line rest : List ℕ) → All IsInner line → (byte_at (line_and line rest) 0 == 10) ≡ false
not_feed [] rest h = refl
not_feed (b ∷ line) rest h = ground (arith, h.0)

length-line_and :
    (line rest : List ℕ) → length (line_and line rest) ≡ length line + (2 + length rest)
length-line_and line rest = omega (arith, length-append line (13 ∷ 10 ∷ rest))

skip_line-line :
    (line rest : List ℕ) (len : ℕ)
    → All IsInner line
    → len ≡ length line + (2 + length rest)
    → skip_line (line_and line rest) len ≡ record { bytes = 13 ∷ 10 ∷ rest; len = 2 + length rest }
unfolding skip_line
skip_line-line [] rest len h e = ground (arith, e)
skip_line-line (b ∷ line) rest len h e =
    let long : ltb 2 len ≡ true = ground (arith, e) in
    let inner : (b == 13) ≡ false = ground (arith, h.0) in
    rw (long, inner, not_feed line rest h.1, skip_line)
      (skip_line-line line rest (len - 1) h.1 (omega (arith, e)))

line_length-line :
    (line rest : List ℕ) (len h : ℕ)
    → All IsInner line
    → len ≡ h + (length line + (2 + length rest))
    → line_length (line_and line rest) len h ≡ h + length line
unfolding line_length
line_length-line [] rest len h inner e = ground (arith, e)
line_length-line (b ∷ line) rest len h inner e =
    let long : ltb (h + 1) len ≡ true = ground (arith, e) in
    let no_cr : (b == 13) ≡ false = ground (arith, inner.0) in
    rw (long, no_cr, not_feed line rest inner.1, line_length)
      (line_length-line line rest len (h + 1) inner.1 (omega (arith, e)) ∙ omega arith)

wraps_back :
    (n : ℕ)
    → n < 18446744073709551616
    → (2 + n + 18446744073709551616 - 2) % 18446744073709551616 ≡ n
wraps_back n h = omega (arith, h)

-- From a line to the next.
next_header_lem :
    (line next rest : List ℕ)
    → All IsInner line
    → All IsInner next
    → length (line_and line (line_and next rest)) < 2147483648
    → let bytes = line_and line (line_and next rest) in
      let left = line_and next rest in
      next_header (record { bytes = bytes; len = length bytes })
      ≡ (record { bytes = left; len = length left }, length next)
unfolding next_header
next_header_lem line next rest h h' small =
    let whole = length-line_and line (line_and next rest) in
    let short = length-line_and next rest in
    let n = length (line_and next rest) in
    let left : (2 + n + 18446744073709551616 - 2) % 18446744073709551616 ≡ n =
      wraps_back n (omega (arith, whole, small)) in
    let first : line_length (line_and next rest) n 0 ≡ length next =
      line_length-line next rest n 0 h' (omega (arith, short)) ∙ omega arith in
    rw
      (
        skip_line-line line (line_and next rest) (length (line_and line (line_and next rest))) h
            whole,
        left,
        first,
      )
      refl

matches-append :
    (header line rest : List ℕ)
    → length header ≤ length line
    → matches header (line ++ rest) ≡ matches header line
unfolding matches
matches-append [] line rest h = refl
matches-append (c ∷ header) [] rest h = absurd (omega (arith, h))
matches-append (c ∷ header) (b ∷ line) rest h =
    ap (λ t. (to_lower c == to_lower b) && t) (matches-append header line rest (omega (arith, h)))

-- A line of the headers, without the header in it.
abbrev pub IsOther : List ℕ → List ℕ → Type 0
IsOther header line = (0 < length line) × (All IsInner line × (matches header line ≡ false))

-- The test on a line fails for another header, whatever follows the line.
other_line :
    (header line rest : List ℕ)
    → matches header line ≡ false
    → (ltb (length header) (length line) && matches header (line_and line rest)) ≡ false
other_line header line rest h = elim (Bool-cases (ltb (length header) (length line))) [
  | inl long ↦
      rw
        (
          long,
          matches-append header line (13 ∷ 10 ∷ rest)
              (omega (arith, ltb→lt (length header) (length line) long)),
        )
        h
  | inr short ↦ rw short refl
]

-- The loop passes another header.
get_header_within-other :
    (header line next rest : List ℕ) (fuel : ℕ) (given : Bool)
    → All IsInner line
    → IsOther header next
    → length (line_and line (line_and next rest)) < 2147483648
    → let bytes = line_and line (line_and next rest) in
      let left = line_and next rest in
      get_header_within (suc fuel) header given (record { bytes = bytes; len = length bytes })
      ≡ get_header_within fuel header given (record { bytes = left; len = length left })
unfolding get_header_within on_line
get_header_within-other header line next rest fuel given h other small =
    let more : (length next == 0) ≡ false = ground (arith, other.0) in
    ap (λ p. on_line header given (get_header_within fuel header given p.0) p)
      (next_header_lem line next rest h other.1.0 small)
    ∙ rw (more, other_line header next rest other.1.1) refl

-- It stops at the header.
get_header_within-found :
    (header line next rest : List ℕ) (fuel : ℕ) (given : Bool)
    → All IsInner line
    → All IsInner next
    → matches header next ≡ true
    → length header < length next
    → length (line_and line (line_and next rest)) < 2147483648
    → let bytes = line_and line (line_and next rest) in
      get_header_within (suc fuel) header given (record { bytes = bytes; len = length bytes })
      ≡ some (
          if given
          then header_value (strncpy (eat_blanks (drop (length header) next)))
          else error (negsuc 3))
unfolding get_header_within on_line
get_header_within-found header line next rest fuel given h inner m long small =
    let more : (length next == 0) ≡ false = ground (arith, long) in
    let longer : ltb (length header) (length next) ≡ true = ground (arith, long) in
    let here = matches-append header next (13 ∷ 10 ∷ rest) (omega (arith, long)) ∙ m in
    ap (λ p. on_line header given (get_header_within fuel header given p.0) p)
      (next_header_lem line next rest h inner small)
    ∙ rw (more, longer, here, take-front next (13 ∷ 10 ∷ rest)) refl

get_header_within-reads :
    (header line : List ℕ) (before : List (List ℕ)) (next rest : List ℕ) (fuel : ℕ) (given : Bool)
    → All IsInner line
    → All (IsOther header) before
    → All IsInner next
    → matches header next ≡ true
    → length header < length next
    → length before ≤ fuel
    → length (line_and line (lines_and before (line_and next rest))) < 2147483648
    → let bytes = line_and line (lines_and before (line_and next rest)) in
      get_header_within (suc fuel) header given (record { bytes = bytes; len = length bytes })
      ≡ some (
          if given
          then header_value (strncpy (eat_blanks (drop (length header) next)))
          else error (negsuc 3))
get_header_within-reads header line [] next rest fuel given h others inner m long le small =
    get_header_within-found header line next rest fuel given h inner m long small
get_header_within-reads header line (other ∷ before) next rest zero given h others inner m long le
      small =
    absurd (omega (arith, le))
get_header_within-reads header line (other ∷ before) next rest (suc fuel) given h others inner m
      long le small =
    let after = lines_and before (line_and next rest) in
    let shorter = length-line_and line (line_and other after) in
    get_header_within-other header line other after (suc fuel) given h others.0 small
    ∙ get_header_within-reads header other before next rest fuel given others.0.1.0 others.1 inner m
        long (omega (arith, le)) (omega (arith, shorter, small))

length-lines_and :
    (lines : List (List ℕ)) (rest : List ℕ)
    → length lines + length rest ≤ length (lines_and lines rest)
length-lines_and [] rest = omega arith
length-lines_and (line ∷ lines) rest =
    omega (arith, length-line_and line (lines_and lines rest), length-lines_and lines rest)

-- A request of fewer than 2^31 bytes that consists of lines without carriage returns and line feeds,
-- each followed by both, up to and including the first line after the request's own that begins with
-- the header's name in any case and holds more than it, the lines between the two being nonempty and
-- without the name in front: whatever follows the line, `get_header` gives what follows the name in that
-- line, without the blanks in front and with zeros from the first zero on, or, where it is given no buffer
-- for the value, the error -4, for which the comment above the function has -3.
pub get_header_reads :
    (header line : List ℕ) (before : List (List ℕ)) (next rest : List ℕ) (given : Bool)
    → All IsInner line
    → All (IsOther header) before
    → All IsInner next
    → matches header next ≡ true
    → length header < length next
    → length (line_and line (lines_and before (line_and next rest))) < 2147483648
    → get_header header (line_and line (lines_and before (line_and next rest))) given
      ≡ some (
          if given
          then header_value (strncpy (eat_blanks (drop (length header) next)))
          else error (negsuc 3))
unfolding get_header
get_header_reads header line before next rest given h others inner m long small =
    let after = lines_and before (line_and next rest) in
    let whole = length-line_and line after in
    get_header_within-reads header line before next rest (length (line_and line after)) given h
      others inner m long (omega (arith, whole, length-lines_and before (line_and next rest))) small
