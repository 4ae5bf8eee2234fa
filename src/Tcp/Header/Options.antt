-- ===== src/Tcp/Header/Options.antt =====
-- The options of a SYN: what the loop of tun2http/tcp.c makes of well-formed ones, and where it hangs.
use nroxy.Prelude.{
  ℕ, zero, suc, ◌+◌, ◌<◌, ◌≡◌, refl, ◌∙◌, none, some, List, [], ◌∷◌, ◌++◌, arith, length,
  length-append, drop, All,
}
use nroxy.Net.Bytes.{be16}
use nroxy.Net.Sums.{append_assoc}
use nroxy.Tcp.Header.{SynOptions, syn_options}

-- An option as RFC 793 and RFC 7323 define it.
pub data SynOption : Type 0 where
  nop : SynOption
  max_segment : ℕ → SynOption
  window_scale : ℕ → SynOption
  unknown : (kind : ℕ) → List ℕ → SynOption

-- A kind that the code does not know, and a length that fits its byte.
abbrev pub IsOption : SynOption → Type 0
IsOption nop = Unit
IsOption (max_segment n) = n < 65536
IsOption (window_scale n) = Unit
IsOption (unknown kind payload) = (3 < kind) × (length payload < 254)

abbrev pub encode : SynOption → List ℕ
encode nop = 1 ∷ []
encode (max_segment n) = 2 ∷ 4 ∷ be16 n
encode (window_scale n) = 3 ∷ 3 ∷ n ∷ []
encode (unknown kind payload) = kind ∷ (2 + length payload) ∷ payload

abbrev pub encode_all : List SynOption → List ℕ
encode_all [] = []
encode_all (o ∷ options) = encode o ++ encode_all options

abbrev pub note : SynOption → SynOptions → SynOptions
note nop found = found
note (max_segment n) found = record found { mss = n }
note (window_scale n) found = record found { ws = n }
note (unknown kind payload) found = found

abbrev pub note_all : List SynOption → SynOptions → SynOptions
note_all [] found = found
note_all (o ∷ options) found = note_all options (note o found)

drop-append : (a b : List ℕ) → drop (length a) (a ++ b) ≡ b
drop-append [] b = refl
drop-append (x ∷ a) b = drop-append a b

-- One round on an option goes on behind it.
one_option :
    (fuel : ℕ) (o : SynOption) (rest : List ℕ) (n : ℕ) (found : SynOptions)
    → IsOption o
    → syn_options (suc fuel) (encode o ++ rest) (length (encode o) + n) found
      ≡ syn_options fuel rest n (note o found)
unfolding syn_options
one_option fuel nop rest n found h = ground arith
one_option fuel (max_segment m) rest n found h = ground arith
one_option fuel (window_scale m) rest n found h = ground arith
one_option fuel (unknown kind payload) rest n found h = ground (arith, drop-append payload rest)

encode-pos : (o : SynOption) → 0 < length (encode o)
encode-pos nop = omega arith
encode-pos (max_segment n) = omega arith
encode-pos (window_scale n) = omega arith
encode-pos (unknown kind payload) = omega arith

-- Any list of well-formed options is read where the fuel exceeds their bytes, whatever stands behind
-- them: the last segment size and the last scale are found, and unknown options are skipped.
pub syn_options_reads :
    (fuel : ℕ) (options : List SynOption) (rest : List ℕ) (found : SynOptions)
    → All IsOption options
    → length (encode_all options) < fuel
    → syn_options fuel (encode_all options ++ rest) (length (encode_all options)) found
      ≡ some (note_all options found)
unfolding syn_options
syn_options_reads zero options rest found h f = absurd (omega arith)
syn_options_reads (suc fuel) [] rest found h f = refl
syn_options_reads (suc fuel) (o ∷ options) rest found h f =
    let n = length-append (encode o) (encode_all options) in
    rw (n, append_assoc (encode o) (encode_all options) rest)
      (one_option fuel o (encode_all options ++ rest) (length (encode_all options)) found h.0
        ∙ syn_options_reads fuel options rest (note o found) h.1 (omega (arith, encode-pos o)))

-- An option of a kind above 1 with the length 0 makes the loop hang: no fuel is enough.
pub syn_options_hangs :
    (fuel : ℕ) (kind : ℕ) (rest : List ℕ) (optlen : ℕ) (found : SynOptions)
    → 1 < kind
    → 0 < optlen
    → syn_options fuel (kind ∷ 0 ∷ rest) optlen found ≡ none
unfolding syn_options
syn_options_hangs zero kind rest optlen found k h = refl
syn_options_hangs (suc fuel) kind rest optlen found k h =
    ground (arith, syn_options_hangs fuel kind rest optlen found k h)
