-- ===== src/Http/Patch.antt =====
-- What `patch_http_url` of tun2http/http.c makes of a request.
use nroxy.Prelude.{
  ℕ, zero, suc, ◌+◌, ◌-◌, ◌≤◌, ◌<◌, ◌≡◌, refl, ap, ◌∙◌, ◌≢◌, none, some, List, [], ◌∷◌, ◌++◌, arith,
  if◌then◌else◌, length, take, drop, All, codes,
}
use nroxy.Net.Bytes.{bytes_eq}
use nroxy.Http.Find.{find_data}
use nroxy.Http.Find.First.{IsAbsent, IsNowhere, find_data-first, find_data-none}
use nroxy.Http.{host_chars, methods, find_word, patch_at, patch_http_url}

host_chars-line :
    (n : ℕ) (host after : List ℕ)
    → All (λ b. b ≢ 13) host
    → length host ≤ n
    → host_chars n (host ++ (13 ∷ after)) ≡ host
unfolding host_chars
host_chars-line zero [] after h le = refl
host_chars-line zero (b ∷ host) after h le = absurd (omega arith)
host_chars-line (suc n) [] after h le = refl
host_chars-line (suc n) (b ∷ host) after h le = ground (arith, host_chars-line n host after h.1, h)

-- The words before it in the list do not occur.
find_word-later :
    (before words : List (List ℕ)) (bytes : List ℕ)
    → All (λ w. find_data w bytes ≡ none) before
    → find_word (before ++ words) bytes ≡ find_word words bytes
unfolding find_word
find_word-later [] words bytes h = refl
find_word-later (w ∷ before) words bytes h =
    rw (h.0, find_word) (find_word-later before words bytes h.1)

pub take-front : (word rest : List ℕ) → take (length word) (word ++ rest) ≡ word
take-front [] rest = refl
take-front (c ∷ word) rest = ap (λ l. c ∷ l) (take-front word rest)

pub drop-front : (word rest : List ℕ) → drop (length word) (word ++ rest) ≡ rest
drop-front [] rest = refl
drop-front (c ∷ word) rest = drop-front word rest

not_found :
    (words : List (List ℕ)) (bytes : List ℕ)
    → All (λ w. (0 < length w) × IsNowhere w bytes) words
    → All (λ w. find_data w bytes ≡ none) words
not_found [] bytes h = tt
not_found ([] ∷ words) bytes h = absurd (omega (arith, h.0.0))
not_found ((c ∷ word) ∷ words) bytes h =
    (find_data-none c word bytes h.0.1, not_found words bytes h.1)

find_word-first :
    (c : ℕ) (word rest : List ℕ) (words : List (List ℕ))
    → 2 ≤ length word
    → let bytes = c ∷ (word ++ rest) in
      find_word ((c ∷ word) ∷ words) bytes ≡ some (length bytes - length bytes + suc (length word))
unfolding find_word
find_word-first c word rest words h = rw (find_data-first c word [] rest h tt, find_word) refl

patched :
    (c : ℕ) (word rest host : List ℕ)
    → patch_at (suc (length word)) host (c ∷ (word ++ rest)) ≡ (
        if bytes_eq (take 5 rest) (codes "http:")
        then none
        else some (c ∷ (word ++ (codes "http://" ++ (host ++ rest)))))
unfolding patch_at
patched c word rest host = rw (take-front word rest, drop-front word rest) refl

-- A request that begins with a method, while those in front of it in the code's list stand nowhere in it, in
-- any case of their letters, and in which the text `Host: ` stands at some place and, in any case of its
-- letters, nowhere before, also not as the end of another header's name; what follows this place has a
-- carriage return within 512 bytes, and the bytes up to it are the host: the result is the request with its
-- target made absolute by the host, unless the target begins with `http:`, and then there is none.
pub patch_http_url_absolute :
    (before after : List (List ℕ)) (c : ℕ) (word rest front host behind : List ℕ)
    → methods ≡ before ++ ((c ∷ word) ∷ after)
    → All (λ w. (0 < length w) × IsNowhere w (c ∷ (word ++ rest))) before
    → 2 ≤ length word
    → c ∷ (word ++ rest) ≡ front ++ (codes "Host: " ++ (host ++ (13 ∷ behind)))
    → IsAbsent (codes "Host: ") front (codes "Host: " ++ (host ++ (13 ∷ behind)))
    → All (λ b. b ≢ 13) host
    → length host ≤ 511
    → patch_http_url (c ∷ (word ++ rest)) ≡ (
        if bytes_eq (take 5 rest) (codes "http:")
        then none
        else some (c ∷ (word ++ (codes "http://" ++ (host ++ rest)))))
unfolding patch_http_url
patch_http_url_absolute before after c word rest front host behind m nowhere long stands absent line
      short =
    let bytes = c ∷ (word ++ rest) in
    let none_before = not_found before bytes nowhere in
    let found : find_data (codes "Host: ") bytes
        ≡ some (codes "Host: " ++ (host ++ (13 ∷ behind))) =
      ap (find_data (codes "Host: ")) stands
      ∙ find_data-first b'H' (codes "ost: ") front (host ++ (13 ∷ behind)) (omega arith) absent in
    let chars = host_chars-line 511 host behind line short in
    let method : find_word methods bytes ≡ some (length bytes - length bytes + suc (length word)) =
      ap (λ l. find_word l bytes) m
      ∙ find_word-later before ((c ∷ word) ∷ after) bytes none_before
      ∙ find_word-first c word rest after long in
    let place : length bytes - length bytes + suc (length word) ≡ suc (length word) = omega arith in
    rw (found, method, place, chars, patch_http_url) (patched c word rest host)
