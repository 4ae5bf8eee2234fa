-- ===== src/Http.antt =====
-- The parts of tun2http/http.c that the relay calls: the search in a request, and the patch that
-- turns the target of a plain HTTP request into an absolute URL for the proxy.
pub mod Find
pub mod Patch
pub mod Headers
use nroxy.Prelude.{
  ℕ, zero, suc, ◌+◌, ◌-◌, Option, none, some, List, [], ◌∷◌, ◌++◌, ◌==◌, if◌then◌else◌, length,
  take, drop, codes,
}
use nroxy.Net.Bytes.{bytes_eq, slice}
use nroxy.Http.Find.{find_data}

-- `while (*host != '\r' && length < 511)`: at most so many bytes of the host.
unfoldable pub host_chars : ℕ → List ℕ → List ℕ
host_chars zero host = []
host_chars (suc n) [] = 0 ∷ host_chars n []
host_chars (suc n) (b ∷ host) = if b == 13 then [] else b ∷ host_chars n host

abbrev pub methods : List (List ℕ)
methods =
    codes "GET "
    ∷ codes "POST "
    ∷ codes "PUT "
    ∷ codes "DELETE "
    ∷ codes "HEAD "
    ∷ codes "OPTIONS "
    ∷ codes "PATCH "
    ∷ []

-- The place behind the first of the words that occurs, in the order of the list.
unfoldable pub find_word : List (List ℕ) → List ℕ → Option ℕ
find_word [] bytes = none
find_word (word ∷ words) bytes = elim (find_data word bytes) [
  | none ↦ find_word words bytes
  | some found ↦ some (length bytes - length found + length word)
]

-- `pos1` is the place of the request's target.
unfoldable pub patch_at : ℕ → List ℕ → List ℕ → Option (List ℕ)
patch_at pos1 hostname bytes =
    if bytes_eq (slice bytes pos1 5) (codes "http:")
    then none
    else some (take pos1 bytes ++ (codes "http://" ++ (hostname ++ drop pos1 bytes)))

-- `none` is the result 0. The length that C stores in `data_len` is that of the result.
unfoldable pub patch_http_url : List ℕ → Option (List ℕ)
unfolding host_chars find_word patch_at
patch_http_url bytes = elim (find_data (codes "Host: ") bytes) [
  | none ↦ none
  | some host ↦ (elim (find_word methods bytes) [
    | none ↦ none
    | some pos1 ↦ patch_at pos1 (host_chars 511 (drop 6 host)) bytes
  ])
]
