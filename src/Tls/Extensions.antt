-- ===== src/Tls/Extensions.antt =====
-- How the parser of tun2http/tls.c finds the server's name among the extensions of a client hello.
use nroxy.Prelude.{
  ℕ, zero, suc, ◌+◌, ◌≤◌, ◌<◌, ◌≡◌, refl, sym, ap, ◌∙◌, some, List, [], ◌∷◌, ◌++◌, arith, length,
  length-append, All,
}
use nroxy.Net.Bytes.{be16}
use nroxy.Net.Sums.{append_assoc}
use nroxy.Tls.Defs.{server_name, parse_server_name_extension, extensions}
use nroxy.Tls.Steps.{
  read16-append, read16-skip, other_step, sni_step, server_name_reads, IsText, name_list,
}

-- The extension of kind 0 that holds a list of one host name.
abbrev pub sni_extension : List ℕ → List ℕ
sni_extension host = be16 0 ++ (be16 (5 + length host) ++ name_list host)

sni_extension_reads :
    (before host after : List ℕ) (fuel base data_len at : ℕ)
    → IsText host
    → 0 < length host
    → length host < 256
    → base + at ≡ length before
    → at + 9 + length host ≤ data_len
    → extensions (suc fuel) (before ++ (sni_extension host ++ after)) base data_len at
      ≡ some (some host)
unfolding parse_server_name_extension
sni_extension_reads before host after fuel base data_len at h z n b d =
    let bytes = before ++ (sni_extension host ++ after) in
    let front = be16 0 ++ be16 (5 + length host) in
    sni_step bytes fuel base data_len at (5 + length host) (omega arith)
      (read16-skip before (sni_extension host ++ after) 2 (base + at + 2) (omega arith)
        ∙ read16-append (be16 0) (name_list host ++ after) (5 + length host) 2 (omega arith) refl)
      (read16-skip before (sni_extension host ++ after) 0 (base + at) (omega arith))
    ∙ (ap (λ l. server_name (suc (5 + length host)) l (base + at + 4) (5 + length host) 2)
          (sym (append_assoc before front (name_list host ++ after)))
        ∙ server_name_reads (before ++ front) host after (5 + length host) (base + at + 4)
            (5 + length host) h z n (omega (arith, length-append before front)) refl)

-- The other extensions, by kind and content.
abbrev pub encode_others : List (ℕ × List ℕ) → List ℕ
encode_others [] = []
encode_others ((kind, payload) ∷ others) =
    (be16 kind ++ (be16 (length payload) ++ payload)) ++ encode_others others

abbrev pub IsOther : ℕ × List ℕ → Type 0
IsOther (kind, payload) = (0 < kind) × (kind < 65536) × (length payload < 65536)

pub extensions_read :
    (fuel : ℕ) (others : List (ℕ × List ℕ)) (before host after : List ℕ) (base data_len at : ℕ)
    → All IsOther others
    → IsText host
    → 0 < length host
    → length host < 256
    → base + at ≡ length before
    → at + length (encode_others others) + 9 + length host ≤ data_len
    → length others < fuel
    → extensions fuel
        (before ++ (encode_others others ++ (sni_extension host ++ after)))
        base
        data_len
        at
      ≡ some (some host)
extensions_read zero others before host after base data_len at o h z n b d f = absurd (omega arith)
extensions_read (suc fuel) [] before host after base data_len at o h z n b d f =
    sni_extension_reads before host after fuel base data_len at h z n b (omega arith)
extensions_read (suc fuel) ((kind, payload) ∷ others) before host after base data_len at o h z n b d
      f =
    let e = be16 kind ++ (be16 (length payload) ++ payload) in
    let encoded = encode_others others in
    let last = sni_extension host ++ after in
    let rest = encoded ++ last in
    let here = (e ++ encoded) ++ last in
    let bytes = before ++ here in
    let regroup : bytes ≡ (before ++ e) ++ rest =
      ap (λ l. before ++ l) (append_assoc e encoded last) ∙ sym (append_assoc before e rest) in
    let size = length-append payload encoded in
    other_step bytes fuel base data_len at (length payload) kind (omega arith) o.0.0
      (read16-skip before here 2 (base + at + 2) (omega arith)
        ∙ read16-append (be16 kind) ((payload ++ encoded) ++ last) (length payload) 2 o.0.2 refl)
      (read16-skip before here 0 (base + at) (omega arith)
        ∙ read16-append [] (be16 (length payload) ++ ((payload ++ encoded) ++ last)) kind 0 o.0.1
            refl)
    ∙ (ap (λ l. extensions fuel l base data_len (at + (4 + length payload))) regroup
        ∙ extensions_read fuel others (before ++ e) host after base data_len
            (at + (4 + length payload)) o.1 h z n (omega (arith, length-append before e))
            (omega arith) (omega arith))
