-- ===== src/Dns/Labels.antt =====
-- What `get_qname` of tun2http/dns.c makes of a name without pointers.
use nroxy.Prelude.{
  ℕ, zero, suc, ◌+◌, ◌-◌, ◌≤◌, ◌<◌, ◌≡◌, refl, sym, ap, ◌∙◌, false, some, List, [], ◌∷◌, ◌++◌,
  arith, length, length-append, take, u16, All,
}
use nroxy.Net.Bytes.{byte_at, slice}
use nroxy.Net.Slices.{byte_at-append, drop-append_more, take-append, take-length, append_nil}
use nroxy.Net.Sums.{append_assoc}
use nroxy.Dns.Name.{
  Cursor, Qname, copy_label, qname_loop, first_cursor, qname_result, get_qname_within,
}

-- The encoding of RFC 1035, and the text with a dot behind each label.
abbrev pub encode_name : List (List ℕ) → List ℕ
encode_name [] = 0 ∷ []
encode_name (label ∷ labels) = length label ∷ label ++ encode_name labels

abbrev pub dotted : List (List ℕ) → List ℕ
dotted [] = []
dotted (label ∷ labels) = label ++ (b'.' ∷ dotted labels)

abbrev pub IsLabel : List ℕ → Type 0
IsLabel label = (0 < length label) × (length label < 64)

-- The cursor after some labels: it has read `before` and written `name`.
abbrev cursor : List ℕ → List ℕ → ℕ → ℕ → Cursor
cursor before name len off = record {
  compressed = false;
  noff = length name;
  ptr = length before;
  len = len;
  off = off;
  qname = name;
}

cursor_eq :
    {noff noff' ptr ptr' len len' : ℕ} (off : ℕ) {name name' : List ℕ}
    → noff ≡ noff'
    → ptr ≡ ptr'
    → len ≡ len'
    → name ≡ name'
    → let a : Cursor = record {
      compressed = false;
      noff = noff;
      ptr = ptr;
      len = len;
      off = off;
      qname = name;
    } in
      let b : Cursor = record {
        compressed = false;
        noff = noff';
        ptr = ptr';
        len = len';
        off = off;
        qname = name';
      } in
      a ≡ b
cursor_eq off a b c d = cc

-- One label is copied.
copied :
    (before name label rest : List ℕ) (off : ℕ)
    → length label < 64
    → length before + (1 + length label) < 65536
    → length name + (1 + length label) < 256
    → copy_label (before ++ (length label ∷ label ++ rest)) (cursor before name (length label) off)
      ≡ cursor
          (before ++ (length label ∷ label))
          (name ++ (label ++ (b'.' ∷ [])))
          (byte_at rest 0)
          off
unfolding copy_label
copied before name label rest off l p n =
    let head = length label ∷ label in
    let whole = before ++ (head ++ rest) in
    let a = length-append before head in
    let b = length-append name (label ++ (b'.' ∷ [])) in
    let c = length-append label (b'.' ∷ []) in
    let next : u16 (length before + (length label + 1)) ≡ length (before ++ head) = omega arith in
    let copied' : slice whole (length before + 1) (length label) ≡ label =
      ap (take (length label)) (drop-append_more before (head ++ rest) 1 (length before + 1) refl)
      ∙ take-append label rest in
    cursor_eq off (omega arith) next
      (byte_at-append before (head ++ rest) (suc (length label)) _ (omega arith)
        ∙ byte_at-append head rest 0 (suc (length label)) (omega arith))
      (rw (take-length name, copied') refl)

first-encode_name :
    (labels : List (List ℕ)) (after : List ℕ)
    → byte_at (encode_name labels ++ after) 0 ≡ byte_at (encode_name labels) 0
first-encode_name [] after = refl
first-encode_name (label ∷ labels) after = refl

-- A round of the loop at a label.
label_round :
    (fuel : ℕ) (bytes : List ℕ) (s : Cursor)
    → 0 < s.len
    → s.len < 64
    → s.ptr + 1 + s.len ≤ length bytes
    → s.noff + s.len ≤ 255
    → qname_loop (suc fuel) bytes s ≡ qname_loop fuel bytes (copy_label bytes s)
unfolding qname_loop
label_round fuel bytes s a b c d = ground arith

no_label :
    (fuel : ℕ) (before name after : List ℕ) (off : ℕ)
    → qname_loop (suc fuel) (before ++ (0 ∷ after)) (cursor before name 0 off)
      ≡ some (record {
        compressed = false;
        noff = length (name ++ []);
        ptr = length before + 1 - 1;
        len = 0;
        off = off;
        qname = name ++ [];
      })
unfolding qname_loop
no_label fuel before name after off =
    ap some
      (cursor_eq off (sym (ap length (append_nil name))) (omega arith) refl (sym (append_nil name)))

-- All labels of a name, from a cursor before them.
pub loop_reads :
    (fuel : ℕ) (labels : List (List ℕ)) (before name after : List ℕ) (off : ℕ)
    → All IsLabel labels
    → length labels < fuel
    → length before + length (encode_name labels) < 65536
    → length name + length (dotted labels) < 256
    → qname_loop fuel
        (before ++ (encode_name labels ++ after))
        (cursor before name (byte_at (encode_name labels) 0) off)
      ≡ some (record {
        compressed = false;
        noff = length (name ++ dotted labels);
        ptr = length before + length (encode_name labels) - 1;
        len = 0;
        off = off;
        qname = name ++ dotted labels;
      })
loop_reads zero labels before name after off h f p n = absurd (omega arith)
loop_reads (suc fuel) [] before name after off h f p n = no_label fuel before name after off
loop_reads (suc fuel) (label ∷ labels) before name after off h f p n =
    let head = length label ∷ label in
    let encoded = encode_name labels in
    let rest = encoded ++ after in
    let tail = dotted labels in
    let dot : List ℕ = b'.' ∷ [] in
    let regroup : before ++ (encode_name (label ∷ labels) ++ after) ≡ before ++ (head ++ rest) =
      ap (λ l. before ++ (length label ∷ l)) (append_assoc label encoded after) in
    let a = length-append before head in
    let b = length-append before (head ++ rest) in
    let c = length-append label rest in
    let d = length-append label encoded in
    let e = length-append name (label ++ dot) in
    let g = length-append label dot in
    let i = length-append label (b'.' ∷ tail) in
    let names : (name ++ (label ++ dot)) ++ tail ≡ name ++ (label ++ (b'.' ∷ tail)) =
      append_assoc name (label ++ dot) tail ∙ ap (λ l. name ++ l) (append_assoc label dot tail) in
    ap (λ l. qname_loop (suc fuel) l (cursor before name (length label) off)) regroup
    ∙ (label_round fuel (before ++ (head ++ rest)) (cursor before name (length label) off) h.0.0
          h.0.1 (omega arith) (omega arith)
        ∙ (ap (qname_loop fuel (before ++ (head ++ rest))) (
              copied before name label rest off h.0.1 (omega arith) (omega arith)
              ∙ ap (λ first. cursor (before ++ head) (name ++ (label ++ dot)) first off)
                  (first-encode_name labels after))
            ∙ (ap
                  (λ l.
                    qname_loop fuel l
                      (cursor (before ++ head) (name ++ (label ++ dot)) (byte_at encoded 0) off))
                  (sym (append_assoc before head rest))
                ∙ (loop_reads fuel labels (before ++ head) (name ++ (label ++ dot)) after off h.1
                      (omega arith) (omega arith) (omega arith)
                    ∙ ap some (cursor_eq off (ap length names) (omega arith) refl names)))))

no_name :
    (s : Cursor) (name : List ℕ) (next : ℕ)
    → s.compressed ≡ false
    → s.len ≡ 0
    → 0 < s.noff
    → take (s.noff - 1) s.qname ≡ name
    → u16 (s.ptr + 1) ≡ next
    → qname_result s ≡ some (record { name = name; next = next })
unfolding qname_result
no_name s name next c l n e f = ground arith

of_loop :
    (fuel : ℕ) (bytes : List ℕ) (off : ℕ) (s : Cursor) (q : Qname)
    → qname_loop fuel bytes (first_cursor bytes off) ≡ some s
    → qname_result s ≡ some q
    → get_qname_within fuel bytes off ≡ some (some q)
unfolding get_qname_within
of_loop fuel bytes off s q e f = ground arith

-- A name of at least one label, of labels of 1 to 63 bytes and less than 256 bytes with its dots, that is
-- encoded as RFC 1035 says and stands anywhere in the first 65535 bytes of a message: it is read as
-- its labels with dots between them, up to its end, for any fuel above the number of labels.
pub get_qname_reads :
    (fuel : ℕ) (label : List ℕ) (labels : List (List ℕ)) (before after : List ℕ)
    → All IsLabel (label ∷ labels)
    → length (label ∷ labels) < fuel
    → length before + length (encode_name (label ∷ labels)) < 65536
    → length (dotted (label ∷ labels)) < 256
    → let text = dotted (label ∷ labels) in
      get_qname_within fuel (before ++ (encode_name (label ∷ labels) ++ after)) (length before)
      ≡ some (
          some (record {
            name = take (length text - 1) text;
            next = length before + length (encode_name (label ∷ labels));
          }))
unfolding first_cursor
get_qname_reads fuel label labels before after h f p n =
    let encoded = encode_name (label ∷ labels) in
    let text = dotted (label ∷ labels) in
    let bytes = before ++ (encoded ++ after) in
    let s : Cursor = record {
      compressed = false;
      noff = length text;
      ptr = length before + length encoded - 1;
      len = 0;
      off = length before;
      qname = text;
    } in
    let i = length-append label (b'.' ∷ dotted labels) in
    let d = length-append label (encode_name labels) in
    of_loop fuel bytes (length before) s _
      (ap (qname_loop fuel bytes) (
          cursor_eq (length before) refl refl
            (byte_at-append before (encoded ++ after) 0 (length before) (omega arith)) refl)
        ∙ loop_reads fuel (label ∷ labels) before [] after (length before) h f p (omega arith))
      (no_name s _ _ refl refl (omega arith) refl (omega arith))
