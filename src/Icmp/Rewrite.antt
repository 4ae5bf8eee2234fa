-- ===== src/Icmp/Rewrite.antt =====
-- What the rewriting of messages in tun2http/icmp.c keeps.
use nroxy.Prelude.{ℕ, ◌/◌, ◌%◌, ◌≤◌, ◌<◌, ◌≡◌, refl, ap, ◌∙◌, List, [], ◌∷◌, arith, length, IsBytes}
use nroxy.Util.Checksum.{calc_checksum, complement, calc_checksum_verifies}
use nroxy.Icmp.Packet.{icmp_id, with_id}

-- A message as long as the part of the header that is rewritten.
pub data IsMessage : List ℕ → Type 0 where
  message : (b0 b1 b2 b3 b4 b5 : ℕ) (rest : List ℕ) → IsMessage (b0 ∷ b1 ∷ b2 ∷ b3 ∷ b4 ∷ b5 ∷ rest)

pub bytes-IsMessage : (bytes : List ℕ) → 6 ≤ length bytes → IsMessage bytes
bytes-IsMessage [] h = absurd (omega arith)
bytes-IsMessage (a ∷ []) h = absurd (omega arith)
bytes-IsMessage (a ∷ b ∷ []) h = absurd (omega arith)
bytes-IsMessage (a ∷ b ∷ c ∷ []) h = absurd (omega arith)
bytes-IsMessage (a ∷ b ∷ c ∷ d ∷ []) h = absurd (omega arith)
bytes-IsMessage (a ∷ b ∷ c ∷ d ∷ e ∷ []) h = absurd (omega arith)
bytes-IsMessage (a ∷ b ∷ c ∷ d ∷ e ∷ f ∷ rest) h = message a b c d e f rest

parts_verify :
    (start id : ℕ) (bytes : List ℕ)
    → IsMessage bytes
    → start < 65536
    → IsBytes bytes
    → length bytes < 65000
    → calc_checksum start (with_id start id bytes) ≡ 65535
unfolding with_id
parts_verify start id _ (message b0 b1 b2 b3 b4 b5 rest) s (h0, (h1, (h2, (h3, (h4, (h5, hr))))))
      n =
    let after = (id % 256) ∷ (id / 256 % 256) ∷ rest in
    let check = complement (calc_checksum start (b0 ∷ b1 ∷ 0 ∷ 0 ∷ after)) in
    let small : check / 256 % 256 ≡ check / 256 = omega arith in
    rw small (
      calc_checksum_verifies start (b0 ∷ b1 ∷ []) after check s (h0, (h1, tt))
        (omega arith, (omega arith, hr)) refl (omega arith) refl)

-- A message of at least six and fewer than 65000 bytes verifies once its identifier is replaced,
-- with the sum of any pseudo header to start from.
pub with_id_verifies :
    (start id : ℕ) (bytes : List ℕ)
    → start < 65536
    → IsBytes bytes
    → 6 ≤ length bytes
    → length bytes < 65000
    → calc_checksum start (with_id start id bytes) ≡ 65535
with_id_verifies start id bytes s h l n =
    parts_verify start id bytes (bytes-IsMessage bytes l) s h n

parts_replaced :
    (start start' id id' : ℕ) (bytes : List ℕ)
    → IsMessage bytes
    → id < 65536
    → (with_id start id (with_id start' id' bytes) ≡ with_id start id bytes)
      × (icmp_id (with_id start id bytes) ≡ id)
unfolding with_id
parts_replaced start start' id id' _ (message b0 b1 b2 b3 b4 b5 rest) small = (refl, omega arith)

-- In a message of at least six bytes, a first replacement of the identifier is undone by a
-- second: what is left is the message with the second identifier alone, and this identifier is
-- read from it.
pub with_id_restores :
    (start start' id id' : ℕ) (bytes : List ℕ)
    → id < 65536
    → 6 ≤ length bytes
    → (with_id start id (with_id start' id' bytes) ≡ with_id start id bytes)
      × (icmp_id (with_id start id (with_id start' id' bytes)) ≡ id)
with_id_restores start start' id id' bytes small l =
    let (replaced, read) =
      parts_replaced start start' id id' bytes (bytes-IsMessage bytes l) small in
    (replaced, ap icmp_id replaced ∙ read)
