-- ===== src/Dns/Pointers.antt =====
-- What `get_qname` of tun2http/dns.c does at pointers.
use nroxy.Prelude.{ℕ, zero, suc, ◌+◌, ◌*◌, ◌%◌, ◌≤◌, ◌≡◌, refl, none, List, arith}
use nroxy.Net.Bytes.{byte_at}
use nroxy.Dns.Name.{Cursor, follow_pointer, qname_loop, first_cursor, get_qname_within}

-- A pointer at a place to that place.
abbrev pub PointsToItself : List ℕ → ℕ → Type 0
PointsToItself bytes off =
    (64 ≤ byte_at bytes off) × ((byte_at bytes off % 64) * 256 + byte_at bytes (off + 1) ≡ off)

loop_hangs :
    (fuel : ℕ) (bytes : List ℕ) (s : Cursor)
    → PointsToItself bytes s.ptr
    → s.len ≡ byte_at bytes s.ptr
    → qname_loop fuel bytes s ≡ none
unfolding qname_loop follow_pointer
loop_hangs zero bytes s p l = refl
loop_hangs (suc fuel) bytes s p l = ground (arith, loop_hangs fuel bytes (follow_pointer bytes s))

-- The reading of a name that begins with a pointer to itself does not end: no fuel is enough.
pub get_qname_hangs :
    (fuel : ℕ) (bytes : List ℕ) (off : ℕ)
    → PointsToItself bytes off
    → get_qname_within fuel bytes off ≡ none
unfolding get_qname_within first_cursor
get_qname_hangs fuel bytes off p =
    ground (arith, loop_hangs fuel bytes (first_cursor bytes off) p refl)
