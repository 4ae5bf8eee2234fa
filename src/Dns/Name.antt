-- ===== src/Dns/Name.antt =====
-- `get_qname` of tun2http/dns.c. A byte behind the end of the message is read as 0.
use nroxy.Prelude.{
  ℕ, zero, suc, ◌+◌, ◌-◌, ◌*◌, ◌%◌, Bool, true, false, ◌&&◌, ◌||◌, Option, none, some, List, [],
  ◌∷◌, ◌++◌, ltb, leb, ◌==◌, if◌then◌else◌, length, take, u8, u16,
}
use nroxy.Net.Bytes.{byte_at, slice}

-- The local variables of the loop. `noff` is a `uint8_t`, `off` and `ptr` are `uint16_t`.
pub record Cursor : Type 0 where
  pub compressed : Bool
  pub noff : ℕ
  pub ptr : ℕ
  pub len : ℕ
  pub off : ℕ
  pub qname : List ℕ

-- The name without its last dot, and the result of the function.
pub record Qname : Type 0 where
  pub name : List ℕ
  pub next : ℕ

-- A length with one of its two high bits is read as a pointer.
unfoldable pub follow_pointer : List ℕ → Cursor → Cursor
follow_pointer bytes s =
    let ptr = (s.len % 64) * 256 + byte_at bytes (s.ptr + 1) in
    record s {
      ptr = ptr;
      len = byte_at bytes ptr;
      off = if s.compressed then s.off else u16 (s.off + 2);
      compressed = true;
    }

unfoldable pub copy_label : List ℕ → Cursor → Cursor
copy_label bytes s =
    let ptr = u16 (s.ptr + (s.len + 1)) in
    record s {
      qname = take s.noff s.qname ++ (slice bytes (s.ptr + 1) s.len ++ (b'.' ∷ []));
      noff = u8 (s.noff + (s.len + 1));
      ptr = ptr;
      len = byte_at bytes ptr;
    }

-- `while (len)`, on fuel; `none` is that the fuel is used up.
unfoldable pub qname_loop : ℕ → List ℕ → Cursor → Option Cursor
unfolding follow_pointer copy_label
qname_loop zero bytes s = none
qname_loop (suc fuel) bytes s = elim (s.len == 0) [
  | true ↦ some s
  | false ↦ elim (leb 64 s.len) [
    | true ↦ qname_loop fuel bytes (follow_pointer bytes s)
    | false ↦ elim (leb (s.ptr + 1 + s.len) (length bytes) && leb (s.noff + s.len) 255) [
      | true ↦ qname_loop fuel bytes (copy_label bytes s)
      | false ↦ some s
    ]
  ]
]

unfoldable pub first_cursor : List ℕ → ℕ → Cursor
first_cursor bytes off = record {
  compressed = false;
  noff = 0;
  ptr = off;
  len = byte_at bytes off;
  off = off;
  qname = [];
}

unfoldable pub qname_result : Cursor → Option Qname
qname_result s =
    if ltb 0 s.len || s.noff == 0
    then none
    else some (record {
      name = take (s.noff - 1) s.qname;
      next = if s.compressed then s.off else u16 (s.ptr + 1);
    })

-- The fuel given to the loop is a parameter of the theorems; here it is large.
unfoldable pub get_qname_within : ℕ → List ℕ → ℕ → Option (Option Qname)
unfolding qname_loop first_cursor qname_result
get_qname_within fuel bytes off = elim (qname_loop fuel bytes (first_cursor bytes off)) [
  | none ↦ none
  | some s ↦ some (qname_result s)
]

-- A cursor that goes on has one of 2 ^ 16 places and 2 ^ 8 offsets, so a loop that takes more rounds
-- than that has repeated itself, and does not end.
unfoldable pub get_qname : List ℕ → ℕ → Option (Option Qname)
get_qname bytes off = get_qname_within 16777217 bytes off
