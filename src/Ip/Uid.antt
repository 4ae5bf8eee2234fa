-- ===== src/Ip/Uid.antt =====
-- `get_uid` and `get_uid_sub` of tun2http/ip.c, and `hex2bytes` of tun2http/util.c: who owns a
-- connection, by the tables under /proc/net.
pub mod Finds
use nroxy.Prelude.{
  ℕ, ◌+◌, ◌-◌, ◌*◌, bit_or, Bool, false, ◌&&◌, not, Option, none, some, List, [], ◌∷◌, ◌++◌, map,
  leb, ◌==◌, if◌then◌else◌, length, replicate, u8,
}
use nroxy.Prelude.Int.{ℤ, pos, negsuc, ltb_ℤ}
use nroxy.Net.Bytes.{bytes_eq}

-- Any other character is 255.
unfoldable pub char2nible : ℕ → ℕ
char2nible c =
    if leb 48 c && leb c 57
    then c - 48
    else if leb 97 c && leb c 102
    then c - 97 + 10
    else if leb 65 c && leb c 70
    then c - 65 + 10
    else 255

-- Two characters make a byte; behind an odd number of them stands the zero that ends the text.
unfoldable pub hex2bytes : List ℕ → List ℕ
unfolding char2nible
hex2bytes [] = []
hex2bytes (a ∷ []) = u8 (bit_or (char2nible a * 16) (char2nible 0)) ∷ []
hex2bytes (a ∷ b ∷ hex) = u8 (bit_or (char2nible a * 16) (char2nible b)) ∷ hex2bytes hex

-- `htonl` of each word, on a little-endian machine.
unfoldable pub swap_words : List ℕ → List ℕ
swap_words (a ∷ b ∷ c ∷ d ∷ bytes) = d ∷ c ∷ b ∷ a ∷ swap_words bytes
swap_words bytes = bytes

-- What `sscanf` finds in a line: the number of fields, the ports, the address as hexadecimal text, and
-- the uid. A field that is not found keeps its value from before: -1, or no text.
pub record Fields : Type 0 where
  pub count : ℕ
  pub sport : ℤ
  pub hex : List ℕ
  pub dport : ℤ
  pub uid : ℤ

-- The files under /proc/net.
pub data Table : Type 0 where
  icmp icmp6 tcp tcp6 udp udp6 : Table

unfoldable pub table_of : ℕ → ℕ → Option Table
table_of version protocol =
    if protocol == 1 && version == 4
    then some icmp
    else if protocol == 58 && version == 6
    then some icmp6
    else if protocol == 6
    then some (if version == 4 then tcp else tcp6)
    else if protocol == 17
    then some (if version == 4 then udp else udp6)
    else none

-- The ports and the address of the connection, of four bytes or of sixteen as `version` says.
pub record Wanted : Type 0 where
  pub version : ℕ
  pub sport : ℕ
  pub daddr : List ℕ
  pub dport : ℕ

-- `_sport > 0 && u >= 0` behind the checks of the fields.
unfoldable pub is_valid : Wanted → Fields → Bool
is_valid q f =
    (f.count == 4 && length f.hex == (if q.version == 4 then 8 else 32))
    && (ltb_ℤ (pos 0) f.sport && not (ltb_ℤ f.uid (pos 0)))

abbrev pub eq_ℤ : ℤ → ℕ → Bool
eq_ℤ (pos m) n = m == n
eq_ℤ (negsuc _) n = false

unfoldable pub is_port_of : Wanted → Fields → Bool
unfolding is_valid
is_port_of q f = is_valid q f && eq_ℤ f.sport q.sport

unfoldable pub is_connection_of : Wanted → Fields → Bool
unfolding hex2bytes swap_words
is_connection_of q f = eq_ℤ f.dport q.dport && bytes_eq (swap_words (hex2bytes f.hex)) q.daddr

-- The loop over the lines behind the first; `uid` is what was found before.
unfoldable pub scan_lines : Wanted → List Fields → ℤ → ℤ
scan_lines q [] uid = uid
scan_lines q (f ∷ rest) uid =
    if is_port_of q f
    then (if is_connection_of q f then f.uid else scan_lines q rest f.uid)
    else scan_lines q rest uid

abbrev pub rest_of : List (List ℕ) → List (List ℕ)
rest_of [] = []
rest_of (_ ∷ lines) = lines

-- `read_lines` is what `fopen` and `fgets` yield of a file, if it can be opened, and `sscan` what
-- `sscanf` finds in a line of the format for a version.
module _ (read_lines : Table → Option (List (List ℕ))) (sscan : ℕ → List ℕ → Fields) where
  unfoldable pub get_uid_sub : ℕ → Wanted → ℤ
  unfolding table_of scan_lines
  get_uid_sub protocol q = elim (table_of q.version protocol) [
    | none ↦ negsuc 0
    | some file ↦ elim (read_lines file) [
      | none ↦ negsuc 0
      | some lines ↦ scan_lines q (map (sscan q.version) (rest_of lines)) (negsuc 0)
    ]
  ]

  -- The IPv4 address inside of IPv6.
  abbrev pub mapped : List ℕ → List ℕ
  mapped daddr = replicate 10 0 ++ (255 ∷ 255 ∷ daddr)

  -- The table of IPv6 is read first.
  unfoldable pub get_uid : ℕ → Wanted → ℤ
  unfolding get_uid_sub
  get_uid protocol q =
      if q.version == 4
      then (let found = get_uid_sub protocol (record q { version = 6; daddr = mapped q.daddr }) in
          if ltb_ℤ found (pos 0) then get_uid_sub protocol q else found)
      else get_uid_sub protocol q
