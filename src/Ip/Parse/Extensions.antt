-- ===== src/Ip/Parse/Extensions.antt =====
-- What `handle_ip` of tun2http/ip.c makes of IPv6 extension headers.
use nroxy.Prelude.{
  ℕ, zero, suc, ◌+◌, ◌≡◌, refl, sym, ◌∙◌, ◌⊎◌, inl, inr, true, false, ◌&&◌, not, Option, none, some,
  List, arith, ltb, if◌then◌else◌, Bool-cases, length, get_elem?, u16,
}
use nroxy.Net.Bytes.{byte_at}
use nroxy.Ip.Parse.{
  is_lower_layer, is_upper_layer, Parsed, dropped, payload, extension_loop, parse_ip6,
}

lower_not_upper : (p : ℕ) → is_lower_layer p ≡ true → is_upper_layer p ≡ false
lower_not_upper p h = ground arith

-- A round of the loop, with what it has read.
abbrev round : ℕ → List ℕ → ℕ → ℕ → Option ℕ → Option (ℕ × ℕ)
round fuel pkt protocol off read = elim read [
  | none ↦ none
  | some next ↦ (elim (is_lower_layer next && not (is_upper_layer protocol)) [
    | false ↦ some (protocol, off)
    | true ↦ extension_loop fuel pkt next (u16 (off + (8 + byte_at pkt (off + 1))))
  ])
]

round_lower :
    (fuel : ℕ) (pkt : List ℕ) (protocol off : ℕ) (result : ℕ × ℕ) (read : Option ℕ)
    → is_upper_layer protocol ≡ false
    → ((next off' : ℕ)
        → is_upper_layer next ≡ false
        → extension_loop fuel pkt next off' ≡ some result
        → is_upper_layer result.0 ≡ false)
    → round fuel pkt protocol off read ≡ some result
    → is_upper_layer result.0 ≡ false
round_lower fuel pkt protocol off result none u ih e = ground arith
round_lower fuel pkt protocol off result (some next) u ih e =
    let later = ih next (u16 (off + (8 + byte_at pkt (off + 1)))) in
    ground (arith, later, lower_not_upper next)

loop_lower :
    (fuel : ℕ) (pkt : List ℕ) (protocol off : ℕ) (result : ℕ × ℕ)
    → is_upper_layer protocol ≡ false
    → extension_loop fuel pkt protocol off ≡ some result
    → is_upper_layer result.0 ≡ false
unfolding extension_loop
loop_lower zero pkt protocol off result u e = ground arith
loop_lower (suc fuel) pkt protocol off result u e =
    round_lower fuel pkt protocol off result (get_elem? pkt off) u
      (λ next off' v e'. loop_lower fuel pkt next off' result v e') e

-- What follows the loop.
abbrev after_loop : ℕ → Option (ℕ × ℕ) → Option Parsed
after_loop next o = elim o [
  | none ↦ none
  | some (protocol, off) ↦
      some (if is_upper_layer protocol then payload protocol (40 + off) else payload next 40)
]

after_loop_lower :
    (next : ℕ) (o : Option (ℕ × ℕ)) (protocol off : ℕ)
    → ((result : ℕ × ℕ) → o ≡ some result → is_upper_layer result.0 ≡ false)
    → after_loop next o ≡ some (payload protocol off)
    → (protocol ≡ next) × (off ≡ 40)
after_loop_lower next none protocol off h e = ground arith
after_loop_lower next (some (p, q)) protocol off h e = let lower = h (p, q) refl in ground arith

parse_ip6-after_loop :
    (pkt : List ℕ)
    → is_upper_layer (byte_at pkt 6) ≡ false
    → (parse_ip6 pkt ≡ some dropped)
      ⊎ (parse_ip6 pkt
          ≡ after_loop (byte_at pkt 6) (extension_loop (length pkt) pkt (byte_at pkt 6) 40))
unfolding parse_ip6
parse_ip6-after_loop pkt u = elim (Bool-cases (ltb (length pkt) 40)) [
  | inl short ↦ inl (rw short refl)
  | inr long ↦ inr (rw (long, u) refl)
]

-- Where the first header of an IPv6 packet is not TCP, UDP, ICMP or ICMPv6, a packet that is not
-- dropped is taken for one of the first header's protocol, with its payload behind the fixed
-- header: none of these protocols is found behind extension headers.
pub parse_ip6_extensions :
    (pkt : List ℕ) (protocol off : ℕ)
    → is_upper_layer (byte_at pkt 6) ≡ false
    → parse_ip6 pkt ≡ some (payload protocol off)
    → (protocol ≡ byte_at pkt 6) × (off ≡ 40)
parse_ip6_extensions pkt protocol off u e = elim (parse_ip6-after_loop pkt u) [
  | inl short ↦ ground arith
  | inr long ↦
      after_loop_lower (byte_at pkt 6) _ protocol off
        (λ result found. loop_lower (length pkt) pkt (byte_at pkt 6) 40 result u found)
        (sym long ∙ e)
]
