-- ===== src/Net/Address.antt =====
-- ComboAddress of common/iputils.hh and common/iputils.cc: a socket address. The union of
-- sockaddr_in and sockaddr_in6 is its family, its port (in host order) and the bytes of its
-- address in network order, 4 of them for IPv4 and 16 otherwise.
pub mod Bits
use Prim.Native.Nat.{bit_and}
use weakforced.Prelude.{
  ℕ, zero, suc, ◌+◌, ◌-◌, ◌*◌, ◌/◌, ◌%◌, ◌^◌, Bool, true, false, not, ◌&&◌, Option, none, some,
  List, [], ◌∷◌, map, length, replicate, get_or, set, take, drop, ◌==◌, ltb, leb, if◌then◌else◌,
  str_eq,
}

pub data Family : Type 0 where
  unspec inet inet6 : Family

abbrev pub family_eq : Family → Family → Bool
family_eq unspec unspec = true
family_eq inet inet = true
family_eq inet6 inet6 = true
family_eq _ _ = false

pub record ComboAddress : Type 0 where
  pub family : Family
  pub port : ℕ
  pub bytes : List ℕ

-- The default constructor: 0.0.0.0, port 0.
unfoldable pub default_address : ComboAddress
default_address = record { family = inet; port = 0; bytes = replicate 4 0 }

-- operator==: the addresses are compared only after the families and the ports.
unfoldable pub address_eq : ComboAddress → ComboAddress → Bool
address_eq a b =
    if family_eq a.family b.family && (a.port == b.port) then str_eq a.bytes b.bytes else false

unfoldable pub is_ipv4 : ComboAddress → Bool
is_ipv4 a = family_eq a.family inet

unfoldable pub is_ipv6 : ComboAddress → Bool
is_ipv6 a = family_eq a.family inet6

-- The bytes of a big-endian number.
unfoldable pub big_endian : List ℕ → ℕ
big_endian [] = 0
big_endian (b ∷ bs) = b * 256 ^ length bs + big_endian bs

all_equal : ℕ → List ℕ → Bool
all_equal v [] = true
all_equal v (b ∷ bs) = if b == v then all_equal v bs else false

-- ::ffff:a.b.c.d
unfoldable pub is_mapped_ipv4 : ComboAddress → Bool
unfolding all_equal
is_mapped_ipv4 a =
    if not (family_eq a.family inet6)
    then false
    else if not (all_equal 0 (take 10 a.bytes))
    then false
    else all_equal 255 (take 2 (drop 10 a.bytes))

-- `none` is the PDNSException of an address that is not mapped.
unfoldable pub map_to_ipv4 : ComboAddress → Option ComboAddress
map_to_ipv4 a =
    if not (is_mapped_ipv4 a)
    then none
    else some (record { family = inet; port = a.port; bytes = drop 12 a.bytes })

-- `bits & ~((1 << left) - 1)` on a byte.
unfoldable pub clear_low : ℕ → ℕ → ℕ
clear_low left b = bit_and b (256 - 2 ^ left)

-- `memset(start + from, 0, …)` up to the end.
unfoldable pub zero_from : ℕ → List ℕ → List ℕ
zero_from from [] = []
zero_from zero (b ∷ bs) = 0 ∷ zero_from zero bs
zero_from (suc from) (b ∷ bs) = b ∷ zero_from from bs

-- The bytes of an address of `len` bytes after `truncate(bits)`.
unfoldable pub truncate_bytes : ℕ → ℕ → List ℕ → List ℕ
unfolding zero_from clear_low
truncate_bytes len bits bytes =
    if leb (len * 8) bits
    then bytes
    else let to_zero = len * 8 - bits in
      let cleared = zero_from (len - to_zero / 8) bytes in
      let place = len - 1 - to_zero / 8 in
      set cleared place (clear_low (to_zero % 8) (get_or cleared place 0))

unfoldable pub truncate : ℕ → ComboAddress → ComboAddress
truncate bits a = record a { bytes = truncate_bytes (if is_ipv4 a then 4 else 16) bits a.bytes }

-- Turn `k` of the walk down the tree: bit 31 - k of an IPv4 address, and for any other the bits of
-- the high 64-bit half and then those of the low half.
unfoldable pub address_bit : ComboAddress → ℕ → Bool
unfolding big_endian
address_bit a k =
    if is_ipv4 a
    then big_endian a.bytes / 2 ^ (31 - k) % 2 == 1
    else if ltb k 64
    then big_endian (take 8 a.bytes) / 2 ^ (63 - k) % 2 == 1
    else big_endian (drop 8 a.bytes) / 2 ^ (127 - k) % 2 == 1

-- The turns of a walk that begins at bit `k`.
unfoldable pub turns_from : ComboAddress → ℕ → ℕ → List Bool
turns_from a k zero = []
turns_from a k (suc n) = address_bit a k ∷ turns_from a (suc k) n

abbrev pub turns : ComboAddress → ℕ → List Bool
turns a n = turns_from a 0 n
