-- ===== src/Net/Mask.antt =====
-- Netmask of common/iputils.hh: a network address, the number of its bits, and for IPv4 the mask.
use Prim.Native.Nat.{bit_and}
use weakforced.Prelude.{
  ℕ, zero, suc, ◌-◌, ◌/◌, ◌%◌, ◌^◌, Bool, true, false, ◌&&◌, Option, none, some, List, [], ◌∷◌,
  ◌++◌, length, take, replicate, get_or, set, ◌==◌, ltb, if◌then◌else◌, Str,
}
use weakforced.Net.Address.{
  ComboAddress, unspec, inet, inet6, family_eq, is_ipv4, is_ipv6, address_eq, big_endian,
}
use weakforced.Misc.{Resolver, split_field, pdns_stou, make_combo_address, address_to_string}

pub record Netmask : Type 0 where
  pub network : ComboAddress
  pub mask : ℕ
  pub bits : ℕ

-- Netmask(): its family matches no address. The bytes of the network are not set.
unfoldable pub empty_netmask : Netmask
empty_netmask = record {
  network = record { family = unspec; port = 0; bytes = replicate 16 0 };
  mask = 0;
  bits = 0;
}

-- `bits < 32 ? ~(0xFFFFFFFF >> bits) : 0xFFFFFFFF` on 32 bits.
unfoldable pub mask_of_bits : ℕ → ℕ
mask_of_bits bits = if ltb bits 32 then 0xFFFFFFFF - 0xFFFFFFFF / 2 ^ bits else 0xFFFFFFFF

-- The clamping of the constructor from an address, 255 being its default.
unfoldable pub clamp_bits : ComboAddress → ℕ → ℕ
clamp_bits network bits =
    let all = if bits == 255 then (if is_ipv4 network then 32 else 128) else bits in
    let four = if is_ipv4 network && ltb 32 all then 32 else all in
    if is_ipv6 network && ltb 128 four then 128 else four

unfoldable pub of_address : ComboAddress → ℕ → Netmask
unfolding clamp_bits mask_of_bits
of_address network bits =
    let b = clamp_bits network bits in record { network = network; mask = mask_of_bits b; bits = b }

mask_from_parts : Resolver → ComboAddress → Str → Option Netmask
mask_from_parts r network [] =
    if is_ipv4 network
    then some (record { network = network; mask = 0xFFFFFFFF; bits = 32 })
    else some (record { network = network; mask = 0; bits = 128 })
mask_from_parts r network (c ∷ s) = elim (pdns_stou r (c ∷ s)) [
  | none ↦ none
  | some n ↦ some (record { network = network; mask = mask_of_bits (n % 256); bits = n % 256 })
]

-- The constructor from a text "address/bits"; `none` where it throws.
unfoldable pub of_string : Resolver → Str → Option Netmask
unfolding mask_from_parts
of_string r s = elim (make_combo_address r (split_field s b'/').0) [
  | none ↦ none
  | some network ↦ mask_from_parts r network (split_field s b'/').1
]

unfoldable pub match4 : Netmask → ℕ → Bool
match4 nm ip = bit_and ip nm.mask == bit_and (big_endian nm.network.bytes) nm.mask

-- `~(0xFF >> bits)` on a byte.
unfoldable pub byte_mask : ℕ → ℕ
byte_mask bits = 0xFF - 0xFF / 2 ^ bits

-- The loop of Netmask::match over `left` whole bytes from byte `n`.
unfoldable pub same_bytes : ℕ → ℕ → List ℕ → List ℕ → Bool
same_bytes zero n us them = true
same_bytes (suc left) n us them =
    if get_or us n 0 == get_or them n 0 then same_bytes left (suc n) us them else false

-- The byte behind a whole /128 network, which the source reads and masks to 0, counts as 0.
unfoldable pub match6 : Netmask → List ℕ → Bool
unfolding same_bytes byte_mask
match6 nm them =
    let us = nm.network.bytes in
    let n = nm.bits / 8 in
    let m = byte_mask (nm.bits % 8) in
    if same_bytes n 0 us them
    then bit_and (get_or us n 0) m == bit_and (get_or them n 0) m
    else false

unfoldable pub matches : Netmask → ComboAddress → Bool
unfolding match4 match6
matches nm ip =
    if family_eq nm.network.family ip.family
    then (if is_ipv4 nm.network
        then match4 nm (big_endian ip.bytes)
        else if is_ipv6 nm.network
        then match6 nm ip.bytes
        else false)
    else false

-- The bytes of a 32-bit number, high byte first.
unfoldable pub bytes4 : ℕ → List ℕ
bytes4 n = n / 2 ^ 24 % 256 ∷ n / 2 ^ 16 % 256 ∷ n / 2 ^ 8 % 256 ∷ n % 256 ∷ []

-- The 16 bytes of an IPv6 address that toStringNetwork builds.
unfoldable pub network_bytes : ℕ → List ℕ → List ℕ
unfolding byte_mask
network_bytes bits bytes =
    let n = bits / 8 in
    let whole = take n bytes ++ replicate (16 - n) 0 in
    if ltb n 16 then set whole n (bit_and (get_or bytes n 0) (byte_mask (bits % 8))) else whole

-- The address that toStringNetwork prints; `none` for the empty mask.
unfoldable pub network_address : Netmask → Option ComboAddress
unfolding network_bytes bytes4
network_address nm = elim nm.network.family [
  | inet ↦ some (record {
    family = inet;
    port = 0;
    bytes = bytes4 (bit_and (big_endian nm.network.bytes) nm.mask);
  })
  | inet6 ↦
      some (record { family = inet6; port = 0; bytes = network_bytes nm.bits nm.network.bytes })
  | unspec ↦ none
]

with_bits : Resolver → ComboAddress → ℕ → Str
with_bits r a bits = address_to_string r a ++ b'/' ∷ r.to_string bits

unfoldable pub mask_to_string : Resolver → Netmask → Str
unfolding with_bits
mask_to_string r nm = with_bits r nm.network nm.bits

unfoldable pub to_string_network : Resolver → Netmask → Str
unfolding network_address with_bits
to_string_network r nm = elim (network_address nm) [ none ↦ [] | some a ↦ with_bits r a nm.bits ]

-- The loop of getMaskedNetwork: it masks byte `n` and clears those behind it.
mask_rest : ℕ → ℕ → List ℕ → List ℕ
mask_rest n m [] = []
mask_rest zero m (b ∷ bs) = bit_and b m ∷ replicate (length bs) 0
mask_rest (suc n) m (b ∷ bs) = b ∷ mask_rest n m bs

unfoldable pub get_masked_network : Netmask → ComboAddress
unfolding mask_rest byte_mask bytes4
get_masked_network nm =
    let net = nm.network in
    if is_ipv4 net
    then record net { bytes = bytes4 (bit_and (big_endian net.bytes) nm.mask) }
    else if is_ipv6 net
    then record net { bytes = mask_rest (nm.bits / 8) (byte_mask (nm.bits % 8)) net.bytes }
    else net

-- operator==
unfoldable pub netmask_eq : Netmask → Netmask → Bool
netmask_eq a b = address_eq a.network b.network && (a.bits == b.bits)
