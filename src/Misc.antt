-- ===== src/Misc.antt =====
-- Text helpers of common/misc.cc. The libc and C++ library calls are the fields of a `Resolver`.
use weakforced.Prelude.{
  ℕ, suc, ◌+◌, ◌-◌, ◌%◌, not, Option, none, some, List, [], ◌∷◌, length, get_or, take, drop, ◌==◌,
  ltb, if◌then◌else◌, Str,
}
use weakforced.Net.Address.{ComboAddress, inet6, inet, unspec}

-- What the code asks of libc: `pton4` and `pton6` are inet_pton, `numeric6` is getaddrinfo with
-- AI_NUMERICHOST, `host` is getnameinfo with NI_NUMERICHOST (`none` on an error), `atoi` gives
-- `none` for a negative number, and `stoul` gives `none` where it throws.
pub record Resolver : Type 0 where
  pub pton4 : Str → Option (List ℕ)
  pub pton6 : Str → Option (List ℕ)
  pub numeric6 : Str → Option (List ℕ)
  pub host : ComboAddress → Option Str
  pub atoi : Str → Option ℕ
  pub stoul : Str → Option ℕ
  pub to_string : ℕ → Str

-- std::string::find of a character.
unfoldable pub find : ℕ → Str → Option ℕ
find c [] = none
find c (a ∷ s) =
    let rest = find c s in
    if a == c then some 0 else elim rest [ none ↦ none | some i ↦ some (suc i) ]

-- The parts before and after the first separator.
unfoldable pub split_field : Str → ℕ → Str × Str
unfolding find
split_field inp sepa = elim (find sepa inp) [
  | none ↦ (inp, [])
  | some cpos ↦ (take cpos inp, drop (cpos + 1) inp)
]

unfoldable pub pdns_stou : Resolver → Str → Option ℕ
pdns_stou r [] = some 0
pdns_stou r (c ∷ s) = elim (r.stoul (c ∷ s)) [
  | none ↦ none
  | some result ↦ if ltb 0xFFFFFFFF result then none else some result
]

-- The text of the address and the port of makeIPv6sockaddr; `none` is its error -1.
unfoldable pub bracketed : Resolver → Str → Option (Str × Option ℕ)
unfolding find
bracketed r [] = none
bracketed r (c ∷ s) =
    let addr = c ∷ s in
    if not (c == b'[') then some (addr, none) else elim (find b']' addr) [
      | none ↦ none
      | some pos ↦
          if ltb (length addr) (pos + 2)
          then none
          else if not (get_or addr (pos + 1) 0 == b':')
          then none
          else some (take (pos - 1) (drop 1 addr), r.atoi (drop (pos + 2) addr))
    ]

port_or : ℕ → Option ℕ → ℕ
port_or old none = old
port_or old (some p) = p % 65536

-- The address of inet_pton, or else that of getaddrinfo, whose port 0 is copied over `port`.
sockaddr_of : ℕ → Option ℕ → Option (List ℕ) → Option (List ℕ) → Option ComboAddress
unfolding port_or
sockaddr_of port found (some bytes) numeric =
    some (record { family = inet6; port = port_or port found; bytes = bytes })
sockaddr_of port found none (some bytes) =
    some (record { family = inet6; port = port_or 0 found; bytes = bytes })
sockaddr_of port found none none = none

-- Writes the address, and the port if the text has one, over an address with port `port`.
unfoldable pub make_ipv6_sockaddr : Resolver → Str → ℕ → Option ComboAddress
unfolding bracketed sockaddr_of
make_ipv6_sockaddr r addr port = elim (bracketed r addr) [
  | none ↦ none
  | some (our_addr, found) ↦ sockaddr_of port found (r.pton6 our_addr) (r.numeric6 our_addr)
]

-- makeComboAddress of common/iputils.hh; `none` is its NetmaskException.
unfoldable pub make_combo_address : Resolver → Str → Option ComboAddress
unfolding make_ipv6_sockaddr
make_combo_address r s = elim (r.pton4 s) [
  | some bytes ↦ some (record { family = inet; port = 0; bytes = bytes })
  | none ↦ make_ipv6_sockaddr r s 0
]

invalid : Str
invalid = b'i' ∷ b'n' ∷ b'v' ∷ b'a' ∷ b'l' ∷ b'i' ∷ b'd' ∷ []

host_or_invalid : Option Str → Str
unfolding invalid
host_or_invalid none = invalid
host_or_invalid (some s) = s

-- ComboAddress::toString
unfoldable pub address_to_string : Resolver → ComboAddress → Str
unfolding host_or_invalid
address_to_string r a = elim a.family [
  | unspec ↦ host_or_invalid none
  | _ ↦ host_or_invalid (r.host a)
]
