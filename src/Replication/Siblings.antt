-- ===== src/Replication/Siblings.antt =====
-- The list of the siblings (wforce/wforce-sibling.cc).
use weakforced.Prelude.{
  ℕ, ◌+◌, ◌%◌, ◌==◌, Bool, true, false, ◌||◌, Option, none, some, List, [], ◌∷◌, ◌++◌, Str,
  if◌then◌else◌, length, take, drop,
}
use weakforced.Misc.{Resolver, find, make_ipv6_sockaddr}
use weakforced.Net.Address.{ComboAddress, address_eq, inet}
use weakforced.Replication.Sibling.{
  Protocol, udp, string_to_protocol, Sibling, new_sibling, check_ignore_self,
}

-- Calls of libc: inet_aton, strtol (`none` when it does not read the whole text), the text of the
-- first address of getaddrinfo (`none` where siblingHostToAddress throws), the local address that
-- getsockname gives for a remote one, and B64Decode.
pub record Names : Type 0 where
  pub resolver : Resolver
  pub aton : Str → Option (List ℕ)
  pub strtol : Str → Option ℕ
  pub sibling_host_to_address : Str → Option Str
  pub local_address : ComboAddress → Option ComboAddress
  pub b64_decode : Str → Option Str
  pub to_bool : Str → Bool

-- sibling_connect_timeout and sibling_queue_size
pub record Limits : Type 0 where
  pub sibling_connect_timeout : ℕ
  pub sibling_queue_size : ℕ

after_aton : Option (List ℕ) → ℕ → Option ComboAddress × ℕ
after_aton none port = (none, port)
after_aton (some bytes) port = (some (record { family = inet; port = port; bytes = bytes }), port)

with_port : Option ℕ → Option (List ℕ) → Option ComboAddress × ℕ
unfolding after_aton
with_port none a = (none, 0)
with_port (some port) a = after_aton a (port % 65536)

-- makeIPv4sockaddr: the address, and the port that it has set even where it fails.
unfoldable pub make_ipv4_sockaddr : Names → Str → Option ComboAddress × ℕ
unfolding after_aton with_port
make_ipv4_sockaddr r [] = (none, 0)
make_ipv4_sockaddr r (c ∷ s) =
    let text = c ∷ s in
    elim (find b':' text) [
      | none ↦ after_aton (r.aton text) 0
      | some pos ↦
          if length text == pos + 1
          then (none, 0)
          else with_port (r.strtol (drop (pos + 1) text)) (r.aton (take pos text))
    ]

first_address : Option ComboAddress → Option ComboAddress → Option ComboAddress
first_address none b = b
first_address (some a) b = some a

default_port : ℕ → Option ComboAddress → Option ComboAddress
default_port port none = none
default_port port (some a) = some (if a.port == 0 then record a { port = port } else a)

-- The constructor of ComboAddress from a text and a default port; `none` is its exception.
unfoldable pub combo_address : Names → Str → ℕ → Option ComboAddress
unfolding first_address default_port
combo_address r s port =
    let v4 = make_ipv4_sockaddr r s in
    default_port port (first_address v4.0 (make_ipv6_sockaddr r.resolver s v4.1))

unfoldable pub split_next : ℕ → ℕ → List Str → List Str
split_next c a [] = []
split_next c a (part ∷ parts) = if a == c then [] ∷ part ∷ parts else (a ∷ part) ∷ parts

-- boost::split at a character, which gives a part more than there are separators.
unfoldable pub split : ℕ → Str → List Str
unfolding split_next
split c [] = [] ∷ []
split c (a ∷ s) = split_next c a (split c s)

-- boost::join
unfoldable pub join : ℕ → List Str → Str
join c [] = []
join c (part ∷ []) = part
join c (part ∷ next ∷ parts) = part ++ c ∷ join c (next ∷ parts)

unfoldable pub last_part : List Str → Str
last_part [] = []
last_part (part ∷ []) = part
last_part (part ∷ next ∷ parts) = last_part (next ∷ parts)

unfoldable pub but_last : List Str → List Str
but_last [] = []
but_last (part ∷ []) = []
but_last (part ∷ next ∷ parts) = part ∷ but_last (next ∷ parts)

-- The protocol at the end, and what is before it.
unfoldable pub split_protocol : Str → Protocol × Str
split_protocol s = elim (string_to_protocol (last_part (split b':' s))) [
  | none ↦ (udp, s)
  | some proto ↦ (proto, join b':' (but_last (split b':' s)))
]

after_host : Option Str → Str → Option Str
after_host none rest = none
after_host (some host) rest = some (host ++ rest)

-- A host alone or with a port is looked up; the rest stays as it is.
unfoldable pub host_address : Names → Str → Option Str
unfolding after_host
host_address r host_port = elim (split b':' host_port) [
  | [] ↦ some host_port
  | host ∷ parts ↦ elim parts [
    | [] ↦ after_host (r.sibling_host_to_address host) []
    | port ∷ more ↦ elim more [
      | [] ↦ after_host (r.sibling_host_to_address host) (b':' ∷ port)
      | next ∷ rest ↦ some host_port
    ]
  ]
]

with_protocol : Protocol → Option ComboAddress → Option (ComboAddress × Protocol)
with_protocol p none = none
with_protocol p (some ca) = some (ca, p)

-- parseSiblingString; `none` is an exception.
unfoldable pub parse_sibling_string : Names → Str → Option (ComboAddress × Protocol)
unfolding with_protocol
parse_sibling_string r s = elim (host_address r (split_protocol s).1) [
  | none ↦ none
  | some address ↦ with_protocol (split_protocol s).0 (combo_address r address 4001)
]

-- siblingAddressPortExists
unfoldable pub sibling_address_port_exists : ComboAddress → List Sibling → Bool
sibling_address_port_exists ca [] = false
sibling_address_port_exists ca (s ∷ siblings) =
    address_eq s.rem ca || sibling_address_port_exists ca siblings

-- The lambda of removeSibling: the first with the address goes.
unfoldable pub remove_first : ComboAddress → List Sibling → List Sibling × Bool
remove_first ca [] = ([], false)
remove_first ca (s ∷ siblings) =
    let rest = remove_first ca siblings in
    if address_eq s.rem ca then (siblings, true) else (s ∷ rest.0, rest.1)

-- removeSibling
unfoldable pub remove_sibling : Names → Str → List Sibling → List Sibling × Bool
remove_sibling r address siblings = elim (parse_sibling_string r address) [
  | none ↦ (siblings, false)
  | some (ca, proto) ↦ remove_first ca siblings
]

-- addSibling of a sibling that is made
unfoldable pub add_made : Sibling → List Sibling → List Sibling × Bool
add_made s siblings =
    if sibling_address_port_exists s.rem siblings
    then (siblings, false)
    else (siblings ++ s ∷ [], true)

unfoldable pub make_sibling : Names → Limits → ComboAddress → Protocol → Str → Bool → Bool → Sibling
make_sibling r limits ca proto key send_sdb send_wlbl = check_ignore_self (r.local_address ca) (
    new_sibling ca proto key limits.sibling_connect_timeout limits.sibling_queue_size send_sdb
      send_wlbl)

-- addSiblingWithKey; addSibling has the empty key.
unfoldable pub add_sibling_with_key :
    Names → Limits → Str → Str → Bool → Bool → List Sibling → List Sibling × Bool
add_sibling_with_key r limits address key send_sdb send_wlbl siblings = elim (r.b64_decode key) [
  | none ↦ (siblings, false)
  | some raw_key ↦ elim (parse_sibling_string r address) [
    | none ↦ (siblings, false)
    | some (ca, proto) ↦
        add_made (make_sibling r limits ca proto raw_key send_sdb send_wlbl) siblings
  ]
]

-- A row of setSiblingsWithKey that passes its first loop: address, protocol, key and the two flags.
-- A row of fewer than one value is undefined in the source; its callers give two or four.
unfoldable pub read_row : Names → List Str → Option (ComboAddress × Protocol × Str × Bool × Bool)
read_row r row = elim (parse_sibling_string r (last_part (take 1 row))) [
  | none ↦ none
  | some (ca, proto) ↦
      if (length row == 2) || (length row == 4)
      then elim (r.b64_decode (last_part (take 2 row))) [
        | none ↦ none
        | some raw_key ↦ some (
          ca,
          proto,
          raw_key,
          if length row == 4 then r.to_bool (last_part (take 3 row)) else true,
          if length row == 4 then r.to_bool (last_part (take 4 row)) else true,
        )
      ]
      else none
]

unfoldable pub read_rows :
    Names → List (List Str) → Option (List (ComboAddress × Protocol × Str × Bool × Bool))
read_rows r [] = some []
read_rows r (row ∷ rows) = elim (read_row r row) [
  | none ↦ none
  | some p ↦ elim (read_rows r rows) [ none ↦ none | some ps ↦ some (p ∷ ps) ]
]

-- The second loop, over the siblings made so far: duplicates are skipped.
unfoldable pub make_rows :
    Names
    → Limits
    → List (ComboAddress × Protocol × Str × Bool × Bool)
    → List Sibling
    → List Sibling
make_rows r limits [] v = v
make_rows r limits ((ca, proto, raw_key, send_sdb, send_wlbl) ∷ rows) v =
    if sibling_address_port_exists ca v
    then make_rows r limits rows v
    else make_rows r limits rows
        (v ++ make_sibling r limits ca proto raw_key send_sdb send_wlbl ∷ [])

-- setSiblingsWithKey; setSiblings gives each address the empty key.
unfoldable pub set_siblings_with_key :
    Names → Limits → List (List Str) → List Sibling → List Sibling × Bool
set_siblings_with_key r limits parts siblings = elim (read_rows r parts) [
  | none ↦ (siblings, false)
  | some rows ↦ (make_rows r limits rows [], true)
]
