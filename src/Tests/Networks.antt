-- ===== src/Tests/Networks.antt =====
-- Runs of the model on concrete networks.
use weakforced.Prelude.{
  ℕ, ◌+◌, ◌<◌, ◌^◌, true, false, ◌||◌, Option, none, some, [], ◌∷◌, ◌≡◌, ◌↔◌, refl, arith,
  if◌then◌else◌,
}
use weakforced.Net.Address.{
  ComboAddress, inet, inet6, turns, turns_from, address_bit, is_ipv4, big_endian,
}
use weakforced.Net.Mask.{Netmask, mask_of_bits, matches}
use weakforced.Net.Tree.{
  NetmaskTree, empty_tree, position, insert_with, insert_or_assign, erase_key, lookup_address,
  new_entry, width,
}
use weakforced.Net.Tree.Walks.{path_eq, position_eq, payload, lookup_walk, insert_walk, erase_walk}
use weakforced.Net.Tree.Longest.{IsBest}
use weakforced.Net.Tree.Invariant.{
  IsWellFormed, empty_tree-IsWellFormed, entry, entry-insert_with, insert_with-IsWellFormed,
  entry-erase_key, erase_key-IsWellFormed,
}
use weakforced.Net.Prefix.{matches-path_eq}
use weakforced.Net.Group.{
  NetmaskGroup, Result, ok, fail, outside_address, empty_group, add_netmask, delete_netmask,
  group_match,
}
use weakforced.Net.Group.Covers.{is_prefix}
use weakforced.Net.Group.Match.{
  lookup_address-IsBest, prefix_entry, path, covers, IsPositive, add_netmask-IsPositive,
  group_match-delete_netmask, group_match-delete_add,
}
use weakforced.Net.Group.Ipv4.{IsIpv4Mask, group_match-add_ipv4}

abbrev four : ℕ → ℕ → ℕ → ℕ → ComboAddress
four a b c d = record { family = inet; port = 0; bytes = a ∷ b ∷ c ∷ d ∷ [] }

abbrev host : ComboAddress
host = four 10 1 2 3

abbrev elsewhere : ComboAddress
elsewhere = four 192 0 2 1

-- 10.0.0.0/8, 10.1.0.0/16 and 2001:db8::/32
abbrev ten_8 : Netmask
ten_8 = record { network = four 10 0 0 0; mask = 0xFF000000; bits = 8 }

abbrev ten_16 : Netmask
ten_16 = record { network = four 10 1 0 0; mask = 0xFFFF0000; bits = 16 }

abbrev doc_32 : Netmask
doc_32 = record {
  network = record {
    family = inet6;
    port = 0;
    bytes = 0x20 ∷ 0x01 ∷ 0x0D ∷ 0xB8 ∷ 0 ∷ 0 ∷ 0 ∷ 0 ∷ 0 ∷ 0 ∷ 0 ∷ 0 ∷ 0 ∷ 0 ∷ 0 ∷ 0 ∷ [];
  };
  mask = 0xFFFFFFFF;
  bits = 32;
}

abbrev group_or : NetmaskGroup → Result NetmaskGroup → NetmaskGroup
group_or g (ok g') = g'
group_or g (fail e) = g
group_or g outside_address = g

-- A group with 10.0.0.0/8, and one with 10.1.0.0/16 too.
abbrev one : NetmaskGroup
one = group_or empty_group (add_netmask ten_8 true empty_group)

abbrev two : NetmaskGroup
two = group_or one (add_netmask ten_16 true one)

-- The second group after 10.1.0.0/16 is deleted.
abbrev fewer : NetmaskGroup
fewer = group_or two (delete_netmask ten_16 two)

abbrev tree_or : NetmaskTree ℕ → Option (NetmaskTree ℕ) → NetmaskTree ℕ
tree_or t none = t
tree_or t (some t') = t'

abbrev no_keys : NetmaskTree ℕ
no_keys = empty_tree true

abbrev one_key : NetmaskTree ℕ
one_key = tree_or no_keys (insert_with 0 (λ n. n + 1) ten_8 no_keys)

abbrev two_keys : NetmaskTree ℕ
two_keys = tree_or one_key (insert_with 0 (λ n. n + 1) doc_32 one_key)

abbrev one_left : NetmaskTree ℕ
one_left = tree_or two_keys (erase_key ten_8 two_keys)

networks : Unit {0}
unfolding add_netmask delete_netmask empty_group insert_with erase_key empty_tree mask_of_bits
    big_endian matches group_match lookup_address insert_or_assign is_ipv4 lookup_walk insert_walk
    erase_walk turns_from address_bit payload is_prefix width
networks = tt

ten_8-IsIpv4Mask : IsIpv4Mask ten_8
unfolding mask_of_bits big_endian
ten_8-IsIpv4Mask = record { family = refl; bits = omega arith; mask = refl; number = omega arith }

ten_16-IsIpv4Mask : IsIpv4Mask ten_16
unfolding mask_of_bits big_endian
ten_16-IsIpv4Mask = record { family = refl; bits = omega arith; mask = refl; number = omega arith }

host-number : big_endian host.bytes < 2 ^ 32
unfolding big_endian
host-number = omega arith

empty_group-IsPositive : IsPositive empty_group
unfolding empty_group payload empty_tree
empty_group-IsPositive = record { positive = λ p k b h. absurd (ground arith) }

added_8 : add_netmask ten_8 true empty_group ≡ ok one
unfolding networks
added_8 = refl

added_16 : add_netmask ten_16 true one ≡ ok two
unfolding networks
added_16 = refl

deleted_16 : delete_netmask ten_16 two ≡ ok fewer
unfolding networks
deleted_16 = refl

one-IsPositive : IsPositive one
one-IsPositive = add_netmask-IsPositive ten_8 empty_group one added_8 empty_group-IsPositive

-- The /8 covers the host, and the longer mask is found first.
lookups :
    (group_match host two ≡ true)
    × (group_match elsewhere two ≡ false)
    × (lookup_address host two.tree ≡ some (ten_16, true))
    × (lookup_address (four 10 2 0 0) two.tree ≡ some (ten_8, true))
unfolding networks
lookups = (refl, refl, refl, refl)

lookup_address-IsBest_example :
    IsBest (prefix_entry host two) (path host) (lookup_address host two.tree)
lookup_address-IsBest_example = lookup_address-IsBest host two

matches-path_eq_example :
    (matches ten_8 host ≡ true) ↔ (path_eq (turns (four 10 0 0 0) 8) (turns host 8) ≡ true)
matches-path_eq_example =
    matches-path_eq ten_8 host refl refl (omega arith) ten_8-IsIpv4Mask.mask ten_8-IsIpv4Mask.number
      host-number

group_match-add_ipv4_example : group_match host two ≡ (matches ten_16 host || group_match host one)
group_match-add_ipv4_example =
    group_match-add_ipv4 ten_16 host one two one-IsPositive ten_16-IsIpv4Mask refl host-number
      added_16

not_covered : covers ten_16 elsewhere ≡ false
unfolding networks
not_covered = refl

group_match-delete_netmask_example : group_match elsewhere fewer ≡ group_match elsewhere two
group_match-delete_netmask_example =
    group_match-delete_netmask ten_16 elsewhere two fewer deleted_16 not_covered

free_16 : entry one.tree (position ten_16) ≡ none
unfolding networks
free_16 = refl

group_match-delete_add_example : group_match host fewer ≡ group_match host one
group_match-delete_add_example =
    group_match-delete_add ten_16 host one two fewer free_16 added_16 deleted_16

inserted_8 : insert_with 0 (λ n. n + 1) ten_8 no_keys ≡ some one_key
unfolding networks
inserted_8 = refl

inserted_32 : insert_with 0 (λ n. n + 1) doc_32 one_key ≡ some two_keys
unfolding networks
inserted_32 = refl

erased_8 : erase_key ten_8 two_keys ≡ some one_left
unfolding networks
erased_8 = refl

entry-insert_with_example : entry two_keys (position ten_8) ≡ (
    if position_eq (position doc_32) (position ten_8)
    then some (new_entry doc_32 0 (λ n. n + 1) (entry one_key (position doc_32)))
    else entry one_key (position ten_8))
entry-insert_with_example =
    entry-insert_with 0 (λ n. n + 1) doc_32 one_key inserted_32 (position ten_8)

one_key-IsWellFormed : IsWellFormed one_key
one_key-IsWellFormed =
    insert_with-IsWellFormed 0 (λ n. n + 1) ten_8 no_keys inserted_8 (empty_tree-IsWellFormed true)

insert_with-IsWellFormed_example : IsWellFormed two_keys
insert_with-IsWellFormed_example =
    insert_with-IsWellFormed 0 (λ n. n + 1) doc_32 one_key inserted_32 one_key-IsWellFormed

entry-erase_key_example : entry one_left (position doc_32) ≡ (
    if position_eq (position ten_8) (position doc_32)
    then none
    else entry two_keys (position doc_32))
entry-erase_key_example = entry-erase_key ten_8 two_keys erased_8 (position doc_32)

two_keys-IsWellFormed : IsWellFormed two_keys
two_keys-IsWellFormed =
    insert_with-IsWellFormed 0 (λ n. n + 1) doc_32 one_key inserted_32 one_key-IsWellFormed

erase_key-IsWellFormed_example : IsWellFormed one_left
erase_key-IsWellFormed_example =
    erase_key-IsWellFormed ten_8 two_keys erased_8 two_keys-IsWellFormed
