-- ===== src/Net/Group/Ipv4.antt =====
-- For IPv4 the tree of common/iputils.hh and Netmask::match agree on what a mask covers.
use weakforced.Prelude.{ℕ, zero, suc, ◌≤◌, ◌<◌, ◌^◌, Bool, true, false, ◌||◌, ◌≡◌, arith, refl, ◌∙◌}
use weakforced.Net.Address.{ComboAddress, inet, is_ipv4, turns, turns_from, big_endian}
use weakforced.Net.Mask.{Netmask, mask_of_bits, matches}
use weakforced.Net.Prefix.{matches-path_eq}
use weakforced.Net.Tree.{width, in_width, insert_with, insert_or_assign}
use weakforced.Net.Tree.Walks.{path_eq}
use weakforced.Net.Group.{NetmaskGroup, ok, add_netmask, group_match}
use weakforced.Net.Group.Covers.{is_prefix}
use weakforced.Net.Group.Match.{covers, IsPositive, group_match-add_netmask}

is_prefix-turns :
    (a b : ComboAddress) (k n m : ℕ)
    → n ≤ m
    → is_prefix (turns_from a k n) (turns_from b k m)
      ≡ path_eq (turns_from a k n) (turns_from b k n)
unfolding turns_from is_prefix
is_prefix-turns a b k zero m le = refl
is_prefix-turns a b k (suc n) zero le = absurd (omega arith)
is_prefix-turns a b k (suc n) (suc m) le = rw (is_prefix-turns a b (suc k) n m (omega arith)) refl

-- An IPv4 network as the constructors of Netmask build it: its bits, its mask, a 32-bit number.
pub record IsIpv4Mask (nm : Netmask) : Type 0 where
  pub family : nm.network.family ≡ inet
  pub bits : nm.bits ≤ 32
  pub mask : nm.mask ≡ mask_of_bits nm.bits
  pub number : big_endian nm.network.bytes < 2 ^ 32

bool_of_iff : (a b : Bool) → (a ≡ true → b ≡ true) → (b ≡ true → a ≡ true) → a ≡ b
bool_of_iff true b f g = ground arith
bool_of_iff false true f g = ground arith
bool_of_iff false false f g = refl

covers-matches :
    (nm : Netmask) (ip : ComboAddress)
    → IsIpv4Mask nm
    → ip.family ≡ inet
    → big_endian ip.bytes < 2 ^ 32
    → covers nm ip ≡ matches nm ip
unfolding is_ipv4 width
covers-matches nm ip w e lt =
    covers_path
    ∙ bool_of_iff _ _ (matches-path_eq nm ip w.family e w.bits w.mask w.number lt).1
        (matches-path_eq nm ip w.family e w.bits w.mask w.number lt).0
  where
    covers_path : covers nm ip ≡ path_eq (turns nm.network nm.bits) (turns ip nm.bits)
    covers_path = ground (arith, w.family, is_prefix-turns nm.network ip 0 nm.bits 32 w.bits)

-- In a group with no negative mask, after an IPv4 mask of at most 32 bits is added with success, an
-- IPv4 address matches the group exactly when Netmask::match accepts it for that mask or it matched
-- before. The addresses are 32-bit numbers.
pub group_match-add_ipv4 :
    (nm : Netmask) (ip : ComboAddress) (g g' : NetmaskGroup)
    → IsPositive g
    → IsIpv4Mask nm
    → ip.family ≡ inet
    → big_endian ip.bytes < 2 ^ 32
    → add_netmask nm true g ≡ ok g'
    → group_match ip g' ≡ (matches nm ip || group_match ip g)
group_match-add_ipv4 nm ip g g' p w e lt h =
    rw (← covers-matches nm ip w e lt) (group_match-add_netmask nm ip g g' p h)

in_width-ipv4 : (nm : Netmask) → IsIpv4Mask nm → in_width nm ≡ true
unfolding in_width width is_ipv4
in_width-ipv4 nm w = ground (arith, w.family, w.bits)

-- Such a mask stays within the bits of its address, so adding it does not fail.
pub add_netmask-ok :
    (nm : Netmask) (positive : Bool) (g : NetmaskGroup)
    → IsIpv4Mask nm
    → (g' : NetmaskGroup) × (add_netmask nm positive g ≡ ok g')
unfolding add_netmask insert_or_assign insert_with
add_netmask-ok nm positive g w = rw (in_width-ipv4 nm w) (_, refl)
