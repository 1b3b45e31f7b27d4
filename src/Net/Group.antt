-- ===== src/Net/Group.antt =====
-- NetmaskGroup of common/iputils.hh: a tree of masks, each positive or negative.
pub mod Covers
pub mod Match
pub mod Ipv4
use weakforced.Prelude.{
  ℕ, Bool, true, false, Option, none, some, List, [], ◌∷◌, ◌==◌, if◌then◌else◌, Str,
}
use weakforced.Net.Address.{ComboAddress}
use weakforced.Net.Mask.{Netmask, of_string}
use weakforced.Net.Tree.{
  NetmaskTree, empty_tree, insert_or_assign, erase_key, lookup_address, tree_size,
}
use weakforced.Misc.{Resolver}

pub record NetmaskGroup : Type 0 where
  pub tree : NetmaskTree Bool

-- By default the tree cleans up.
unfoldable pub empty_group : NetmaskGroup
empty_group = record { tree = empty_tree true }

-- NetmaskException: the text of a mask cannot be read.
pub data MaskError : Type 0 where
  unparsable : MaskError

-- `outside_address` is undefined behaviour and not an exception: the source reads a bit outside the
-- address of a mask that has more bits.
pub data Result {ℓ} (A : Type ℓ) : Type ℓ where
  ok : A → Result A
  fail : MaskError → Result A
  outside_address : Result A

unfoldable pub regroup : Option (NetmaskTree Bool) → Result NetmaskGroup
regroup none = outside_address
regroup (some t) = ok (record { tree = t })

unfoldable pub add_netmask : Netmask → Bool → NetmaskGroup → Result NetmaskGroup
unfolding regroup
add_netmask nm positive g = regroup (insert_or_assign false nm positive g.tree)

unfoldable pub delete_netmask : Netmask → NetmaskGroup → Result NetmaskGroup
unfolding regroup
delete_netmask nm g = regroup (erase_key nm g.tree)

unfoldable pub add_text : Resolver → Str → Bool → NetmaskGroup → Result NetmaskGroup
unfolding add_netmask
add_text r ip positive g = elim (of_string r ip) [
  | none ↦ fail unparsable
  | some nm ↦ add_netmask nm positive g
]

-- A text that begins with '!' is a negative mask.
unfoldable pub add_mask : Resolver → Str → Bool → NetmaskGroup → Result NetmaskGroup
unfolding add_text
add_mask r [] positive g = add_text r [] positive g
add_mask r (c ∷ rest) positive g =
    if c == b'!' then add_text r rest false g else add_text r (c ∷ rest) positive g

unfoldable pub delete_mask : Resolver → Str → NetmaskGroup → Result NetmaskGroup
unfolding delete_netmask
delete_mask r [] g = ok g
delete_mask r (c ∷ rest) g = elim (of_string r (c ∷ rest)) [
  | none ↦ fail unparsable
  | some nm ↦ delete_netmask nm g
]

unfoldable pub verdict : Option (Netmask × Bool) → Bool
verdict none = false
verdict (some (_, positive)) = positive

unfoldable pub group_match : ComboAddress → NetmaskGroup → Bool
unfolding verdict
group_match ip g = verdict (lookup_address ip g.tree)

found_mask : Option (Netmask × Bool) → Netmask → Netmask
found_mask none nm = nm
found_mask (some (k, _)) nm = k

-- The result, and what `*nmp` holds afterwards, which was `nm`.
unfoldable pub group_lookup : ComboAddress → Netmask → NetmaskGroup → Bool × Netmask
unfolding verdict found_mask
group_lookup ip nm g =
    (verdict (lookup_address ip g.tree), found_mask (lookup_address ip g.tree) nm)

unfoldable pub group_size : NetmaskGroup → ℕ
unfolding tree_size
group_size g = tree_size g.tree
