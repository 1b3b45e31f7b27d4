-- ===== src/Blwl/Addresses.antt =====
-- checkEntry for addresses in wforce/blackwhitelist.cc: the netmask group answers, so an entry of
-- the list of addresses counts for every address that its mask covers.
use weakforced.Prelude.{
  ◌<◌, ◌^◌, Bool, true, false, ◌||◌, some, [], ◌∷◌, Str, ℤ, ◌==◌, ◌≡◌, refl, arith, ◌∙◌, ap,
}
use weakforced.Net.Address.{ComboAddress, inet, big_endian}
use weakforced.Net.Mask.{Netmask, matches, of_string}
use weakforced.Net.Group.{NetmaskGroup, add_mask, add_text, add_netmask, group_match}
use weakforced.Net.Group.Match.{IsPositive}
use weakforced.Net.Group.Ipv4.{IsIpv4Mask, group_match-add_ipv4, add_netmask-ok}
use weakforced.Misc.{Resolver}
use weakforced.Blwl.Act.{ip_blwl, Db, Env}
use weakforced.Blwl.Lists.{add_entry_internal}
use weakforced.Blwl.Api.{check_address}
use weakforced.Blwl.Changes.{group_after, netmask-add_entry_internal}

abbrev pub is_negated : Str → Bool
is_negated [] = false
is_negated (c ∷ rest) = c == b'!'

-- A key of the list of addresses, as the methods build it: the text of a mask.
pub record IsMaskText (r : Resolver) (key : Str) (nm : Netmask) : Type 0 where
  pub parsed : of_string r key ≡ some nm
  pub positive : is_negated key ≡ false

add_mask-text :
    (r : Resolver) (key : Str) (nm : Netmask) (g : NetmaskGroup)
    → IsMaskText r key nm
    → add_mask r key true g ≡ add_netmask nm true g
unfolding add_mask add_text
add_mask-text r [] nm g h = rw (h.parsed, add_text) refl
add_mask-text r (c ∷ rest) nm g h = ground (arith, h.parsed, h.positive)

-- After addEntryInternal for an IPv4 network of at most 32 bits, whatever the later steps do,
-- checkEntry accepts an IPv4 address exactly when the network's mask matches it or it was accepted
-- before. The group holds no negative mask, the key is the text of the network, and the addresses are
-- 32-bit numbers.
pub check_address-add_entry_internal :
    (env : Env) (key : Str) (seconds : ℤ) (reason : Str) (replicated : Bool) (s : Db) (nm : Netmask)
    (ip : ComboAddress)
    → IsMaskText env.resolver key nm
    → IsPositive s.iplist_netmask
    → IsIpv4Mask nm
    → ip.family ≡ inet
    → big_endian ip.bytes < 2 ^ 32
    → check_address ip (add_entry_internal env key seconds ip_blwl reason replicated s).0
      ≡ (matches nm ip || check_address ip s)
unfolding check_address
check_address-add_entry_internal env key seconds reason replicated s nm ip h p w e lt =
    let (g', added) = add_netmask-ok nm true s.iplist_netmask w in
    ap (group_match ip) (
      netmask-add_entry_internal env key seconds ip_blwl reason replicated s
      ∙ ap (group_after s.iplist_netmask)
          (add_mask-text env.resolver key nm s.iplist_netmask h ∙ added))
    ∙ group_match-add_ipv4 nm ip s.iplist_netmask g' p w e lt added
