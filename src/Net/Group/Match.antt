-- ===== src/Net/Group/Match.antt =====
-- What NetmaskGroup::match of common/iputils.hh answers after additions and deletions.
use weakforced.Prelude.{
  Bool, true, false, ◌&&◌, ◌||◌, Option, none, some, List, [], ◌∷◌, is_some, if◌then◌else◌, ◌≡◌,
  arith, refl, ap, ◌∙◌, min, Bool-cases, inl, inr,
}
use weakforced.Net.Address.{ComboAddress, turns, is_ipv4}
use weakforced.Net.Mask.{Netmask}
use weakforced.Net.Tree.{
  position, width, insert_with, insert_or_assign, erase_key, lookup_address, lookup_bits, new_entry,
}
use weakforced.Net.Tree.Walks.{or_else, path_eq, bool_eq, position_eq, Position}
use weakforced.Net.Tree.Laws.{longest, lookup_walk-longest}
use weakforced.Net.Tree.Longest.{IsBest, lookup_walk-IsBest}
use weakforced.Net.Tree.Invariant.{entry, entry-insert_with, entry-erase_key}
use weakforced.Net.Tree.Entries.{position_eq_iff}
use weakforced.Net.Group.{NetmaskGroup, ok, add_netmask, delete_netmask, group_match, verdict}
use weakforced.Net.Group.Covers.{is_prefix, longest-congr, is_some-longest_update, longest-erase_ne}

-- The turns of a whole address.
abbrev pub path : ComboAddress → List Bool
path ip = turns ip (width ip)

-- The prefixes of an address, with the entries of the tree.
abbrev pub prefix_entry : ComboAddress → NetmaskGroup → List Bool → Option (Netmask × Bool)
prefix_entry ip g q = entry g.tree (is_ipv4 ip, q)

min-width : (ip : ComboAddress) → min 128 (width ip) ≡ width ip
unfolding width
min-width ip = elim (Bool-cases (is_ipv4 ip)) [ inl e ↦ rw e refl | inr e ↦ rw e refl ]

-- The best match for an address is the entry at its longest prefix that has one.
pub lookup_address-IsBest :
    (ip : ComboAddress) (g : NetmaskGroup)
    → IsBest (prefix_entry ip g) (path ip) (lookup_address ip g.tree)
unfolding lookup_address lookup_bits
lookup_address-IsBest ip g =
    rw (min-width ip) (lookup_walk-IsBest (is_ipv4 ip) (path ip) g.tree.root)

or_else-none {ℓ} : {A : Type ℓ} (x : Option A) → or_else x none ≡ x
or_else-none none = refl
or_else-none (some v) = refl

lookup_address-longest :
    (ip : ComboAddress) (g : NetmaskGroup)
    → lookup_address ip g.tree ≡ longest (prefix_entry ip g) (path ip)
unfolding lookup_address lookup_bits
lookup_address-longest ip g = rw (min-width ip) (
    lookup_walk-longest (is_ipv4 ip) none (path ip) g.tree.root
    ∙ or_else-none (longest (prefix_entry ip g) (path ip)))

-- No entry is negative.
pub record IsPositive (g : NetmaskGroup) : Type 0 where
  pub positive : (p : Position) (k : Netmask) (b : Bool) → entry g.tree p ≡ some (k, b) → b ≡ true

-- The mask is a prefix of the address.
abbrev pub covers : Netmask → ComboAddress → Bool
covers nm ip =
    bool_eq (is_ipv4 nm.network) (is_ipv4 ip) && is_prefix (turns nm.network nm.bits) (path ip)

verdict-is_some :
    (o : Option (Netmask × Bool))
    → ((k : Netmask) (b : Bool) → o ≡ some (k, b) → b ≡ true)
    → verdict o ≡ is_some o
unfolding verdict
verdict-is_some none h = refl
verdict-is_some (some (k, b)) h = h k b refl

verdict-or_else :
    (x y : Option (Netmask × Bool))
    → verdict x ≡ is_some x
    → verdict y ≡ is_some y
    → verdict (or_else x y) ≡ is_some (or_else x y)
verdict-or_else none y p q = q
verdict-or_else (some v) y p q = p

verdict-longest :
    (f : List Bool → Option (Netmask × Bool)) (p : List Bool)
    → ((q : List Bool) (k : Netmask) (b : Bool) → f q ≡ some (k, b) → b ≡ true)
    → verdict (longest f p) ≡ is_some (longest f p)
unfolding longest
verdict-longest f [] h = verdict-is_some (f []) (h [])
verdict-longest f (t ∷ p) h =
    verdict-or_else (longest (λ q. f (t ∷ q)) p) (f [])
      (verdict-longest (λ q. f (t ∷ q)) p (λ q. h (t ∷ q))) (verdict-is_some (f []) (h []))

group_match-is_some :
    (ip : ComboAddress) (g : NetmaskGroup)
    → IsPositive g
    → group_match ip g ≡ is_some (longest (prefix_entry ip g) (path ip))
unfolding group_match
group_match-is_some ip g h =
    rw (lookup_address-longest ip g)
      (verdict-longest (prefix_entry ip g) (path ip) (λ q. h.positive (is_ipv4 ip, q)))

new_entry-const :
    (nm : Netmask) (o : Option (Netmask × Bool)) → new_entry nm false (λ _. true) o ≡ (nm, true)
unfolding new_entry
new_entry-const nm none = refl
new_entry-const nm (some (k, b)) = refl

-- What the group holds after an addition.
prefix_entry-add :
    (nm : Netmask) (g g' : NetmaskGroup) (p : Position)
    → add_netmask nm true g ≡ ok g'
    → entry g'.tree p ≡ (if position_eq (position nm) p then some (nm, true) else entry g.tree p)
unfolding add_netmask insert_or_assign
prefix_entry-add nm g g' p h =
    rw (← new_entry-const nm (entry g.tree (position nm)))
      (entry-insert_with false (λ _. true) nm g.tree (tree_of h) p)
  where
    tree_of : add_netmask nm true g ≡ ok g' → insert_with false (λ _. true) nm g.tree ≡ some g'.tree
    tree_of e = ground arith

pub add_netmask-IsPositive :
    (nm : Netmask) (g g' : NetmaskGroup)
    → add_netmask nm true g ≡ ok g'
    → IsPositive g
    → IsPositive g'
add_netmask-IsPositive nm g g' h w = record {
  positive = λ p k b e. ground (arith, prefix_entry-add nm g g' p h, w.positive p k b);
}

same_family :
    (nm : Netmask) (ip : ComboAddress) (g g' : NetmaskGroup)
    → add_netmask nm true g ≡ ok g'
    → bool_eq (is_ipv4 nm.network) (is_ipv4 ip) ≡ true
    → (q : List Bool)
    → prefix_entry ip g' q
      ≡ (if path_eq (turns nm.network nm.bits) q then some (nm, true) else prefix_entry ip g q)
unfolding position position_eq
same_family nm ip g g' h e q = prefix_entry-add nm g g' (is_ipv4 ip, q) h ∙ rw e refl

other_family :
    (nm : Netmask) (ip : ComboAddress) (g g' : NetmaskGroup)
    → add_netmask nm true g ≡ ok g'
    → bool_eq (is_ipv4 nm.network) (is_ipv4 ip) ≡ false
    → (q : List Bool) → prefix_entry ip g' q ≡ prefix_entry ip g q
unfolding position position_eq
other_family nm ip g g' h e q = prefix_entry-add nm g g' (is_ipv4 ip, q) h ∙ rw e refl

-- In a group with no negative mask, adding a mask makes the addresses that it covers match, and
-- leaves the answer for every other address.
pub group_match-add_netmask :
    (nm : Netmask) (ip : ComboAddress) (g g' : NetmaskGroup)
    → IsPositive g
    → add_netmask nm true g ≡ ok g'
    → group_match ip g' ≡ (covers nm ip || group_match ip g)
group_match-add_netmask nm ip g g' w h =
    rw (group_match-is_some ip g w, group_match-is_some ip g' (add_netmask-IsPositive nm g g' h w))
      (elim (Bool-cases (bool_eq (is_ipv4 nm.network) (is_ipv4 ip))) [
        | inl e ↦ rw e (
            is_some-longest_update (prefix_entry ip g) (prefix_entry ip g') (nm, true)
              (turns nm.network nm.bits) (path ip) (λ q. same_family nm ip g g' h e q))
        | inr e ↦ rw e (
            ap is_some (
              longest-congr (prefix_entry ip g) (prefix_entry ip g') (path ip)
                (λ q. other_family nm ip g g' h e q)))
      ])

-- What the group holds after a deletion.
prefix_entry-delete :
    (nm : Netmask) (g g' : NetmaskGroup) (p : Position)
    → delete_netmask nm g ≡ ok g'
    → entry g'.tree p ≡ (if position_eq (position nm) p then none else entry g.tree p)
unfolding delete_netmask
prefix_entry-delete nm g g' p h = entry-erase_key nm g.tree (tree_of h) p
  where
    tree_of : delete_netmask nm g ≡ ok g' → erase_key nm g.tree ≡ some g'.tree
    tree_of e = ground arith

pub delete_netmask-IsPositive :
    (nm : Netmask) (g g' : NetmaskGroup)
    → delete_netmask nm g ≡ ok g'
    → IsPositive g
    → IsPositive g'
delete_netmask-IsPositive nm g g' h w = record {
  positive = λ p k b e. ground (arith, prefix_entry-delete nm g g' p h, w.positive p k b);
}

-- A deletion of a mask that succeeds leaves the answer for every address that the mask does not cover.
pub group_match-delete_netmask :
    (nm : Netmask) (ip : ComboAddress) (g g' : NetmaskGroup)
    → delete_netmask nm g ≡ ok g'
    → covers nm ip ≡ false
    → group_match ip g' ≡ group_match ip g
unfolding group_match position position_eq
group_match-delete_netmask nm ip g g' h e =
    rw (lookup_address-longest ip g, lookup_address-longest ip g')
      (elim (Bool-cases (bool_eq (is_ipv4 nm.network) (is_ipv4 ip))) [
        | inl s ↦ ap verdict (
            longest-erase_ne (prefix_entry ip g) (prefix_entry ip g') (turns nm.network nm.bits)
              (path ip) (λ q. prefix_entry-delete nm g g' (is_ipv4 ip, q) h ∙ rw s refl)
              (ground arith))
        | inr s ↦ ap verdict (
            longest-congr (prefix_entry ip g) (prefix_entry ip g') (path ip)
              (λ q. prefix_entry-delete nm g g' (is_ipv4 ip, q) h ∙ rw s refl))
      ])

-- Adding a mask whose position was free and deleting it again, both with success, leaves every answer
-- as it was.
pub group_match-delete_add :
    (nm : Netmask) (ip : ComboAddress) (g g' g'' : NetmaskGroup)
    → entry g.tree (position nm) ≡ none
    → add_netmask nm true g ≡ ok g'
    → delete_netmask nm g' ≡ ok g''
    → group_match ip g'' ≡ group_match ip g
unfolding group_match
group_match-delete_add nm ip g g' g'' free h k =
    rw (lookup_address-longest ip g, lookup_address-longest ip g'')
      (ap verdict (
        longest-congr (prefix_entry ip g) (prefix_entry ip g'') (path ip) (λ q. ground (
          arith,
          prefix_entry-delete nm g' g'' (is_ipv4 ip, q) k,
          prefix_entry-add nm g g' (is_ipv4 ip, q) h,
          position_eq_iff (position nm) (is_ipv4 ip, q),
        ))))
