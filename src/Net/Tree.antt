-- ===== src/Net/Tree.antt =====
-- NetmaskTree of common/iputils.hh: a binary tree over the bits of an address, with a slot for an
-- IPv4 and one for any other entry in each node. A loop of the source reads the bits of the
-- address one by one; here it walks the list of those turns (`false` is left, `true` is right).
pub mod Walks
pub mod Laws
pub mod Longest
pub mod Compact
pub mod Entries
pub mod Invariant
use weakforced.Prelude.{
  ℕ, Bool, true, false, ◌&&◌, Option, none, some, List, [], ◌∷◌, length, ltb, min, not,
  if◌then◌else◌, is_some, keep, take,
}
use weakforced.Net.Address.{ComboAddress, turns, is_ipv4}
use weakforced.Net.Mask.{Netmask, netmask_eq}
use Walks.{
  TreeNode, absent, node, Position, position_eq, make, insert_walk, lookup_walk, erase_walk,
  payload, reaches,
}

-- `nodes` is the set of pointers to the entries, each given by its position.
pub record NetmaskTree {ℓ} (T : Type ℓ) : Type ℓ where
  pub root : TreeNode (Netmask × T)
  pub nodes : List Position
  pub cleanup_tree : Bool

-- The bits that the tree holds for an address.
unfoldable pub width : ComboAddress → ℕ
width a = if is_ipv4 a then 32 else 128

-- Where the walk for a key ends.
unfoldable pub position : Netmask → Position
position key = (is_ipv4 key.network, turns key.network key.bits)

-- The walk stays within the bits of the address. Behind them the source reads outside its bitset.
unfoldable pub in_width : Netmask → Bool
unfolding width
in_width key = not (ltb (width key.network) key.bits)

module _ {ℓ} {T : Type ℓ} where
  unfoldable pub empty_tree : Bool → NetmaskTree T
  empty_tree cleanup = record { root = absent; nodes = []; cleanup_tree = cleanup }

  unfoldable pub new_entry : Netmask → T → (T → T) → Option (Netmask × T) → Netmask × T
  new_entry key fresh assign none = (key, assign fresh)
  new_entry key fresh assign (some (_, old)) = (key, assign old)

  -- `insert`, and `assign` for what the caller then writes through the reference that it returns;
  -- `fresh` is T(). `none`: a bit outside the address is read.
  unfoldable pub insert_with : T → (T → T) → Netmask → NetmaskTree T → Option (NetmaskTree T)
  unfolding in_width position new_entry
  insert_with fresh assign key t =
      let (v4, path) = position key in
      let old = payload v4 path t.root in
      if in_width key
      then some (record t {
        root = insert_walk v4 (new_entry key fresh assign old) path (make t.root);
        nodes = if is_some old then t.nodes else (v4, path) ∷ t.nodes;
      })
      else none

  -- `insert_or_assign`
  unfoldable pub insert_or_assign : T → Netmask → T → NetmaskTree T → Option (NetmaskTree T)
  insert_or_assign fresh key value = insert_with fresh (λ _. value) key

  -- Best match, reading at most `max_bits` bits.
  unfoldable pub lookup_bits : ComboAddress → ℕ → NetmaskTree T → Option (Netmask × T)
  unfolding width
  lookup_bits a max_bits t = lookup_walk (is_ipv4 a) none (turns a (min max_bits (width a))) t.root

  unfoldable pub lookup_address : ComboAddress → NetmaskTree T → Option (Netmask × T)
  unfolding lookup_bits
  lookup_address a = lookup_bits a 128

  unfoldable pub lookup_mask : Netmask → NetmaskTree T → Option (Netmask × T)
  unfolding lookup_bits
  lookup_mask key = lookup_bits key.network key.bits

  unfoldable pub has_key : Netmask → NetmaskTree T → Bool
  unfolding lookup_mask
  has_key key t = elim (lookup_mask key t) [ none ↦ false | some (k, _) ↦ netmask_eq k key ]

  -- The root is deleted by no cleanup: it has no parent.
  unfoldable pub keep_root : TreeNode (Netmask × T) → TreeNode (Netmask × T)
  keep_root absent = make absent
  keep_root (node l r a b) = node l r a b

  unfoldable pub erase_root : Bool → Position → TreeNode (Netmask × T) → TreeNode (Netmask × T)
  unfolding keep_root
  erase_root cleanup (v4, path) absent = absent
  erase_root cleanup (v4, path) (node l r a b) =
      keep_root (erase_walk cleanup v4 path (node l r a b))

  unfoldable pub erase_at : Position → NetmaskTree T → NetmaskTree T
  unfolding erase_root
  erase_at (v4, path) t = record t {
    root = erase_root t.cleanup_tree (v4, path) t.root;
    nodes =
        if is_some (payload v4 path t.root)
        then keep (λ p. not (position_eq (v4, path) p)) t.nodes
        else t.nodes;
  }

  -- A key with more bits than its address: `none`, a bit outside the address is read, if the walk
  -- still has a node behind the last bit; a walk that ends before changes nothing.
  unfoldable pub erase_wide : Netmask → NetmaskTree T → Option (NetmaskTree T)
  unfolding width position
  erase_wide key t =
      if reaches (take (width key.network) (position key).1) t.root then none else some t

  -- `erase`
  unfoldable pub erase_key : Netmask → NetmaskTree T → Option (NetmaskTree T)
  unfolding in_width position erase_at erase_wide
  erase_key key t = if in_width key then some (erase_at (position key) t) else erase_wide key t

  unfoldable pub tree_size : NetmaskTree T → ℕ
  tree_size t = length t.nodes

  unfoldable pub tree_match : ComboAddress → NetmaskTree T → Bool
  unfolding lookup_address
  tree_match a t = is_some (lookup_address a t)

  unfoldable pub clear_tree : NetmaskTree T → NetmaskTree T
  clear_tree t = record t { root = absent; nodes = [] }
