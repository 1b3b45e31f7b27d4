-- ===== src/Net/Tree/Walks.antt =====
-- The nodes of the tree of common/iputils.hh and the walks of `insert`, `lookup` and `erase`.
use weakforced.Prelude.{Bool, true, false, ◌&&◌, Option, none, some, List, [], ◌∷◌}

-- Where a walk ends: is it the IPv4 slot, and by which turns.
abbrev pub Position : Type 0
Position = Bool × List Bool

abbrev pub bool_eq : Bool → Bool → Bool
bool_eq true true = true
bool_eq false false = true
bool_eq _ _ = false

abbrev pub path_eq : List Bool → List Bool → Bool
path_eq [] [] = true
path_eq (a ∷ s) (b ∷ t) = bool_eq a b && path_eq s t
path_eq _ _ = false

unfoldable pub position_eq : Position → Position → Bool
position_eq (a, p) (b, q) = bool_eq a b && path_eq p q

-- TreeNode: the children, `absent` being the null pointer, and the IPv4 and IPv6 slots. The parent
-- is the node that a walk comes from.
pub data TreeNode {ℓ} (V : Type ℓ) : Type ℓ where
  absent : TreeNode V
  node : TreeNode V → TreeNode V → Option V → Option V → TreeNode V

module _ {ℓ} {V : Type ℓ} where
  -- make_left and make_right: the child, or a new node.
  unfoldable pub make : TreeNode V → TreeNode V
  make absent = node absent absent none none
  make (node l r a b) = node l r a b

  abbrev pub slot : Bool → Option V → Option V → Option V
  slot true a b = a
  slot false a b = b

  abbrev pub node_with :
      Bool → TreeNode V → TreeNode V → Option V → Option V → Option V → TreeNode V
  node_with true l r a b v = node l r v b
  node_with false l r a b v = node l r a v

  abbrev pub or_else : Option V → Option V → Option V
  or_else none d = d
  or_else (some v) d = some v

  -- The entry in the slot at the end of a path.
  unfoldable pub payload : Bool → List Bool → TreeNode V → Option V
  payload v4 path absent = none
  payload v4 [] (node l r a b) = slot v4 a b
  payload v4 (false ∷ path) (node l r a b) = payload v4 path l
  payload v4 (true ∷ path) (node l r a b) = payload v4 path r

  -- There is a node at the end of a path.
  unfoldable pub reaches : List Bool → TreeNode V → Bool
  reaches path absent = false
  reaches [] (node l r a b) = true
  reaches (false ∷ path) (node l r a b) = reaches path l
  reaches (true ∷ path) (node l r a b) = reaches path r

  -- The walk of `insert`, from a node, to write `v`.
  unfoldable pub insert_walk : Bool → V → List Bool → TreeNode V → TreeNode V
  unfolding make
  insert_walk v4 v path absent = absent
  insert_walk v4 v [] (node l r a b) = node_with v4 l r a b (some v)
  insert_walk v4 v (false ∷ path) (node l r a b) = node (insert_walk v4 v path (make l)) r a b
  insert_walk v4 v (true ∷ path) (node l r a b) = node l (insert_walk v4 v path (make r)) a b

  -- The walk of `lookup`: `ret` is the last entry met, and the road ends at an absent child.
  unfoldable pub lookup_walk : Bool → Option V → List Bool → TreeNode V → Option V
  lookup_walk v4 ret path absent = ret
  lookup_walk v4 ret [] (node l r a b) = or_else (slot v4 a b) ret
  lookup_walk v4 ret (false ∷ path) (node l r a b) =
      lookup_walk v4 (or_else (slot v4 a b) ret) path l
  lookup_walk v4 ret (true ∷ path) (node l r a b) =
      lookup_walk v4 (or_else (slot v4 a b) ret) path r

  -- cleanup_tree at one node: a node with no child and no entry is deleted.
  unfoldable pub tidy : TreeNode V → TreeNode V
  tidy (node absent absent none none) = absent
  tidy t = t

  abbrev pub deleted : TreeNode V → TreeNode V → Bool
  deleted (node l r a b) absent = true
  deleted _ _ = false

  unfoldable pub tidy_if : Bool → TreeNode V → TreeNode V
  unfolding tidy
  tidy_if true t = tidy t
  tidy_if false t = t

  -- The walk of `erase`, which clears the slot and cleans up, on the way back, each node whose
  -- child has just been deleted.
  unfoldable pub erase_walk : Bool → Bool → List Bool → TreeNode V → TreeNode V
  unfolding tidy_if
  erase_walk cleanup v4 path absent = absent
  erase_walk cleanup v4 [] (node l r a b) = tidy_if cleanup (node_with v4 l r a b none)
  erase_walk cleanup v4 (false ∷ path) (node l r a b) =
      let l' = erase_walk cleanup v4 path l in tidy_if (deleted l l') (node l' r a b)
  erase_walk cleanup v4 (true ∷ path) (node l r a b) =
      let r' = erase_walk cleanup v4 path r in tidy_if (deleted r r') (node l r' a b)
