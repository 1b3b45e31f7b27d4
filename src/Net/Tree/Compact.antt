-- ===== src/Net/Tree/Compact.antt =====
-- The cleanup of common/iputils.hh leaves no dead node: below the root each node has an entry or a
-- child.
use weakforced.Prelude.{Bool, true, false, Option, none, some, List, [], ◌∷◌}
use weakforced.Net.Tree.Walks.{
  TreeNode, absent, node, make, insert_walk, erase_walk, tidy, tidy_if, node_with, deleted,
}

module _ {ℓ} {V : Type ℓ} where
  abbrev pub IsDead : TreeNode V → Type 0
  IsDead (node absent absent none none) = Unit
  IsDead _ = ⊥

  abbrev pub IsCompact : TreeNode V → Type 0
  IsCompact absent = Unit
  IsCompact (node l r a b) = IsCompact l × IsCompact r × (¬ IsDead (node l r a b))

  -- The root itself may be left without entries and children.
  abbrev pub HasCompactRoot : TreeNode V → Type 0
  HasCompactRoot absent = Unit
  HasCompactRoot (node l r a b) = IsCompact l × IsCompact r

  abbrev IsNode : TreeNode V → Type 0
  IsNode absent = ⊥
  IsNode (node l r a b) = Unit

  insert_walk-IsNode :
      (v4 : Bool) (v : V) (path : List Bool) (t : TreeNode V)
      → IsNode (insert_walk v4 v path (make t))
  unfolding insert_walk make
  insert_walk-IsNode true v [] absent = tt
  insert_walk-IsNode true v (false ∷ path) absent = tt
  insert_walk-IsNode true v (true ∷ path) absent = tt
  insert_walk-IsNode true v [] (node l r a b) = tt
  insert_walk-IsNode true v (false ∷ path) (node l r a b) = tt
  insert_walk-IsNode true v (true ∷ path) (node l r a b) = tt
  insert_walk-IsNode false v [] absent = tt
  insert_walk-IsNode false v (false ∷ path) absent = tt
  insert_walk-IsNode false v (true ∷ path) absent = tt
  insert_walk-IsNode false v [] (node l r a b) = tt
  insert_walk-IsNode false v (false ∷ path) (node l r a b) = tt
  insert_walk-IsNode false v (true ∷ path) (node l r a b) = tt

  live_left : (l r : TreeNode V) (a b : Option V) → IsNode l → ¬ IsDead (node l r a b)
  live_left absent r a b h = absurd h
  live_left (node l' r' a' b') r a b h = λ d. d

  live_right : (l r : TreeNode V) (a b : Option V) → IsNode r → ¬ IsDead (node l r a b)
  live_right (node l' r' a' b') r a b h = λ d. d
  live_right absent absent a b h = absurd h
  live_right absent (node l' r' a' b') a b h = λ d. d

  live_slot :
      (v4 : Bool) (l r : TreeNode V) (a b : Option V) (v : V)
      → ¬ IsDead (node_with v4 l r a b (some v))
  live_slot true absent absent a b v = λ d. d
  live_slot true absent (node _ _ _ _) a b v = λ d. d
  live_slot true (node _ _ _ _) r a b v = λ d. d
  live_slot false absent absent none b v = λ d. d
  live_slot false absent absent (some _) b v = λ d. d
  live_slot false absent (node _ _ _ _) a b v = λ d. d
  live_slot false (node _ _ _ _) r a b v = λ d. d

  IsCompact-slot :
      (v4 : Bool) (l r : TreeNode V) (a b : Option V) (v : V)
      → IsCompact l
      → IsCompact r
      → IsCompact (node_with v4 l r a b (some v))
  IsCompact-slot true l r a b v cl cr = (cl, cr, live_slot true l r a b v)
  IsCompact-slot false l r a b v cl cr = (cl, cr, live_slot false l r a b v)

  insert_walk-IsCompact :
      (v4 : Bool) (v : V) (path : List Bool) (t : TreeNode V)
      → IsCompact t
      → IsCompact (insert_walk v4 v path (make t))
  unfolding insert_walk make
  insert_walk-IsCompact v4 v [] absent c = IsCompact-slot v4 absent absent none none v tt tt
  insert_walk-IsCompact v4 v [] (node l r a b) c = IsCompact-slot v4 l r a b v c.0 c.1
  insert_walk-IsCompact v4 v (false ∷ path) absent c = (
    insert_walk-IsCompact v4 v path absent tt,
    tt,
    live_left (insert_walk v4 v path (make absent)) absent none none
        (insert_walk-IsNode v4 v path absent),
  )
  insert_walk-IsCompact v4 v (true ∷ path) absent c = (
    tt,
    insert_walk-IsCompact v4 v path absent tt,
    live_right absent (insert_walk v4 v path (make absent)) none none
        (insert_walk-IsNode v4 v path absent),
  )
  insert_walk-IsCompact v4 v (false ∷ path) (node l r a b) c = (
    insert_walk-IsCompact v4 v path l c.0,
    c.1,
    live_left (insert_walk v4 v path (make l)) r a b (insert_walk-IsNode v4 v path l),
  )
  insert_walk-IsCompact v4 v (true ∷ path) (node l r a b) c = (
    c.0,
    insert_walk-IsCompact v4 v path r c.1,
    live_right l (insert_walk v4 v path (make r)) a b (insert_walk-IsNode v4 v path r),
  )

  -- A tidied node is compact, whatever it was, if its children are.
  tidy-IsCompact :
      (l r : TreeNode V) (a b : Option V)
      → IsCompact l
      → IsCompact r
      → IsCompact (tidy (node l r a b))
  unfolding tidy
  tidy-IsCompact absent absent none none cl cr = tt
  tidy-IsCompact absent absent none (some y) cl cr = (cl, cr, λ d. d)
  tidy-IsCompact absent absent (some x) b cl cr = (cl, cr, λ d. d)
  tidy-IsCompact absent (node _ _ _ _) a b cl cr = (cl, cr, λ d. d)
  tidy-IsCompact (node _ _ _ _) r a b cl cr = (cl, cr, λ d. d)

  tidy_slot-IsCompact :
      (v4 : Bool) (l r : TreeNode V) (a b : Option V)
      → IsCompact l
      → IsCompact r
      → IsCompact (tidy (node_with v4 l r a b none))
  tidy_slot-IsCompact true l r a b cl cr = tidy-IsCompact l r none b cl cr
  tidy_slot-IsCompact false l r a b cl cr = tidy-IsCompact l r a none cl cr

  -- The left child `l` became `l'`: the node is tidied if that deleted it.
  rebuild_left :
      (l l' r : TreeNode V) (a b : Option V)
      → ¬ IsDead (node l r a b)
      → IsCompact l'
      → IsCompact r
      → IsCompact (tidy_if (deleted l l') (node l' r a b))
  unfolding tidy_if
  rebuild_left (node _ _ _ _) absent r a b live cl cr = tidy-IsCompact absent r a b cl cr
  rebuild_left (node _ _ _ _) (node _ _ _ _) r a b live cl cr = (cl, cr, λ d. d)
  rebuild_left absent absent r a b live cl cr = (cl, cr, live)
  rebuild_left absent (node _ _ _ _) r a b live cl cr = (cl, cr, λ d. d)

  rebuild_right :
      (l r r' : TreeNode V) (a b : Option V)
      → ¬ IsDead (node l r a b)
      → IsCompact l
      → IsCompact r'
      → IsCompact (tidy_if (deleted r r') (node l r' a b))
  unfolding tidy_if
  rebuild_right l (node _ _ _ _) absent a b live cl cr = tidy-IsCompact l absent a b cl cr
  rebuild_right l (node _ _ _ _) (node x y z w) a b live cl cr =
      (cl, cr, live_right l (node x y z w) a b tt)
  rebuild_right l absent absent a b live cl cr = (cl, cr, live)
  rebuild_right l absent (node x y z w) a b live cl cr =
      (cl, cr, live_right l (node x y z w) a b tt)

  erase_walk-IsCompact :
      (v4 : Bool) (path : List Bool) (t : TreeNode V)
      → IsCompact t
      → IsCompact (erase_walk true v4 path t)
  unfolding erase_walk tidy_if
  erase_walk-IsCompact v4 [] absent c = tt
  erase_walk-IsCompact v4 (false ∷ path) absent c = tt
  erase_walk-IsCompact v4 (true ∷ path) absent c = tt
  erase_walk-IsCompact v4 [] (node l r a b) c = tidy_slot-IsCompact v4 l r a b c.0 c.1
  erase_walk-IsCompact v4 (false ∷ path) (node l r a b) c =
      rebuild_left l (erase_walk true v4 path l) r a b c.2 (erase_walk-IsCompact v4 path l c.0) c.1
  erase_walk-IsCompact v4 (true ∷ path) (node l r a b) c =
      rebuild_right l r (erase_walk true v4 path r) a b c.2 c.0 (erase_walk-IsCompact v4 path r c.1)

  root_of_slot :
      (v4 : Bool) (l r : TreeNode V) (a b v : Option V)
      → IsCompact l
      → IsCompact r
      → HasCompactRoot (node_with v4 l r a b v)
  root_of_slot true l r a b v cl cr = (cl, cr)
  root_of_slot false l r a b v cl cr = (cl, cr)

  pub insert_walk-HasCompactRoot :
      (v4 : Bool) (v : V) (path : List Bool) (t : TreeNode V)
      → HasCompactRoot t
      → HasCompactRoot (insert_walk v4 v path (make t))
  unfolding insert_walk make
  insert_walk-HasCompactRoot v4 v [] absent c =
      root_of_slot v4 absent absent none none (some v) tt tt
  insert_walk-HasCompactRoot v4 v [] (node l r a b) c = root_of_slot v4 l r a b (some v) c.0 c.1
  insert_walk-HasCompactRoot v4 v (false ∷ path) absent c =
      (insert_walk-IsCompact v4 v path absent tt, tt)
  insert_walk-HasCompactRoot v4 v (true ∷ path) absent c =
      (tt, insert_walk-IsCompact v4 v path absent tt)
  insert_walk-HasCompactRoot v4 v (false ∷ path) (node l r a b) c =
      (insert_walk-IsCompact v4 v path l c.0, c.1)
  insert_walk-HasCompactRoot v4 v (true ∷ path) (node l r a b) c =
      (c.0, insert_walk-IsCompact v4 v path r c.1)

  tidy-HasCompactRoot :
      (d : Bool) (l r : TreeNode V) (a b : Option V)
      → IsCompact l
      → IsCompact r
      → HasCompactRoot (tidy_if d (node l r a b))
  unfolding tidy_if tidy
  tidy-HasCompactRoot false l r a b cl cr = (cl, cr)
  tidy-HasCompactRoot true absent absent none none cl cr = tt
  tidy-HasCompactRoot true absent absent none (some y) cl cr = (cl, cr)
  tidy-HasCompactRoot true absent absent (some x) b cl cr = (cl, cr)
  tidy-HasCompactRoot true absent (node _ _ _ _) a b cl cr = (cl, cr)
  tidy-HasCompactRoot true (node _ _ _ _) r a b cl cr = (cl, cr)

  pub erase_walk-HasCompactRoot :
      (v4 : Bool) (path : List Bool) (t : TreeNode V)
      → HasCompactRoot t
      → HasCompactRoot (erase_walk true v4 path t)
  unfolding erase_walk
  erase_walk-HasCompactRoot v4 path absent c = tt
  erase_walk-HasCompactRoot true [] (node l r a b) c = tidy-HasCompactRoot true l r none b c.0 c.1
  erase_walk-HasCompactRoot false [] (node l r a b) c = tidy-HasCompactRoot true l r a none c.0 c.1
  erase_walk-HasCompactRoot v4 (false ∷ path) (node l r a b) c =
      tidy-HasCompactRoot _ (erase_walk true v4 path l) r a b (erase_walk-IsCompact v4 path l c.0)
        c.1
  erase_walk-HasCompactRoot v4 (true ∷ path) (node l r a b) c =
      tidy-HasCompactRoot _ l (erase_walk true v4 path r) a b c.0
        (erase_walk-IsCompact v4 path r c.1)
