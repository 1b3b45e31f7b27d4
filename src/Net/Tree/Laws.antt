-- ===== src/Net/Tree/Laws.antt =====
-- What the walks do to the entries of the tree of common/iputils.hh.
use weakforced.Prelude.{
  Bool, true, false, Option, none, some, List, [], ◌∷◌, if◌then◌else◌, ◌≡◌, arith, refl, ◌∙◌,
}
use weakforced.Net.Tree.Walks.{
  TreeNode, absent, node, make, insert_walk, lookup_walk, erase_walk, tidy, tidy_if, payload,
  position_eq, slot, node_with, or_else, deleted,
}

module _ {ℓ} {V : Type ℓ} where
  payload-make : (w : Bool) (q : List Bool) (t : TreeNode V) → payload w q (make t) ≡ payload w q t
  unfolding payload make
  payload-make w [] absent = ground arith
  payload-make w (false ∷ q) absent = refl
  payload-make w (true ∷ q) absent = refl
  payload-make w q (node l r a b) = refl

  -- Writing changes the entry at that position, and no other.
  pub payload-insert_walk :
      (v4 w4 : Bool) (v : V) (p q : List Bool) (t : TreeNode V)
      → payload w4 q (insert_walk v4 v p (make t))
        ≡ (if position_eq (v4, p) (w4, q) then some v else payload w4 q t)
  unfolding payload insert_walk make position_eq
  payload-insert_walk v4 w4 v [] [] absent = ground arith
  payload-insert_walk v4 w4 v [] (false ∷ q) absent = ground arith
  payload-insert_walk v4 w4 v [] (true ∷ q) absent = ground arith
  payload-insert_walk v4 w4 v (false ∷ p) [] absent = ground arith
  payload-insert_walk v4 w4 v (true ∷ p) [] absent = ground arith
  payload-insert_walk v4 w4 v (false ∷ p) (false ∷ q) absent =
      payload-insert_walk v4 w4 v p q absent
  payload-insert_walk v4 w4 v (false ∷ p) (true ∷ q) absent = ground arith
  payload-insert_walk v4 w4 v (true ∷ p) (false ∷ q) absent = ground arith
  payload-insert_walk v4 w4 v (true ∷ p) (true ∷ q) absent = payload-insert_walk v4 w4 v p q absent
  payload-insert_walk v4 w4 v [] [] (node l r a b) = ground arith
  payload-insert_walk v4 w4 v [] (false ∷ q) (node l r a b) = ground arith
  payload-insert_walk v4 w4 v [] (true ∷ q) (node l r a b) = ground arith
  payload-insert_walk v4 w4 v (false ∷ p) [] (node l r a b) = ground arith
  payload-insert_walk v4 w4 v (true ∷ p) [] (node l r a b) = ground arith
  payload-insert_walk v4 w4 v (false ∷ p) (false ∷ q) (node l r a b) =
      payload-insert_walk v4 w4 v p q l
  payload-insert_walk v4 w4 v (false ∷ p) (true ∷ q) (node l r a b) = ground arith
  payload-insert_walk v4 w4 v (true ∷ p) (false ∷ q) (node l r a b) = ground arith
  payload-insert_walk v4 w4 v (true ∷ p) (true ∷ q) (node l r a b) =
      payload-insert_walk v4 w4 v p q r

  payload-tidy : (w : Bool) (q : List Bool) (t : TreeNode V) → payload w q (tidy t) ≡ payload w q t
  unfolding payload tidy
  payload-tidy w [] (node absent absent none none) = ground arith
  payload-tidy w (false ∷ q) (node absent absent none none) = refl
  payload-tidy w (true ∷ q) (node absent absent none none) = refl
  payload-tidy w q t = refl

  payload-tidy_if :
      (d w : Bool) (q : List Bool) (t : TreeNode V) → payload w q (tidy_if d t) ≡ payload w q t
  unfolding tidy_if
  payload-tidy_if true w q t = payload-tidy w q t
  payload-tidy_if false w q t = refl

  -- Erasing clears the entry at that position, and no other, with or without the cleanup.
  pub payload-erase_walk :
      (c v4 w4 : Bool) (p q : List Bool) (t : TreeNode V)
      → payload w4 q (erase_walk c v4 p t)
        ≡ (if position_eq (v4, p) (w4, q) then none else payload w4 q t)
  unfolding erase_walk payload position_eq
  payload-erase_walk c v4 w4 p q absent = ground arith
  payload-erase_walk c v4 w4 [] [] (node l r a b) =
      rw (payload-tidy_if c w4 [] (node_with v4 l r a b none)) (ground arith)
  payload-erase_walk c v4 w4 [] (false ∷ q) (node l r a b) =
      rw (payload-tidy_if c w4 (false ∷ q) (node_with v4 l r a b none)) (ground arith)
  payload-erase_walk c v4 w4 [] (true ∷ q) (node l r a b) =
      rw (payload-tidy_if c w4 (true ∷ q) (node_with v4 l r a b none)) (ground arith)
  payload-erase_walk c v4 w4 (false ∷ p) [] (node l r a b) =
      rw
        (payload-tidy_if (deleted l (erase_walk c v4 p l)) w4 [] (node (erase_walk c v4 p l) r a b))
        (ground arith)
  payload-erase_walk c v4 w4 (false ∷ p) (false ∷ q) (node l r a b) =
      payload-tidy_if (deleted l (erase_walk c v4 p l)) w4 (false ∷ q)
        (node (erase_walk c v4 p l) r a b)
      ∙ payload-erase_walk c v4 w4 p q l
  payload-erase_walk c v4 w4 (false ∷ p) (true ∷ q) (node l r a b) =
      rw
        (payload-tidy_if (deleted l (erase_walk c v4 p l)) w4 (true ∷ q)
          (node (erase_walk c v4 p l) r a b))
        (ground arith)
  payload-erase_walk c v4 w4 (true ∷ p) [] (node l r a b) =
      rw
        (payload-tidy_if (deleted r (erase_walk c v4 p r)) w4 [] (node l (erase_walk c v4 p r) a b))
        (ground arith)
  payload-erase_walk c v4 w4 (true ∷ p) (false ∷ q) (node l r a b) =
      rw
        (payload-tidy_if (deleted r (erase_walk c v4 p r)) w4 (false ∷ q)
          (node l (erase_walk c v4 p r) a b))
        (ground arith)
  payload-erase_walk c v4 w4 (true ∷ p) (true ∷ q) (node l r a b) =
      payload-tidy_if (deleted r (erase_walk c v4 p r)) w4 (true ∷ q)
        (node l (erase_walk c v4 p r) a b)
      ∙ payload-erase_walk c v4 w4 p q r

  -- The entry at the longest prefix of a path that has one, by the entries of the prefixes.
  unfoldable pub longest : (List Bool → Option V) → List Bool → Option V
  longest f [] = f []
  longest f (turn ∷ path) = or_else (longest (λ p. f (turn ∷ p)) path) (f [])

  or_else_assoc : (x y z : Option V) → or_else x (or_else y z) ≡ or_else (or_else x y) z
  or_else_assoc none y z = refl
  or_else_assoc (some v) y z = refl

  longest-none :
      (f : List Bool → Option V) (path : List Bool)
      → ((p : List Bool) → f p ≡ none)
      → longest f path ≡ none
  unfolding longest
  longest-none f [] h = h []
  longest-none f (turn ∷ path) h =
      rw (longest-none (λ p. f (turn ∷ p)) path (λ p. h (turn ∷ p)), h []) refl

  pub lookup_walk-longest :
      (v4 : Bool) (ret : Option V) (path : List Bool) (t : TreeNode V)
      → lookup_walk v4 ret path t ≡ or_else (longest (λ p. payload v4 p t) path) ret
  unfolding lookup_walk payload longest
  lookup_walk-longest v4 ret path absent = rw (longest-none (λ p. none) path (λ p. refl)) refl
  lookup_walk-longest v4 ret [] (node l r a b) = refl
  lookup_walk-longest v4 ret (false ∷ path) (node l r a b) =
      lookup_walk-longest v4 (or_else (slot v4 a b) ret) path l
      ∙ or_else_assoc (longest (λ p. payload v4 p l) path) (slot v4 a b) ret
  lookup_walk-longest v4 ret (true ∷ path) (node l r a b) =
      lookup_walk-longest v4 (or_else (slot v4 a b) ret) path r
      ∙ or_else_assoc (longest (λ p. payload v4 p r) path) (slot v4 a b) ret
