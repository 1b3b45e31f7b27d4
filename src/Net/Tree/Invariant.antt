-- ===== src/Net/Tree/Invariant.antt =====
-- The invariant of NetmaskTree (common/iputils.hh) and its view as a map from positions to entries.
use weakforced.Prelude.{
  ℕ, Bool, true, false, Option, none, some, List, [], ◌∷◌, if◌then◌else◌, is_some, ◌≡◌, arith, refl,
  ◌∙◌, zero, suc, take, ◌⊎◌, inl, inr, Bool-cases,
}
use weakforced.Net.Mask.{Netmask}
use weakforced.Net.Tree.{
  NetmaskTree, empty_tree, position, new_entry, insert_with, erase_key, erase_root, keep_root,
  erase_at, erase_wide, in_width, width,
}
use weakforced.Net.Tree.Walks.{
  TreeNode, absent, node, Position, position_eq, payload, erase_walk, make, reaches,
}
use weakforced.Net.Tree.Laws.{payload-insert_walk, payload-erase_walk}
use weakforced.Net.Tree.Compact.{
  HasCompactRoot, insert_walk-HasCompactRoot, erase_walk-HasCompactRoot,
}
use weakforced.Net.Tree.Entries.{count, count-keep_ne, position_eq_iff}

abbrev one_if : Bool → ℕ
one_if true = 1
one_if false = 0

module _ {ℓ} {T : Type ℓ} where
  payload-keep_root :
      (w : Bool) (q : List Bool) (t : TreeNode (Netmask × T))
      → payload w q (keep_root t) ≡ payload w q t
  unfolding keep_root payload make
  payload-keep_root w [] absent = ground arith
  payload-keep_root w (false ∷ q) absent = refl
  payload-keep_root w (true ∷ q) absent = refl
  payload-keep_root w q (node l r a b) = refl

  keep_root-HasCompactRoot :
      (t : TreeNode (Netmask × T)) → HasCompactRoot t → HasCompactRoot (keep_root t)
  unfolding keep_root make
  keep_root-HasCompactRoot absent c = (tt, tt)
  keep_root-HasCompactRoot (node l r a b) c = c

  erase_root-HasCompactRoot :
      (k : Position) (t : TreeNode (Netmask × T))
      → HasCompactRoot t
      → HasCompactRoot (erase_root true k t)
  unfolding erase_root
  erase_root-HasCompactRoot (v4, path) absent c = tt
  erase_root-HasCompactRoot (v4, path) (node l r a b) c =
      keep_root-HasCompactRoot _ (erase_walk-HasCompactRoot v4 path (node l r a b) c)

  abbrev pub entry : NetmaskTree T → Position → Option (Netmask × T)
  entry t p = payload p.0 p.1 t.root

  -- The set of entries has each entry of the tree once, and in a tree that cleans up no node but the
  -- root is without both an entry and a child.
  pub record IsWellFormed (t : NetmaskTree T) : Type ℓ where
    pub listed : (p : Position) → count p t.nodes ≡ one_if (is_some (entry t p))
    pub compact : t.cleanup_tree ≡ true → HasCompactRoot t.root

  pub empty_tree-IsWellFormed : (cleanup : Bool) → IsWellFormed (empty_tree {T = T} cleanup)
  unfolding empty_tree count payload
  empty_tree-IsWellFormed cleanup = record { listed = λ p. refl; compact = λ _. tt }

  -- After an insertion that succeeds the entry at the key's position is the key with the value assigned, and
  -- every other entry is as before.
  pub entry-insert_with :
      (fresh : T) (assign : T → T) (key : Netmask) (t : NetmaskTree T) {t' : NetmaskTree T}
      → insert_with fresh assign key t ≡ some t'
      → (q : Position)
      → entry t' q ≡ (
          if position_eq (position key) q
          then some (new_entry key fresh assign (entry t (position key)))
          else entry t q)
  unfolding insert_with
  entry-insert_with fresh assign key t h q = ground (
    arith,
    payload-insert_walk (position key).0 q.0 (new_entry key fresh assign (entry t (position key)))
        (position key).1 q.1 t.root,
  )

  -- An insertion that succeeds keeps the invariant: the set of entries has each entry of the tree
  -- once, and in a tree that cleans up no node but the root is without both an entry and a child.
  pub insert_with-IsWellFormed :
      (fresh : T) (assign : T → T) (key : Netmask) (t : NetmaskTree T) {t' : NetmaskTree T}
      → insert_with fresh assign key t ≡ some t'
      → IsWellFormed t
      → IsWellFormed t'
  unfolding insert_with count
  insert_with-IsWellFormed fresh assign key t h w = record {
    listed = λ p. ground (
      arith,
      w.listed p,
      w.listed (position key),
      entry-insert_with fresh assign key t h p,
      position_eq_iff p (position key),
      position_eq_iff (position key) p,
    );
    compact = λ e. ground (
      arith,
      w.compact,
      insert_walk-HasCompactRoot (position key).0
          (new_entry key fresh assign (entry t (position key))) (position key).1 t.root,
    );
  }

  payload-erase_root :
      (c : Bool) (k q : Position) (t : TreeNode (Netmask × T))
      → payload q.0 q.1 (erase_root c k t) ≡ (if position_eq k q then none else payload q.0 q.1 t)
  unfolding erase_root keep_root payload
  payload-erase_root c (v4, path) (w4, q) absent = ground arith
  payload-erase_root c (v4, path) (w4, q) (node l r a b) =
      payload-keep_root w4 q (erase_walk c v4 path (node l r a b))
      ∙ payload-erase_walk c v4 w4 path q (node l r a b)

  -- There is no entry behind a walk that ends early.
  payload-reaches :
      (v4 : Bool) (n : ℕ) (path : List Bool) (t : TreeNode (Netmask × T))
      → reaches (take n path) t ≡ false
      → payload v4 path t ≡ none
  unfolding reaches payload
  payload-reaches v4 n path absent h = refl
  payload-reaches v4 zero path (node l r a b) h = absurd (cc)
  payload-reaches v4 (suc n) [] (node l r a b) h = absurd (cc)
  payload-reaches v4 (suc n) (false ∷ path) (node l r a b) h = payload-reaches v4 n path l h
  payload-reaches v4 (suc n) (true ∷ path) (node l r a b) h = payload-reaches v4 n path r h

  -- An erasure that succeeds either erases at the key's position, or finds no entry there and
  -- changes nothing.
  erase_key-cases :
      (key : Netmask) (t : NetmaskTree T) {t' : NetmaskTree T}
      → erase_key key t ≡ some t'
      → (t' ≡ erase_at (position key) t) ⊎ ((t' ≡ t) × (entry t (position key) ≡ none))
  unfolding erase_key erase_wide
  erase_key-cases key t h = elim (Bool-cases (in_width key)) [
    | inl narrow ↦ inl (ground (arith, narrow, h))
    | inr wide ↦ elim (Bool-cases (reaches (take (width key.network) (position key).1) t.root)) [
      | inl deep ↦ absurd (ground (arith, wide, deep, h))
      | inr short ↦ inr (
        ground (arith, wide, short, h),
        payload-reaches (position key).0 (width key.network) (position key).1 t.root short,
      )
    ]
  ]

  erase_none :
      (p q : Position) (t : NetmaskTree T)
      → entry t p ≡ none
      → entry t q ≡ (if position_eq p q then none else entry t q)
  erase_none p q t h = ground (arith, h, position_eq_iff p q)

  -- After an erasure that succeeds there is no entry at the key's position, and every other is as before.
  pub entry-erase_key :
      (key : Netmask) (t : NetmaskTree T) {t' : NetmaskTree T}
      → erase_key key t ≡ some t'
      → (q : Position) → entry t' q ≡ (if position_eq (position key) q then none else entry t q)
  unfolding erase_at
  entry-erase_key key t h q = elim (erase_key-cases key t h) [
    | inl erased ↦ rw erased (payload-erase_root t.cleanup_tree (position key) q t.root)
    | inr (same, free) ↦ rw same (erase_none (position key) q t free)
  ]

  erase_at-IsWellFormed :
      (p : Position) (t : NetmaskTree T) → IsWellFormed t → IsWellFormed (erase_at p t)
  unfolding erase_at
  erase_at-IsWellFormed k t w = record {
    listed = λ p. ground (
      arith,
      w.listed p,
      w.listed k,
      payload-erase_root t.cleanup_tree k p t.root,
      count-keep_ne k p t.nodes,
      position_eq_iff k p,
    );
    compact = λ e. ground (arith, w.compact, erase_root-HasCompactRoot k t.root);
  }

  -- An erasure that succeeds keeps the invariant: the set of entries has each entry of the tree once,
  -- and in a tree that cleans up no node but the root is without both an entry and a child.
  pub erase_key-IsWellFormed :
      (key : Netmask) (t : NetmaskTree T) {t' : NetmaskTree T}
      → erase_key key t ≡ some t'
      → IsWellFormed t
      → IsWellFormed t'
  erase_key-IsWellFormed key t h w = elim (erase_key-cases key t h) [
    | inl erased ↦ rw erased (erase_at-IsWellFormed (position key) t w)
    | inr (same, free) ↦ rw same w
  ]
