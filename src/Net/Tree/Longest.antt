-- ===== src/Net/Tree/Longest.antt =====
-- What the best match of common/iputils.hh is: the entry at the longest prefix that has one.
use weakforced.Prelude.{
  ℕ, zero, suc, ◌≤◌, ◌<◌, Bool, Option, none, some, List, [], ◌∷◌, length, take, ◌≡◌, arith, refl,
}
use weakforced.Net.Tree.Walks.{TreeNode, payload, lookup_walk, or_else}
use weakforced.Net.Tree.Laws.{longest, lookup_walk-longest}

module _ {ℓ} {V : Type ℓ} where
  -- The result is the entry of the prefix of some length, and no longer prefix has one.
  abbrev pub IsBest : (List Bool → Option V) → List Bool → Option V → Type ℓ
  IsBest f path none = (j : ℕ) → j ≤ length path → f (take j path) ≡ none
  IsBest f path (some v) =
      (k : ℕ) × (k ≤ length path)
      × (f (take k path) ≡ some v)
      × ((j : ℕ) → k < j → j ≤ length path → f (take j path) ≡ none)

  IsBest-nil : (f : List Bool → Option V) (r : Option V) → f [] ≡ r → IsBest f [] r
  IsBest-nil f none e = elim [ zero ↦ λ h. e | suc j ↦ λ h. absurd (omega arith) ]
  IsBest-nil f (some v) e = (0, omega arith, e, λ j lt le. absurd (omega arith))

  -- One more turn in front, by what the longer prefixes give.
  IsBest-cons :
      (f : List Bool → Option V) (turn : Bool) (path : List Bool) (longer first : Option V)
      → f [] ≡ first
      → IsBest (λ p. f (turn ∷ p)) path longer
      → IsBest f (turn ∷ path) (or_else longer first)
  IsBest-cons f turn path (some v) first e (k, le, hit, beyond) = (
    suc k,
    omega arith,
    hit,
    elim [
      | zero ↦ λ lt _. absurd (omega arith)
      | suc j ↦ λ lt h. beyond j (omega arith) (omega arith)
    ],
  )
  IsBest-cons f turn path none none e miss = elim [
    | zero ↦ λ _. e
    | suc j ↦ λ h. miss j (omega arith)
  ]
  IsBest-cons f turn path none (some v) e miss = (
    0,
    omega arith,
    e,
    elim [ zero ↦ λ lt _. absurd (omega arith) | suc j ↦ λ lt h. miss j (omega arith) ],
  )

  longest-IsBest : (f : List Bool → Option V) (path : List Bool) → IsBest f path (longest f path)
  unfolding longest
  longest-IsBest f [] = IsBest-nil f (f []) refl
  longest-IsBest f (turn ∷ path) =
      IsBest-cons f turn path (longest (λ p. f (turn ∷ p)) path) (f []) refl
        (longest-IsBest (λ p. f (turn ∷ p)) path)

  or_else-none : (x : Option V) → or_else x none ≡ x
  or_else-none none = refl
  or_else-none (some v) = refl

  pub lookup_walk-IsBest :
      (v4 : Bool) (path : List Bool) (t : TreeNode V)
      → IsBest (λ p. payload v4 p t) path (lookup_walk v4 none path t)
  lookup_walk-IsBest v4 path t =
      rw (lookup_walk-longest v4 none path t, or_else-none (longest (λ p. payload v4 p t) path))
        (longest-IsBest (λ p. payload v4 p t) path)
