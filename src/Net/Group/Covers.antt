-- ===== src/Net/Group/Covers.antt =====
-- Which paths an entry of the tree of common/iputils.hh covers, and how one more entry or one entry
-- less changes the best match.
use weakforced.Prelude.{
  Bool, true, false, ◌&&◌, ◌||◌, Option, none, some, List, [], ◌∷◌, is_some, if◌then◌else◌, ◌≡◌,
  arith, refl,
}
use weakforced.Net.Tree.Walks.{or_else, path_eq, bool_eq}
use weakforced.Net.Tree.Laws.{longest}

unfoldable pub is_prefix : List Bool → List Bool → Bool
is_prefix [] path = true
is_prefix (c ∷ p) [] = false
is_prefix (c ∷ p) (t ∷ path) = bool_eq c t && is_prefix p path

module _ {ℓ} {V : Type ℓ} where
  pub longest-congr :
      (f g : List Bool → Option V) (path : List Bool)
      → ((q : List Bool) → g q ≡ f q)
      → longest g path ≡ longest f path
  unfolding longest
  longest-congr f g [] h = h []
  longest-congr f g (t ∷ path) h =
      rw (longest-congr (λ q. f (t ∷ q)) (λ q. g (t ∷ q)) path (λ q. h (t ∷ q)), h []) refl

  is_some-or_else : (x y : Option V) → is_some (or_else x y) ≡ (is_some x || is_some y)
  is_some-or_else none y = refl
  is_some-or_else (some v) y = refl

  -- One more entry: the paths that it covers now have a match, and the others are as before.
  pub is_some-longest_update :
      (f g : List Bool → Option V) (v : V) (p path : List Bool)
      → ((q : List Bool) → g q ≡ (if path_eq p q then some v else f q))
      → is_some (longest g path) ≡ (is_prefix p path || is_some (longest f path))
  unfolding longest is_prefix
  is_some-longest_update f g v [] [] h = rw (h []) refl
  is_some-longest_update f g v (c ∷ p) [] h = rw (h []) refl
  is_some-longest_update f g v [] (t ∷ path) h =
      rw (h [], is_some-or_else (longest (λ q. g (t ∷ q)) path) (some v)) (ground arith)
  is_some-longest_update f g v (false ∷ p) (false ∷ path) h = ground (
    arith,
    is_some-or_else (longest (λ q. g (false ∷ q)) path) (g []),
    is_some-or_else (longest (λ q. f (false ∷ q)) path) (f []),
    h [],
    is_some-longest_update (λ q. f (false ∷ q)) (λ q. g (false ∷ q)) v p path (λ q. h (false ∷ q)),
  )
  is_some-longest_update f g v (true ∷ p) (true ∷ path) h = ground (
    arith,
    is_some-or_else (longest (λ q. g (true ∷ q)) path) (g []),
    is_some-or_else (longest (λ q. f (true ∷ q)) path) (f []),
    h [],
    is_some-longest_update (λ q. f (true ∷ q)) (λ q. g (true ∷ q)) v p path (λ q. h (true ∷ q)),
  )
  is_some-longest_update f g v (false ∷ p) (true ∷ path) h =
      rw (longest-congr (λ q. f (true ∷ q)) (λ q. g (true ∷ q)) path (λ q. h (true ∷ q)), h []) refl
  is_some-longest_update f g v (true ∷ p) (false ∷ path) h =
      rw (longest-congr (λ q. f (false ∷ q)) (λ q. g (false ∷ q)) path (λ q. h (false ∷ q)), h [])
        refl

  -- One entry less: the paths that it does not cover are as before.
  pub longest-erase_ne :
      (f g : List Bool → Option V) (p path : List Bool)
      → ((q : List Bool) → g q ≡ (if path_eq p q then none else f q))
      → is_prefix p path ≡ false
      → longest g path ≡ longest f path
  unfolding longest is_prefix
  longest-erase_ne f g [] [] h e = ground arith
  longest-erase_ne f g (c ∷ p) [] h e = h []
  longest-erase_ne f g [] (t ∷ path) h e = ground arith
  longest-erase_ne f g (false ∷ p) (false ∷ path) h e =
      rw
        (
          longest-erase_ne (λ q. f (false ∷ q)) (λ q. g (false ∷ q)) p path (λ q. h (false ∷ q)) e,
          h [],
        )
        refl
  longest-erase_ne f g (true ∷ p) (true ∷ path) h e =
      rw
        (
          longest-erase_ne (λ q. f (true ∷ q)) (λ q. g (true ∷ q)) p path (λ q. h (true ∷ q)) e,
          h [],
        )
        refl
  longest-erase_ne f g (false ∷ p) (true ∷ path) h e =
      rw (longest-congr (λ q. f (true ∷ q)) (λ q. g (true ∷ q)) path (λ q. h (true ∷ q)), h []) refl
  longest-erase_ne f g (true ∷ p) (false ∷ path) h e =
      rw (longest-congr (λ q. f (false ∷ q)) (λ q. g (false ∷ q)) path (λ q. h (false ∷ q)), h [])
        refl
