-- ===== src/Net/Tree/Entries.antt =====
-- NetmaskTree of common/iputils.hh as a map from positions to entries, with its set of entries.
use weakforced.Prelude.{
  ℕ, ◌+◌, Bool, true, false, not, List, [], ◌∷◌, if◌then◌else◌, keep, ◌≡◌, ◌↔◌, arith, refl, ap,
}
use weakforced.Net.Tree.Walks.{Position, position_eq, path_eq}

path_eq_sound : (p q : List Bool) → path_eq p q ≡ true → p ≡ q
path_eq_sound [] [] h = refl
path_eq_sound [] (_ ∷ _) h = ground arith
path_eq_sound (_ ∷ _) [] h = ground arith
path_eq_sound (false ∷ p) (false ∷ q) h = ap (◌∷◌ false) (path_eq_sound p q h)
path_eq_sound (true ∷ p) (true ∷ q) h = ap (◌∷◌ true) (path_eq_sound p q h)
path_eq_sound (false ∷ p) (true ∷ q) h = ground arith
path_eq_sound (true ∷ p) (false ∷ q) h = ground arith

path_eq_refl : (p : List Bool) → path_eq p p ≡ true
path_eq_refl [] = refl
path_eq_refl (false ∷ p) = path_eq_refl p
path_eq_refl (true ∷ p) = path_eq_refl p

pub position_eq_refl : (p : Position) → position_eq p p ≡ true
unfolding position_eq
position_eq_refl (false, p) = path_eq_refl p
position_eq_refl (true, p) = path_eq_refl p

position_eq_sound : (p q : Position) → position_eq p q ≡ true → p ≡ q
unfolding position_eq
position_eq_sound (false, p) (false, q) h = ap (λ s. (false, s)) (path_eq_sound p q h)
position_eq_sound (true, p) (true, q) h = ap (λ s. (true, s)) (path_eq_sound p q h)
position_eq_sound (false, p) (true, q) h = ground arith
position_eq_sound (true, p) (false, q) h = ground arith

pub position_eq_iff : (p q : Position) → (position_eq p q ≡ true) ↔ (p ≡ q)
position_eq_iff p q = (position_eq_sound p q, λ e. rw e (position_eq_refl q))

unfoldable pub count : Position → List Position → ℕ
count p [] = 0
count p (q ∷ qs) = (if position_eq p q then 1 else 0) + count p qs

pub count-keep_ne :
    (k p : Position) (qs : List Position)
    → count p (keep (λ q. not (position_eq k q)) qs) ≡ (if position_eq k p then 0 else count p qs)
unfolding count
count-keep_ne k p [] = ground arith
count-keep_ne k p (q ∷ qs) =
    ground
      (arith, position_eq_iff k q, position_eq_iff p q, position_eq_iff k p, count-keep_ne k p qs)
