-- ===== src/Stats/Db/Tracker.antt =====
-- How often a key stands in the key tracker and among the keys of the map (common/twmap.hh).
use weakforced.Prelude.{
  ℕ, suc, ◌+◌, ◌≤◌, true, false, not, List, [], ◌∷◌, ◌++◌, Str, str_eq, str_eq_iff, if◌then◌else◌,
  lookup, insert, erase, keep, length, is_some, ◌≡◌, refl, arith,
}

unfoldable pub count : Str → List Str → ℕ
count key [] = 0
count key (j ∷ js) = if str_eq j key then suc (count key js) else count key js

pub count-append :
    (key : Str) (xs ys : List Str) → count key (xs ++ ys) ≡ count key xs + count key ys
unfolding count
count-append key [] ys = omega arith
count-append key (x ∷ xs) ys = ground (arith, count-append key xs ys)

pub count-keep :
    (key gone : Str) (xs : List Str)
    → count key (keep (λ j. not (str_eq j gone)) xs) ≡ (if str_eq key gone then 0 else count key xs)
unfolding count
count-keep key gone [] = ground arith
count-keep key gone (x ∷ xs) =
    ground (arith, str_eq_iff x gone, str_eq_iff x key, str_eq_iff key gone, count-keep key gone xs)

pub length-keep :
    (gone : Str) (xs : List Str)
    → length (keep (λ j. not (str_eq j gone)) xs) + count gone xs ≡ length xs
unfolding count
length-keep gone [] = refl
length-keep gone (x ∷ xs) = ground (arith, length-keep gone xs)

module _ {V : Type 0} where
  unfoldable pub keys_of : List (Str × V) → List Str
  keys_of [] = []
  keys_of ((j, v) ∷ m) = j ∷ keys_of m

  pub count-keys_of-lookup :
      (key : Str) (m : List (Str × V)) → is_some (lookup key m) ≡ true → 1 ≤ count key (keys_of m)
  unfolding count keys_of lookup
  count-keys_of-lookup key [] h = ground arith
  count-keys_of-lookup key ((j, v) ∷ m) h = ground (arith, count-keys_of-lookup key m)

  pub count-keys_of-missing :
      (key : Str) (m : List (Str × V)) → is_some (lookup key m) ≡ false → count key (keys_of m) ≡ 0
  unfolding count keys_of lookup
  count-keys_of-missing key [] h = refl
  count-keys_of-missing key ((j, v) ∷ m) h = ground (arith, count-keys_of-missing key m)

  pub count-keys_of-insert :
      (key new : Str) (v : V) (m : List (Str × V))
      → count key (keys_of (insert new v m)) ≡ (
          if is_some (lookup new m)
          then count key (keys_of m)
          else if str_eq new key
          then suc (count key (keys_of m))
          else count key (keys_of m))
  unfolding count keys_of lookup insert
  count-keys_of-insert key new v [] = ground arith
  count-keys_of-insert key new v ((j, w) ∷ m) = ground (
    arith,
    str_eq_iff j new,
    str_eq_iff j key,
    str_eq_iff new key,
    count-keys_of-insert key new v m,
  )

  pub length-insert :
      (new : Str) (v : V) (m : List (Str × V))
      → length (insert new v m) ≡ (if is_some (lookup new m) then length m else suc (length m))
  unfolding lookup insert
  length-insert new v [] = refl
  length-insert new v ((j, w) ∷ m) = ground (arith, length-insert new v m)

  pub count-keys_of-erase :
      (key gone : Str) (m : List (Str × V))
      → count key (keys_of (erase gone m)) ≡ (if str_eq gone key then 0 else count key (keys_of m))
  unfolding count keys_of erase
  count-keys_of-erase key gone [] = ground arith
  count-keys_of-erase key gone ((j, w) ∷ m) = ground (
    arith,
    str_eq_iff j gone,
    str_eq_iff j key,
    str_eq_iff gone key,
    count-keys_of-erase key gone m,
  )

  pub length-erase :
      (gone : Str) (m : List (Str × V)) → length (erase gone m) + count gone (keys_of m) ≡ length m
  unfolding count keys_of erase
  length-erase gone [] = refl
  length-erase gone ((j, w) ∷ m) = ground (arith, length-erase gone m)
