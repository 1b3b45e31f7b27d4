-- ===== src/Blwl/Keys.antt =====
-- What the key index of a list (wforce/blackwhitelist.hh) finds after each change.
use weakforced.Prelude.{
  ℕ, ◌+◌, ◌≤◌, false, none, some, [], ◌∷◌, ◌++◌, if◌then◌else◌, Str, str_eq, str_eq_iff,
  str_eq_refl, ℤ, ◌+ℤ◌, ◌≡◌, refl, arith,
}
use weakforced.Blwl.Table.{BlackWhiteListEntry, Table, find_key, erase_key, add_entry, delete_entry}

unfoldable pub count_key : Str → Table → ℕ
count_key k [] = 0
count_key k (e ∷ t) = (if str_eq e.key k then 1 else 0) + count_key k t

-- No two entries have a key.
abbrev pub HasDistinctKeys : Table → Type 0
HasDistinctKeys t = (k : Str) → count_key k t ≤ 1

pub find_key-erase_key :
    (k j : Str) (t : Table)
    → find_key j (erase_key k t) ≡ (if str_eq k j then none else find_key j t)
unfolding find_key erase_key
find_key-erase_key k j [] = ground arith
find_key-erase_key k j (e ∷ t) =
    ground (arith, str_eq_iff k j, str_eq_iff e.key k, str_eq_iff e.key j, find_key-erase_key k j t)

count_key-erase_key :
    (k j : Str) (t : Table)
    → count_key j (erase_key k t) ≡ (if str_eq k j then 0 else count_key j t)
unfolding count_key erase_key
count_key-erase_key k j [] = ground arith
count_key-erase_key k j (e ∷ t) =
    ground
      (arith, str_eq_iff k j, str_eq_iff e.key k, str_eq_iff e.key j, count_key-erase_key k j t)

find_key-append :
    (j : Str) (t : Table) (e : BlackWhiteListEntry)
    → find_key j t ≡ none
    → find_key j (t ++ e ∷ []) ≡ (if str_eq e.key j then some e else none)
unfolding find_key
find_key-append j [] e h = refl
find_key-append j (f ∷ t) e h = ground (arith, find_key-append j t e)

find_key-append_ne :
    (j : Str) (t : Table) (e : BlackWhiteListEntry)
    → str_eq e.key j ≡ false
    → find_key j (t ++ e ∷ []) ≡ find_key j t
unfolding find_key
find_key-append_ne j [] e h = rw h refl
find_key-append_ne j (f ∷ t) e h = ground (arith, find_key-append_ne j t e)

count_key-append :
    (j : Str) (t : Table) (e : BlackWhiteListEntry)
    → count_key j (t ++ e ∷ []) ≡ count_key j t + (if str_eq e.key j then 1 else 0)
unfolding count_key
count_key-append j [] e = omega arith
count_key-append j (f ∷ t) e = omega (arith, count_key-append j t e)

abbrev pub new_entry : ℤ → Str → ℤ → Str → BlackWhiteListEntry
new_entry now key seconds reason = record {
  key = key;
  reason = reason;
  expiration = now +ℤ seconds;
}

-- After an addition the key has the new entry, and every other key the one it had.
pub find_key-add_entry :
    (now : ℤ) (k : Str) (seconds : ℤ) (reason j : Str) (t : Table)
    → find_key j (add_entry now k seconds reason t)
      ≡ (if str_eq k j then some (new_entry now k seconds reason) else find_key j t)
unfolding add_entry
find_key-add_entry now k seconds reason j t = ground (
  arith,
  str_eq_refl k,
  str_eq_iff k j,
  find_key-erase_key k k t,
  find_key-erase_key k j t,
  find_key-append j (erase_key k t) (new_entry now k seconds reason),
  find_key-append_ne j (erase_key k t) (new_entry now k seconds reason),
)

pub add_entry-HasDistinctKeys :
    (now : ℤ) (k : Str) (seconds : ℤ) (reason : Str) (t : Table)
    → HasDistinctKeys t
    → HasDistinctKeys (add_entry now k seconds reason t)
unfolding add_entry
add_entry-HasDistinctKeys now k seconds reason t h j = ground (
  arith,
  h j,
  str_eq_refl k,
  find_key-erase_key k k t,
  count_key-erase_key k j t,
  count_key-append j (erase_key k t) (new_entry now k seconds reason),
)

pub erase_key-HasDistinctKeys :
    (k : Str) (t : Table) → HasDistinctKeys t → HasDistinctKeys (erase_key k t)
erase_key-HasDistinctKeys k t h j = ground (arith, h j, count_key-erase_key k j t)

-- After a deletion the key has no entry, and every other key the one it had.
pub find_key-delete_entry :
    (k j : Str) (t : Table)
    → find_key j (delete_entry k t).0 ≡ (if str_eq k j then none else find_key j t)
unfolding delete_entry
find_key-delete_entry k j t = ground (arith, str_eq_iff k j, find_key-erase_key k j t)
