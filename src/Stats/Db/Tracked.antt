-- ===== src/Stats/Db/Tracked.antt =====
-- The key tracker of TWStatsDB (common/twmap.hh) is in step with the map.
use weakforced.Prelude.{
  ◌≤◌, true, false, not, some, [], ◌∷◌, Str, str_eq, str_eq_iff, lookup, insert, keep, length,
  is_some, ◌≡◌, refl, arith, length-append,
}
use weakforced.Stats.Member.{Sketches}
use weakforced.Stats.Db.{Fields, StatsDb, move_to_end, insert_key, new_field}
use weakforced.Stats.Db.Tracker.{
  count, keys_of, count-append, count-keep, length-keep, count-keys_of-lookup,
  count-keys_of-missing, count-keys_of-insert, length-insert,
}

module _ {k : Sketches} where
  -- The tracker has each key of the map once, and no other key.
  pub record IsTracked (s : StatsDb k) : Type 0 where
    pub same : (key : Str) → count key s.key_tracker ≡ count key (keys_of s.stats_db)
    pub once : (key : Str) → count key s.key_tracker ≤ 1
    pub sizes : length s.key_tracker ≡ length s.stats_db

  pub known_key :
      (key : Str) (fields : Fields k) (s : StatsDb k)
      → lookup key s.stats_db ≡ some fields
      → is_some (lookup key s.stats_db) ≡ true
  known_key key fields s e = rw e refl

  pub move_to_end-IsTracked :
      (key : Str) (s : StatsDb k)
      → is_some (lookup key s.stats_db) ≡ true
      → IsTracked s
      → IsTracked (move_to_end key s)
  unfolding move_to_end count
  move_to_end-IsTracked key s known h = record {
    same = λ j. ground (
      arith,
      count-append j (keep (λ i. not (str_eq i key)) s.key_tracker) (key ∷ []),
      count-keep j key s.key_tracker,
      h.same j,
      h.same key,
      h.once key,
      str_eq_iff j key,
      str_eq_iff key j,
      count-keys_of-lookup key s.stats_db known,
    );
    once = λ j. ground (
      arith,
      count-append j (keep (λ i. not (str_eq i key)) s.key_tracker) (key ∷ []),
      count-keep j key s.key_tracker,
      h.once j,
      str_eq_iff j key,
      str_eq_iff key j,
    );
    sizes = ground (
      arith,
      length-append (keep (λ i. not (str_eq i key)) s.key_tracker) (key ∷ []),
      length-keep key s.key_tracker,
      h.same key,
      h.once key,
      count-keys_of-lookup key s.stats_db known,
      h.sizes,
    );
  }

  -- A change of the fields of a key that is there.
  pub insert-IsTracked :
      (key : Str) (fields : Fields k) (s : StatsDb k)
      → is_some (lookup key s.stats_db) ≡ true
      → IsTracked s
      → IsTracked (record s { stats_db = insert key fields s.stats_db })
  insert-IsTracked key fields s known h = record {
    same = λ j. ground (arith, count-keys_of-insert j key fields s.stats_db, h.same j);
    once = h.once;
    sizes = ground (arith, length-insert key fields s.stats_db, h.sizes);
  }

  pub insert_key-IsTracked :
      (key field type : Str) (s : StatsDb k)
      → is_some (lookup key s.stats_db) ≡ false
      → IsTracked s
      → IsTracked (insert_key key field type s)
  unfolding insert_key count
  insert_key-IsTracked key field type s fresh h = record {
    same = λ j. ground (
      arith,
      count-append j s.key_tracker (key ∷ []),
      count-keys_of-insert j key ((field, new_field type s) ∷ []) s.stats_db,
      h.same j,
    );
    once = λ j. ground (
      arith,
      count-append j s.key_tracker (key ∷ []),
      h.once j,
      h.same j,
      str_eq_iff key j,
      count-keys_of-missing key s.stats_db fresh,
    );
    sizes = ground (
      arith,
      length-append s.key_tracker (key ∷ []),
      length-insert key ((field, new_field type s) ∷ []) s.stats_db,
      h.sizes,
    );
  }
