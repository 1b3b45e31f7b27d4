-- ===== src/Stats/Db/Expire.antt =====
-- A round of expireEntries of TWStatsDB (common/twmap.hh).
use weakforced.Prelude.{
  ℕ, zero, suc, ◌-◌, ◌≤◌, ◌==◌, true, none, List, [], ◌∷◌, Str, str_eq_iff, str_eq_refl,
  if◌then◌else◌, lookup, erase, drop, length, is_some, ◌≡◌, ◌⊎◌, refl, sym, ap, ◌∙◌, arith,
  lookup-erase, inl, inr, Bool-cases, Option-cases, leb, min,
}
use weakforced.Stats.Member.{Sketches}
use weakforced.Stats.Entry.{done}
use weakforced.Stats.Db.{StatsDb, expire_loop, expire_entries}
use weakforced.Stats.Db.Tracker.{
  count, count-keys_of-lookup, count-keys_of-missing, count-keys_of-erase, length-erase,
}
use weakforced.Stats.Db.Tracked.{IsTracked}

count-drop : (key : Str) (n : ℕ) (xs : List Str) → count key (drop n xs) ≤ count key xs
unfolding count
count-drop key zero xs = omega arith
count-drop key (suc n) [] = omega arith
count-drop key (suc n) (x ∷ xs) = ground (arith, count-drop key n xs)

length-drop : (n : ℕ) (xs : List Str) → length (drop n xs) ≡ length xs - n
length-drop zero xs = omega arith
length-drop (suc n) [] = omega arith
length-drop (suc n) (x ∷ xs) = omega (arith, length-drop n xs)

pub List-cases : (xs : List Str) → (xs ≡ []) ⊎ ((y : Str) × (ys : List Str) × (xs ≡ y ∷ ys))
List-cases [] = inl refl
List-cases (y ∷ ys) = inr (y, ys, refl)

module _ {k : Sketches} where
  -- The first `n` keys of the tracker are gone, and the others are as they were.
  pub record IsExpired (n : ℕ) (s s' : StatsDb k) : Type 0 where
    pub tracker : s'.key_tracker ≡ drop n s.key_tracker
    pub fields :
        (key : Str)
        → lookup key s'.stats_db
          ≡ (if count key (drop n s.key_tracker) == 0 then none else lookup key s.stats_db)
    pub tracked : IsTracked s'

  missing_key :
      (key : Str) (s : StatsDb k)
      → IsTracked s
      → count key s.key_tracker ≡ 0
      → lookup key s.stats_db ≡ none
  missing_key key s h e = elim (Option-cases (lookup key s.stats_db)) [
    | inl missing ↦ missing
    | inr (fields, there) ↦
        absurd
          (omega (arith, e, h.same key, count-keys_of-lookup key s.stats_db (ap is_some there)))
  ]

  -- The front of the tracker is a key of the map.
  pub front_key :
      (key : Str) (rest : List Str) (s : StatsDb k)
      → IsTracked s
      → s.key_tracker ≡ key ∷ rest
      → is_some (lookup key s.stats_db) ≡ true
  unfolding count
  front_key key rest s h e = elim (Bool-cases (is_some (lookup key s.stats_db))) [
    | inl there ↦ there
    | inr missing ↦ absurd (
        ground (
          arith,
          h.same key,
          ap (count key) e,
          str_eq_refl key,
          count-keys_of-missing key s.stats_db missing,
        ))
  ]

  abbrev pub without : Str → List Str → StatsDb k → StatsDb k
  without key rest s = record s { stats_db = erase key s.stats_db; key_tracker = rest }

  once_first :
      (key : Str) (rest : List Str) (s : StatsDb k)
      → IsTracked s
      → s.key_tracker ≡ key ∷ rest
      → count key rest ≡ 0
  unfolding count
  once_first key rest s h e = ground (arith, h.once key, ap (count key) e, str_eq_refl key)

  pub without-IsTracked :
      (key : Str) (rest : List Str) (s : StatsDb k)
      → IsTracked s
      → s.key_tracker ≡ key ∷ rest
      → IsTracked (without key rest s)
  unfolding count
  without-IsTracked key rest s h e = record {
    same = λ j. ground (
      arith,
      h.same j,
      h.once j,
      ap (count j) e,
      count-keys_of-erase j key s.stats_db,
      str_eq_iff key j,
    );
    once = λ j. ground (arith, h.once j, ap (count j) e);
    sizes = ground (
      arith,
      h.sizes,
      ap length e,
      length-erase key s.stats_db,
      h.same key,
      h.once key,
      ap (count key) e,
      str_eq_refl key,
    );
  }

  expire_loop-IsExpired :
      (n : ℕ) (s : StatsDb k)
      → IsTracked s
      → n ≤ length s.key_tracker
      → (s' : StatsDb k) × (expire_loop n s ≡ done s') × IsExpired n s s'
  unfolding expire_loop
  expire_loop-IsExpired zero s h le = (
    s,
    refl,
    record { tracker = refl; fields = λ key. ground (arith, missing_key key s h); tracked = h },
  )
  expire_loop-IsExpired (suc n) s h le = elim (List-cases s.key_tracker) [
    | inl e ↦ absurd (omega (arith, ap length e))
    | inr (key, rest, e) ↦
        let (s', ran, x) =
          expire_loop-IsExpired n (without key rest s) (without-IsTracked key rest s h e)
            (omega (arith, ap length e)) in
        (
          s',
          rw (expire_loop, e, front_key key rest s h e) ran,
          record {
            tracker = rw e x.tracker;
            fields = λ j. rw e (
                ground (
                  arith,
                  x.fields j,
                  lookup-erase key j s.stats_db,
                  str_eq_iff key j,
                  count-drop j n rest,
                  once_first key rest s h e,
                ));
            tracked = x.tracked;
          },
        )
  ]

  nothing_left :
      (s s' : StatsDb k)
      → leb (length s.stats_db) s.map_size_soft ≡ true
      → expire_loop (length s.stats_db - s.map_size_soft) s ≡ done s'
      → done s ≡ done s'
  unfolding expire_loop
  nothing_left s s' small ran = sym (ap (λ n. expire_loop n s) none_over) ∙ ran
    where
      none_over : length s.stats_db - s.map_size_soft ≡ 0
      none_over = ground arith

  -- When the tracker has each key of the map once, a round of expireEntries returns. Then no more keys
  -- are left than the soft limit, or all when there were no more; the keys that are gone are the first
  -- of the tracker, each other key has its fields, and the tracker still has each key of the map once.
  pub expire_entries-IsExpired :
      (s : StatsDb k)
      → IsTracked s
      → (s' : StatsDb k) × (expire_entries s ≡ done s')
        × IsExpired (length s.stats_db - s.map_size_soft) s s'
        × (length s'.stats_db ≡ min (length s.stats_db) s.map_size_soft)
  unfolding expire_entries
  expire_entries-IsExpired s h =
      let (s', ran, x) =
        expire_loop-IsExpired (length s.stats_db - s.map_size_soft) s h (omega (arith, h.sizes)) in
      (
        s',
        elim (Bool-cases (leb (length s.stats_db) s.map_size_soft)) [
          | inl small ↦ rw (expire_entries, small) (nothing_left s s' small ran)
          | inr large ↦ rw (expire_entries, large) ran
        ],
        x,
        ground (
          arith,
          x.tracked.sizes,
          h.sizes,
          ap length x.tracker,
          length-drop (length s.stats_db - s.map_size_soft) s.key_tracker,
        ),
      )
