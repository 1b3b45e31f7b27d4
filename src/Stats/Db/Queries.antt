-- ===== src/Stats/Db/Queries.antt =====
-- The methods of TWStatsDB (common/twmap.hh) that read, reset and save. A read that cleans windows
-- changes the database too.
use weakforced.Prelude.{ℕ, false, Option, none, some, List, [], ◌∷◌, Str, lookup, insert}
use weakforced.Stats.Member.{Sketches}
use weakforced.Stats.Entry.{Clock, Entry, Outcome, done, invalid_argument, undefined}
use weakforced.Stats.Reads.{
  entry_get, entry_get_str, entry_sum, entry_sum_str, entry_get_windows, entry_get_windows_str,
  entry_reset, entry_dump,
}
use weakforced.Stats.Db.{Fields, StatsDb, find_key_field, store}

unfoldable pub or_zero : Option ℕ → ℕ
or_zero none = 0
or_zero (some n) = n

module _ {k : Sketches} where
  -- The shape of the four methods that return an int, which is 0 unless the lambda is called.
  unfoldable pub read_field :
      Str → Str → (Entry k → Outcome (Entry k × ℕ)) → StatsDb k → Outcome (StatsDb k × ℕ)
  read_field key field f s = elim (find_key_field false key field f s) [
    | done (s', n) ↦ done (s', or_zero n)
    | invalid_argument (s', n) ↦ invalid_argument (s', or_zero n)
    | undefined ↦ undefined
  ]

  unfoldable pub db_get : Clock → Str → Str → StatsDb k → Outcome (StatsDb k × ℕ)
  db_get c key field = read_field key field (entry_sum c)

  unfoldable pub db_get_str : Clock → Str → Str → Str → StatsDb k → Outcome (StatsDb k × ℕ)
  db_get_str c key field v = read_field key field (entry_sum_str c v)

  unfoldable pub db_get_current : Clock → Str → Str → StatsDb k → Outcome (StatsDb k × ℕ)
  db_get_current c key field = read_field key field (entry_get c)

  unfoldable pub db_get_current_str : Clock → Str → Str → Str → StatsDb k → Outcome (StatsDb k × ℕ)
  db_get_current_str c key field v = read_field key field (entry_get_str c v)

  -- `none` where the C++ method returns false.
  unfoldable pub db_get_windows :
      Clock → Str → Str → StatsDb k → Outcome (StatsDb k × Option (List ℕ))
  db_get_windows c key field = find_key_field false key field (entry_get_windows c)

  unfoldable pub db_get_windows_str :
      Clock → Str → Str → Str → StatsDb k → Outcome (StatsDb k × Option (List ℕ))
  db_get_windows_str c key field v = find_key_field false key field (entry_get_windows_str c v)

  -- A loop over the fields of a key: the changed fields and what each one gives.
  unfoldable pub each_field {ℓ} :
      {A : Type ℓ}
      → (Str → Entry k → Outcome (Entry k × A))
      → Fields k
      → Outcome (Fields k × List (Str × A))
  each_field f [] = done ([], [])
  each_field f ((field, e) ∷ fields) = elim (f field e) [
    | undefined ↦ undefined
    | invalid_argument (e', a) ↦ invalid_argument ((field, e') ∷ fields, [])
    | done (e', a) ↦ elim (each_field f fields) [
      | undefined ↦ undefined
      | invalid_argument (fs, rs) ↦ invalid_argument ((field, e') ∷ fs, (field, a) ∷ rs)
      | done (fs, rs) ↦ done ((field, e') ∷ fs, (field, a) ∷ rs)
    ]
  ]

  unfoldable pub with_fields {ℓ} :
      {A : Type ℓ}
      → Str
      → (Str → Entry k → Outcome (Entry k × A))
      → StatsDb k
      → Outcome (StatsDb k × Option (List (Str × A)))
  with_fields key f s = elim (lookup key s.stats_db) [
    | none ↦ done (s, none)
    | some fields ↦ elim (each_field f fields) [
      | undefined ↦ undefined
      | invalid_argument (fs, rs) ↦
          invalid_argument (record s { stats_db = insert key fs s.stats_db }, some rs)
      | done (fs, rs) ↦ done (record s { stats_db = insert key fs s.stats_db }, some rs)
    ]
  ]

  -- Each field has its own readings of the clock.
  unfoldable pub get_all_fields :
      (Str → Clock) → Str → StatsDb k → Outcome (StatsDb k × Option (List (Str × ℕ)))
  get_all_fields clocks key = with_fields key (λ field. entry_sum (clocks field))

  -- get_all_fields_windows, get_all_fields_windows_unsafe and, at an iterator's key, DBGetEntry
  unfoldable pub get_all_fields_windows :
      (Str → Clock) → Str → StatsDb k → Outcome (StatsDb k × Option (List (Str × List ℕ)))
  get_all_fields_windows clocks key = with_fields key (λ field. entry_get_windows (clocks field))

  unfoldable pub reset_fields : Fields k → Fields k
  reset_fields [] = []
  reset_fields ((field, e) ∷ fields) = (field, entry_reset e) ∷ reset_fields fields

  -- reset
  unfoldable pub db_reset : Str → StatsDb k → StatsDb k
  db_reset key s = elim (lookup key s.stats_db) [
    | none ↦ s
    | some fields ↦ record s { stats_db = insert key (reset_fields fields) s.stats_db }
  ]

  unfoldable pub reset_field : Str → Str → StatsDb k → StatsDb k
  reset_field key field s = elim (lookup key s.stats_db) [
    | none ↦ s
    | some fields ↦ elim (lookup field fields) [
      | none ↦ s
      | some e ↦ store key field (entry_reset e) fields s
    ]
  ]

  unfoldable pub dump_fields : Fields k → List (Str × (ℕ × List (ℕ × Str)))
  dump_fields [] = []
  dump_fields ((field, e) ∷ fields) =
      (field, ((entry_dump e).1, (entry_dump e).0)) ∷ dump_fields fields

  -- DBDumpEntry at the key of an iterator.
  unfoldable pub dump_entry : Str → StatsDb k → Option (Str × List (Str × (ℕ × List (ℕ × Str))))
  dump_entry i s = elim (lookup i s.stats_db) [
    | none ↦ none
    | some fields ↦ some (i, dump_fields fields)
  ]
