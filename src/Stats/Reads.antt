-- ===== src/Stats/Reads.antt =====
-- The methods of TWStatsEntry (common/twmap.hh) that read, reset, save and restore the windows.
use weakforced.Prelude.{suc, zero, ◌+◌, ◌%◌, set}
use weakforced.Stats.Member.{get_str}
use weakforced.Prelude.{ℕ, false, Option, none, some, List, [], ◌∷◌, Str, if◌then◌else◌, get_elem?}
use weakforced.Stats.Member.{Sketches, Member, get, erase_member, sum, sum_str, dump, restore}
use weakforced.Stats.Entry.{Clock, Entry, Outcome, done, undefined, clean_windows, current_window}

module _ {k : Sketches} where
  -- The current window, after the windows are cleaned.
  unfoldable pub window_at : ℕ → Entry k → Option (ℕ × Member k)
  window_at now e = elim (current_window now e) [
    | none ↦ none
    | some cw ↦ get_elem? e.stats_array cw
  ]

  unfoldable pub read_value : Option (ℕ × Member k) → Entry k → Outcome (Entry k × ℕ)
  read_value none e = undefined
  read_value (some (t, m)) e = done (e, get m)

  -- get and get_current
  unfoldable pub entry_get : Clock → Entry k → Outcome (Entry k × ℕ)
  entry_get c e = let e' = clean_windows c.cleaned e in read_value (window_at c.current e') e'

  unfoldable pub put_read : ℕ → ℕ → Member k × ℕ → Entry k → Outcome (Entry k × ℕ)
  put_read cw t (m, n) e = done (record e { stats_array = set e.stats_array cw (t, m) }, n)

  unfoldable pub read_text : Str → Option ℕ → Entry k → Outcome (Entry k × ℕ)
  read_text s none e = undefined
  read_text s (some cw) e = elim (get_elem? e.stats_array cw) [
    | none ↦ undefined
    | some (t, m) ↦ put_read cw t (get_str s m) e
  ]

  -- get(s) and get_current(s), which may change the window that they read.
  unfoldable pub entry_get_str : Clock → Str → Entry k → Outcome (Entry k × ℕ)
  entry_get_str c s e =
      let e' = clean_windows c.cleaned e in read_text s (current_window c.current e') e'

  -- The loop of get_windows over `i = cw + j`, from the current window back.
  unfoldable pub windows_back : ℕ → ℕ → ℕ → List (ℕ × Member k) → Option (List ℕ)
  windows_back cw num zero ws = some []
  windows_back cw num (suc j) ws =
      let rest = windows_back cw num j ws in
      elim (get_elem? ws ((cw + suc j) % num)) [
        | none ↦ none
        | some (t, m) ↦ elim rest [ none ↦ none | some ns ↦ some (get m ∷ ns) ]
      ]

  unfoldable pub collect_windows : Option ℕ → Entry k → Outcome (Entry k × List ℕ)
  collect_windows none e = undefined
  collect_windows (some cw) e = elim (windows_back cw e.num_windows e.num_windows e.stats_array) [
    | none ↦ undefined
    | some ns ↦ done (e, ns)
  ]

  unfoldable pub entry_get_windows : Clock → Entry k → Outcome (Entry k × List ℕ)
  entry_get_windows c e =
      let e' = clean_windows c.cleaned e in collect_windows (current_window c.current e') e'

  -- The same loop with get(s), which may change each window that it reads.
  unfoldable pub windows_back_str :
      Str → ℕ → ℕ → ℕ → List (ℕ × Member k) → Option (List (ℕ × Member k) × List ℕ)
  windows_back_str s cw num zero ws = some (ws, [])
  windows_back_str s cw num (suc j) ws = elim (get_elem? ws ((cw + suc j) % num)) [
    | none ↦ none
    | some (t, m) ↦
        elim (windows_back_str s cw num j (set ws ((cw + suc j) % num) (t, (get_str s m).0))) [
          | none ↦ none
          | some (ws', ns) ↦ some (ws', (get_str s m).1 ∷ ns)
        ]
  ]

  unfoldable pub collect_windows_str : Str → Option ℕ → Entry k → Outcome (Entry k × List ℕ)
  collect_windows_str s none e = undefined
  collect_windows_str s (some cw) e =
      elim (windows_back_str s cw e.num_windows e.num_windows e.stats_array) [
        | none ↦ undefined
        | some (ws, ns) ↦ done (record e { stats_array = ws }, ns)
      ]

  -- get_windows(s, ret_vec)
  unfoldable pub entry_get_windows_str : Clock → Str → Entry k → Outcome (Entry k × List ℕ)
  entry_get_windows_str c s e =
      let e' = clean_windows c.cleaned e in collect_windows_str s (current_window c.current e') e'

  unfoldable pub sum_window : Option (ℕ × Member k) → Entry k → Outcome (Entry k × ℕ)
  sum_window none e = undefined
  sum_window (some (t, m)) e =
      done (record e { sum_cache_value = sum m e.stats_array }, sum m e.stats_array)

  -- sum()
  unfoldable pub entry_sum : Clock → Entry k → Outcome (Entry k × ℕ)
  entry_sum c e =
      let e' = clean_windows c.cleaned e in
      if e'.sum_cache_valid
      then done (e', e'.sum_cache_value)
      else sum_window (window_at c.current e') e'

  unfoldable pub sum_window_str : Str → Option (ℕ × Member k) → Entry k → Outcome (Entry k × ℕ)
  sum_window_str s none e = undefined
  sum_window_str s (some (t, m)) e =
      done (record e { ssum_cache_value = sum_str s m e.stats_array }, sum_str s m e.stats_array)

  -- sum(s)
  unfoldable pub entry_sum_str : Clock → Str → Entry k → Outcome (Entry k × ℕ)
  entry_sum_str c s e =
      let e' = clean_windows c.cleaned e in
      if e'.ssum_cache_valid
      then done (e', e'.ssum_cache_value)
      else sum_window_str s (window_at c.current e') e'

  unfoldable pub reset_array : List (ℕ × Member k) → List (ℕ × Member k)
  reset_array [] = []
  reset_array ((t, m) ∷ ws) = (0, erase_member m) ∷ reset_array ws

  unfoldable pub entry_reset : Entry k → Entry k
  unfolding reset_array
  entry_reset e = record e {
    stats_array = reset_array e.stats_array;
    sum_cache_valid = false;
    ssum_cache_valid = false;
  }

  unfoldable pub dump_array : List (ℕ × Member k) → List (ℕ × Str)
  dump_array [] = []
  dump_array ((t, m) ∷ ws) = (t, dump m) ∷ dump_array ws

  -- The windows as texts, and the start time.
  unfoldable pub entry_dump : Entry k → List (ℕ × Str) × ℕ
  unfolding dump_array
  entry_dump e = (dump_array e.stats_array, e.start_time)

  -- `none`: there are more texts than windows.
  unfoldable pub restore_array : List (ℕ × Str) → List (ℕ × Member k) → Option (List (ℕ × Member k))
  restore_array [] ws = some ws
  restore_array (d ∷ ds) [] = none
  restore_array ((t, s) ∷ ds) ((_, m) ∷ ws) = elim (restore_array ds ws) [
    | none ↦ none
    | some rest ↦ some ((t, restore s m) ∷ rest)
  ]

  unfoldable pub entry_restore : List (ℕ × Str) → ℕ → Entry k → Outcome (Entry k)
  unfolding restore_array
  entry_restore texts stime e = elim (restore_array texts e.stats_array) [
    | none ↦ undefined
    | some ws ↦ done (record e {
      start_time = stime;
      last_cleaned = 0;
      sum_cache_valid = false;
      ssum_cache_valid = false;
      stats_array = ws;
    })
  ]
