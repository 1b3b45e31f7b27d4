-- ===== src/Tests/Windows.antt =====
-- Runs of the model of the statistics on concrete windows.
use weakforced.Prelude.{ℕ, ◌+◌, ◌%◌, false, none, some, [], ◌∷◌, All, ◌≡◌, refl, arith}
use weakforced.Stats.Member.{Sketches, int_member, int_mod, erase_member}
use weakforced.Stats.Entry.{Entry, done, clean_windows, current_window, entry_add}
use weakforced.Stats.Reads.{entry_dump, entry_restore, entry_sum}
use weakforced.Stats.Saved.{IsInt32, entry_restore-entry_dump}
use weakforced.Prelude.{length, ◌<◌, ◌-◌, get_elem?, List}
use weakforced.Stats.Reads.{entry_get_windows}
use weakforced.Stats.Listing.{value_at, entry_get_windows-value_at}
use weakforced.Stats.Windows.{recent_sum, value-entry_sum-recent}
use weakforced.Stats.Sums.{steady, value, value-entry_sum-entry_add}

-- Sketches that count what they are given.
abbrev pub counting : Sketches
counting = record {
  Hll = ℕ;
  hll_new = 0;
  hll_add = λ s h. h + 1;
  hll_estimate = λ h. h;
  hll_clear = λ h. 0;
  hll_merge = λ g h. g + h;
  hll_dump = λ h. [];
  hll_restore = λ s h. h;
  CountMin = ℕ;
  cm_new = 0;
  cm_update = λ s n c. c + n;
  cm_total = λ c. c;
  cm_estimate = λ s c. c;
  cm_erase = λ c. 0;
  cm_dump = λ c. [];
  cm_restore = λ s c. c;
  stoi = λ s. none;
  to_string = λ n. [];
}

-- Three windows of 10 seconds from 1000, the last two written at 1010 and 1020.
abbrev windows : Entry counting
windows = record {
  stats_array = (0, int_member 0) ∷ (1010, int_member 4) ∷ (1020, int_member 5) ∷ [];
  num_windows = 3;
  window_size = 10;
  start_time = 1000;
  last_cleaned = 1020;
  sum_cache_valid = false;
  sum_cache_value = 0;
  ssum_cache_valid = false;
  ssum_cache_value = 0;
}

-- Window 1, of 1010, is erased at 1040 and written.
at_1040 : current_window 1040 (clean_windows 1040 windows) ≡ some 1
unfolding current_window clean_windows
at_1040 = refl

-- The window of 1010 is as old as the three windows, and does not count.
value-entry_sum-recent_example :
    value (entry_sum (steady 1040) windows) ≡ some (recent_sum 1040 30 0 windows.stats_array)
unfolding clean_windows erase_member
value-entry_sum-recent_example =
    value-entry_sum-recent 1040 1 0 0 windows
      (
        (0, refl, λ _. refl),
        (
          (4, refl, λ e. absurd (omega (arith, e))),
          ((5, refl, λ e. absurd (omega (arith, e))), tt),
        ),
      )
      (λ valid. absurd (cc)) (omega arith) at_1040 refl

value-entry_sum-entry_add_example :
    (e' : Entry counting) × (old : ℕ) × (entry_add (steady 1040) 7 windows ≡ done e')
    × (value (entry_sum (steady 1040) windows) ≡ some old)
    × (value (entry_sum (steady 1040) e') ≡ some ((old + 7) % int_mod))
unfolding clean_windows current_window erase_member
value-entry_sum-entry_add_example =
    value-entry_sum-entry_add 1040 7 1 0 0 windows (omega arith) refl at_1040 refl

-- A new entry of the field.
abbrev fresh : Entry counting
fresh = record windows {
  stats_array = (0, int_member 0) ∷ (0, int_member 0) ∷ (0, int_member 0) ∷ [];
  start_time = 2000;
  last_cleaned = 0;
}

windows-IsInt32 : All IsInt32 windows.stats_array
windows-IsInt32 = ((0, refl, omega arith), ((4, refl, omega arith), ((5, refl, omega arith), tt)))

fresh-IsInt32 : All IsInt32 fresh.stats_array
fresh-IsInt32 = ((0, refl, omega arith), ((0, refl, omega arith), ((0, refl, omega arith), tt)))

entry_restore-entry_dump_example :
    entry_restore (entry_dump windows).0 (entry_dump windows).1 fresh
    ≡ done (record fresh {
      stats_array = windows.stats_array;
      start_time = 1000;
      last_cleaned = 0;
      sum_cache_valid = false;
      ssum_cache_valid = false;
    })
entry_restore-entry_dump_example =
    entry_restore-entry_dump windows fresh refl windows-IsInt32 fresh-IsInt32

entry_get_windows-value_at_example :
    (ns : List ℕ) × (entry_get_windows (steady 1040) windows
      ≡ done (clean_windows 1040 windows, ns))
    × (length ns ≡ (clean_windows 1040 windows).num_windows)
    × ((j : ℕ)
        → j < (clean_windows 1040 windows).num_windows
        → get_elem? ns j
          ≡ value_at (clean_windows 1040 windows).stats_array (
              (1 + ((clean_windows 1040 windows).num_windows - j))
              % (clean_windows 1040 windows).num_windows))
unfolding clean_windows
entry_get_windows-value_at_example =
    entry_get_windows-value_at (steady 1040) windows 1 at_1040 (omega arith) refl
