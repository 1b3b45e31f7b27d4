-- ===== src/Stats/Windows.antt =====
-- What the windows of an int field of common/twmap.hh hold over time, as its sum shows it.
use weakforced.Prelude.{
  ℕ, ◌+◌, ◌*◌, ◌%◌, ◌<◌, ◌≤◌, Bool, true, false, not, ◌&&◌, ◌==◌, if◌then◌else◌, some, List, [],
  ◌∷◌, All, ltb, get_elem?, ◌≡◌, refl, ap, ◌∙◌, inl, inr, arith, Bool-cases,
}
use weakforced.Stats.Member.{Sketches, Member, int_member, get, sum_from, erase_member, int_mod}
use weakforced.Stats.Entry.{
  Entry, is_expired, any_expired, clean_window, clean_array, clean_windows, current_window,
}
use weakforced.Stats.Reads.{entry_sum}
use weakforced.Stats.Sums.{steady, value, entry_sum-done}

-- Written, and started less than `period` before `now`.
abbrev pub is_recent : ℕ → ℕ → ℕ → Bool
is_recent now period t = not (t == 0) && ltb now (t + period)

module _ {k : Sketches} where
  -- The sum on 32 bits, from `c` on, of the ints in the recent windows.
  unfoldable pub recent_sum : ℕ → ℕ → ℕ → List (ℕ × Member k) → ℕ
  recent_sum now period c [] = c
  recent_sum now period c ((t, m) ∷ ws) =
      recent_sum now period (if is_recent now period t then (c + get m) % int_mod else c) ws

  -- The window holds an int, which is 0 when the window is not written.
  abbrev pub IsIntWindow : ℕ × Member k → Type 0
  IsIntWindow w = (n : ℕ) × (w.1 ≡ int_member n) × (w.0 ≡ 0 → n ≡ 0)

  clean_window-get :
      (now period c t : ℕ) (m : Member k)
      → c < int_mod
      → IsIntWindow (t, m)
      → (c + get (clean_window now period (t, m)).1) % int_mod
        ≡ (if is_recent now period t then (c + get m) % int_mod else c)
  unfolding clean_window is_expired get erase_member
  clean_window-get now period c t (int_member i) h (n, same, blank) = ground (arith, same, blank)
  clean_window-get now period c t _ h (n, same, blank) = absurd (cc)

  recent_less :
      (now period c t : ℕ) (m : Member k)
      → c < int_mod
      → (if is_recent now period t then (c + get m) % int_mod else c) < int_mod
  recent_less now period c t m h = ground arith

  sum_from-clean_array :
      (now period c : ℕ) (ws : List (ℕ × Member k))
      → c < int_mod
      → All IsIntWindow ws
      → sum_from c (clean_array now period ws) ≡ recent_sum now period c ws
  unfolding sum_from clean_array recent_sum
  sum_from-clean_array now period c [] h a = refl
  sum_from-clean_array now period c ((t, m) ∷ ws) h (w, a) =
      ap (λ (d : ℕ). sum_from d (clean_array now period ws)) (clean_window-get now period c t m h w)
      ∙ sum_from-clean_array now period
          (if is_recent now period t then (c + get m) % int_mod else c) ws
          (recent_less now period c t m h) a

  clean_array-none_expired :
      (now period : ℕ) (ws : List (ℕ × Member k))
      → any_expired now period ws ≡ false
      → clean_array now period ws ≡ ws
  unfolding clean_array any_expired clean_window
  clean_array-none_expired now period [] h = refl
  clean_array-none_expired now period (w ∷ ws) h =
      ground (arith, clean_array-none_expired now period ws)

  -- A cached sum is the sum of the windows.
  abbrev pub IsCached : Entry k → Type 0
  IsCached e = e.sum_cache_valid ≡ true → e.sum_cache_value ≡ sum_from 0 e.stats_array

  clean_windows-IsCached : (now : ℕ) (e : Entry k) → IsCached e → IsCached (clean_windows now e)
  unfolding clean_windows
  clean_windows-IsCached now e h = elim (Bool-cases (ltb now (e.last_cleaned + e.window_size))) [
    | inl skipped ↦ rw skipped h
    | inr cleaned ↦
        elim (Bool-cases (any_expired now (e.window_size * e.num_windows) e.stats_array)) [
          | inl some_expired ↦ rw (cleaned, some_expired) (λ valid. absurd (cc))
          | inr none_expired ↦
              rw
                (
                  cleaned,
                  none_expired,
                  clean_array-none_expired now (e.window_size * e.num_windows) e.stats_array
                      none_expired,
                )
                h
        ]
  ]

  entry_sum-IsCached :
      (now cw t n : ℕ) (e : Entry k)
      → IsCached (clean_windows now e)
      → current_window now (clean_windows now e) ≡ some cw
      → get_elem? (clean_windows now e).stats_array cw ≡ some (t, int_member n)
      → value (entry_sum (steady now) e) ≡ some (sum_from 0 (clean_windows now e).stats_array)
  unfolding entry_sum
  entry_sum-IsCached now cw t n e cached here int =
      elim (Bool-cases (clean_windows now e).sum_cache_valid) [
        | inl valid ↦ rw valid (ap some (cached valid))
        | inr invalid ↦ entry_sum-done now cw t n e invalid here int
      ]

  -- When the sum of an int field is read, at one clock reading, and the last cleaning was at least a
  -- window ago, it is the sum on 32 bits of the ints in the windows that started less than the period
  -- of all windows before: a window does not count from the second on at which it is as old as the
  -- period. All windows hold ints, 0 where they are not written, a cached sum is right, and the
  -- current window is in the array.
  pub value-entry_sum-recent :
      (now cw t n : ℕ) (e : Entry k)
      → All IsIntWindow e.stats_array
      → IsCached e
      → e.last_cleaned + e.window_size ≤ now
      → current_window now (clean_windows now e) ≡ some cw
      → get_elem? (clean_windows now e).stats_array cw ≡ some (t, int_member n)
      → value (entry_sum (steady now) e)
        ≡ some (recent_sum now (e.window_size * e.num_windows) 0 e.stats_array)
  unfolding clean_windows
  value-entry_sum-recent now cw t n e ints cached old here int =
      entry_sum-IsCached now cw t n e (clean_windows-IsCached now e cached) here int
      ∙ ap some (
          ap (sum_from 0) (cleaned_array now e old)
          ∙ sum_from-clean_array now (e.window_size * e.num_windows) 0 e.stats_array (omega arith)
              ints)
    where
      cleaned_array :
          (now : ℕ) (e : Entry k)
          → e.last_cleaned + e.window_size ≤ now
          → (clean_windows now e).stats_array
            ≡ clean_array now (e.window_size * e.num_windows) e.stats_array
      cleaned_array now e old =
          let due : ltb now (e.last_cleaned + e.window_size) ≡ false = ground (arith, old) in
          rw due refl
