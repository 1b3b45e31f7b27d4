-- ===== src/Stats/Whole.antt =====
-- The methods of TWStatsEntry (common/twmap.hh) stay in the array of windows.
use weakforced.Prelude.{
  ℕ, zero, suc, ◌+◌, ◌-◌, ◌*◌, ◌/◌, ◌%◌, ◌≤◌, ◌<◌, Bool, true, false, Option, none, some, List, [],
  ◌∷◌, Str, length, get_elem?, set, length-set, length-replicate, if◌then◌else◌, ltb, ◌≡◌, refl,
  sym, ap, subst, ◌∙◌, arith, Bool-cases, inl, inr,
}
use weakforced.Stats.Member.{Sketches, Member, create, get_str, restore}
use weakforced.Stats.Entry.{
  Clock, Entry, Outcome, done, new_entry, windows_of, clean_array, clean_windows, current_window,
  stamp_at, update_write_timestamp, write_window, write_at, write_current, write,
}
use weakforced.Stats.Reads.{
  window_at, read_value, entry_get, put_read, read_text, entry_get_str, windows_back,
  collect_windows, entry_get_windows, windows_back_str, collect_windows_str, entry_get_windows_str,
  sum_window, entry_sum, sum_window_str, entry_sum_str, reset_array, entry_reset, restore_array,
  entry_restore,
}
use weakforced.Stats.Listing.{get_elem?-in, windows_back-value_at, collect_windows-done}
use weakforced.Stats.Db.Invariant.{Holds}
pub mod Reading

module _ {k : Sketches} where
  length-clean_array :
      (now d : ℕ) (ws : List (ℕ × Member k)) → length (clean_array now d ws) ≡ length ws
  unfolding clean_array
  length-clean_array now d [] = refl
  length-clean_array now d (w ∷ ws) = ap suc (length-clean_array now d ws)

  length-stamp_at : (t i : ℕ) (ws : List (ℕ × Member k)) → length (stamp_at t i ws) ≡ length ws
  unfolding stamp_at
  length-stamp_at t i [] = refl
  length-stamp_at t zero (w ∷ ws) = refl
  length-stamp_at t (suc i) (w ∷ ws) = ap suc (length-stamp_at t i ws)

  length-reset_array : (ws : List (ℕ × Member k)) → length (reset_array ws) ≡ length ws
  unfolding reset_array
  length-reset_array [] = refl
  length-reset_array ((t, m) ∷ ws) = ap suc (length-reset_array ws)

module _ {k : Sketches} (num first_time : ℕ) where
  -- The entry has `num` windows of at least a second, and does not start after `first_time`.
  pub record IsWhole (e : Entry k) : Type 0 where
    pub array : length e.stats_array ≡ num
    pub windows : e.num_windows ≡ num
    pub size : 1 ≤ e.window_size
    pub started : e.start_time ≤ first_time

  clean_windows-IsWhole : (now : ℕ) (e : Entry k) → IsWhole e → IsWhole (clean_windows now e)
  unfolding clean_windows
  clean_windows-IsWhole now e h = elim (Bool-cases (ltb now (e.last_cleaned + e.window_size))) [
    | inl skipped ↦ rw skipped h
    | inr cleaned ↦ rw cleaned (record {
      array = length-clean_array now (e.window_size * e.num_windows) e.stats_array ∙ h.array;
      windows = h.windows;
      size = h.size;
      started = h.started;
    })
  ]

  pub entry_reset-IsWhole : (e : Entry k) → IsWhole e → IsWhole (entry_reset e)
  unfolding entry_reset
  entry_reset-IsWhole e h = record {
    array = length-reset_array e.stats_array ∙ h.array;
    windows = h.windows;
    size = h.size;
    started = h.started;
  }

  with_array :
      (ws : List (ℕ × Member k)) (e : Entry k)
      → length ws ≡ length e.stats_array
      → IsWhole e
      → IsWhole (record e { stats_array = ws })
  with_array ws e l h = record {
    array = l ∙ h.array;
    windows = h.windows;
    size = h.size;
    started = h.started;
  }

module _ {k : Sketches} (num first_time : ℕ) (pos : 1 ≤ num) where
  abbrev Whole : Entry k → Type 0
  Whole = IsWhole num first_time

  current_window-in :
      (now : ℕ) (e : Entry k)
      → first_time ≤ now
      → Whole e
      → (cw : ℕ) × (current_window now e ≡ some cw) × (cw < num)
  unfolding current_window
  current_window-in now e late h =
      ((now - e.start_time) / e.window_size % e.num_windows, ground (arith, late, h.started), small)
    where
      small : (now - e.start_time) / e.window_size % e.num_windows < num
      small = rw h.windows (omega (arith, pos))

  -- The current window, with what it holds.
  current_window-window :
      (now : ℕ) (e : Entry k)
      → first_time ≤ now
      → Whole e
      → (cw : ℕ) × (w : ℕ × Member k) × (current_window now e ≡ some cw)
        × (get_elem? e.stats_array cw ≡ some w)
  current_window-window now e late h =
      let (cw, here, lt) = current_window-in now e late h in
      let (w, there) = get_elem?-in e.stats_array cw (rw h.array lt) in (cw, w, here, there)

  update-Whole :
      (now cw t : ℕ) (m : Member k) (e : Entry k)
      → Whole e
      → Whole
          (update_write_timestamp now cw (record e { stats_array = set e.stats_array cw (t, m) }))
  unfolding update_write_timestamp
  update-Whole now cw t m e h = record {
    array =
        length-stamp_at _ cw (set e.stats_array cw (t, m))
        ∙ length-set e.stats_array cw (t, m)
        ∙ h.array;
    windows = h.windows;
    size = h.size;
    started = h.started;
  }

  write_window-Whole :
      (c : Clock) (cw t : ℕ) (r : Option (Member k)) (e : Entry k)
      → Whole e
      → Holds ⊥ Whole (write_window c cw t r e)
  unfolding write_window Holds
  write_window-Whole c cw t none e h = h
  write_window-Whole c cw t (some m) e h = update-Whole c.written cw t m e h

  -- Writes to a whole entry stay in the array.
  pub write-Whole :
      (c : Clock) (f : Member k → Option (Member k)) (e : Entry k)
      → first_time ≤ c.current
      → Whole e
      → Holds ⊥ Whole (write c f e)
  unfolding write write_current write_at
  write-Whole c f e late h =
      let h' = clean_windows-IsWhole num first_time c.cleaned e h in
      let (cw, (t, m), here, there) = current_window-window c.current _ late h' in
      rw (here, there) (write_window-Whole c cw t (f m) (clean_windows c.cleaned e) h')

  restore_array-suc :
      (t u : ℕ) (s : Str) (m : Member k) (ds : List (ℕ × Str)) (ws rest : List (ℕ × Member k))
      → restore_array ds ws ≡ some rest
      → restore_array ((t, s) ∷ ds) ((u, m) ∷ ws) ≡ some ((t, restore s m) ∷ rest)
  unfolding restore_array
  restore_array-suc t u s m ds ws rest e = rw e refl

  restore_array-some :
      (texts : List (ℕ × Str)) (ws : List (ℕ × Member k))
      → length texts ≤ length ws
      → (ws' : List (ℕ × Member k)) × (restore_array texts ws ≡ some ws') × (length ws' ≡ length ws)
  unfolding restore_array
  restore_array-some [] ws le = (ws, refl, refl)
  restore_array-some (d ∷ ds) [] le = absurd (omega arith)
  restore_array-some ((t, s) ∷ ds) ((u, m) ∷ ws) le =
      let (rest, e, l) = restore_array-some ds ws (omega arith) in
      ((t, restore s m) ∷ rest, restore_array-suc t u s m ds ws rest e, ap suc l)

  -- Saved windows that are not more than the entry's are restored.
  pub entry_restore-Whole :
      (texts : List (ℕ × Str)) (stime : ℕ) (e : Entry k)
      → length texts ≤ num
      → stime ≤ first_time
      → Whole e
      → Holds ⊥ Whole (entry_restore texts stime e)
  unfolding entry_restore Holds
  entry_restore-Whole texts stime e le old h =
      let (ws, all, l) = restore_array-some texts e.stats_array (rw h.array le) in
      rw (entry_restore, all)
        (record { array = l ∙ h.array; windows = h.windows; size = h.size; started = old })

  pub new_entry-Whole :
      (ws st : ℕ) (type : Str) (m : Member k)
      → create k type ≡ some m
      → 1 ≤ ws
      → st ≤ first_time
      → Whole (new_entry num ws st type)
  unfolding new_entry windows_of
  new_entry-Whole ws st type m known size old = record {
    array = rw known (length-replicate num (0, m));
    windows = refl;
    size = size;
    started = old;
  }
