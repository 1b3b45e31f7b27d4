-- ===== src/Stats/Entry.antt =====
-- TWStatsEntry of common/twmap.hh: the windows of one field. Times are seconds since the epoch. A
-- method reads the clock up to three times, and takes the three readings.
use weakforced.Prelude.{
  ℕ, suc, zero, ◌+◌, ◌-◌, ◌*◌, ◌/◌, ◌%◌, Bool, false, not, ◌&&◌, ◌||◌, Option, none, some, List, [],
  ◌∷◌, Str, ◌==◌, ltb, leb, if◌then◌else◌, get_elem?, set, replicate,
}
use weakforced.Stats.Member.{
  Sketches, Member, create, add_int, add_str, add_pair, sub_int, sub_str, erase_member,
}

-- The readings of clean_windows, current_window and update_write_timestamp.
pub record Clock : Type 0 where
  pub cleaned : ℕ
  pub current : ℕ
  pub written : ℕ

pub record Entry (k : Sketches) : Type 0 where
  pub stats_array : List (ℕ × Member k)
  pub num_windows : ℕ
  pub window_size : ℕ
  pub start_time : ℕ
  pub last_cleaned : ℕ
  pub sum_cache_valid : Bool
  pub sum_cache_value : ℕ
  pub ssum_cache_valid : Bool
  pub ssum_cache_value : ℕ

-- `undefined`: the array is indexed outside its bounds.
pub data Outcome {ℓ} (A : Type ℓ) : Type ℓ where
  done : A → Outcome A
  invalid_argument : A → Outcome A
  undefined : Outcome A

module _ {k : Sketches} where
  unfoldable pub windows_of : ℕ → Option (Member k) → List (ℕ × Member k)
  windows_of n none = []
  windows_of n (some m) = replicate n (0, m)

  -- The constructor.
  unfoldable pub new_entry : ℕ → ℕ → ℕ → Str → Entry k
  unfolding windows_of
  new_entry nw ws st field_type = record {
    stats_array = windows_of nw (create k field_type);
    num_windows = nw;
    window_size = ws;
    start_time = st;
    last_cleaned = 0;
    sum_cache_valid = false;
    sum_cache_value = 0;
    ssum_cache_valid = false;
    ssum_cache_value = 0;
  }

  -- The window is written and `now - last_write >= expire_diff`.
  unfoldable pub is_expired : ℕ → ℕ → ℕ × Member k → Bool
  is_expired now expire_diff (last_write, m) =
      not (last_write == 0) && leb (last_write + expire_diff) now

  unfoldable pub clean_window : ℕ → ℕ → ℕ × Member k → ℕ × Member k
  unfolding is_expired
  clean_window now expire_diff (last_write, m) =
      if is_expired now expire_diff (last_write, m) then (0, erase_member m) else (last_write, m)

  unfoldable pub clean_array : ℕ → ℕ → List (ℕ × Member k) → List (ℕ × Member k)
  unfolding clean_window
  clean_array now expire_diff [] = []
  clean_array now expire_diff (w ∷ ws) =
      clean_window now expire_diff w ∷ clean_array now expire_diff ws

  unfoldable pub any_expired : ℕ → ℕ → List (ℕ × Member k) → Bool
  unfolding is_expired
  any_expired now expire_diff [] = false
  any_expired now expire_diff (w ∷ ws) =
      is_expired now expire_diff w || any_expired now expire_diff ws

  -- `now - last_cleaned < window_size` leaves the windows as they are. The product of the sizes is one
  -- of ints in the source; new_stats_db gives only databases for which it fits.
  unfoldable pub clean_windows : ℕ → Entry k → Entry k
  unfolding clean_array any_expired
  clean_windows now e = if ltb now (e.last_cleaned + e.window_size) then e else record e {
    stats_array = clean_array now (e.window_size * e.num_windows) e.stats_array;
    sum_cache_valid =
        if any_expired now (e.window_size * e.num_windows) e.stats_array
        then false
        else e.sum_cache_valid;
    ssum_cache_valid =
        if any_expired now (e.window_size * e.num_windows) e.stats_array
        then false
        else e.ssum_cache_valid;
    last_cleaned = now;
  }

  -- `(now - start_time) / window_size % num_windows`, which C++ rounds towards 0. `none`: the index
  -- is negative, as it can be before `start_time`.
  unfoldable pub current_window : ℕ → Entry k → Option ℕ
  current_window now e =
      if leb e.start_time now
      then some ((now - e.start_time) / e.window_size % e.num_windows)
      else if (e.start_time - now) / e.window_size % e.num_windows == 0
      then some 0
      else none

  -- The start of the window at `now`.
  unfoldable pub write_time : ℕ → Entry k → ℕ
  write_time now e =
      if leb e.start_time now
      then now - (now - e.start_time) % e.window_size
      else now + (e.start_time - now) % e.window_size

  unfoldable pub stamp : ℕ → ℕ × Member k → ℕ × Member k
  stamp t (first, m) = if first == 0 then (t, m) else (first, m)

  unfoldable pub stamp_at : ℕ → ℕ → List (ℕ × Member k) → List (ℕ × Member k)
  unfolding stamp
  stamp_at t i [] = []
  stamp_at t zero (w ∷ ws) = stamp t w ∷ ws
  stamp_at t (suc i) (w ∷ ws) = w ∷ stamp_at t i ws

  unfoldable pub update_write_timestamp : ℕ → ℕ → Entry k → Entry k
  unfolding stamp_at write_time
  update_write_timestamp now cur_window e = record e {
    stats_array = stamp_at (write_time now e) cur_window e.stats_array;
    sum_cache_valid = false;
    ssum_cache_valid = false;
  }

  unfoldable pub write_window : Clock → ℕ → ℕ → Option (Member k) → Entry k → Outcome (Entry k)
  write_window c cw first none e = invalid_argument e
  write_window c cw first (some m) e = done (
      update_write_timestamp c.written cw
        (record e { stats_array = set e.stats_array cw (first, m) }))

  unfoldable pub write_at :
      Clock
      → (Member k → Option (Member k))
      → ℕ
      → Option (ℕ × Member k)
      → Entry k
      → Outcome (Entry k)
  write_at c f cw none e = undefined
  write_at c f cw (some (first, m)) e = write_window c cw first (f m) e

  unfoldable pub write_current :
      Clock → (Member k → Option (Member k)) → Option ℕ → Entry k → Outcome (Entry k)
  write_current c f none e = undefined
  write_current c f (some cw) e = write_at c f cw (get_elem? e.stats_array cw) e

  -- The body that the five methods which write share; `f` gives `none` where the member throws.
  unfoldable pub write : Clock → (Member k → Option (Member k)) → Entry k → Outcome (Entry k)
  write c f e =
      let e' = clean_windows c.cleaned e in write_current c f (current_window c.current e') e'

  unfoldable pub entry_add : Clock → ℕ → Entry k → Outcome (Entry k)
  entry_add c a = write c (λ m. some (add_int a m))

  unfoldable pub entry_add_str : Clock → Str → Entry k → Outcome (Entry k)
  entry_add_str c s = write c (add_str s)

  unfoldable pub entry_add_pair : Clock → Str → ℕ → Entry k → Outcome (Entry k)
  entry_add_pair c s a = write c (λ m. some (add_pair s a m))

  unfoldable pub entry_sub : Clock → ℕ → Entry k → Outcome (Entry k)
  entry_sub c a = write c (λ m. some (sub_int a m))

  unfoldable pub entry_sub_str : Clock → Str → Entry k → Outcome (Entry k)
  entry_sub_str c s = write c (sub_str s)
