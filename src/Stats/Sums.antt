-- ===== src/Stats/Sums.antt =====
-- The sum over the windows of an int field of common/twmap.hh, and what an addition does to it.
use weakforced.Prelude.{
  ℕ, suc, zero, ◌+◌, ◌%◌, ◌<◌, Bool, false, Option, none, some, List, [], ◌∷◌, ◌==◌, ltb,
  if◌then◌else◌, get_elem?, set, ◌≡◌, refl, arith, ap, ◌∙◌, Bool-cases, inl, inr,
}
use weakforced.Stats.Member.{Sketches, Member, int_member, add_int, get, sum, sum_from, int_mod}
use weakforced.Stats.Entry.{
  Clock, Entry, Outcome, done, invalid_argument, undefined, clean_windows, current_window,
  write_time, stamp, stamp_at, update_write_timestamp, write, write_current, write_at, write_window,
  entry_add,
}
use weakforced.Stats.Reads.{window_at, entry_sum, sum_window}

-- A clock that does not move during the call.
abbrev pub steady : ℕ → Clock
steady now = record { cleaned = now; current = now; written = now }

module _ {k : Sketches} where
  -- Every window holds an int.
  abbrev pub IsInt : ℕ × Member k → Type 0
  IsInt w = (n : ℕ) × (w.1 ≡ int_member n)

  sum_from-add :
      (c a : ℕ) (ws : List (ℕ × Member k))
      → c < int_mod
      → sum_from ((c + a) % int_mod) ws ≡ (sum_from c ws + a) % int_mod
  unfolding sum_from
  sum_from-add c a [] h = refl
  sum_from-add c a ((t, m) ∷ ws) h =
      let order : ((c + a) % int_mod + get m) % int_mod ≡ ((c + get m) % int_mod + a) % int_mod =
        omega arith in
      rw order (sum_from-add ((c + get m) % int_mod) a ws (omega arith))

  sum_from-set :
      (c a i : ℕ) (ws : List (ℕ × Member k)) (t n : ℕ)
      → c < int_mod
      → get_elem? ws i ≡ some (t, int_member n)
      → sum_from c (set ws i (t, add_int a (int_member n))) ≡ (sum_from c ws + a) % int_mod
  unfolding sum_from add_int get
  sum_from-set c a i [] t n h e = absurd (cc)
  sum_from-set c a zero ((u, m) ∷ ws) t n h e =
      let same : get m ≡ n = ground arith in
      let order : (c + (n + a) % int_mod) % int_mod ≡ ((c + n) % int_mod + a) % int_mod =
        omega arith in
      rw same
        (ap (λ (t : ℕ). sum_from t ws) order ∙ sum_from-add ((c + n) % int_mod) a ws (omega arith))
  sum_from-set c a (suc i) ((u, m) ∷ ws) t n h e =
      sum_from-set ((c + get m) % int_mod) a i ws t n (omega arith) e

  sum_from-stamp_at :
      (c t i : ℕ) (ws : List (ℕ × Member k)) → sum_from c (stamp_at t i ws) ≡ sum_from c ws
  unfolding sum_from stamp_at stamp
  sum_from-stamp_at c t i [] = refl
  sum_from-stamp_at c t zero ((u, m) ∷ ws) = ground arith
  sum_from-stamp_at c t (suc i) ((u, m) ∷ ws) = sum_from-stamp_at ((c + get m) % int_mod) t i ws

  -- The value that a read returns.
  abbrev pub value : Outcome (Entry k × ℕ) → Option ℕ
  value (done (e, n)) = some n
  value (invalid_argument (e, n)) = none
  value undefined = none

  -- The entry after an addition in window `cw`.
  abbrev pub entry_with : ℕ → ℕ → ℕ → ℕ → ℕ → Entry k → Entry k
  entry_with now cw first n a x =
      update_write_timestamp now cw
        (record x { stats_array = set x.stats_array cw (first, add_int a (int_member n)) })

  -- Cleaning twice at one time is cleaning once.
  clean_windows_again :
      (now cw first n a : ℕ) (e : Entry k)
      → 0 < e.window_size
      → clean_windows now (entry_with now cw first n a (clean_windows now e))
        ≡ entry_with now cw first n a (clean_windows now e)
  unfolding clean_windows update_write_timestamp
  clean_windows_again now cw first n a e h =
      elim (Bool-cases (ltb now (e.last_cleaned + e.window_size))) [
        | inl skipped ↦ rw skipped (ground arith)
        | inr cleaned ↦ rw cleaned (ground arith)
      ]

  current_window_with :
      (now now' cw first n a : ℕ) (x : Entry k)
      → current_window now' (entry_with now cw first n a x) ≡ current_window now' x
  unfolding current_window update_write_timestamp
  current_window_with now now' cw first n a x = refl

  get_elem?-stamp_at :
      (t i : ℕ) (ws : List (ℕ × Member k)) (u : ℕ) (m : Member k)
      → get_elem? ws i ≡ some (u, m)
      → (v : ℕ) × (get_elem? (stamp_at t i ws) i ≡ some (v, m))
  unfolding stamp_at stamp
  get_elem?-stamp_at t i [] u m h = absurd (cc)
  get_elem?-stamp_at t zero ((v, l) ∷ ws) u m h = (if v == 0 then t else v, ground arith)
  get_elem?-stamp_at t (suc i) (w ∷ ws) u m h = get_elem?-stamp_at t i ws u m h

  get_elem?-set_self :
      (ws : List (ℕ × Member k)) (i : ℕ) (w v : ℕ × Member k)
      → get_elem? ws i ≡ some w
      → get_elem? (set ws i v) i ≡ some v
  get_elem?-set_self [] i w v h = absurd (cc)
  get_elem?-set_self (x ∷ ws) zero w v h = refl
  get_elem?-set_self (x ∷ ws) (suc i) w v h = get_elem?-set_self ws i w v h

  entry_add-done :
      (now a cw first n : ℕ) (e : Entry k)
      → current_window now (clean_windows now e) ≡ some cw
      → get_elem? (clean_windows now e).stats_array cw ≡ some (first, int_member n)
      → entry_add (steady now) a e ≡ done (entry_with now cw first n a (clean_windows now e))
  unfolding entry_add write write_current write_at write_window
  entry_add-done now a cw first n e here int = rw (here, int) refl

  window_at-done :
      (now cw t n : ℕ) (x : Entry k)
      → current_window now x ≡ some cw
      → get_elem? x.stats_array cw ≡ some (t, int_member n)
      → window_at now x ≡ some (t, int_member n)
  unfolding window_at
  window_at-done now cw t n x here int = rw (window_at, here) int

  pub entry_sum-done :
      (now cw t n : ℕ) (e : Entry k)
      → (clean_windows now e).sum_cache_valid ≡ false
      → current_window now (clean_windows now e) ≡ some cw
      → get_elem? (clean_windows now e).stats_array cw ≡ some (t, int_member n)
      → value (entry_sum (steady now) e) ≡ some (sum_from 0 (clean_windows now e).stats_array)
  unfolding entry_sum sum_window sum
  entry_sum-done now cw t n e cache here int =
      let x : Entry k = clean_windows now e in
      ap
        (λ (b : Bool).
          value (if b then done (x, x.sum_cache_value) else sum_window (window_at now x) x))
        cache
      ∙ ap (λ (w : Option (ℕ × Member k)). value (sum_window w x))
          (window_at-done now cw t n x here int)

  -- After an int is added in an int window, at one clock reading, the sum of the field is the old sum
  -- plus the int, on 32 bits. The entry's cache is not marked as valid.
  pub value-entry_sum-entry_add :
      (now a cw first n : ℕ) (e : Entry k)
      → 0 < e.window_size
      → (clean_windows now e).sum_cache_valid ≡ false
      → current_window now (clean_windows now e) ≡ some cw
      → get_elem? (clean_windows now e).stats_array cw ≡ some (first, int_member n)
      → (e' : Entry k) × (old : ℕ) × (entry_add (steady now) a e ≡ done e')
        × (value (entry_sum (steady now) e) ≡ some old)
        × (value (entry_sum (steady now) e') ≡ some ((old + a) % int_mod))
  unfolding update_write_timestamp write_time add_int
  value-entry_sum-entry_add now a cw first n e pos cache here int =
      let x : Entry k = clean_windows now e in
      let ws : List (ℕ × Member k) = set x.stats_array cw (first, add_int a (int_member n)) in
      let again = clean_windows_again now cw first n a e pos in
      let stamped = get_elem?-stamp_at (write_time now x) cw ws first (add_int a (int_member n)) (
        get_elem?-set_self x.stats_array cw (first, int_member n) (first, add_int a (int_member n))
          int) in
      (
        entry_with now cw first n a x,
        sum_from 0 x.stats_array,
        entry_add-done now a cw first n e here int,
        entry_sum-done now cw first n e cache here int,
        entry_sum-done now cw stamped.0 ((n + a) % int_mod) (entry_with now cw first n a x)
              (ap (λ (y : Entry k). y.sum_cache_valid) again)
              (ap (current_window now) again ∙ current_window_with now now cw first n a x ∙ here)
              (ap (λ (y : Entry k). get_elem? y.stats_array cw) again ∙ stamped.1)
            ∙ ap some (
                ap (λ (y : Entry k). sum_from 0 y.stats_array) again
                ∙ sum_from-stamp_at 0 (write_time now (record x { stats_array = ws })) cw ws
                ∙ sum_from-set 0 a cw x.stats_array first n (omega arith) int),
      )
