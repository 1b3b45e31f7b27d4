-- ===== src/Stats/Db/Reached.antt =====
-- The states of a TWStatsDB (common/twmap.hh) have a key tracker in step with the map.
use weakforced.Prelude.{
  ℕ, ◌≡◌, List, [], ◌∷◌, Str, All, refl, ap, inl, inr, Bool-cases, is_some, subst, arith, ℤ, pos,
  negsuc, ◌==◌, if◌then◌else◌, ◌≤◌, sym, some,
}
use weakforced.Stats.Member.{Sketches}
use weakforced.Stats.Entry.{Outcome, done, invalid_argument, undefined, write}
use weakforced.Stats.Reads.{
  entry_get, entry_get_str, entry_sum, entry_sum_str, entry_get_windows, entry_get_windows_str,
  entry_restore,
}
use weakforced.Stats.Db.{
  StatsDb, new_stats_db, set_fields, known_types, expire_entries, set_map_size_soft, sized_db,
  size_of, if_fits,
}
use weakforced.Stats.Db.Calls.{
  Call, call_set_fields, call_incr, call_decr, call_add, call_add_str, call_add_pair, call_sub,
  call_sub_str, call_get, call_get_str, call_get_current, call_get_current_str, call_get_windows,
  call_get_windows_str, call_get_all_fields, call_get_all_fields_windows, call_reset,
  call_reset_field, call_restore_entry, call_expire_entries, call_set_map_size_soft, run, Reachable,
  begun, returned, threw,
}
use weakforced.Stats.Db.Invariant.{Holds, Invariant}
use weakforced.Stats.Db.Runs.{CallLaws, IsAllowed, run-Good}
use weakforced.Stats.Db.Tracker.{count, keys_of}
use weakforced.Stats.Db.Tracked.{
  IsTracked, move_to_end-IsTracked, insert-IsTracked, insert_key-IsTracked,
}
use weakforced.Stats.Db.Expire.{expire_entries-IsExpired}

All-trivial : {V : Type 0} (m : List (Str × V)) → All (λ p. Unit {0}) m
All-trivial [] = tt
All-trivial (p ∷ m) = (tt, All-trivial m)

Holds-trivial : {A : Type 0} (r : Outcome A) → Holds (Unit {0}) (λ _. Unit {0}) r
unfolding Holds
Holds-trivial (done a) = tt
Holds-trivial (invalid_argument a) = tt
Holds-trivial undefined = tt

restores : (saved : List (Str × (ℕ × List (ℕ × Str)))) → All (λ _. Unit {0}) saved
restores [] = tt
restores (p ∷ saved) = (tt, restores saved)

always : (call : Call) → IsAllowed (λ _. Unit {0}) (λ _ _. Unit {0}) call
unfolding IsAllowed
always (call_get_all_fields clocks key) = λ field. tt
always (call_get_all_fields_windows clocks key) = λ field. tt
always (call_restore_entry key saved) = restores saved
always (call_set_fields fields) = tt
always (call_incr c key field) = tt
always (call_decr c key field) = tt
always (call_add c key field a) = tt
always (call_add_str c key field v) = tt
always (call_add_pair c key field v a) = tt
always (call_sub c key field a) = tt
always (call_sub_str c key field v) = tt
always (call_get c key field) = tt
always (call_get_str c key field v) = tt
always (call_get_current c key field) = tt
always (call_get_current_str c key field v) = tt
always (call_get_windows c key field) = tt
always (call_get_windows_str c key field v) = tt
always (call_reset key) = tt
always (call_reset_field key field) = tt
always call_expire_entries = tt
always (call_set_map_size_soft size) = tt

module _ {k : Sketches} where
  abbrev tracked : Invariant k
  tracked = record {
    Good = IsTracked;
    GoodEntry = λ s e. Unit {0};
    good_fields = λ key fields s e h. All-trivial fields;
    good_put = λ key fields fields' s e a h. insert-IsTracked key fields' s (ap is_some e) h;
    good_move = move_to_end-IsTracked;
    good_new = λ field type s e h. tt;
    good_add_key = λ key field type s e missing h.
        insert_key-IsTracked key field type s (ap is_some missing) h;
  }

  pub set_fields-IsTracked :
      (fields : List (Str × Str)) (s : StatsDb k) → IsTracked s → IsTracked (set_fields fields s).0
  unfolding set_fields
  set_fields-IsTracked fields s h = elim (Bool-cases (known_types k fields)) [
    | inl known ↦ rw (set_fields, known) (record { same = h.same; once = h.once; sizes = h.sizes })
    | inr unknown ↦ rw (set_fields, unknown) h
  ]

  pub set_map_size_soft-IsTracked :
      (size : ℕ) (s : StatsDb k) → IsTracked s → IsTracked (set_map_size_soft size s)
  unfolding set_map_size_soft
  set_map_size_soft-IsTracked size s h = record { same = h.same; once = h.once; sizes = h.sizes }

  expire_entries-IsTracked :
      (s : StatsDb k) → IsTracked s → Holds (Unit {0}) IsTracked (expire_entries s)
  unfolding Holds
  expire_entries-IsTracked s h =
      let (s', ran, x, _) = expire_entries-IsExpired s h in rw ran x.tracked

  tracked_laws : CallLaws tracked (Unit {0}) (λ _. Unit {0}) (λ _ _. Unit {0})
  tracked_laws = record {
    keeps_write = λ c f s e w g. Holds-trivial (write c f e);
    keeps_get = λ c w s e g. Holds-trivial (entry_get c e);
    keeps_get_str = λ c v w s e g. Holds-trivial (entry_get_str c v e);
    keeps_sum = λ c w s e g. Holds-trivial (entry_sum c e);
    keeps_sum_str = λ c v w s e g. Holds-trivial (entry_sum_str c v e);
    keeps_windows = λ c w s e g. Holds-trivial (entry_get_windows c e);
    keeps_windows_str = λ c v w s e g. Holds-trivial (entry_get_windows_str c v e);
    keeps_reset = λ s e g. tt;
    keeps_restore = λ stime texts s e r g. Holds-trivial (entry_restore texts stime e);
    keeps_fields = set_fields-IsTracked;
    keeps_size = set_map_size_soft-IsTracked;
    keeps_expire = expire_entries-IsTracked;
  }

  run-IsTracked :
      (call : Call) (s : StatsDb k) → IsTracked s → Holds (Unit {0}) IsTracked (run call s)
  run-IsTracked call s h =
      run-Good tracked (Unit {0}) (λ _. Unit {0}) (λ _ _. Unit {0}) tracked_laws call s
        (always call) h

  -- A new database has at least one window, of at least a second.
  pub new_stats_db-some :
      (now : ℕ) (name : Str) (w_siz num_w : ℤ) (s : StatsDb k)
      → new_stats_db now name w_siz num_w ≡ some s
      → (w n : ℕ) × (s ≡ sized_db now name w n) × (1 ≤ w) × (1 ≤ n)
  unfolding new_stats_db size_of if_fits
  new_stats_db-some now name (pos w) (pos n) s e = (
    if w == 0 then 1 else w,
    if n == 0 then 1 else n,
    ground (arith, e),
    ground arith,
    ground arith,
  )
  new_stats_db-some now name (negsuc w) num_w s e = absurd (cc)
  new_stats_db-some now name (pos w) (negsuc n) s e = absurd (cc)

  sized_db-IsTracked : (now : ℕ) (name : Str) (w n : ℕ) → IsTracked {k = k} (sized_db now name w n)
  unfolding sized_db count keys_of
  sized_db-IsTracked now name w n = record {
    same = λ key. refl;
    once = λ key. omega arith;
    sizes = refl;
  }

  pub new_stats_db-IsTracked :
      (now : ℕ) (name : Str) (w_siz num_w : ℤ) (s : StatsDb k)
      → new_stats_db now name w_siz num_w ≡ some s
      → IsTracked s
  new_stats_db-IsTracked now name w_siz num_w s e =
      let (w, n, same, _, _) = new_stats_db-some now name w_siz num_w s e in
      subst IsTracked (sym same) (sized_db-IsTracked now name w n)

  -- In every state that a new database reaches by calls that return or throw, the key tracker has each
  -- key of the map exactly once and no other key, and is as long as the map.
  pub Reachable-IsTracked : (s : StatsDb k) → Reachable s → IsTracked s
  unfolding Holds
  Reachable-IsTracked _ (begun now name w_siz num_w s e) =
      new_stats_db-IsTracked now name w_siz num_w s e
  Reachable-IsTracked _ (returned call s s' r e) =
      subst (Holds (Unit {0}) IsTracked) e (run-IsTracked call s (Reachable-IsTracked s r))
  Reachable-IsTracked _ (threw call s s' r e) =
      subst (Holds (Unit {0}) IsTracked) e (run-IsTracked call s (Reachable-IsTracked s r))
