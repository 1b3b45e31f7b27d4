-- ===== src/Stats/Db/Sound.antt =====
-- The methods of TWStatsDB (common/twmap.hh) stay in the arrays of windows.
use weakforced.Prelude.{
  ℕ, ℤ, suc, zero, ◌-◌, ◌≤◌, true, none, some, List, [], ◌∷◌, Str, str_eq, All, length, lookup,
  insert, erase, ◌≡◌, refl, sym, ap, ◌∙◌, subst, arith, is_some, Bool-cases, Option-cases, inl, inr,
  leb,
}
use weakforced.Stats.Member.{Sketches, create}
use weakforced.Stats.Entry.{Clock, Outcome, done, invalid_argument, undefined, new_entry}
use weakforced.Stats.Whole.Reading.{
  entry_get-Whole, entry_get_str-Whole, entry_sum-Whole, entry_sum_str-Whole,
  entry_get_windows-Whole, entry_get_windows_str-Whole,
}
use weakforced.Stats.Whole.{
  IsWhole, entry_reset-IsWhole, write-Whole, entry_restore-Whole, new_entry-Whole,
}
use weakforced.Stats.Db.{
  StatsDb, new_stats_db, sized_db, set_fields, known_types, field_type, move_to_end, insert_key,
  new_field, expire_loop, expire_entries, set_map_size_soft,
}
use weakforced.Stats.Db.Calls.{Call, run, run_all}
use weakforced.Stats.Db.Invariant.{Holds, Invariant, All-insert, All-lookup}
use weakforced.Stats.Db.Runs.{CallLaws, IsAllowed, run-Good}
use weakforced.Stats.Db.Tracked.{
  IsTracked, move_to_end-IsTracked, insert-IsTracked, insert_key-IsTracked,
}
use weakforced.Stats.Db.Expire.{List-cases, front_key, without, without-IsTracked}
use weakforced.Stats.Db.Reached.{
  new_stats_db-some, new_stats_db-IsTracked, set_map_size_soft-IsTracked,
}

module _ {V : Type 0} (P : V → Type 0) where
  All-erase : (key : Str) (m : List (Str × V)) → All (λ p. P p.1) m → All (λ p. P p.1) (erase key m)
  unfolding erase
  All-erase key [] a = tt
  All-erase key ((j, w) ∷ m) a = elim (Bool-cases (str_eq j key)) [
    | inl e ↦ rw e (All-erase key m a.1)
    | inr e ↦ rw e (a.0, All-erase key m a.1)
  ]

module _ {k : Sketches} (num first_time : ℕ) where
  -- Every entry has `num` windows, of at least a second, and did not start after `first_time`.
  pub record IsSound (s : StatsDb k) : Type 0 where
    pub tracks : IsTracked s
    pub entries : All (λ p. All (λ q. IsWhole num first_time q.1) p.1) s.stats_db
    pub nums : s.num_windows ≡ num
    pub size : 1 ≤ s.window_size
    pub started : s.start_time ≤ first_time

  -- The database may only differ in its keys, its field map and its limit.
  IsSound-with :
      (s s' : StatsDb k)
      → IsTracked s'
      → All (λ p. All (λ q. IsWhole num first_time q.1) p.1) s'.stats_db
      → s'.num_windows ≡ s.num_windows
      → s'.window_size ≡ s.window_size
      → s'.start_time ≡ s.start_time
      → IsSound s
      → IsSound s'
  IsSound-with s s' t a n w st h = record {
    tracks = t;
    entries = a;
    nums = n ∙ h.nums;
    size = rw w h.size;
    started = rw st h.started;
  }

  without-IsSound :
      (key : Str) (rest : List Str) (s : StatsDb k)
      → s.key_tracker ≡ key ∷ rest
      → IsSound s
      → IsSound (without key rest s)
  without-IsSound key rest s e h =
      IsSound-with s (without key rest s) (without-IsTracked key rest s h.tracks e)
        (All-erase (All (λ q. IsWhole num first_time q.1)) key s.stats_db h.entries) refl refl refl
        h

  expire_loop-IsSound :
      (n : ℕ) (s : StatsDb k)
      → n ≤ length s.key_tracker
      → IsSound s
      → Holds ⊥ IsSound (expire_loop n s)
  unfolding expire_loop Holds
  expire_loop-IsSound zero s le h = h
  expire_loop-IsSound (suc n) s le h = elim (List-cases s.key_tracker) [
    | inl e ↦ absurd (omega (arith, ap length e))
    | inr (key, rest, e) ↦
        rw (expire_loop, e, front_key key rest s h.tracks e)
          (expire_loop-IsSound n (without key rest s) (omega (arith, ap length e))
            (without-IsSound key rest s e h))
  ]

  expire_entries-IsSound : (s : StatsDb k) → IsSound s → Holds ⊥ IsSound (expire_entries s)
  unfolding expire_entries Holds
  expire_entries-IsSound s h = elim (Bool-cases (leb (length s.stats_db) s.map_size_soft)) [
    | inl small ↦ rw (expire_entries, small) h
    | inr large ↦
        rw (expire_entries, large)
          (expire_loop-IsSound (length s.stats_db - s.map_size_soft) s
            (omega (arith, h.tracks.sizes)) h)
  ]

  set_fields-IsSound :
      (fields : List (Str × Str)) (s : StatsDb k) → IsSound s → IsSound (set_fields fields s).0
  unfolding set_fields
  set_fields-IsSound fields s h = elim (Bool-cases (known_types k fields)) [
    | inl known ↦
        rw (set_fields, known)
          (IsSound-with s (record s { field_map = fields })
            (record { same = h.tracks.same; once = h.tracks.once; sizes = h.tracks.sizes })
            h.entries refl refl refl h)
    | inr unknown ↦ rw (set_fields, unknown) h
  ]

  set_map_size_soft-IsSound :
      (size : ℕ) (s : StatsDb k) → IsSound s → IsSound (set_map_size_soft size s)
  unfolding set_map_size_soft
  set_map_size_soft-IsSound size s h =
      IsSound-with s (set_map_size_soft size s) (set_map_size_soft-IsTracked size s h.tracks)
        h.entries refl refl refl h

  move_to_end-IsSound :
      (key : Str) (s : StatsDb k)
      → is_some (lookup key s.stats_db) ≡ true
      → IsSound s
      → IsSound (move_to_end key s)
  unfolding move_to_end
  move_to_end-IsSound key s known h =
      IsSound-with s (move_to_end key s) (move_to_end-IsTracked key s known h.tracks) h.entries refl
        refl refl h

  -- A field that has a type has a member for its windows.
  field_type-create :
      (field type : Str) (s : StatsDb k)
      → field_type field s ≡ some type
      → is_some (create k type) ≡ true
  unfolding field_type
  field_type-create field type s typed = elim (Option-cases (lookup field s.field_map)) [
    | inl e ↦ absurd (ground (arith, e, typed))
    | inr (t, e) ↦ ground (arith, e, typed)
  ]

  new_field-IsSound :
      (pos : 1 ≤ num) (field type : Str) (s : StatsDb k)
      → field_type field s ≡ some type
      → IsSound s
      → IsWhole num first_time (new_field type s)
  unfolding new_field
  new_field-IsSound pos field type s typed h = elim (Option-cases (create k type)) [
    | inl e ↦ absurd (ground (arith, e, field_type-create field type s typed))
    | inr (m, e) ↦
        subst (λ n. IsWhole {k = k} num first_time (new_entry n s.window_size s.start_time type))
          (sym h.nums)
          (new_entry-Whole num first_time pos s.window_size s.start_time type m e h.size h.started)
  ]

  insert_key-IsSound :
      (pos : 1 ≤ num) (key field type : Str) (s : StatsDb k)
      → field_type field s ≡ some type
      → lookup key s.stats_db ≡ none
      → IsSound s
      → IsSound (insert_key key field type s)
  unfolding insert_key
  insert_key-IsSound pos key field type s typed missing h =
      IsSound-with s (insert_key key field type s)
        (insert_key-IsTracked key field type s (ap is_some missing) h.tracks)
        (All-insert (All (λ q. IsWhole num first_time q.1)) key ((field, new_field type s) ∷ [])
          s.stats_db (new_field-IsSound pos field type s typed h, tt) h.entries)
        refl refl refl h

-- The first time is not after the clock's readings.
abbrev pub IsLate : ℕ → Clock → Type 0
IsLate first_time c = first_time ≤ c.current

-- Saved windows are not more than the entries have, and did not start after the first time.
abbrev pub IsFitting : ℕ → ℕ → ℕ → List (ℕ × Str) → Type 0
IsFitting num first_time stime texts = (length texts ≤ num) × (stime ≤ first_time)

module _ {k : Sketches} (num first_time : ℕ) (pos : 1 ≤ num) where
  abbrev sound : Invariant k
  sound = record {
    Good = IsSound num first_time;
    GoodEntry = λ s e. IsWhole num first_time e;
    good_fields = λ key fields s e h.
        All-lookup (All (λ q. IsWhole num first_time q.1)) key fields s.stats_db e h.entries;
    good_put = λ key fields fields' s e a h.
        IsSound-with num first_time s (record s { stats_db = insert key fields' s.stats_db })
          (insert-IsTracked key fields' s (ap is_some e) h.tracks)
          (All-insert (All (λ q. IsWhole num first_time q.1)) key fields' s.stats_db a h.entries)
          refl refl refl h;
    good_move = move_to_end-IsSound num first_time;
    good_new = new_field-IsSound num first_time pos;
    good_add_key = insert_key-IsSound num first_time pos;
  }

  sound_laws : CallLaws sound ⊥ (IsLate first_time) (IsFitting num first_time)
  sound_laws = record {
    keeps_write = λ c f s e late h. write-Whole num first_time pos c f e late h;
    keeps_get = λ c late s e h. entry_get-Whole num first_time pos c e late h;
    keeps_get_str = λ c v late s e h. entry_get_str-Whole num first_time pos c v e late h;
    keeps_sum = λ c late s e h. entry_sum-Whole num first_time pos c e late h;
    keeps_sum_str = λ c v late s e h. entry_sum_str-Whole num first_time pos c v e late h;
    keeps_windows = λ c late s e h. entry_get_windows-Whole num first_time pos c e late h;
    keeps_windows_str =
        λ c v late s e h. entry_get_windows_str-Whole num first_time pos c v e late h;
    keeps_reset = λ s e h. entry_reset-IsWhole num first_time e h;
    keeps_restore =
        λ stime texts s e r h. entry_restore-Whole num first_time pos texts stime e r.0 r.1 h;
    keeps_fields = set_fields-IsSound num first_time;
    keeps_size = set_map_size_soft-IsSound num first_time;
    keeps_expire = expire_entries-IsSound num first_time;
  }

  run_next :
      (calls : List Call) (r : Outcome (StatsDb k))
      → ((s : StatsDb k)
          → IsSound num first_time s
          → (s' : StatsDb k) × (run_all calls s ≡ done s'))
      → Holds ⊥ (IsSound num first_time) r
      → (s' : StatsDb k) × ((elim r as (λ _. Outcome (StatsDb k)) [
        | done s' ↦ run_all calls s'
        | invalid_argument s' ↦ run_all calls s'
        | undefined ↦ undefined
      ])
          ≡ done s')
  unfolding Holds
  run_next calls (done s) next h = next s h
  run_next calls (invalid_argument s) next h = next s h
  run_next calls undefined next h = absurd h

  run_all-IsSound :
      (calls : List Call) (s : StatsDb k)
      → All (IsAllowed (IsLate first_time) (IsFitting num first_time)) calls
      → IsSound num first_time s
      → (s' : StatsDb k) × (run_all calls s ≡ done s')
  unfolding run_all
  run_all-IsSound [] s a h = (s, refl)
  run_all-IsSound (call ∷ calls) s a h =
      run_next calls (run call s) (λ s' h'. run_all-IsSound calls s' a.1 h')
        (run-Good sound ⊥ (IsLate first_time) (IsFitting num first_time) sound_laws call s a.0 h)

sized_db-IsSound :
    {k : Sketches} (now first_time : ℕ) (name : Str) (w n : ℕ) (s : StatsDb k)
    → s ≡ sized_db now name w n
    → 1 ≤ w
    → now ≤ first_time
    → IsTracked s
    → IsSound s.num_windows first_time s
unfolding sized_db
sized_db-IsSound now first_time name w n s same h le t = record {
  tracks = t;
  entries =
      subst
        (λ (d : StatsDb _).
          All (λ p. All (λ q. IsWhole s.num_windows first_time q.1) p.1) d.stats_db)
        (sym same) tt;
  nums = refl;
  size = rw same h;
  started = rw same le;
}

-- Calls on a new database never index an array of windows outside its bounds, and never read the front
-- of an empty key tracker: they all return or throw. The sizes of the new database are not negative and
-- its period fits an int, the clock is never behind the time `first_time`, the database was not made
-- after it, and saved windows that are restored started by then and are not more than the windows of
-- the database.
pub run_all-done :
    {k : Sketches} (now first_time : ℕ) (name : Str) (w_siz num_w : ℤ) (s : StatsDb k)
    (calls : List Call)
    → new_stats_db now name w_siz num_w ≡ some s
    → now ≤ first_time
    → All (IsAllowed (IsLate first_time) (IsFitting s.num_windows first_time)) calls
    → (s' : StatsDb k) × (run_all calls s ≡ done s')
unfolding sized_db
run_all-done now first_time name w_siz num_w s calls made le a =
    let (w, n, same, some_size, some_windows) = new_stats_db-some now name w_siz num_w s made in
    let num : s.num_windows ≡ n = ap (λ (d : StatsDb _). d.num_windows) same in
    run_all-IsSound s.num_windows first_time (omega (arith, num, some_windows)) calls s a (
      sized_db-IsSound now first_time name w n s same some_size le
        (new_stats_db-IsTracked now name w_siz num_w s made))
