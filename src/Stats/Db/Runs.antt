-- ===== src/Stats/Db/Runs.antt =====
-- Every call of TWStatsDB (common/twmap.hh) keeps an invariant that the methods of an entry keep.
use weakforced.Prelude.{ℕ, false, Option, List, [], ◌∷◌, Str, All}
use weakforced.Stats.Member.{Sketches, Member}
use weakforced.Stats.Entry.{
  Clock, Entry, Outcome, done, invalid_argument, undefined, write, entry_add, entry_add_str,
  entry_add_pair, entry_sub, entry_sub_str,
}
use weakforced.Stats.Reads.{
  entry_get, entry_get_str, entry_sum, entry_sum_str, entry_get_windows, entry_get_windows_str,
  entry_restore,
}
use weakforced.Stats.Db.{
  StatsDb, state_of, find_key_field, set_fields, expire_entries, restore_entry, write_field,
  set_map_size_soft, db_add, db_add_str, db_add_pair, db_sub, db_sub_str, db_incr, db_decr,
}
use weakforced.Stats.Db.Queries.{
  db_get, db_get_str, db_get_current, db_get_current_str, db_get_windows, db_get_windows_str,
  get_all_fields, get_all_fields_windows,
}
use weakforced.Stats.Db.Calls.{
  Call, call_set_fields, call_incr, call_decr, call_add, call_add_str, call_add_pair, call_sub,
  call_sub_str, call_get, call_get_str, call_get_current, call_get_current_str, call_get_windows,
  call_get_windows_str, call_get_all_fields, call_get_all_fields_windows, call_reset,
  call_reset_field, call_restore_entry, call_expire_entries, call_set_map_size_soft, run,
}
use weakforced.Stats.Db.Invariant.{
  Holds, Invariant, KeepsEntry, Holds-state_of, find_key_field-Good, write_field-Good,
  read_field-Good,
}
use weakforced.Stats.Db.Methods.{KeepsReset, with_fields-Good, db_reset-Good, reset_field-Good}

-- What the methods of an entry, and those of the database that are not about one field, have to keep:
-- `W` says which readings of the clock are meant, and `R` which saved windows.
pub record CallLaws {k : Sketches} (I : Invariant k) (U : Type 0) (W : Clock → Type 0)
    (R : ℕ → List (ℕ × Str) → Type 0) : Type 1 where
  pub keeps_write :
      (c : Clock) (f : Member k → Option (Member k)) (s : StatsDb k) (e : Entry k)
      → W c
      → I.GoodEntry s e
      → Holds U (I.GoodEntry s) (write c f e)
  pub keeps_get : (c : Clock) → W c → KeepsEntry I U (entry_get c)
  pub keeps_get_str : (c : Clock) (v : Str) → W c → KeepsEntry I U (entry_get_str c v)
  pub keeps_sum : (c : Clock) → W c → KeepsEntry I U (entry_sum c)
  pub keeps_sum_str : (c : Clock) (v : Str) → W c → KeepsEntry I U (entry_sum_str c v)
  pub keeps_windows : (c : Clock) → W c → KeepsEntry I U (entry_get_windows c)
  pub keeps_windows_str : (c : Clock) (v : Str) → W c → KeepsEntry I U (entry_get_windows_str c v)
  pub keeps_reset : KeepsReset I
  pub keeps_restore :
      (stime : ℕ) (texts : List (ℕ × Str)) (s : StatsDb k) (e : Entry k)
      → R stime texts
      → I.GoodEntry s e
      → Holds U (I.GoodEntry s) (entry_restore texts stime e)
  pub keeps_fields :
      (fields : List (Str × Str)) (s : StatsDb k) → I.Good s → I.Good (set_fields fields s).0
  pub keeps_size : (size : ℕ) (s : StatsDb k) → I.Good s → I.Good (set_map_size_soft size s)
  pub keeps_expire : (s : StatsDb k) → I.Good s → Holds U I.Good (expire_entries s)

-- The call's clocks and saved windows are as meant.
unfoldable pub IsAllowed : (Clock → Type 0) → (ℕ → List (ℕ × Str) → Type 0) → Call → Type 0
IsAllowed W R (call_incr c key field) = W c
IsAllowed W R (call_decr c key field) = W c
IsAllowed W R (call_add c key field a) = W c
IsAllowed W R (call_add_str c key field v) = W c
IsAllowed W R (call_add_pair c key field v a) = W c
IsAllowed W R (call_sub c key field a) = W c
IsAllowed W R (call_sub_str c key field v) = W c
IsAllowed W R (call_get c key field) = W c
IsAllowed W R (call_get_str c key field v) = W c
IsAllowed W R (call_get_current c key field) = W c
IsAllowed W R (call_get_current_str c key field v) = W c
IsAllowed W R (call_get_windows c key field) = W c
IsAllowed W R (call_get_windows_str c key field v) = W c
IsAllowed W R (call_get_all_fields clocks key) = (field : Str) → W (clocks field)
IsAllowed W R (call_get_all_fields_windows clocks key) = (field : Str) → W (clocks field)
IsAllowed W R (call_restore_entry key saved) = All (λ p. R p.1.0 p.1.1) saved
IsAllowed W R call = Unit

module _ {k : Sketches} (I : Invariant k) (U : Type 0) (W : Clock → Type 0)
    (R : ℕ → List (ℕ × Str) → Type 0) (L : CallLaws I U W R) where
  write-Good :
      (c : Clock) (key field : Str) (f : Member k → Option (Member k)) (s : StatsDb k)
      → W c
      → I.Good s
      → Holds U I.Good (write_field key field (write c f) s)
  write-Good c key field f s w g =
      write_field-Good I U key field (write c f) s (λ t e. L.keeps_write c f t e w) g

  restore_next :
      (key : Str) (saved : List (Str × (ℕ × List (ℕ × Str)))) (r : Outcome (StatsDb k))
      → ((s : StatsDb k) → I.Good s → Holds U I.Good (restore_entry key saved s))
      → Holds U I.Good r
      → Holds U I.Good (elim r as (λ _. Outcome (StatsDb k)) [
        | done s' ↦ restore_entry key saved s'
        | invalid_argument s' ↦ invalid_argument s'
        | undefined ↦ undefined
      ])
  unfolding Holds
  restore_next key saved (done s) next h = next s h
  restore_next key saved (invalid_argument s) next h = h
  restore_next key saved undefined next h = h

  restore_entry-Good :
      (key : Str) (saved : List (Str × (ℕ × List (ℕ × Str)))) (s : StatsDb k)
      → All (λ p. R p.1.0 p.1.1) saved
      → I.Good s
      → Holds U I.Good (restore_entry key saved s)
  unfolding restore_entry Holds
  restore_entry-Good key [] s r g = g
  restore_entry-Good key ((field, (stime, texts)) ∷ saved) s r g =
      restore_next key saved (write_field key field (entry_restore texts stime) s)
        (λ s' g'. restore_entry-Good key saved s' r.1 g')
        (write_field-Good I U key field (entry_restore texts stime) s
          (λ t e. L.keeps_restore stime texts t e r.0) g)

  windows-Good :
      {A : Type 0} (key field : Str) (f : Entry k → Outcome (Entry k × A)) (s : StatsDb k)
      → KeepsEntry I U f
      → I.Good s
      → Holds U I.Good (state_of (find_key_field false key field f s))
  windows-Good key field f s keeps g =
      Holds-state_of I U (find_key_field false key field f s)
        (find_key_field-Good I U false key field f s keeps g)

  pub run-Good :
      (call : Call) (s : StatsDb k) → IsAllowed W R call → I.Good s → Holds U I.Good (run call s)
  unfolding run IsAllowed Holds db_incr db_decr db_add db_add_str db_add_pair db_sub db_sub_str
      entry_add entry_add_str entry_add_pair entry_sub entry_sub_str db_get db_get_str
      db_get_current db_get_current_str db_get_windows db_get_windows_str get_all_fields
      get_all_fields_windows
  run-Good (call_set_fields fields) s w g = L.keeps_fields fields s g
  run-Good (call_incr c key field) s w g = write-Good c key field _ s w g
  run-Good (call_decr c key field) s w g = write-Good c key field _ s w g
  run-Good (call_add c key field a) s w g = write-Good c key field _ s w g
  run-Good (call_add_str c key field v) s w g = write-Good c key field _ s w g
  run-Good (call_add_pair c key field v a) s w g = write-Good c key field _ s w g
  run-Good (call_sub c key field a) s w g = write-Good c key field _ s w g
  run-Good (call_sub_str c key field v) s w g = write-Good c key field _ s w g
  run-Good (call_get c key field) s w g =
      read_field-Good I U key field (entry_sum c) s (L.keeps_sum c w) g
  run-Good (call_get_str c key field v) s w g =
      read_field-Good I U key field (entry_sum_str c v) s (L.keeps_sum_str c v w) g
  run-Good (call_get_current c key field) s w g =
      read_field-Good I U key field (entry_get c) s (L.keeps_get c w) g
  run-Good (call_get_current_str c key field v) s w g =
      read_field-Good I U key field (entry_get_str c v) s (L.keeps_get_str c v w) g
  run-Good (call_get_windows c key field) s w g =
      windows-Good key field (entry_get_windows c) s (L.keeps_windows c w) g
  run-Good (call_get_windows_str c key field v) s w g =
      windows-Good key field (entry_get_windows_str c v) s (L.keeps_windows_str c v w) g
  run-Good (call_get_all_fields clocks key) s w g =
      with_fields-Good I U key (λ field. entry_sum (clocks field)) s
        (λ field. L.keeps_sum (clocks field) (w field)) g
  run-Good (call_get_all_fields_windows clocks key) s w g =
      with_fields-Good I U key (λ field. entry_get_windows (clocks field)) s
        (λ field. L.keeps_windows (clocks field) (w field)) g
  run-Good (call_reset key) s w g = db_reset-Good I key s L.keeps_reset g
  run-Good (call_reset_field key field) s w g = reset_field-Good I key field s L.keeps_reset g
  run-Good (call_restore_entry key saved) s w g = restore_entry-Good key saved s w g
  run-Good call_expire_entries s w g = L.keeps_expire s g
  run-Good (call_set_map_size_soft size) s w g = L.keeps_size size s g
