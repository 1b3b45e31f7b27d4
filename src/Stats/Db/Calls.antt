-- ===== src/Stats/Db/Calls.antt =====
-- The calls of TWStatsDB (common/twmap.hh) as data, and the states that they lead to.
use weakforced.Prelude.{ℕ, ◌≡◌, Str, List, [], ◌∷◌, refl, subst, arith, ℤ, some}
use weakforced.Stats.Member.{Sketches}
use weakforced.Stats.Entry.{Clock, Outcome, done, invalid_argument, undefined}
use weakforced.Stats.Db.{
  StatsDb, new_stats_db, set_fields, state_of, db_add, db_add_str, db_add_pair, db_sub, db_sub_str,
  db_incr, db_decr, restore_entry, expire_entries, set_map_size_soft,
}
use weakforced.Stats.Db.Queries.{
  db_get, db_get_str, db_get_current, db_get_current_str, db_get_windows, db_get_windows_str,
  get_all_fields, get_all_fields_windows, db_reset, reset_field,
}

pub data Call : Type 0 where
  call_set_fields : List (Str × Str) → Call
  call_incr : Clock → Str → Str → Call
  call_decr : Clock → Str → Str → Call
  call_add : Clock → Str → Str → ℕ → Call
  call_add_str : Clock → Str → Str → Str → Call
  call_add_pair : Clock → Str → Str → Str → ℕ → Call
  call_sub : Clock → Str → Str → ℕ → Call
  call_sub_str : Clock → Str → Str → Str → Call
  call_get : Clock → Str → Str → Call
  call_get_str : Clock → Str → Str → Str → Call
  call_get_current : Clock → Str → Str → Call
  call_get_current_str : Clock → Str → Str → Str → Call
  call_get_windows : Clock → Str → Str → Call
  call_get_windows_str : Clock → Str → Str → Str → Call
  call_get_all_fields : (Str → Clock) → Str → Call
  call_get_all_fields_windows : (Str → Clock) → Str → Call
  call_reset : Str → Call
  call_reset_field : Str → Str → Call
  call_restore_entry : Str → List (Str × (ℕ × List (ℕ × Str))) → Call
  call_expire_entries : Call
  call_set_map_size_soft : ℕ → Call

module _ {k : Sketches} where
  unfoldable pub run : Call → StatsDb k → Outcome (StatsDb k)
  run (call_set_fields fields) s = done (set_fields fields s).0
  run (call_incr c key field) s = db_incr c key field s
  run (call_decr c key field) s = db_decr c key field s
  run (call_add c key field a) s = db_add c key field a s
  run (call_add_str c key field v) s = db_add_str c key field v s
  run (call_add_pair c key field v a) s = db_add_pair c key field v a s
  run (call_sub c key field a) s = db_sub c key field a s
  run (call_sub_str c key field v) s = db_sub_str c key field v s
  run (call_get c key field) s = state_of (db_get c key field s)
  run (call_get_str c key field v) s = state_of (db_get_str c key field v s)
  run (call_get_current c key field) s = state_of (db_get_current c key field s)
  run (call_get_current_str c key field v) s = state_of (db_get_current_str c key field v s)
  run (call_get_windows c key field) s = state_of (db_get_windows c key field s)
  run (call_get_windows_str c key field v) s = state_of (db_get_windows_str c key field v s)
  run (call_get_all_fields clocks key) s = state_of (get_all_fields clocks key s)
  run (call_get_all_fields_windows clocks key) s = state_of (get_all_fields_windows clocks key s)
  run (call_reset key) s = done (db_reset key s)
  run (call_reset_field key field) s = done (reset_field key field s)
  run (call_restore_entry key saved) s = restore_entry key saved s
  run call_expire_entries s = expire_entries s
  run (call_set_map_size_soft size) s = done (set_map_size_soft size s)

-- The states of a database: new, or after a call that returned or threw.
pub data Reachable {k : Sketches} : StatsDb k → Type 0 where
  begun :
      (now : ℕ) (name : Str) (w_siz num_w : ℤ) (s : StatsDb k)
      → new_stats_db now name w_siz num_w ≡ some s
      → Reachable s
  returned : (c : Call) (s s' : StatsDb k) → Reachable s → run c s ≡ done s' → Reachable s'
  threw : (c : Call) (s s' : StatsDb k) → Reachable s → run c s ≡ invalid_argument s' → Reachable s'

module _ {k : Sketches} where
  -- Calls in a row, where an exception of one does not stop the next.
  unfoldable pub run_all : List Call → StatsDb k → Outcome (StatsDb k)
  run_all [] s = done s
  run_all (call ∷ calls) s = elim (run call s) [
    | done s' ↦ run_all calls s'
    | invalid_argument s' ↦ run_all calls s'
    | undefined ↦ undefined
  ]

  Reachable-next :
      (call : Call) (calls : List Call) (s s' : StatsDb k) (o : Outcome (StatsDb k))
      → Reachable s
      → run call s ≡ o
      → ((t : StatsDb k) → Reachable t → run_all calls t ≡ done s' → Reachable s')
      → (elim o as (λ _. Outcome (StatsDb k)) [
        | done t ↦ run_all calls t
        | invalid_argument t ↦ run_all calls t
        | undefined ↦ undefined
      ])
        ≡ done s'
      → Reachable s'
  Reachable-next call calls s s' (done t) r ran next e = next t (returned call s t r ran) e
  Reachable-next call calls s s' (invalid_argument t) r ran next e = next t (threw call s t r ran) e
  Reachable-next call calls s s' undefined r ran next e = absurd (ground (arith, e))

  pub Reachable-run_all :
      (calls : List Call) (s s' : StatsDb k)
      → Reachable s
      → run_all calls s ≡ done s'
      → Reachable s'
  unfolding run_all
  Reachable-run_all [] s s' r e = subst Reachable (ground (arith, e)) r
  Reachable-run_all (call ∷ calls) s s' r e =
      Reachable-next call calls s s' (run call s) r refl
        (λ t r' e'. Reachable-run_all calls t s' r' e') e
