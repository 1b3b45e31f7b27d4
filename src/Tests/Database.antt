-- ===== src/Tests/Database.antt =====
-- Runs of the statistics database of common/twmap.hh.
use weakforced.Prelude.{
  ℕ, ◌-◌, none, some, List, [], ◌∷◌, ◌++◌, Str, str, str_eq, keep, not, length, lookup, true,
  insert, false, ◌≡◌, refl, arith, min, pos,
}
use weakforced.Stats.Member.{int_member, create, add_int, add_str}
use weakforced.Stats.Entry.{
  Entry, done, invalid_argument, entry_add, entry_add_str, new_entry, write, clean_windows,
  current_window, update_write_timestamp, write_current, write_at, write_window,
}
use weakforced.Stats.Sums.{steady}
use weakforced.Stats.Db.{
  StatsDb, new_stats_db, set_fields, field_type, write_field, db_add, expire_entries,
  set_map_size_soft, find_create_key_field, create_key_field, insert_key, find_key_field, new_field,
  after_fn, with_unit, state_of, store, move_to_end, add_field, emplace, known_types, sized_db,
  size_of, if_fits, ctwstats_map_size_soft,
}
use weakforced.Stats.Db.Calls.{
  Call, call_set_fields, call_add, call_set_map_size_soft, run, run_all, Reachable, begun,
  Reachable-run_all,
}
use weakforced.Stats.Db.Tracked.{IsTracked}
use weakforced.Stats.Db.Reached.{Reachable-IsTracked}
use weakforced.Stats.Db.Expire.{IsExpired, expire_entries-IsExpired}
use weakforced.Stats.Db.Runs.{IsAllowed}
use weakforced.Stats.Db.Sound.{run_all-done}
use weakforced.Stats.Db.Frame.{IsUpdate, write_field-IsUpdate, write_field-throw}
use weakforced.Stats.Wrapper.{
  Host, Wrapper, a_string, an_int, SdbOperation, sdb_op_add, add_internal, with_key, get_string_key,
  add_key_internal, on_shard, get_shard_index, after_shard, if_replicated, op_params,
}
use weakforced.Stats.Wrapper.Operation.{apply_sdb}
use weakforced.Stats.Wrapper.Agreement.{change_add, change, apply_all, apply_all-change}
use weakforced.Stats.Wrapper.Silent.{IsSilent, apply_sdb-IsSilent}
use weakforced.Tests.Windows.{counting}

abbrev alice : Str
alice = str "alice"

abbrev bob : Str
bob = str "bob"

abbrev fails : Str
fails = str "fails"

-- A database with an int field, and the soft limit 1.
abbrev begin : List Call
begin = call_set_fields ((fails, str "int") ∷ []) ∷ call_set_map_size_soft 1 ∷ []

-- Two keys are written, and the first one again.
abbrev calls : List Call
calls =
    call_add (steady 1001) alice fails 4
    ∷ call_add (steady 1002) bob fails 5
    ∷ call_add (steady 1003) alice fails 3
    ∷ []

-- The entries of the two keys.
abbrev entry_of : ℕ → ℕ → Entry counting
entry_of now n = record {
  stats_array = (1000, int_member n) ∷ (0, int_member 0) ∷ (0, int_member 0) ∷ [];
  num_windows = 3;
  window_size = 10;
  start_time = 1000;
  last_cleaned = now;
  sum_cache_valid = false;
  sum_cache_value = 0;
  ssum_cache_valid = false;
  ssum_cache_value = 0;
}

abbrev limited : StatsDb counting
limited = record {
  key_tracker = [];
  stats_db = [];
  field_map = (fails, str "int") ∷ [];
  window_size = 10;
  num_windows = 3;
  map_size_soft = 1;
  start_time = 1000;
  db_name = str "db";
  v4_prefix = 32;
  v6_prefix = 128;
  expire_ms = 250;
}

abbrev empty_db : StatsDb counting
empty_db = record limited { field_map = []; map_size_soft = ctwstats_map_size_soft }

empty_db-new : new_stats_db 1000 (str "db") (pos 10) (pos 3) ≡ some empty_db
unfolding new_stats_db size_of sized_db if_fits
empty_db-new = refl

abbrev two_keys : StatsDb counting
two_keys = record limited {
  key_tracker = bob ∷ alice ∷ [];
  stats_db = (alice, (fails, entry_of 1001 7) ∷ []) ∷ (bob, (fails, entry_of 1002 5) ∷ []) ∷ [];
}

two_keys-run_all : run_all (begin ++ calls) empty_db ≡ done two_keys
unfolding run_all run set_fields known_types create str_eq set_map_size_soft db_add write_field
    find_create_key_field field_type lookup create_key_field insert_key insert find_key_field
    new_field new_entry entry_add write clean_windows current_window after_fn with_unit state_of
    store move_to_end update_write_timestamp add_int write_current write_at write_window add_field
    emplace
two_keys-run_all = refl

two_keys-Reachable : Reachable two_keys
two_keys-Reachable =
    Reachable-run_all (begin ++ calls) empty_db two_keys
      (begun 1000 (str "db") (pos 10) (pos 3) empty_db empty_db-new) two_keys-run_all

Reachable-IsTracked_example : IsTracked two_keys
Reachable-IsTracked_example = Reachable-IsTracked two_keys two_keys-Reachable

-- The key that was not written last is gone.
expire_entries-IsExpired_example :
    (s' : StatsDb counting) × (expire_entries two_keys ≡ done s')
    × IsExpired (2 - 1) two_keys s'
    × (length s'.stats_db ≡ min 2 1)
expire_entries-IsExpired_example =
    expire_entries-IsExpired two_keys (Reachable-IsTracked two_keys two_keys-Reachable)

run_all-done_example : (s' : StatsDb counting) × (run_all (begin ++ calls) empty_db ≡ done s')
unfolding IsAllowed
run_all-done_example =
    run_all-done 1000 1000 (str "db") (pos 10) (pos 3) empty_db (begin ++ calls) empty_db-new
      (omega arith) (tt, (tt, (omega arith, (omega arith, (omega arith, tt)))))

write_field-IsUpdate_example :
    (s' : StatsDb counting) × (write_field bob fails (entry_add (steady 1004) 2) two_keys ≡ done s')
    × IsUpdate bob fails (entry_of 1002 7) two_keys s'
    × (s'.key_tracker ≡ alice ∷ bob ∷ [])
unfolding field_type entry_add write clean_windows current_window update_write_timestamp add_int
    write_current write_at write_window lookup str_eq create
write_field-IsUpdate_example =
    write_field-IsUpdate bob fails (str "int") (entry_add (steady 1004) 2) (entry_of 1002 7)
      two_keys refl refl

-- A text that is no number, for a new key.
write_field-throw_example :
    (s' : StatsDb counting) × (write_field
        (str "carol")
        fails
        (entry_add_str (steady 1004) (str "x"))
        two_keys
      ≡ invalid_argument s')
    × IsUpdate
        (str "carol")
        fails
        (record (entry_of 1004 0) {
          stats_array = (0, int_member 0) ∷ (0, int_member 0) ∷ (0, int_member 0) ∷ [];
        })
        two_keys
        s'
    × (keep (λ j. not (str_eq j (str "carol"))) s'.key_tracker
        ≡ keep (λ j. not (str_eq j (str "carol"))) two_keys.key_tracker)
unfolding field_type entry_add_str write clean_windows current_window add_str new_field new_entry
    write_current write_at write_window lookup str_eq create
write_field-throw_example =
    write_field-throw (str "carol") fails (str "int") (entry_add_str (steady 1004) (str "x")) _
      two_keys refl refl

-- A wrapper of one shard that replicates, on a host whose hash is 0.
abbrev host : Host
host = record {
  resolver = record {
    pton4 = λ s. none;
    pton6 = λ s. none;
    numeric6 = λ s. none;
    host = λ a. none;
    atoi = λ s. none;
    stoul = λ s. none;
    to_string = λ n. [];
  };
  murmur = λ s. 0;
}

abbrev one_shard : StatsDb counting → Wrapper counting
one_shard s = record {
  sdbvp = s ∷ [];
  replicated = true;
  window_size = 10;
  num_windows = 3;
  num_shards = 1;
  db_name = str "db";
}

abbrev alice_add : SdbOperation
alice_add = record {
  db_name = str "db";
  op_type = sdb_op_add;
  key = alice;
  field_name = some fails;
  str_param = none;
  int_param = some 2;
  sync_fields = [];
}

abbrev after_add : StatsDb counting
after_add = record two_keys {
  key_tracker = bob ∷ alice ∷ [];
  stats_db = (alice, (fails, entry_of 1001 9) ∷ []) ∷ (bob, (fails, entry_of 1002 5) ∷ []) ∷ [];
}

change-alice :
    change host
      (steady 1004)
      (change_add (a_string alice) fails (an_int 2) none)
      (one_shard two_keys)
    ≡ done (one_shard after_add, alice_add ∷ [])
unfolding change add_internal with_key get_string_key add_key_internal on_shard get_shard_index
    after_shard if_replicated op_params db_add write_field find_create_key_field field_type lookup
    create_key_field insert find_key_field entry_add write clean_windows current_window after_fn
    with_unit state_of store move_to_end update_write_timestamp add_int write_current write_at
    write_window create str_eq
change-alice = refl

apply_all-change_example :
    apply_all host (steady 1004) (alice_add ∷ []) (one_shard two_keys)
    ≡ done (one_shard after_add, [])
apply_all-change_example =
    apply_all-change host (steady 1004) (change_add (a_string alice) fails (an_int 2) none)
      (alice_add ∷ []) (one_shard two_keys) (one_shard after_add) refl change-alice

apply_sdb-IsSilent_example :
    IsSilent (apply_sdb host (steady 1004) alice_add ((str "db", one_shard two_keys) ∷ []))
apply_sdb-IsSilent_example =
    apply_sdb-IsSilent host (steady 1004) alice_add ((str "db", one_shard two_keys) ∷ [])
