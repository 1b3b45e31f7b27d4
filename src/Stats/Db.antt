-- ===== src/Stats/Db.antt =====
-- TWStatsDB of common/twmap.hh: the fields of each key, and the order in which the keys were last
-- written. The iterator that the database keeps into its key tracker is modelled by its key.
use weakforced.Prelude.{
  ℕ, ◌-◌, ◌==◌, Bool, true, false, not, Option, none, some, List, [], ◌∷◌, ◌++◌, Str, str_eq, ltb,
  leb, if◌then◌else◌, lookup, insert, erase, keep, length, is_some, ℤ, pos, negsuc, ◌*◌, ◌^◌,
}
use weakforced.Stats.Member.{Sketches, create}
use weakforced.Stats.Entry.{
  Clock, Entry, Outcome, done, invalid_argument, undefined, new_entry, entry_add, entry_add_str,
  entry_add_pair, entry_sub, entry_sub_str,
}
use weakforced.Stats.Reads.{entry_restore}
pub mod Queries
pub mod Calls
pub mod Invariant
pub mod Methods
pub mod Tracker
pub mod Tracked
pub mod Expire
pub mod Runs
pub mod Reached
pub mod Sound
pub mod Frame

-- The order of std::string.
unfoldable pub str_lt : Str → Str → Bool
str_lt [] [] = false
str_lt [] (b ∷ t) = true
str_lt (a ∷ s) [] = false
str_lt (a ∷ s) (b ∷ t) = if a == b then str_lt s t else ltb a b

-- std::map::emplace: in the order of the keys, and without effect on a key that is there.
unfoldable pub emplace {ℓ} : {V : Type ℓ} → Str → V → List (Str × V) → List (Str × V)
unfolding str_lt
emplace k v [] = (k, v) ∷ []
emplace k v ((j, w) ∷ m) =
    if str_eq j k
    then (j, w) ∷ m
    else if str_lt k j
    then (k, v) ∷ (j, w) ∷ m
    else (j, w) ∷ emplace k v m

abbrev pub Fields : Sketches → Type 0
Fields k = List (Str × Entry k)

pub record StatsDb (k : Sketches) : Type 0 where
  pub key_tracker : List Str
  pub stats_db : List (Str × Fields k)
  pub field_map : List (Str × Str)
  pub window_size : ℕ
  pub num_windows : ℕ
  pub map_size_soft : ℕ
  pub start_time : ℕ
  pub db_name : Str
  pub v4_prefix : ℕ
  pub v6_prefix : ℕ
  pub expire_ms : ℕ

abbrev pub ctwstats_map_size_soft : ℕ
ctwstats_map_size_soft = 524288

-- Every field has a registered type.
unfoldable pub known_types : Sketches → List (Str × Str) → Bool
known_types k [] = true
known_types k ((name, type) ∷ fields) =
    if is_some (create k type) then known_types k fields else false

-- A size of the constructor, where 0 counts as 1. `none`: it is negative.
unfoldable pub size_of : ℤ → Option ℕ
size_of (pos n) = some (if n == 0 then 1 else n)
size_of (negsuc n) = none

module _ {k : Sketches} where
  unfoldable pub sized_db : ℕ → Str → ℕ → ℕ → StatsDb k
  sized_db now name w_siz num_w = record {
    key_tracker = [];
    stats_db = [];
    field_map = [];
    window_size = w_siz;
    num_windows = num_w;
    map_size_soft = ctwstats_map_size_soft;
    start_time = now;
    db_name = name;
    v4_prefix = 32;
    v6_prefix = 128;
    expire_ms = 250;
  }

  -- A database whose period fits an int.
  unfoldable pub if_fits : ℕ → StatsDb k → Option (StatsDb k)
  if_fits period s = if ltb period (2 ^ 31) then some s else none

  -- The constructor, at the time `now`. The source checks neither that the sizes are not negative
  -- nor that the period of all windows, which each cleaning multiplies, fits an int: `none` is a
  -- database outside these bounds, whose methods have undefined behaviour and are not modelled.
  unfoldable pub new_stats_db : ℕ → Str → ℤ → ℤ → Option (StatsDb k)
  unfolding size_of sized_db if_fits
  new_stats_db now name w_siz num_w = elim (size_of w_siz) [
    | none ↦ none
    | some w ↦ elim (size_of num_w) [
      | none ↦ none
      | some n ↦ if_fits (w * n) (sized_db now name w n)
    ]
  ]

  unfoldable pub set_fields : List (Str × Str) → StatsDb k → StatsDb k × Bool
  unfolding known_types
  set_fields fields s =
      if known_types k fields then (record s { field_map = fields }, true) else (s, false)

  -- The type of a field, when the field map and the type map have it.
  unfoldable pub field_type : Str → StatsDb k → Option Str
  field_type field s = elim (lookup field s.field_map) [
    | none ↦ none
    | some type ↦ if is_some (create k type) then some type else none
  ]

  -- update_write_timestamp of the database.
  unfoldable pub move_to_end : Str → StatsDb k → StatsDb k
  move_to_end key s = record s {
    key_tracker = keep (λ j. not (str_eq j key)) s.key_tracker ++ key ∷ [];
  }

  -- The entry of a key and field that are there has changed.
  unfoldable pub store : Str → Str → Entry k → Fields k → StatsDb k → StatsDb k
  store key field e fields s = record s { stats_db = insert key (insert field e fields) s.stats_db }

  -- What the lambda did to the entry. A lambda that writes ends with update_write_timestamp, which an
  -- exception skips.
  unfoldable pub after_fn {ℓ} :
      {A : Type ℓ}
      → Bool
      → Str
      → Str
      → Fields k
      → Outcome (Entry k × A)
      → StatsDb k
      → Outcome (StatsDb k × Option A)
  after_fn writes key field fields undefined s = undefined
  after_fn writes key field fields (invalid_argument (e, a)) s =
      invalid_argument (store key field e fields s, none)
  after_fn true key field fields (done (e, a)) s =
      done (move_to_end key (store key field e fields s), some a)
  after_fn false key field fields (done (e, a)) s = done (store key field e fields s, some a)

  -- `_find_create_key_field` with `create` false. The option has the lambda's value where the C++
  -- method returns true.
  unfoldable pub find_key_field {ℓ} :
      {A : Type ℓ}
      → Bool
      → Str
      → Str
      → (Entry k → Outcome (Entry k × A))
      → StatsDb k
      → Outcome (StatsDb k × Option A)
  find_key_field writes key field fn s = elim (field_type field s) [
    | none ↦ done (s, none)
    | some type ↦ elim (lookup key s.stats_db) [
      | none ↦ done (s, none)
      | some fields ↦ elim (lookup field fields) [
        | none ↦ done (s, none)
        | some e ↦ after_fn writes key field fields (fn e) s
      ]
    ]
  ]

  unfoldable pub new_field : Str → StatsDb k → Entry k
  new_field type s = new_entry s.num_windows s.window_size s.start_time type

  unfoldable pub add_field : Str → Str → Str → Fields k → StatsDb k → StatsDb k
  add_field key field type fields s = record s {
    stats_db = insert key (emplace field (new_field type s) fields) s.stats_db;
  }

  unfoldable pub insert_key : Str → Str → Str → StatsDb k → StatsDb k
  insert_key key field type s = record s {
    key_tracker = s.key_tracker ++ key ∷ [];
    stats_db = insert key ((field, new_field type s) ∷ []) s.stats_db;
  }

  -- The key and the field, made when they are not there.
  unfoldable pub create_key_field : Str → Str → Str → StatsDb k → StatsDb k
  create_key_field key field type s = elim (lookup key s.stats_db) [
    | none ↦ insert_key key field type s
    | some fields ↦ elim (lookup field fields) [
      | none ↦ add_field key field type fields s
      | some e ↦ s
    ]
  ]

  -- `_find_create_key_field` with `create` true: it calls itself once what is missing is made.
  unfoldable pub find_create_key_field {ℓ} :
      {A : Type ℓ}
      → Bool
      → Str
      → Str
      → (Entry k → Outcome (Entry k × A))
      → StatsDb k
      → Outcome (StatsDb k × Option A)
  find_create_key_field writes key field fn s = elim (field_type field s) [
    | none ↦ done (s, none)
    | some type ↦ find_key_field writes key field fn (create_key_field key field type s)
  ]

  unfoldable pub state_of {ℓ} : {A : Type ℓ} → Outcome (StatsDb k × A) → Outcome (StatsDb k)
  state_of (done (s, a)) = done s
  state_of (invalid_argument (s, a)) = invalid_argument s
  state_of undefined = undefined

  unfoldable pub with_unit : Outcome (Entry k) → Outcome (Entry k × Unit {0})
  with_unit (done e) = done (e, tt)
  with_unit (invalid_argument e) = invalid_argument (e, tt)
  with_unit undefined = undefined

  -- The shape of the methods that write.
  unfoldable pub write_field :
      Str → Str → (Entry k → Outcome (Entry k)) → StatsDb k → Outcome (StatsDb k)
  write_field key field f s =
      state_of (find_create_key_field true key field (λ e. with_unit (f e)) s)

  unfoldable pub db_add : Clock → Str → Str → ℕ → StatsDb k → Outcome (StatsDb k)
  db_add c key field a = write_field key field (entry_add c a)

  unfoldable pub db_add_str : Clock → Str → Str → Str → StatsDb k → Outcome (StatsDb k)
  db_add_str c key field v = write_field key field (entry_add_str c v)

  unfoldable pub db_add_pair : Clock → Str → Str → Str → ℕ → StatsDb k → Outcome (StatsDb k)
  db_add_pair c key field v a = write_field key field (entry_add_pair c v a)

  unfoldable pub db_sub : Clock → Str → Str → ℕ → StatsDb k → Outcome (StatsDb k)
  db_sub c key field a = write_field key field (entry_sub c a)

  unfoldable pub db_sub_str : Clock → Str → Str → Str → StatsDb k → Outcome (StatsDb k)
  db_sub_str c key field v = write_field key field (entry_sub_str c v)

  unfoldable pub db_incr : Clock → Str → Str → StatsDb k → Outcome (StatsDb k)
  db_incr c key field = db_add c key field 1

  unfoldable pub db_decr : Clock → Str → Str → StatsDb k → Outcome (StatsDb k)
  db_decr c key field = db_sub c key field 1

  -- restoreEntry, over the saved fields in their order.
  unfoldable pub restore_entry :
      Str → List (Str × (ℕ × List (ℕ × Str))) → StatsDb k → Outcome (StatsDb k)
  restore_entry key [] s = done s
  restore_entry key ((field, (stime, texts)) ∷ saved) s =
      elim (write_field key field (entry_restore texts stime) s) [
        | done s' ↦ restore_entry key saved s'
        | invalid_argument s' ↦ invalid_argument s'
        | undefined ↦ undefined
      ]

  -- The loop of a round of expireEntries. The front of an empty list is undefined.
  unfoldable pub expire_loop : ℕ → StatsDb k → Outcome (StatsDb k)
  expire_loop Prim.Native.Nat.zero s = done s
  expire_loop (Prim.Native.Nat.suc num_expire) s = elim s.key_tracker [
    | [] ↦ undefined
    | key ∷ rest ↦ expire_loop num_expire (
        if is_some (lookup key s.stats_db)
        then record s { stats_db = erase key s.stats_db; key_tracker = rest }
        else s)
  ]

  -- What expireEntries does each time that it wakes.
  unfoldable pub expire_entries : StatsDb k → Outcome (StatsDb k)
  expire_entries s =
      if leb (length s.stats_db) s.map_size_soft
      then done s
      else expire_loop (length s.stats_db - s.map_size_soft) s

  unfoldable pub set_map_size_soft : ℕ → StatsDb k → StatsDb k
  set_map_size_soft size s = record s { map_size_soft = size }

  unfoldable pub get_size : StatsDb k → ℕ
  get_size s = length s.stats_db

  unfoldable pub get_max_size : StatsDb k → ℕ
  get_max_size s = s.map_size_soft
