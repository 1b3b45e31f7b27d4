-- ===== src/Stats/Wrapper.antt =====
-- TWStringStatsDBWrapper (wforce/twmap-wrapper.cc): the databases that share the keys out by a hash,
-- and the operations that are sent to the siblings.
use weakforced.Prelude.{
  ℕ, zero, suc, ◌+◌, ◌/◌, ◌%◌, ◌==◌, ltb, Bool, true, false, ◌&&◌, Option, none, some, List, [],
  ◌∷◌, Str, if◌then◌else◌, get_elem?, set, replicate, map, ◌⊎◌, inl, inr, ℤ, pos_part,
}
use weakforced.Misc.{Resolver, address_to_string}
use weakforced.Net.Address.{ComboAddress, is_ipv4, is_ipv6}
use weakforced.Net.Mask.{of_address, to_string_network}
use weakforced.Stats.Member.{Sketches}
use weakforced.Stats.Entry.{Clock, Outcome, done, invalid_argument, undefined}
use weakforced.Stats.Db.{
  StatsDb, new_stats_db, set_map_size_soft, ctwstats_map_size_soft, set_fields, emplace, db_add,
  db_add_str, db_add_pair, db_sub, db_sub_str, restore_entry, get_size, get_max_size,
}
use weakforced.Stats.Db.Queries.{
  db_get, db_get_str, db_get_current, db_get_current_str, db_get_windows, db_get_windows_str,
  get_all_fields, db_reset, reset_field,
}
pub mod Queries
pub mod Operation
pub mod Agreement
pub mod Silent

-- The calls of other code: libc's, and MurmurHash3_x86_32 with the seed 623.
pub record Host : Type 0 where
  pub resolver : Resolver
  pub murmur : Str → ℕ

-- boost::variant<std::string, int, ComboAddress>
pub data Variant : Type 0 where
  a_string : Str → Variant
  an_int : ℕ → Variant
  an_address : ComboAddress → Variant

pub data SdbOpType : Type 0 where
  sdb_op_add : SdbOpType
  sdb_op_sub : SdbOpType
  sdb_op_reset : SdbOpType
  sdb_op_reset_field : SdbOpType
  sdb_op_sync_key : SdbOpType
  sdb_op_none : SdbOpType

-- The message SDBOperation of replication.proto. A field that may be unset is an option.
pub record SdbOperation : Type 0 where
  pub db_name : Str
  pub op_type : SdbOpType
  pub key : Str
  pub field_name : Option Str
  pub str_param : Option Str
  pub int_param : Option ℕ
  pub sync_fields : List (Str × (ℕ × List (ℕ × Str)))

pub record Wrapper (k : Sketches) : Type 0 where
  pub sdbvp : List (StatsDb k)
  pub replicated : Bool
  pub window_size : ℕ
  pub num_windows : ℕ
  pub num_shards : ℕ
  pub db_name : Str

-- The three constructors of SDBReplicationOperation that set nothing, a field, and parameters.
unfoldable pub op_key : Str → SdbOpType → Str → SdbOperation
op_key name type key = record {
  db_name = name;
  op_type = type;
  key = key;
  field_name = none;
  str_param = none;
  int_param = none;
  sync_fields = [];
}

unfoldable pub op_field : Str → SdbOpType → Str → Str → SdbOperation
unfolding op_key
op_field name type key field = record (op_key name type key) { field_name = some field }

unfoldable pub op_params : Str → SdbOpType → Str → Str → Option Str → Option ℕ → SdbOperation
unfolding op_field
op_params name type key field s a = record (op_field name type key field) {
  str_param = s;
  int_param = a;
}

-- The constructor for the whole of a key.
unfoldable pub op_sync : Str → SdbOpType → Str → List (Str × (ℕ × List (ℕ × Str))) → SdbOperation
unfolding op_key
op_sync name type key entry = record (op_key name type key) { sync_fields = entry }

-- The loop of setFields of a vector, where the first of two equal names counts.
unfoldable pub field_map_of : List (Str × Str) → List (Str × Str) → List (Str × Str)
field_map_of [] fm = fm
field_map_of ((name, type) ∷ fields) fm = field_map_of fields (emplace name type fm)

-- What a method of the wrapper gives: its state, and the operations that are replicated.
abbrev pub Ran : Sketches → Type 0
Ran k = Outcome (Wrapper k × List SdbOperation)

module _ {k : Sketches} where
  -- The constructor, at the time `now`, where the sizes are within the bounds of new_stats_db.
  unfoldable pub new_wrapper : ℕ → Str → ℤ → ℤ → ℕ → Option (Wrapper k)
  new_wrapper now name w_size n_windows n_shards = elim (new_stats_db now name w_size n_windows) [
    | none ↦ none
    | some s ↦ some (record {
      sdbvp = replicate n_shards (set_map_size_soft (ctwstats_map_size_soft / n_shards) s);
      replicated = false;
      window_size = pos_part w_size;
      num_windows = pos_part n_windows;
      num_shards = n_shards;
      db_name = name;
    })
  ]

  -- enableReplication and disableReplication
  unfoldable pub set_replication : Bool → Wrapper k → Wrapper k
  set_replication on w = record w { replicated = on }

  -- setFields of a map: the results of the shards are dropped.
  unfoldable pub set_all_fields : List (Str × Str) → Wrapper k → Wrapper k × Bool
  set_all_fields fields w = (record w { sdbvp = map (λ s. (set_fields fields s).0) w.sdbvp }, true)

  unfoldable pub set_fields_vector : List (Str × Str) → Wrapper k → Wrapper k × Bool
  set_fields_vector fields w = set_all_fields (field_map_of fields []) w

  unfoldable pub set_v4_prefix : ℕ → Wrapper k → Wrapper k
  set_v4_prefix bits w = record w {
    sdbvp =
        map {A = StatsDb k} (λ s. record s { v4_prefix = if ltb 32 bits then 32 else bits })
          w.sdbvp;
  }

  unfoldable pub set_v6_prefix : ℕ → Wrapper k → Wrapper k
  set_v6_prefix bits w = record w {
    sdbvp =
        map {A = StatsDb k} (λ s. record s { v6_prefix = if ltb 128 bits then 128 else bits })
          w.sdbvp;
  }

  address_key : Host → ComboAddress → Option (StatsDb k) → Option Str
  address_key h ca none = none
  address_key h ca (some s) = some (
      if is_ipv4 ca
      then to_string_network h.resolver (of_address ca s.v4_prefix)
      else to_string_network h.resolver (of_address ca s.v6_prefix))

  -- `none` is the exception of `at(0)`, when there is no shard.
  unfoldable pub get_string_key : Host → Variant → Wrapper k → Option Str
  unfolding address_key
  get_string_key h (a_string s) w = some s
  get_string_key h (an_int i) w = some (k.to_string i)
  get_string_key h (an_address ca) w =
      if is_ipv4 ca
      then address_key h ca (get_elem? w.sdbvp 0)
      else if is_ipv6 ca
      then address_key h ca (get_elem? w.sdbvp 0)
      else some []

  -- `none`: the remainder of a division by 0.
  unfoldable pub get_shard_index : Host → Str → Wrapper k → Option ℕ
  get_shard_index h key w = if w.num_shards == 0 then none else some (h.murmur key % w.num_shards)

  unfoldable pub after_shard : ℕ → Outcome (StatsDb k) → List SdbOperation → Wrapper k → Ran k
  after_shard i (done s) ops w = done (record w { sdbvp = set w.sdbvp i s }, ops)
  after_shard i (invalid_argument s) ops w =
      invalid_argument (record w { sdbvp = set w.sdbvp i s }, [])
  after_shard i undefined ops w = undefined

  -- A method on the shard of a key, and then the replication. Where the vector has fewer shards than
  -- `num_shards`, `at` throws.
  unfoldable pub on_shard :
      Host → Str → (StatsDb k → Outcome (StatsDb k)) → List SdbOperation → Wrapper k → Ran k
  on_shard h key f ops w = elim (get_shard_index h key w) [
    | none ↦ undefined
    | some i ↦ elim (get_elem? w.sdbvp i) [
      | none ↦ invalid_argument (w, [])
      | some s ↦ after_shard i (f s) ops w
    ]
  ]

  -- The operation, when both flags are set.
  unfoldable pub if_replicated : Bool → SdbOperation → Wrapper k → List SdbOperation
  if_replicated replicate op w = if replicate && w.replicated then op ∷ [] else []

  -- addInternal behind getStringKey. With a second parameter an int does nothing.
  unfoldable pub add_key_internal :
      Host → Clock → Str → Str → Variant → Option ℕ → Bool → Wrapper k → Ran k
  add_key_internal h c key field (an_int i) (some a) replicate w = on_shard h key (λ s. done s) [] w
  add_key_internal h c key field (an_int i) none replicate w =
      on_shard h key (db_add c key field i)
        (if_replicated replicate (op_params w.db_name sdb_op_add key field none (some i)) w) w
  add_key_internal h c key field (a_string v) (some a) replicate w =
      on_shard h key (db_add_pair c key field v a)
        (if_replicated replicate (op_params w.db_name sdb_op_add key field (some v) (some a)) w) w
  add_key_internal h c key field (a_string v) none replicate w =
      on_shard h key (db_add_str c key field v)
        (if_replicated replicate (op_params w.db_name sdb_op_add key field (some v) none) w) w
  add_key_internal h c key field (an_address ca) (some a) replicate w =
      on_shard h key (db_add_pair c key field (address_to_string h.resolver ca) a)
        (if_replicated replicate
          (op_params w.db_name sdb_op_add key field (some (address_to_string h.resolver ca))
            (some a))
          w)
        w
  add_key_internal h c key field (an_address ca) none replicate w =
      on_shard h key (db_add_str c key field (address_to_string h.resolver ca))
        (if_replicated replicate
          (op_params w.db_name sdb_op_add key field (some (address_to_string h.resolver ca)) none)
          w)
        w

  unfoldable pub with_key : Option Str → (Str → Ran k) → Wrapper k → Ran k
  with_key none f w = invalid_argument (w, [])
  with_key (some key) f w = f key

  unfoldable pub add_internal :
      Host → Clock → Variant → Str → Variant → Option ℕ → Bool → Wrapper k → Ran k
  add_internal h c vkey field param1 param2 replicate w =
      with_key (get_string_key h vkey w)
        (λ key. add_key_internal h c key field param1 param2 replicate w) w

  unfoldable pub sub_key_internal : Host → Clock → Str → Str → (Str ⊎ ℕ) → Bool → Wrapper k → Ran k
  sub_key_internal h c key field (inl v) replicate w =
      on_shard h key (db_sub_str c key field v)
        (if_replicated replicate (op_params w.db_name sdb_op_sub key field (some v) none) w) w
  sub_key_internal h c key field (inr i) replicate w =
      on_shard h key (db_sub c key field i)
        (if_replicated replicate (op_params w.db_name sdb_op_sub key field none (some i)) w) w

  unfoldable pub sub_internal : Host → Clock → Variant → Str → (Str ⊎ ℕ) → Bool → Wrapper k → Ran k
  sub_internal h c vkey field v replicate w =
      with_key (get_string_key h vkey w) (λ key. sub_key_internal h c key field v replicate w) w

  unfoldable pub reset_internal : Host → Variant → Bool → Wrapper k → Ran k
  reset_internal h vkey replicate w =
      with_key (get_string_key h vkey w)
        (λ key.
          on_shard h key (λ s. done (db_reset key s))
            (if_replicated replicate (op_key w.db_name sdb_op_reset key) w) w)
        w

  unfoldable pub reset_field_internal : Host → Variant → Str → Bool → Wrapper k → Ran k
  reset_field_internal h vkey field replicate w =
      with_key (get_string_key h vkey w)
        (λ key.
          on_shard h key (λ s. done (reset_field key field s))
            (if_replicated replicate (op_field w.db_name sdb_op_reset_field key field) w) w)
        w

  -- restoreEntry
  unfoldable pub restore_key : Host → Str → List (Str × (ℕ × List (ℕ × Str))) → Wrapper k → Ran k
  restore_key h key entry w = on_shard h key (restore_entry key entry) [] w

  -- get_size
  unfoldable pub total_size : List (StatsDb k) → ℕ
  total_size [] = 0
  total_size (s ∷ ss) = get_size s + total_size ss

  -- set_size_soft, `none` at a division by 0; without shards the loop does nothing.
  unfoldable pub set_size_soft : ℕ → Wrapper k → Option (Wrapper k)
  set_size_soft size w = elim w.sdbvp [
    | [] ↦ some w
    | s ∷ ss ↦
        if w.num_shards == 0
        then none
        else some (record w { sdbvp = map (set_map_size_soft (size / w.num_shards)) w.sdbvp })
  ]

  -- get_max_size
  unfoldable pub total_max_size : List (StatsDb k) → ℕ
  total_max_size [] = 0
  total_max_size (s ∷ ss) = get_max_size s + total_max_size ss
