-- ===== src/Stats/Wrapper/Silent.antt =====
-- A replicated operation on the statistics is not replicated again (wforce/replication_sdb.cc).
use weakforced.Prelude.{
  ℕ, false, Option, none, some, List, [], Str, ◌⊎◌, inl, inr, get_elem?, lookup, ◌≡◌, refl,
  Option-cases,
}
use weakforced.Stats.Member.{Sketches}
use weakforced.Stats.Entry.{Clock, Outcome, done, invalid_argument, undefined}
use weakforced.Stats.Db.{StatsDb}
use weakforced.Stats.Wrapper.{
  Host, Variant, a_string, an_int, an_address, SdbOpType, sdb_op_add, sdb_op_sub, sdb_op_reset,
  sdb_op_reset_field, sdb_op_sync_key, sdb_op_none, SdbOperation, Wrapper, Ran, get_string_key,
  get_shard_index, after_shard, on_shard, if_replicated, add_key_internal, with_key, add_internal,
  sub_key_internal, sub_internal, reset_internal, reset_field_internal, restore_key,
}
use weakforced.Stats.Wrapper.Operation.{
  apply_add, apply_sub, with_field, apply_to, put_back, apply_sdb,
}

-- Whether it returns or throws, nothing is sent.
abbrev pub IsSilent : {A : Type 0} → Outcome (A × List SdbOperation) → Type 0
IsSilent (done (a, ops)) = ops ≡ []
IsSilent (invalid_argument (a, ops)) = ops ≡ []
IsSilent undefined = Unit

module _ {k : Sketches} where
  after_shard-IsSilent :
      (i : ℕ) (r : Outcome (StatsDb k)) (w : Wrapper k) → IsSilent (after_shard i r [] w)
  unfolding after_shard
  after_shard-IsSilent i (done s) w = refl
  after_shard-IsSilent i (invalid_argument s) w = refl
  after_shard-IsSilent i undefined w = tt

  on_shard-IsSilent :
      (h : Host) (key : Str) (f : StatsDb k → Outcome (StatsDb k)) (w : Wrapper k)
      → IsSilent (on_shard h key f [] w)
  unfolding on_shard
  on_shard-IsSilent h key f w = elim (Option-cases (get_shard_index h key w)) [
    | inl n ↦ rw (on_shard, n) tt
    | inr (i, n) ↦ elim (Option-cases (get_elem? w.sdbvp i)) [
      | inl m ↦ rw (on_shard, n, m) refl
      | inr (s, m) ↦ rw (on_shard, n, m) (after_shard-IsSilent i (f s) w)
    ]
  ]

  add_key_internal-IsSilent :
      (h : Host) (c : Clock) (key field : Str) (param1 : Variant) (param2 : Option ℕ)
      (w : Wrapper k)
      → IsSilent (add_key_internal h c key field param1 param2 false w)
  unfolding add_key_internal if_replicated
  add_key_internal-IsSilent h c key field (an_int i) (some a) w = on_shard-IsSilent h key _ w
  add_key_internal-IsSilent h c key field (an_int i) none w = on_shard-IsSilent h key _ w
  add_key_internal-IsSilent h c key field (a_string v) (some a) w = on_shard-IsSilent h key _ w
  add_key_internal-IsSilent h c key field (a_string v) none w = on_shard-IsSilent h key _ w
  add_key_internal-IsSilent h c key field (an_address ca) (some a) w = on_shard-IsSilent h key _ w
  add_key_internal-IsSilent h c key field (an_address ca) none w = on_shard-IsSilent h key _ w

  sub_key_internal-IsSilent :
      (h : Host) (c : Clock) (key field : Str) (v : Str ⊎ ℕ) (w : Wrapper k)
      → IsSilent (sub_key_internal h c key field v false w)
  unfolding sub_key_internal if_replicated
  sub_key_internal-IsSilent h c key field (inl s) w = on_shard-IsSilent h key _ w
  sub_key_internal-IsSilent h c key field (inr i) w = on_shard-IsSilent h key _ w

  apply_add-IsSilent :
      (h : Host) (c : Clock) (key field : Str) (s : Option Str) (a : Option ℕ) (w : Wrapper k)
      → IsSilent (apply_add h c key field s a w)
  unfolding apply_add add_internal with_key get_string_key
  apply_add-IsSilent h c key field (some s) (some a) w =
      add_key_internal-IsSilent h c key field (a_string s) (some a) w
  apply_add-IsSilent h c key field (some s) none w =
      add_key_internal-IsSilent h c key field (a_string s) none w
  apply_add-IsSilent h c key field none (some a) w =
      add_key_internal-IsSilent h c key field (an_int a) none w
  apply_add-IsSilent h c key field none none w = refl

  apply_sub-IsSilent :
      (h : Host) (c : Clock) (key field : Str) (s : Option Str) (a : Option ℕ) (w : Wrapper k)
      → IsSilent (apply_sub h c key field s a w)
  unfolding apply_sub sub_internal with_key get_string_key
  apply_sub-IsSilent h c key field (some s) a w = sub_key_internal-IsSilent h c key field (inl s) w
  apply_sub-IsSilent h c key field none (some a) w =
      sub_key_internal-IsSilent h c key field (inr a) w
  apply_sub-IsSilent h c key field none none w = refl

  with_field-IsSilent :
      (field : Option Str) (f : Str → Ran k) (w : Wrapper k)
      → ((field : Str) → IsSilent (f field))
      → IsSilent (with_field field f w)
  unfolding with_field
  with_field-IsSilent none f w silent = refl
  with_field-IsSilent (some field) f w silent = silent field

  apply_to-IsSilent :
      (h : Host) (c : Clock) (type : SdbOpType) (op : SdbOperation) (w : Wrapper k)
      → IsSilent (apply_to h c type op w)
  unfolding apply_to reset_internal reset_field_internal restore_key with_key get_string_key
      if_replicated
  apply_to-IsSilent h c sdb_op_none op w = refl
  apply_to-IsSilent h c sdb_op_sync_key op w = on_shard-IsSilent h op.key _ w
  apply_to-IsSilent h c sdb_op_reset op w = on_shard-IsSilent h op.key _ w
  apply_to-IsSilent h c sdb_op_reset_field op w = on_shard-IsSilent h op.key _ w
  apply_to-IsSilent h c sdb_op_add op w =
      with_field-IsSilent op.field_name _ w
        (λ field. apply_add-IsSilent h c op.key field op.str_param op.int_param w)
  apply_to-IsSilent h c sdb_op_sub op w =
      with_field-IsSilent op.field_name _ w
        (λ field. apply_sub-IsSilent h c op.key field op.str_param op.int_param w)

  put_back-IsSilent :
      (name : Str) (dbs : List (Str × Wrapper k)) (r : Ran k)
      → IsSilent r
      → IsSilent (put_back name dbs r)
  unfolding put_back
  put_back-IsSilent name dbs (done (w, ops)) h = h
  put_back-IsSilent name dbs (invalid_argument (w, ops)) h = h
  put_back-IsSilent name dbs undefined h = h

  -- Whatever operation a sibling sends, with the parameters that it has or lacks, applying it to the
  -- databases replicates nothing.
  pub apply_sdb-IsSilent :
      (h : Host) (c : Clock) (op : SdbOperation) (dbs : List (Str × Wrapper k))
      → IsSilent (apply_sdb h c op dbs)
  unfolding apply_sdb
  apply_sdb-IsSilent h c op dbs = elim (Option-cases (lookup op.db_name dbs)) [
    | inl missing ↦ rw (apply_sdb, missing) refl
    | inr (w, known) ↦
        rw (apply_sdb, known)
          (put_back-IsSilent op.db_name dbs (apply_to h c op.op_type op w)
            (apply_to-IsSilent h c op.op_type op w))
  ]
