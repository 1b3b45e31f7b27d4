-- ===== src/Stats/Wrapper/Operation.antt =====
-- The application of a replicated operation on the statistics (wforce/replication_sdb.cc).
use weakforced.Prelude.{ℕ, false, Option, none, some, List, [], ◌∷◌, Str, lookup, insert, inl, inr}
use weakforced.Stats.Member.{Sketches}
use weakforced.Stats.Entry.{Clock, Outcome, done, invalid_argument, undefined}
use weakforced.Stats.Db.{emplace}
use weakforced.Stats.Wrapper.{
  Host, a_string, an_int, SdbOpType, sdb_op_add, sdb_op_sub, sdb_op_reset, sdb_op_reset_field,
  sdb_op_sync_key, sdb_op_none, SdbOperation, Wrapper, Ran, add_internal, sub_internal,
  reset_internal, reset_field_internal, restore_key,
}

-- The saved fields of a message: of two with one name, the first.
unfoldable pub sync_entry :
    List (Str × (ℕ × List (ℕ × Str)))
    → List (Str × (ℕ × List (ℕ × Str)))
    → List (Str × (ℕ × List (ℕ × Str)))
sync_entry [] entry = entry
sync_entry ((field, (stime, texts)) ∷ sync) entry =
    sync_entry sync (emplace field (stime, texts) entry)

-- A field that is not set reads as the empty text.
or_empty : Option Str → Str
or_empty none = []
or_empty (some s) = s

module _ {k : Sketches} where
  unfoldable pub apply_add : Host → Clock → Str → Str → Option Str → Option ℕ → Wrapper k → Ran k
  apply_add h c key field (some s) (some a) w =
      add_internal h c (a_string key) field (a_string s) (some a) false w
  apply_add h c key field (some s) none w =
      add_internal h c (a_string key) field (a_string s) none false w
  apply_add h c key field none (some a) w =
      add_internal h c (a_string key) field (an_int a) none false w
  apply_add h c key field none none w = done (w, [])

  unfoldable pub apply_sub : Host → Clock → Str → Str → Option Str → Option ℕ → Wrapper k → Ran k
  apply_sub h c key field (some s) a w = sub_internal h c (a_string key) field (inl s) false w
  apply_sub h c key field none (some a) w = sub_internal h c (a_string key) field (inr a) false w
  apply_sub h c key field none none w = done (w, [])

  unfoldable pub with_field : Option Str → (Str → Ran k) → Wrapper k → Ran k
  with_field none f w = done (w, [])
  with_field (some field) f w = f field

  -- The switch on the type, for the database of the operation's name. What only logs an error leaves
  -- the database as it is.
  unfoldable pub apply_to : Host → Clock → SdbOpType → SdbOperation → Wrapper k → Ran k
  unfolding apply_add apply_sub with_field or_empty sync_entry
  apply_to h c sdb_op_none op w = done (w, [])
  apply_to h c sdb_op_sync_key op w = restore_key h op.key (sync_entry op.sync_fields []) w
  apply_to h c sdb_op_reset op w = reset_internal h (a_string op.key) false w
  apply_to h c sdb_op_reset_field op w =
      reset_field_internal h (a_string op.key) (or_empty op.field_name) false w
  apply_to h c sdb_op_add op w =
      with_field op.field_name (λ field. apply_add h c op.key field op.str_param op.int_param w) w
  apply_to h c sdb_op_sub op w =
      with_field op.field_name (λ field. apply_sub h c op.key field op.str_param op.int_param w) w

  -- dbMap, the databases by name, and what is sent.
  unfoldable pub put_back :
      Str → List (Str × Wrapper k) → Ran k → Outcome (List (Str × Wrapper k) × List SdbOperation)
  put_back name dbs (done (w, ops)) = done (insert name w dbs, ops)
  put_back name dbs (invalid_argument (w, ops)) = invalid_argument (insert name w dbs, ops)
  put_back name dbs undefined = undefined

  -- SDBReplicationOperation::applyOperation
  unfoldable pub apply_sdb :
      Host
      → Clock
      → SdbOperation
      → List (Str × Wrapper k)
      → Outcome (List (Str × Wrapper k) × List SdbOperation)
  apply_sdb h c op dbs = elim (lookup op.db_name dbs) [
    | none ↦ done (dbs, [])
    | some w ↦ put_back op.db_name dbs (apply_to h c op.op_type op w)
  ]
