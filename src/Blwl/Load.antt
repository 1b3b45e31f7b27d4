-- ===== src/Blwl/Load.antt =====
-- loadPersistEntries of wforce/blackwhitelist.cc, and the replicated changes of
-- wforce/replication_bl.cc and wforce/replication_wl.cc.
use weakforced.Prelude.{
  ℕ, Bool, true, false, Option, none, some, List, [], ◌∷◌, Str, ℤ, ◌-ℤ◌, pos, if◌then◌else◌, ◌==◌,
}
use weakforced.Net.Group.{add_mask}
use weakforced.Misc.{split_field}
use weakforced.Blwl.Table.{add_entry}
use weakforced.Blwl.Act.{
  BlwlType, ip_blwl, login_blwl, ip_login_blwl, OpType, op_none, op_add, op_delete, ReplicationOp,
  RedisReply, null_reply, error_reply, other_reply, string_reply, Env, wforce_exception, bad_number,
  Act, ◌>>=◌, ◌>>◌, pure, throw, get_db, modify,
}
use weakforced.Blwl.Redis.{blwl_name_to_type, check_setup_context, after_reply}
use weakforced.Blwl.Lists.{
  table_of, with_table, set_group, add_entry_internal, delete_entry_internal,
}

-- A reply to SCAN: the next cursor (`none` where std::stoi cannot read it), and the keys that are texts with the replies to their GETs.
pub data ScanReply : Type 0 where
  scan_failed scan_error scan_other : ScanReply
  scan_page : Option ℕ → List (Str × RedisReply) → ScanReply

-- `_addEntry` for a key that was read back, at the time `now`.
unfoldable pub restore : Env → BlwlType → Str → ℤ → Str → Act (Unit {0})
restore env type key expiration reason = modify (λ db.
    with_table type (add_entry env.now key (expiration -ℤ env.now) reason (table_of type db)) db)

-- The switch over the type of a list: the result is `retval`.
unfoldable pub restore_typed : Env → BlwlType → Str → ℤ → Str → Act Bool
restore_typed env ip_blwl key expiration reason = do
  restore env ip_blwl key expiration reason
  db ← get_db
  set_group (add_mask env.resolver key true db.iplist_netmask)
  pure true
restore_typed env login_blwl key expiration reason = do
  restore env login_blwl key expiration reason
  pure true
restore_typed env ip_login_blwl key expiration reason = do
  restore env ip_login_blwl key expiration reason
  pure true
restore_typed env _ key expiration reason = pure false

-- `none` is the exception of a number that std::stoi cannot read.
unfoldable pub load_number : Env → BlwlType → Str → Str → Option ℤ → Act Bool
load_number env type key reason none = throw bad_number
load_number env type key reason (some expiration) = restore_typed env type key expiration reason

-- A key `prefix:name:key` with its value `expiration:reason`.
unfoldable pub load_pair : Env → Str → Str → Act Bool
load_pair env key value =
    let header = split_field key b':' in
    let names = split_field header.1 b':' in
    let parts = split_field value b':' in
    load_number env (blwl_name_to_type names.0) names.1 parts.1 (env.stoi parts.0)

unfoldable pub load_reply : Env → Str → RedisReply → Act Bool
load_reply env key null_reply = do after_reply null_reply; pure false
load_reply env key error_reply = pure false
load_reply env key other_reply = pure true
load_reply env key (string_reply value) = load_pair env key value

-- The loop over the keys of a page, which stops at the first failure.
unfoldable pub load_keys : Env → List (Str × RedisReply) → Act Bool
load_keys env [] = pure true
load_keys env ((key, reply) ∷ rest) =
    let others = load_keys env rest in
    load_reply env key reply >>= λ fine. if fine then others else pure false

-- The SCAN loop, over the replies that the server gives. The source waits for a reply where the
-- list ends; here the loop then ends as if the server had failed.
unfoldable pub scan_loop : Env → List ScanReply → Act Bool
scan_loop env [] = pure false
scan_loop env (scan_failed ∷ replies) = do after_reply null_reply; pure false
scan_loop env (scan_error ∷ replies) = pure false
scan_loop env (scan_other ∷ replies) = scan_loop env replies
scan_loop env (scan_page none keys ∷ replies) = throw bad_number
scan_loop env (scan_page (some cursor) keys ∷ replies) =
    let others = scan_loop env replies in
    load_keys env keys >>= λ fine.
    if fine then (if cursor == 0 then pure true else others) else pure false

unfoldable pub load_if : Env → List ScanReply → Bool → Act Bool
load_if env replies true = scan_loop env replies
load_if env replies false = throw wforce_exception

unfoldable pub load_persistent : Env → List ScanReply → Bool → Act Bool
load_persistent env replies false = pure true
load_persistent env replies true = do ready ← check_setup_context env; load_if env replies ready

-- loadPersistEntries
unfoldable pub load_persist_entries : Env → List ScanReply → Act Bool
load_persist_entries env replies = do db ← get_db; load_persistent env replies db.persist

unfoldable pub apply_typed : Env → ReplicationOp → OpType → Act (Unit {0})
apply_typed env r op_none = pure tt
apply_typed env r op_add = add_entry_internal env r.key (pos r.ttl) r.list_type r.reason false
apply_typed env r op_delete = delete_entry_internal env r.key r.list_type false

-- applyOperation of a black- or whitelist operation that a sibling sent, on its list.
unfoldable pub apply_operation : Env → ReplicationOp → Act (Unit {0})
apply_operation env r = apply_typed env r r.op
