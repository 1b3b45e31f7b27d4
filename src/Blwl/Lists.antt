-- ===== src/Blwl/Lists.antt =====
-- The methods of BlackWhiteListDB in wforce/blackwhitelist.cc that change or read the lists.
use weakforced.Prelude.{
  ℕ, Bool, true, false, not, ◌&&◌, ◌||◌, Option, none, some, List, [], ◌∷◌, ◌++◌, Str, str, ℤ,
  leb_ℤ, if◌then◌else◌, length,
}
use weakforced.Net.Group.{NetmaskGroup, Result, ok, fail, outside_address, add_mask, delete_mask}
use weakforced.Blwl.Table.{
  Table, BlackWhiteListEntry, erase_key, time_index, add_entry, delete_entry,
}
use weakforced.Blwl.Act.{
  BlwlType, ip_blwl, login_blwl, ip_login_blwl, ja3_blwl, ip_ja3_blwl, none_blwl, BlwlDbType,
  blacklist, whitelist, op_add, op_delete, Json, text, number, replicate, run_hook, prometheus, Db,
  int_of, uint32_of, Env, netmask_exception, outside_bits, Act, ◌>>=◌, ◌>>◌, pure, throw, emit,
  get_db, modify, when,
}
use weakforced.Blwl.Redis.{
  blwl_type_to_name, add_entry_log, delete_entry_log, add_persist_entry, delete_persist_entry,
}

-- The list of a type; there is none for NONE_BLWL.
unfoldable pub table_of : BlwlType → Db → Table
table_of ip_blwl db = db.ip_list
table_of login_blwl db = db.login_list
table_of ip_login_blwl db = db.ip_login_list
table_of ja3_blwl db = db.ja3_list
table_of ip_ja3_blwl db = db.ip_ja3_list
table_of none_blwl db = []

unfoldable pub with_table : BlwlType → Table → Db → Db
with_table ip_blwl t db = record db { ip_list = t }
with_table login_blwl t db = record db { login_list = t }
with_table ip_login_blwl t db = record db { ip_login_list = t }
with_table ja3_blwl t db = record db { ja3_list = t }
with_table ip_ja3_blwl t db = record db { ip_ja3_list = t }
with_table none_blwl t db = db

-- A change of the netmask group, which may throw.
unfoldable pub set_group : Result NetmaskGroup → Act (Unit {0})
set_group (ok g) = modify (λ db. record db { iplist_netmask = g })
set_group (fail e) = throw (netmask_exception e)
set_group outside_address = throw outside_bits

unfoldable pub persists : Bool → Db → Bool
persists replicated db = db.persist && (replicated || (not replicated && db.persist_replicated))

unfoldable pub hook_all : Str → List (Option ℕ) → List (Str × Json) → Act (Unit {0})
hook_all event [] fields = pure tt
hook_all event (none ∷ hooks) fields = hook_all event hooks fields
hook_all event (some h ∷ hooks) fields = do
  emit (run_hook event h fields)
  hook_all event hooks fields

unfoldable pub event_name : BlwlDbType → Str → Str
event_name blacklist verb = verb ++ str "bl"
event_name whitelist verb = verb ++ str "wl"

unfoldable pub type_name : BlwlDbType → Str
type_name blacklist = str "bl_type"
type_name whitelist = str "wl_type"

unfoldable pub run_hooks : Env → Str → List (Str × Json) → Act (Unit {0})
run_hooks env verb fields = do
  db ← get_db
  hook_all (event_name db.db_type verb) (env.hooks (event_name db.db_type verb)) fields

unfoldable pub persist_if : Bool → Act Bool → Act (Unit {0})
persist_if true m = m >>= λ _. pure tt
persist_if false m = pure tt

-- The lambda `add` of addEntryInternal.
unfoldable pub record_add : Env → Str → ℤ → BlwlType → Str → Bool → Act (Unit {0})
record_add env key seconds type reason replicated = do
  add_entry_log env type key seconds reason
  db ← get_db
  persist_if (persists replicated db) (add_persist_entry env key seconds type reason)
  when replicated (
      emit (
        replicate db.db_type (record {
          op = op_add;
          list_type = type;
          key = key;
          ttl = uint32_of seconds;
          reason = reason;
        })))

unfoldable pub add_fields : Db → Str → ℤ → BlwlType → Str → List (Str × Json)
add_fields db key seconds type reason =
    (str "key", text key)
    ∷ (type_name db.db_type, text (blwl_type_to_name type))
    ∷ (str "reason", text reason)
    ∷ (str "expire_secs", number (int_of seconds))
    ∷ (str "type", text (str "wforce_addblwl"))
    ∷ []

-- `_addEntry` on the list of the type.
unfoldable pub put_entry : Env → Str → ℤ → BlwlType → Str → Act (Unit {0})
put_entry env key seconds type reason =
    modify (λ db. with_table type (add_entry env.now key seconds reason (table_of type db)) db)

unfoldable pub add_to_lists : Env → Str → ℤ → BlwlType → Str → Bool → Act (Unit {0})
add_to_lists env key seconds none_blwl reason replicated = pure tt
add_to_lists env key seconds ip_blwl reason replicated = do
  put_entry env key seconds ip_blwl reason
  db ← get_db
  set_group (add_mask env.resolver key true db.iplist_netmask)
  record_add env key seconds ip_blwl reason replicated
add_to_lists env key seconds type reason replicated = do
  put_entry env key seconds type reason
  record_add env key seconds type reason replicated

-- addEntryInternal
unfoldable pub add_entry_internal : Env → Str → ℤ → BlwlType → Str → Bool → Act (Unit {0})
add_entry_internal env key seconds type reason replicated = do
  add_to_lists env key seconds type reason replicated
  db ← get_db
  when replicated (run_hooks env (str "add") (add_fields db key seconds type reason))

-- The lambda `del` of deleteEntryInternal.
unfoldable pub record_delete : Env → Str → BlwlType → Bool → Act (Unit {0})
record_delete env key type replicated = do
  delete_entry_log type key
  db ← get_db
  persist_if (persists replicated db) (delete_persist_entry env key type)
  when replicated (
      emit (
        replicate db.db_type
          (record { op = op_delete; list_type = type; key = key; ttl = 0; reason = [] })))

unfoldable pub delete_fields : Db → Str → BlwlType → List (Str × Json)
delete_fields db key type =
    (str "key", text key)
    ∷ (type_name db.db_type, text (blwl_type_to_name type))
    ∷ (str "type", text (str "wforce_delblwl"))
    ∷ []

unfoldable pub remove_entry : Str → BlwlType → Act (Unit {0})
remove_entry key type = modify (λ db. with_table type (delete_entry key (table_of type db)).0 db)

unfoldable pub delete_from_lists : Env → Str → BlwlType → Bool → Act (Unit {0})
delete_from_lists env key none_blwl replicated = pure tt
delete_from_lists env key ip_blwl replicated = do
  remove_entry key ip_blwl
  db ← get_db
  set_group (delete_mask env.resolver key db.iplist_netmask)
  record_delete env key ip_blwl replicated
delete_from_lists env key type replicated = do
  remove_entry key type
  record_delete env key type replicated

-- deleteEntryInternal
unfoldable pub delete_entry_internal : Env → Str → BlwlType → Bool → Act (Unit {0})
delete_entry_internal env key type replicated = do
  delete_from_lists env key type replicated
  db ← get_db
  when replicated (run_hooks env (str "del") (delete_fields db key type))

unfoldable pub expire_fields : Db → Str → BlwlType → List (Str × Json)
expire_fields db key type =
    (str "key", text key)
    ∷ (type_name db.db_type, text (blwl_type_to_name type))
    ∷ (str "type", text (str "wforce_expireblwl"))
    ∷ []

unfoldable pub unmask : Env → Str → BlwlType → Act (Unit {0})
unmask env key ip_blwl = do db ← get_db; set_group (delete_mask env.resolver key db.iplist_netmask)
unmask env key _ = pure tt

-- One round of the loop of `_purgeEntries`, for an entry that has expired.
unfoldable pub expire_entry : Env → BlwlType → BlackWhiteListEntry → Act (Unit {0})
expire_entry env type e = do
  db ← get_db
  run_hooks env (str "expire") (expire_fields db e.key type)
  delete_entry_log type e.key
  unmask env e.key type
  modify (λ db. with_table type (erase_key e.key (table_of type db)) db)

-- The loop, over the time index as it was when the loop began: a round erases only its own entry.
unfoldable pub purge_loop : Env → BlwlType → Table → Act (Unit {0})
purge_loop env type [] = pure tt
purge_loop env type (e ∷ view) =
    let rest = purge_loop env type view in
    if leb_ℤ e.expiration env.now then (expire_entry env type e >> rest) else pure tt

-- `_purgeEntries`
unfoldable pub purge_entries : Env → BlwlType → Act (Unit {0})
purge_entries env type = do db ← get_db; purge_loop env type (time_index (table_of type db))

-- One round of the purging thread: the five lists, then the sizes for Prometheus.
unfoldable pub purge_round : Env → Act (Unit {0})
purge_round env = do
  purge_entries env ip_blwl
  purge_entries env login_blwl
  purge_entries env ip_login_blwl
  purge_entries env ja3_blwl
  purge_entries env ip_ja3_blwl
  db ← get_db
  emit (prometheus (str "ip") (length db.ip_list))
  emit (prometheus (str "login") (length db.login_list))
  emit (prometheus (str "ip_login") (length db.ip_login_list))
  emit (prometheus (str "ja3") (length db.ja3_list))
  emit (prometheus (str "ip_ja3") (length db.ip_ja3_list))
