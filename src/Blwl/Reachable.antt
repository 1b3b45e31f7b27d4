-- ===== src/Blwl/Reachable.antt =====
-- The states that the methods of wforce/blackwhitelist.cc lead to, from the constructor on.
use weakforced.Prelude.{Bool, List, Str, ℤ, ℕ}
use weakforced.Blwl.Act.{BlwlType, BlwlDbType, Db, new_db, Env, Act}
use weakforced.Blwl.Redis.{make_persistent, enable_persist_replicated}
use weakforced.Blwl.Lists.{purge_entries, add_entry_internal, delete_entry_internal}
use weakforced.Blwl.Act.{◌>>◌}
use weakforced.Blwl.Load.{ScanReply, load_persist_entries}

-- One call of a method, by any thread: the calls of a list exclude each other.
pub data Reachable : Db → Type 0 where
  start : (type : BlwlDbType) → Reachable (new_db type)
  add :
      (env : Env) (key : Str) (seconds : ℤ) (type : BlwlType) (reason : Str) (replicated : Bool)
      (s : Db)
      → Reachable s
      → Reachable (add_entry_internal env key seconds type reason replicated s).0
  delete :
      (env : Env) (key : Str) (type : BlwlType) (replicated : Bool) (s : Db)
      → Reachable s
      → Reachable (delete_entry_internal env key type replicated s).0
  purge :
      (env : Env) (type : BlwlType) (s : Db) → Reachable s → Reachable (purge_entries env type s).0
  load :
      (env : Env) (replies : List ScanReply) (s : Db)
      → Reachable s
      → Reachable (load_persist_entries env replies s).0
  persist : (host : Str) (port : ℕ) (s : Db) → Reachable s → Reachable (make_persistent host port s)
  persist_more : (s : Db) → Reachable s → Reachable (enable_persist_replicated s)
