-- ===== src/Blwl/Outbound.antt =====
-- What addEntryInternal and deleteEntryInternal of wforce/blackwhitelist.cc send to siblings and hooks.
use weakforced.Prelude.{Bool, true, false, Str, ℤ, pos}
use weakforced.Net.Group.{NetmaskGroup, Result, ok, fail, outside_address}
use weakforced.Blwl.Act.{
  BlwlType, ip_blwl, none_blwl, OpType, op_none, op_add, op_delete, ReplicationOp, Env, Act,
}
use weakforced.Blwl.Redis.{add_entry_log, delete_entry_log}
use weakforced.Blwl.Lists.{
  set_group, persist_if, record_add, record_delete, put_entry, remove_entry, add_to_lists,
  delete_from_lists, add_entry_internal, delete_entry_internal,
}
use weakforced.Blwl.Load.{apply_typed, apply_operation}
use weakforced.Blwl.Quiet.{
  IsQuiet, IsQuiet-bind, quiet_rules, add_persist_entry-IsQuiet, delete_persist_entry-IsQuiet,
}

persist_if-IsQuiet : (b : Bool) (m : Act Bool) → IsQuiet m → IsQuiet (persist_if b m)
unfolding persist_if
persist_if-IsQuiet true m h = search quiet_rules
persist_if-IsQuiet false m h = search quiet_rules

add_entry_log-IsQuiet :
    (env : Env) (type : BlwlType) (key : Str) (seconds : ℤ) (reason : Str)
    → IsQuiet (add_entry_log env type key seconds reason)
unfolding add_entry_log
add_entry_log-IsQuiet env type key seconds reason = search quiet_rules

delete_entry_log-IsQuiet : (type : BlwlType) (key : Str) → IsQuiet (delete_entry_log type key)
unfolding delete_entry_log
delete_entry_log-IsQuiet type key = search quiet_rules

set_group-IsQuiet : (r : Result NetmaskGroup) → IsQuiet (set_group r)
unfolding set_group
set_group-IsQuiet (ok g) = search quiet_rules
set_group-IsQuiet (fail e) = search quiet_rules
set_group-IsQuiet outside_address = search quiet_rules

record_add-IsQuiet :
    (env : Env) (key : Str) (seconds : ℤ) (type : BlwlType) (reason : Str)
    → IsQuiet (record_add env key seconds type reason false)
unfolding record_add
record_add-IsQuiet env key seconds type reason =
    search (quiet_rules, add_entry_log-IsQuiet, persist_if-IsQuiet, add_persist_entry-IsQuiet) depth
      9

record_delete-IsQuiet :
    (env : Env) (key : Str) (type : BlwlType) → IsQuiet (record_delete env key type false)
unfolding record_delete
record_delete-IsQuiet env key type =
    search (quiet_rules, delete_entry_log-IsQuiet, persist_if-IsQuiet, delete_persist_entry-IsQuiet)
      depth 9

add_to_lists-IsQuiet :
    (env : Env) (key : Str) (seconds : ℤ) (type : BlwlType) (reason : Str)
    → IsQuiet (add_to_lists env key seconds type reason false)
unfolding add_to_lists put_entry
add_to_lists-IsQuiet env key seconds none_blwl reason = search quiet_rules
add_to_lists-IsQuiet env key seconds ip_blwl reason =
    search (quiet_rules, set_group-IsQuiet, record_add-IsQuiet) depth 9
add_to_lists-IsQuiet env key seconds _ reason = search (quiet_rules, record_add-IsQuiet) depth 9

delete_from_lists-IsQuiet :
    (env : Env) (key : Str) (type : BlwlType) → IsQuiet (delete_from_lists env key type false)
unfolding delete_from_lists remove_entry
delete_from_lists-IsQuiet env key none_blwl = search quiet_rules
delete_from_lists-IsQuiet env key ip_blwl =
    search (quiet_rules, set_group-IsQuiet, record_delete-IsQuiet) depth 9
delete_from_lists-IsQuiet env key _ = search (quiet_rules, record_delete-IsQuiet) depth 9

add_entry_internal-IsQuiet :
    (env : Env) (key : Str) (seconds : ℤ) (type : BlwlType) (reason : Str)
    → IsQuiet (add_entry_internal env key seconds type reason false)
unfolding add_entry_internal
add_entry_internal-IsQuiet env key seconds type reason =
    IsQuiet-bind (add_to_lists env key seconds type reason false) _
      (add_to_lists-IsQuiet env key seconds type reason) (λ _. record { at = λ s. tt })

delete_entry_internal-IsQuiet :
    (env : Env) (key : Str) (type : BlwlType) → IsQuiet (delete_entry_internal env key type false)
unfolding delete_entry_internal
delete_entry_internal-IsQuiet env key type =
    IsQuiet-bind (delete_from_lists env key type false) _ (delete_from_lists-IsQuiet env key type)
      (λ _. record { at = λ s. tt })

apply_op-IsQuiet : (env : Env) (r : ReplicationOp) (op : OpType) → IsQuiet (apply_typed env r op)
unfolding apply_typed
apply_op-IsQuiet env r op_none = search quiet_rules
apply_op-IsQuiet env r op_add =
    add_entry_internal-IsQuiet env r.key (pos r.ttl) r.list_type r.reason
apply_op-IsQuiet env r op_delete = delete_entry_internal-IsQuiet env r.key r.list_type

-- Applying an operation that a sibling sent sends no replication message and calls no hook, from
-- any state and whether it returns or throws.
pub apply_operation-IsQuiet : (env : Env) (r : ReplicationOp) → IsQuiet (apply_operation env r)
unfolding apply_operation
apply_operation-IsQuiet env r = apply_op-IsQuiet env r r.op
