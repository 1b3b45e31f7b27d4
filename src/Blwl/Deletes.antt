-- ===== src/Blwl/Deletes.antt =====
-- What deleteEntryInternal of wforce/blackwhitelist.cc changes in the lists and the netmask group.
use weakforced.Prelude.{Bool, ◌&&◌, none, if◌then◌else◌, Str, str_eq, ◌≡◌, refl, ◌∙◌, sym, ap}
use weakforced.Net.Group.{delete_mask}
use weakforced.Blwl.Table.{find_key, delete_entry}
use weakforced.Blwl.Keys.{find_key-delete_entry}
use weakforced.Blwl.Act.{
  BlwlType, ip_blwl, login_blwl, ip_login_blwl, ja3_blwl, ip_ja3_blwl, none_blwl, Db, Env,
}
use weakforced.Blwl.Lists.{
  table_of, with_table, record_delete, remove_entry, delete_from_lists, delete_entry_internal,
  delete_fields,
}
use weakforced.Blwl.Contents.{lists_of, run_hooks-KeepsLists, record_delete-KeepsLists}
use weakforced.Blwl.Changes.{
  same_type, group_after, after, hooks_after-KeepsLists, mask_then-KeepsLists, table_of-lists_of,
}

-- The state in which deleteEntryInternal leaves the lists.
unfoldable pub deleted : Env → Str → BlwlType → Db → Db
deleted env key ip_blwl db = record db {
  ip_list = (delete_entry key db.ip_list).0;
  iplist_netmask = group_after db.iplist_netmask (delete_mask env.resolver key db.iplist_netmask);
}
deleted env key type db = with_table type (delete_entry key (table_of type db)).0 db

delete_from_lists-lists :
    (env : Env) (key : Str) (type : BlwlType) (replicated : Bool) (s : Db)
    → lists_of (delete_from_lists env key type replicated s).0 ≡ lists_of (deleted env key type s)
unfolding delete_from_lists remove_entry deleted with_table table_of
delete_from_lists-lists env key none_blwl replicated s = refl
delete_from_lists-lists env key ip_blwl replicated s =
    mask_then-KeepsLists env (delete_mask env.resolver key s.iplist_netmask)
      (record_delete env key ip_blwl replicated)
      (record s { ip_list = (delete_entry key s.ip_list).0 })
      (record_delete-KeepsLists env key ip_blwl replicated)
delete_from_lists-lists env key type replicated s =
    (record_delete-KeepsLists env key type replicated).at
      (with_table type (delete_entry key (table_of type s)).0 s)

pub delete_entry_internal-lists :
    (env : Env) (key : Str) (type : BlwlType) (replicated : Bool) (s : Db)
    → lists_of (delete_entry_internal env key type replicated s).0
      ≡ lists_of (deleted env key type s)
unfolding delete_entry_internal
delete_entry_internal-lists env key type replicated s =
    after (delete_from_lists env key type replicated) _ s (
      hooks_after-KeepsLists replicated _
        (λ db. run_hooks-KeepsLists env _ (delete_fields db key type)))
    ∙ delete_from_lists-lists env key type replicated s

find_key-deleted :
    (env : Env) (key : Str) (type : BlwlType) (s : Db) (other : BlwlType) (j : Str)
    → find_key j (table_of other (deleted env key type s))
      ≡ (if same_type type other && str_eq key j then none else find_key j (table_of other s))
unfolding deleted table_of with_table
find_key-deleted env key ip_blwl s ip_blwl j = find_key-delete_entry key j s.ip_list
find_key-deleted env key login_blwl s login_blwl j = find_key-delete_entry key j s.login_list
find_key-deleted env key ip_login_blwl s ip_login_blwl j =
    find_key-delete_entry key j s.ip_login_list
find_key-deleted env key ja3_blwl s ja3_blwl j = find_key-delete_entry key j s.ja3_list
find_key-deleted env key ip_ja3_blwl s ip_ja3_blwl j = find_key-delete_entry key j s.ip_ja3_list
find_key-deleted env key type s other j = refl

-- After deleteEntryInternal on a list, with any outcome of the later steps, the key has no entry in
-- that list; every other key there, and every key of the other lists, has the entry it had.
pub find_key-delete_entry_internal :
    (env : Env) (key : Str) (type : BlwlType) (replicated : Bool) (s : Db) (other : BlwlType)
    (j : Str)
    → find_key j (table_of other (delete_entry_internal env key type replicated s).0)
      ≡ (if same_type type other && str_eq key j then none else find_key j (table_of other s))
find_key-delete_entry_internal env key type replicated s other j =
    ap (find_key j) (
      sym (table_of-lists_of other (delete_entry_internal env key type replicated s).0)
      ∙ ap (table_of other) (delete_entry_internal-lists env key type replicated s)
      ∙ table_of-lists_of other (deleted env key type s))
    ∙ find_key-deleted env key type s other j

netmask-deleted :
    (env : Env) (key : Str) (type : BlwlType) (s : Db)
    → (deleted env key type s).iplist_netmask ≡ (
        if same_type type ip_blwl
        then group_after s.iplist_netmask (delete_mask env.resolver key s.iplist_netmask)
        else s.iplist_netmask)
unfolding deleted with_table
netmask-deleted env key ip_blwl s = refl
netmask-deleted env key _ s = refl

-- After deleteEntryInternal the netmask group is the one that deleteMask gives for the key, if the
-- list is that of addresses and deleteMask does not throw, and as before otherwise. Where deleteMask
-- would read a bit outside the address of the key, the group of the model is as before.
pub iplist_netmask-delete_entry_internal :
    (env : Env) (key : Str) (type : BlwlType) (replicated : Bool) (s : Db)
    → (delete_entry_internal env key type replicated s).0.iplist_netmask ≡ (
        if same_type type ip_blwl
        then group_after s.iplist_netmask (delete_mask env.resolver key s.iplist_netmask)
        else s.iplist_netmask)
iplist_netmask-delete_entry_internal env key type replicated s =
    ap (λ (d : Db). d.iplist_netmask) (delete_entry_internal-lists env key type replicated s)
    ∙ netmask-deleted env key type s
