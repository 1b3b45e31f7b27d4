-- ===== src/Blwl/Changes.antt =====
-- What addEntryInternal and deleteEntryInternal of wforce/blackwhitelist.cc change in the lists and
-- in the netmask group, whatever Redis answers and whether or not a later step throws.
use weakforced.Prelude.{
  Bool, true, false, ◌&&◌, some, if◌then◌else◌, Str, str_eq, ℤ, ◌≡◌, refl, ◌∙◌, sym, ap, ◌≢◌,
}
use weakforced.Net.Group.{NetmaskGroup, Result, ok, fail, outside_address, add_mask}
use weakforced.Blwl.Table.{find_key, add_entry}
use weakforced.Blwl.Keys.{new_entry, find_key-add_entry}
use weakforced.Blwl.Act.{
  BlwlType, ip_blwl, login_blwl, ip_login_blwl, ja3_blwl, ip_ja3_blwl, none_blwl, Db, Env, Act,
  ◌>>=◌, ◌>>◌, get_db, when,
}
use weakforced.Blwl.Lists.{
  table_of, with_table, set_group, record_add, put_entry, add_to_lists, add_entry_internal,
  add_fields,
}
use weakforced.Blwl.Contents.{
  lists_of, KeepsLists, KeepsLists-bind, KeepsLists-then, KeepsLists-when, KeepsLists-get_db,
  run_hooks-KeepsLists, record_add-KeepsLists,
}

abbrev pub same_type : BlwlType → BlwlType → Bool
same_type ip_blwl ip_blwl = true
same_type login_blwl login_blwl = true
same_type ip_login_blwl ip_login_blwl = true
same_type ja3_blwl ja3_blwl = true
same_type ip_ja3_blwl ip_ja3_blwl = true
same_type _ _ = false

-- What follows a change keeps the lists.
pub after :
    {A B : Type 0} (m : Act A) (f : A → Act B) (s : Db)
    → ((a : A) → KeepsLists (f a))
    → lists_of ((m >>= f) s).0 ≡ lists_of (m s).0
after m f s k = KeepsLists-then f (m s).0 (m s).0 (m s).1 (m s).2 k refl

-- The netmask group after a change that may throw. Where the change is undefined behaviour the model
-- has the group before it.
abbrev pub group_after : NetmaskGroup → Result NetmaskGroup → NetmaskGroup
group_after g (ok g') = g'
group_after g (fail e) = g
group_after g outside_address = g

pub table_of-lists_of : (type : BlwlType) (s : Db) → table_of type (lists_of s) ≡ table_of type s
unfolding table_of
table_of-lists_of ip_blwl s = refl
table_of-lists_of _ s = refl

-- The state in which addEntryInternal leaves the lists.
unfoldable pub added : Env → Str → ℤ → BlwlType → Str → Db → Db
added env key seconds ip_blwl reason db = record db {
  ip_list = add_entry env.now key seconds reason db.ip_list;
  iplist_netmask = group_after db.iplist_netmask (add_mask env.resolver key true db.iplist_netmask);
}
added env key seconds type reason db =
    with_table type (add_entry env.now key seconds reason (table_of type db)) db

pub mask_then-KeepsLists :
    (env : Env) (r : Result NetmaskGroup) (m : Act (Unit {0})) (s : Db)
    → KeepsLists m
    → lists_of ((set_group r >> m) s).0
      ≡ lists_of (record s { iplist_netmask = group_after s.iplist_netmask r })
unfolding set_group
mask_then-KeepsLists env (ok g) m s k = k.at (record s { iplist_netmask = g })
mask_then-KeepsLists env (fail e) m s k = refl
mask_then-KeepsLists env outside_address m s k = refl

add_to_lists-lists :
    (env : Env) (key : Str) (seconds : ℤ) (type : BlwlType) (reason : Str) (replicated : Bool)
    (s : Db)
    → lists_of (add_to_lists env key seconds type reason replicated s).0
      ≡ lists_of (added env key seconds type reason s)
unfolding add_to_lists put_entry added with_table table_of
add_to_lists-lists env key seconds none_blwl reason replicated s = refl
add_to_lists-lists env key seconds ip_blwl reason replicated s =
    mask_then-KeepsLists env (add_mask env.resolver key true s.iplist_netmask)
      (record_add env key seconds ip_blwl reason replicated)
      (record s { ip_list = add_entry env.now key seconds reason s.ip_list })
      (record_add-KeepsLists env key seconds ip_blwl reason replicated)
add_to_lists-lists env key seconds type reason replicated s =
    (record_add-KeepsLists env key seconds type reason replicated).at
      (with_table type (add_entry env.now key seconds reason (table_of type s)) s)

find_key-added :
    (env : Env) (key : Str) (seconds : ℤ) (type : BlwlType) (reason : Str) (s : Db)
    (other : BlwlType) (j : Str)
    → find_key j (table_of other (added env key seconds type reason s)) ≡ (
        if same_type type other && str_eq key j
        then some (new_entry env.now key seconds reason)
        else find_key j (table_of other s))
unfolding added table_of with_table
find_key-added env key seconds ip_blwl reason s ip_blwl j =
    find_key-add_entry env.now key seconds reason j s.ip_list
find_key-added env key seconds login_blwl reason s login_blwl j =
    find_key-add_entry env.now key seconds reason j s.login_list
find_key-added env key seconds ip_login_blwl reason s ip_login_blwl j =
    find_key-add_entry env.now key seconds reason j s.ip_login_list
find_key-added env key seconds ja3_blwl reason s ja3_blwl j =
    find_key-add_entry env.now key seconds reason j s.ja3_list
find_key-added env key seconds ip_ja3_blwl reason s ip_ja3_blwl j =
    find_key-add_entry env.now key seconds reason j s.ip_ja3_list
find_key-added env key seconds type reason s other j = refl

netmask-added :
    (env : Env) (key : Str) (seconds : ℤ) (type : BlwlType) (reason : Str) (s : Db)
    → (added env key seconds type reason s).iplist_netmask ≡ (
        if same_type type ip_blwl
        then group_after s.iplist_netmask (add_mask env.resolver key true s.iplist_netmask)
        else s.iplist_netmask)
unfolding added with_table
netmask-added env key seconds ip_blwl reason s = refl
netmask-added env key seconds _ reason s = refl

pub hooks_after-KeepsLists :
    (b : Bool) (f : Db → Act (Unit {0}))
    → ((d : Db) → KeepsLists (f d))
    → (u : Unit {0}) → KeepsLists (get_db >>= λ db. when b (f db))
hooks_after-KeepsLists b f h u =
    KeepsLists-bind get_db (λ db. when b (f db)) KeepsLists-get_db
      (λ db. KeepsLists-when b (f db) (h db))

pub add_entry_internal-lists :
    (env : Env) (key : Str) (seconds : ℤ) (type : BlwlType) (reason : Str) (replicated : Bool)
    (s : Db)
    → lists_of (add_entry_internal env key seconds type reason replicated s).0
      ≡ lists_of (added env key seconds type reason s)
unfolding add_entry_internal
add_entry_internal-lists env key seconds type reason replicated s =
    after (add_to_lists env key seconds type reason replicated) _ s (
      hooks_after-KeepsLists replicated _
        (λ db. run_hooks-KeepsLists env _ (add_fields db key seconds type reason)))
    ∙ add_to_lists-lists env key seconds type reason replicated s

-- After addEntryInternal on a list, with any outcome of the later steps, the key has the new entry
-- in that list; every other key there, and every key of the other lists, has the entry it had.
pub find_key-add_entry_internal :
    (env : Env) (key : Str) (seconds : ℤ) (type : BlwlType) (reason : Str) (replicated : Bool)
    (s : Db) (other : BlwlType) (j : Str)
    → find_key j (table_of other (add_entry_internal env key seconds type reason replicated s).0)
      ≡ (if same_type type other && str_eq key j
          then some (new_entry env.now key seconds reason)
          else find_key j (table_of other s))
find_key-add_entry_internal env key seconds type reason replicated s other j =
    ap (find_key j) (
      sym (table_of-lists_of other (add_entry_internal env key seconds type reason replicated s).0)
      ∙ ap (table_of other) (add_entry_internal-lists env key seconds type reason replicated s)
      ∙ table_of-lists_of other (added env key seconds type reason s))
    ∙ find_key-added env key seconds type reason s other j

pub netmask-add_entry_internal :
    (env : Env) (key : Str) (seconds : ℤ) (type : BlwlType) (reason : Str) (replicated : Bool)
    (s : Db)
    → (add_entry_internal env key seconds type reason replicated s).0.iplist_netmask ≡ (
        if same_type type ip_blwl
        then group_after s.iplist_netmask (add_mask env.resolver key true s.iplist_netmask)
        else s.iplist_netmask)
netmask-add_entry_internal env key seconds type reason replicated s =
    ap (λ (d : Db). d.iplist_netmask)
      (add_entry_internal-lists env key seconds type reason replicated s)
    ∙ netmask-added env key seconds type reason s

-- After addEntryInternal the netmask group is the one that addMask gives for the key, if the list is
-- that of addresses and addMask does not throw, and as before otherwise. On the list of addresses
-- addMask reads no bit outside the address of the key.
pub iplist_netmask-add_entry_internal :
    (env : Env) (key : Str) (seconds : ℤ) (type : BlwlType) (reason : Str) (replicated : Bool)
    (s : Db)
    → (type ≡ ip_blwl → add_mask env.resolver key true s.iplist_netmask ≢ outside_address)
    → (add_entry_internal env key seconds type reason replicated s).0.iplist_netmask ≡ (
        if same_type type ip_blwl
        then group_after s.iplist_netmask (add_mask env.resolver key true s.iplist_netmask)
        else s.iplist_netmask)
iplist_netmask-add_entry_internal env key seconds type reason replicated s inside =
    netmask-add_entry_internal env key seconds type reason replicated s
