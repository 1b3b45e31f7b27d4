-- ===== src/Blwl/Api.antt =====
-- The public methods of BlackWhiteListDB in wforce/blackwhitelist.cc, by what an entry is for. A
-- JA3 hash and a login are texts, and share the methods here by the type of the list.
use weakforced.Prelude.{Bool, true, Option, ◌∷◌, ◌++◌, Str, ℤ}
use weakforced.Net.Address.{ComboAddress}
use weakforced.Net.Mask.{Netmask, of_address, to_string_network, mask_to_string, empty_netmask}
use weakforced.Net.Group.{group_match, group_lookup}
use weakforced.Misc.{Resolver, address_to_string}
use weakforced.Blwl.Table.{BlackWhiteListEntry, check_entry, get_entry, get_expiration, Table}
use weakforced.Blwl.Act.{BlwlType, ip_blwl, Db, Env, Act, ◌>>◌}
use weakforced.Blwl.Redis.{add_entry_log}
use weakforced.Blwl.Lists.{table_of, add_entry_internal, delete_entry_internal}

-- ipStringStr
unfoldable pub ip_string : Resolver → ComboAddress → Str → Str
ip_string r ca s = address_to_string r ca ++ (b':' ∷ s)

-- addEntry(login) and addJA3Entry, for a key of any list: the addition is logged again.
unfoldable pub add_key : Env → BlwlType → Str → ℤ → Str → Act (Unit {0})
add_key env type key seconds reason = do
  add_entry_internal env key seconds type reason true
  add_entry_log env type key seconds reason

-- addEntry(Netmask)
unfoldable pub add_netmask_entry : Env → Netmask → ℤ → Str → Act (Unit {0})
unfolding add_key
add_netmask_entry env nm seconds reason =
    add_key env ip_blwl (to_string_network env.resolver nm) seconds reason

-- addEntry(ComboAddress)
unfoldable pub add_address_entry : Env → ComboAddress → ℤ → Str → Act (Unit {0})
unfolding add_netmask_entry
add_address_entry env ca seconds reason = add_netmask_entry env (of_address ca 255) seconds reason

-- addEntry(ComboAddress, login) and addIPJA3Entry
unfoldable pub add_pair_entry : Env → BlwlType → ComboAddress → Str → ℤ → Str → Act (Unit {0})
unfolding add_key
add_pair_entry env type ca s seconds reason =
    add_key env type (ip_string env.resolver ca s) seconds reason

-- checkEntry(ComboAddress)
unfoldable pub check_address : ComboAddress → Db → Bool
check_address ca db = group_match ca db.iplist_netmask

-- checkEntry(login) and checkJA3Entry
unfoldable pub check_key : BlwlType → Str → Db → Bool
check_key type key db = check_entry key (table_of type db)

-- checkEntry(ComboAddress, login) and checkIPJA3Entry
unfoldable pub check_pair : Resolver → BlwlType → ComboAddress → Str → Db → Bool
unfolding check_key ip_string
check_pair r type ca s db = check_key type (ip_string r ca s) db

-- getEntry(ComboAddress): by the text of the mask that matches, the empty mask if none does.
unfoldable pub get_address : Resolver → ComboAddress → Db → Option BlackWhiteListEntry
get_address r ca db =
    get_entry (mask_to_string r (group_lookup ca empty_netmask db.iplist_netmask).1) db.ip_list

-- getEntry(login) and getJA3Entry
unfoldable pub get_key : BlwlType → Str → Db → Option BlackWhiteListEntry
get_key type key db = get_entry key (table_of type db)

-- deleteEntry(Netmask)
unfoldable pub delete_netmask_entry : Env → Netmask → Act (Unit {0})
delete_netmask_entry env nm =
    delete_entry_internal env (to_string_network env.resolver nm) ip_blwl true

-- deleteEntry(ComboAddress)
unfoldable pub delete_address_entry : Env → ComboAddress → Act (Unit {0})
unfolding delete_netmask_entry
delete_address_entry env ca = delete_netmask_entry env (of_address ca 255)

-- deleteEntry(login) and deleteJA3Entry
unfoldable pub delete_key : Env → BlwlType → Str → Act (Unit {0})
delete_key env type key = delete_entry_internal env key type true

-- deleteEntry(ComboAddress, login) and deleteIPJA3Entry
unfoldable pub delete_pair_entry : Env → BlwlType → ComboAddress → Str → Act (Unit {0})
unfolding delete_key ip_string
delete_pair_entry env type ca s = delete_key env type (ip_string env.resolver ca s)

-- getExpiration(ComboAddress)
unfoldable pub address_expiration : Env → ComboAddress → Db → ℤ
address_expiration env ca db =
    get_expiration env.now
      (mask_to_string env.resolver (group_lookup ca empty_netmask db.iplist_netmask).1) db.ip_list

-- getExpiration(login) and getJA3Expiration
unfoldable pub key_expiration : Env → BlwlType → Str → Db → ℤ
key_expiration env type key db = get_expiration env.now key (table_of type db)

-- getIPEntries and its like: the entries in the order of insertion.
unfoldable pub get_entries : BlwlType → Db → Table
get_entries type db = table_of type db
