-- ===== src/Tests/Entries.antt =====
-- Runs of the model of the lists on concrete entries.
use weakforced.Prelude.{
  ◌<◌, ◌^◌, true, false, not, ◌&&◌, ◌||◌, none, some, [], ◌∷◌, ◌++◌, Str, str, str_eq, pos, leb_ℤ,
  ◌+ℤ◌, ◌≡◌, refl, arith, if◌then◌else◌, keep, inl,
}
use weakforced.Net.Address.{ComboAddress, is_ipv4, inet, big_endian}
use weakforced.Net.Mask.{Netmask, mask_of_bits, matches, of_string}
use weakforced.Net.Tree.{empty_tree, insert_or_assign, insert_with}
use weakforced.Net.Tree.Walks.{payload}
use weakforced.Net.Group.{NetmaskGroup, ok, add_mask, add_netmask, delete_mask, empty_group}
use weakforced.Net.Group.Match.{IsPositive}
use weakforced.Net.Group.Ipv4.{IsIpv4Mask}
use weakforced.Misc.{Resolver, split_field, pdns_stou, make_combo_address}
use weakforced.Blwl.Table.{Table, find_key, add_entry, time_index}
use weakforced.Blwl.Act.{
  ip_blwl, login_blwl, ja3_blwl, blacklist, op_add, ReplicationOp, connected, other_reply, Db,
  new_db, Env, done,
}
use weakforced.Blwl.Redis.{delete_entry_log, redis_key, redis_value, c_str}
use weakforced.Blwl.Lists.{
  purge_loop, expire_entry, run_hooks, hook_all, unmask, with_table, table_of, add_entry_internal,
  delete_entry_internal, purge_entries,
}
use weakforced.Blwl.Api.{check_address}
use weakforced.Blwl.Load.{load_pair, restore_typed, apply_operation}
use weakforced.Blwl.Keys.{count_key, new_entry, HasDistinctKeys, add_entry-HasDistinctKeys}
use weakforced.Blwl.Quiet.{IsQuiet}
use weakforced.Blwl.Outbound.{apply_operation-IsQuiet}
use weakforced.Blwl.Changes.{
  group_after, iplist_netmask-add_entry_internal, same_type, find_key-add_entry_internal,
}
use weakforced.Blwl.Deletes.{iplist_netmask-delete_entry_internal, find_key-delete_entry_internal}
use weakforced.Blwl.Reachable.{Reachable}
use weakforced.Blwl.Purge.{purge_entries-keep}
use weakforced.Blwl.Addresses.{IsMaskText, check_address-add_entry_internal}
use weakforced.Blwl.Reload.{lacks, split_field-append, load_pair-redis_key, load_pair-ja3}

-- It reads and prints only the texts of this module.
abbrev resolver : Resolver
resolver = record {
  pton4 = λ s. if str_eq s (str "10.0.0.0") then some (10 ∷ 0 ∷ 0 ∷ 0 ∷ []) else none;
  pton6 = λ _. none;
  numeric6 = λ _. none;
  host = λ _. some (str "10.0.0.0");
  atoi = λ _. some 0;
  stoul = λ s. if str_eq s (str "8") then some 8 else none;
  to_string = λ _. str "8";
}

-- At time 100, with a Redis server that answers.
abbrev env : Env
env = record {
  now = pos 100;
  hooks = λ _. some 7 ∷ none ∷ some 9 ∷ [];
  resolver = resolver;
  stoi = λ s. if str_eq s (str "150") then some (pos 150) else none;
  show = λ _. str "150";
  getaddrinfo = some (str "192.0.2.9" ∷ []);
  connect = λ _. connected;
  set_timeout_ok = true;
  keep_alive_ok = true;
  auth_reply = other_reply;
  command_reply = other_reply;
}

abbrev net : Str
net = str "10.0.0.0/8"

abbrev ten_8 : Netmask
ten_8 = record {
  network = record { family = inet; port = 0; bytes = 10 ∷ 0 ∷ 0 ∷ 0 ∷ [] };
  mask = 0xFF000000;
  bits = 8;
}

abbrev host : ComboAddress
host = record { family = inet; port = 0; bytes = 10 ∷ 1 ∷ 2 ∷ 3 ∷ [] }

-- alice expires at 95, bob at 110.
abbrev logins : Table
logins =
    add_entry (pos 90) (str "bob") (pos 20) (str "spray")
      (add_entry (pos 90) (str "alice") (pos 5) (str "guess") [])

abbrev db : Db
db = record (new_db blacklist) {
  login_list = logins;
  persist = true;
  persist_replicated = true;
  redis_server = str "redis";
}

net-IsMaskText : IsMaskText resolver net ten_8
unfolding of_string pdns_stou make_combo_address split_field str_eq mask_of_bits
net-IsMaskText = record { parsed = refl; positive = refl }

ten_8-IsIpv4Mask : IsIpv4Mask ten_8
unfolding mask_of_bits big_endian
ten_8-IsIpv4Mask = record { family = refl; bits = omega arith; mask = refl; number = omega arith }

host-number : big_endian host.bytes < 2 ^ 32
unfolding big_endian
host-number = omega arith

db-IsPositive : IsPositive db.iplist_netmask
unfolding new_db empty_group payload empty_tree
db-IsPositive = record { positive = λ p k b h. absurd (ground arith) }

logins-HasDistinctKeys : HasDistinctKeys (table_of login_blwl db)
unfolding table_of count_key
logins-HasDistinctKeys =
    add_entry-HasDistinctKeys (pos 90) (str "bob") (pos 20) (str "spray") _ (
      add_entry-HasDistinctKeys (pos 90) (str "alice") (pos 5) (str "guess") [] (λ k. ground arith))

-- The purge drops alice.
purged :
    (purge_entries env login_blwl db).0.login_list
    ≡ new_entry (pos 90) (str "bob") (pos 20) (str "spray") ∷ []
unfolding purge_entries purge_loop time_index table_of add_entry str_eq ◌+ℤ◌ expire_entry run_hooks
    hook_all delete_entry_log unmask with_table
purged = refl

check_address-add_entry_internal_example :
    check_address host (add_entry_internal env net (pos 60) ip_blwl (str "abuse") true db).0
    ≡ (matches ten_8 host || check_address host db)
check_address-add_entry_internal_example =
    check_address-add_entry_internal env net (pos 60) (str "abuse") true db ten_8 host
      net-IsMaskText db-IsPositive ten_8-IsIpv4Mask refl host-number

find_key-add_entry_internal_example :
    find_key (str "bob") (
      table_of login_blwl
        (add_entry_internal env (str "eve") (pos 60) login_blwl (str "guess") true db).0)
    ≡ (if same_type login_blwl login_blwl && str_eq (str "eve") (str "bob")
        then some (new_entry (pos 100) (str "eve") (pos 60) (str "guess"))
        else find_key (str "bob") (table_of login_blwl db))
find_key-add_entry_internal_example =
    find_key-add_entry_internal env (str "eve") (pos 60) login_blwl (str "guess") true db login_blwl
      (str "bob")

find_key-delete_entry_internal_example :
    find_key
      (str "bob")
      (table_of login_blwl (delete_entry_internal env (str "bob") login_blwl true db).0)
    ≡ (if same_type login_blwl login_blwl && str_eq (str "bob") (str "bob")
        then none
        else find_key (str "bob") (table_of login_blwl db))
find_key-delete_entry_internal_example =
    find_key-delete_entry_internal env (str "bob") login_blwl true db login_blwl (str "bob")

purge_entries-keep_example :
    ((purge_entries env login_blwl db).2 ≡ done tt)
    × (table_of login_blwl (purge_entries env login_blwl db).0
        ≡ keep (λ e. not (leb_ℤ e.expiration (pos 100))) (table_of login_blwl db))
purge_entries-keep_example =
    purge_entries-keep env login_blwl db (λ same. absurd (cc)) logins-HasDistinctKeys

abbrev sent : ReplicationOp
sent = record { op = op_add; list_type = ip_blwl; key = net; ttl = 60; reason = str "abuse" }

apply_operation-IsQuiet_example : IsQuiet (apply_operation env sent)
apply_operation-IsQuiet_example = apply_operation-IsQuiet env sent

printed-lacks : lacks b':' (env.show (pos 150)) ≡ true
printed-lacks = refl

read_back : env.stoi (env.show (pos 150)) ≡ some (pos 150)
unfolding str_eq
read_back = refl

split_field-append_example :
    split_field (str "bl" ++ (b':' ∷ str "ip:10.0.0.0/8")) b':' ≡ (str "bl", str "ip:10.0.0.0/8")
split_field-append_example = split_field-append b':' (str "bl") (str "ip:10.0.0.0/8") refl

load_pair-redis_key_example :
    load_pair env (c_str (redis_key blacklist ip_blwl net)) (redis_value env (pos 150) (str "a:b"))
    ≡ restore_typed env ip_blwl (c_str net) (pos 150) (str "a:b")
load_pair-redis_key_example =
    load_pair-redis_key env blacklist ip_blwl net (pos 150) (str "a:b") printed-lacks read_back

load_pair-ja3_example :
    load_pair env
      (c_str (redis_key blacklist ja3_blwl (str "f00d")))
      (redis_value env (pos 150) (str "bot"))
      db
    ≡ (db, [], done false)
load_pair-ja3_example =
    load_pair-ja3 env blacklist ja3_blwl (str "f00d") (pos 150) (str "bot") db (inl refl)
      printed-lacks read_back

-- The group with the network.
with_net : (g : NetmaskGroup) × (add_mask resolver net true db.iplist_netmask ≡ ok g)
unfolding add_mask of_string make_combo_address split_field str_eq add_netmask insert_or_assign
    insert_with pdns_stou is_ipv4
with_net = (_, refl)

iplist_netmask-add_entry_internal_example :
    (add_entry_internal env net (pos 60) ip_blwl (str "abuse") true db).0.iplist_netmask ≡ (
      if same_type ip_blwl ip_blwl
      then group_after db.iplist_netmask (add_mask resolver net true db.iplist_netmask)
      else db.iplist_netmask)
iplist_netmask-add_entry_internal_example =
    iplist_netmask-add_entry_internal env net (pos 60) ip_blwl (str "abuse") true db
      (λ addresses outside. absurd (ground (arith, with_net.1, outside)))

iplist_netmask-delete_entry_internal_example :
    (delete_entry_internal env net ip_blwl true db).0.iplist_netmask ≡ (
      if same_type ip_blwl ip_blwl
      then group_after db.iplist_netmask (delete_mask resolver net db.iplist_netmask)
      else db.iplist_netmask)
iplist_netmask-delete_entry_internal_example =
    iplist_netmask-delete_entry_internal env net ip_blwl true db

-- The constructor, an addition, a purge.
abbrev listed : Db
listed =
    (add_entry_internal env (str "eve") (pos 60) login_blwl (str "guess") true (new_db blacklist)).0
